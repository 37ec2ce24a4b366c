-- ===== src/Plans/Replace.antt =====
-- resource-plans.ts: the policies `replace`, `replace-if-unmodified` and `append-local`.
use codexport.Base.{
  Bool, ◌&&◌, not, String, List, [], ◌∷◌, map, Option, none, some, ◌==◌, ℕ, bool_eq, nat_eq,
  string_eq, option_eq, if◌then◌else◌, or_else, template, filter, contains, to_set, set_from,
  map_get, text_lt,
}
use codexport.Base.Order.{sort, sorted_unique}
use codexport.Domain.{
  TreeSpec, ToolRecipe, file_resource, directory_resource, skill_resource, tool_resource, FileEntry,
  directory_object, object_kind_eq, ObservedState, present, directory_state, PlanningContext,
  append_local, policy_eq, write_file, mirror_directory, human_action, agent_task, agent_task_kind,
  elevation, login, restart, reboot, leaf, kind_text, method_text, state_text,
}
use codexport.Plans.Env.{PlanEnv, Draft, draft, no_op_draft}
use codexport.Plans.Entries.{
  is_kind, file_signature, present_observed_files, paths_of, relative_path_ancestors,
  desired_directory_entries, desired_resource_digest,
}
use codexport.Plans.Matching.{observed_matches_desired, signatures_by_path}

-- The Source digest that `writeFile` keeps in an append-local action.
abbrev pub previous_source : PlanningContext → Option String
previous_source c = elim c.observed [
  | present p ↦ if c.resource.policy == append_local then p.managed_source_digest else none
  | _ ↦ none
]

-- `writeFile`
unfoldable pub write_file_draft : PlanningContext → String → Option Bool → Option ℕ → Draft
write_file_draft c digest executable mode = draft (
    write_file (record {
      target = c.resource.target;
      digest = digest;
      executable = executable;
      mode = mode;
      previous_source_digest = previous_source c;
    }))

-- The observed entries of a directory; none of any other state.
unfoldable pub observed_entries : ObservedState → List FileEntry
unfolding present_observed_files
observed_entries (directory_state d) = present_observed_files d.files
observed_entries _ = []

-- An observed entry that no wanted path names, and that is no directory above a wanted path.
unfoldable pub is_foreign : List String → FileEntry → Bool
unfolding relative_path_ancestors
is_foreign desired_paths f =
    not (contains f.path desired_paths)
    && not (
        is_kind directory_object f.object_kind
        && contains f.path (relative_path_ancestors desired_paths))

-- A wanted entry whose path has no observed entry of its signature.
unfoldable pub is_missing : List FileEntry → FileEntry → Bool
unfolding map_get signatures_by_path file_signature
is_missing observed f =
    not (map_get f.path (signatures_by_path observed) == some (file_signature f))

module _ (env : PlanEnv) where
  -- `replaceDirectory`
  unfoldable pub replace_directory : PlanningContext → TreeSpec → Draft
  unfolding observed_entries desired_directory_entries is_foreign is_missing set_from
  replace_directory c tree =
      let observed = observed_entries c.observed in
      let wanted = desired_directory_entries env tree in
      draft (
        mirror_directory c.resource.target
          (sort text_lt (paths_of (filter (is_missing observed) wanted)))
          (sort text_lt (paths_of (filter (is_foreign (to_set (paths_of wanted))) observed))))

  -- `missingAgentInstallBounds`
  unfoldable pub missing_agent_install_bounds : PlanningContext → Draft
  unfolding template
  missing_agent_install_bounds c = draft (
      human_action
        (template (
          "No usable installation recipe for " ∷ c.resource.id
          ∷ ", and no declared agent installation bounds" ∷ []))
        (template (
          "Declare a recipe for this platform, add an `agentInstall` block to " ∷ c.resource.id
          ∷ " saying where a bounded agent may install it and from which origins, or install "
          ∷ c.resource.target ∷ " manually, then run synchronization again." ∷ [])))

  -- The draft of `unresolvedAgentTask`, from what the tool allows.
  unfoldable pub agent_draft :
      PlanningContext → String → List String → List String → List String → Option String → Draft
  unfolding template kind_text state_text
  agent_draft c summary paths executables origins verifiable = record {
    kind = agent_task_kind;
    detail = agent_task "pending" summary;
    task = some (record {
      resource = c.resource.id;
      summary = summary;
      desired_outcome =
          template ("Converge " ∷ kind_text c.resource.kind ∷ " " ∷ c.resource.id ∷ []);
      observed_evidence = template ("Observed state: " ∷ state_text c.observed ∷ []) ∷ [];
      allowed_paths = paths;
      allowed_executables = executables;
      executable_authorizations = elim verifiable [
        | none ↦ []
        | some tool ↦ record { executable = tool; behavior = leaf } ∷ []
      ];
      allowed_origins = origins;
      forbidden = elevation ∷ login ∷ restart ∷ reboot ∷ [];
      time_limit_seconds = 300;
      output_limit_bytes = 65536;
      verification_command = elim verifiable [ none ↦ [] | some tool ↦ tool ∷ "--version" ∷ [] ];
    });
  }

  -- `unresolvedAgentTask`
  unfoldable pub unresolved_agent_task : PlanningContext → String → Draft
  unfolding missing_agent_install_bounds agent_draft sorted_unique method_text
  unresolved_agent_task c summary = elim c.desired [
    | tool_resource tool ↦ elim tool.agent_install [
      | none ↦ missing_agent_install_bounds c
      | some bounds ↦
          agent_draft c summary bounds.paths
            (sorted_unique
              (tool.tool_id ∷ map (λ (r : ToolRecipe). method_text r.method) tool.recipes))
            (or_else bounds.origins [])
            (if env.is_nested_launcher tool.tool_id then none else some tool.tool_id)
    ]
    | _ ↦ agent_draft c summary (c.resource.target ∷ []) [] [] none
  ]

  -- The text "Resolve <kind> <id>".
  unfoldable pub resolve_summary : PlanningContext → String
  unfolding template kind_text
  resolve_summary c = template ("Resolve " ∷ kind_text c.resource.kind ∷ " " ∷ c.resource.id ∷ [])

  -- The write of `planReplace`, by the kind of the wanted resource.
  unfoldable pub replacement : PlanningContext → String → Draft
  unfolding replace_directory write_file_draft
  replacement c digest = elim c.desired [
    | directory_resource tree ↦ replace_directory c tree
    | skill_resource _ tree ↦ replace_directory c tree
    | file_resource f ↦ write_file_draft c digest (some f.executable) (some f.mode)
    | _ ↦ write_file_draft c digest none none
  ]

  -- `planReplace`
  unfoldable pub plan_replace : PlanningContext → List Draft
  unfolding desired_resource_digest unresolved_agent_task resolve_summary observed_matches_desired
      no_op_draft replacement
  plan_replace c = elim (desired_resource_digest env c.desired) [
    | none ↦ unresolved_agent_task c (resolve_summary c) ∷ []
    | some digest ↦
        (if observed_matches_desired env c.desired c.observed
          then no_op_draft
          else replacement c digest)
        ∷ []
  ]
