-- ===== src/Plans/Unmodified.antt =====
-- resource-plans.ts: the policies `replace-if-unmodified` and `append-local`.
pub mod Safety
use codexport.Base.{
  Bool, true, false, ◌&&◌, ◌||◌, not, String, List, [], ◌∷◌, Option, none, some, ◌==◌, ℕ, is_none,
  is_some, if◌then◌else◌, or_else, template, option_eq,
}
use codexport.Domain.{
  DesiredResource, FileSpec, TreeSpec, file_resource, directory_resource, skill_resource, regular,
  symlink, object_kind_eq, ObservedState, absent, present, directory_state, unverifiable,
  PresentState, DirectoryState, PlanningContext, AppliedRecord, append_local, policy_eq,
  human_action, kind_text, state_text,
}
use codexport.Plans.Env.{
  PlanEnv, Draft, draft, no_op_draft, Planned, drafts, throws, invalid_observed_state,
}
use codexport.Plans.Entries.{
  desired_directory_entries, desired_resource_digest, observed_digest, observed_directory_digest,
}
use codexport.Plans.Matching.{unknown_or, observed_matches_desired}
use codexport.Plans.Drift.{
  DriftInput, DriftState, unchanged, converged, remote_only, local_only, conflicting,
  detect_skill_drift, drift_draft,
}
use codexport.Plans.Replace.{plan_replace, write_file_draft, unresolved_agent_task, resolve_summary}

-- The human action of `planReplaceIfUnmodified` for a target that cannot be read.
unfoldable pub unreadable_target : PlanningContext → Draft
unfolding template kind_text
unreadable_target c = draft (
    human_action
      (template (
        "Previously applied "
        ∷ kind_text c.resource.kind
        ∷ " "
        ∷ c.resource.id
        ∷ " cannot be verified"
        ∷ []))
      (template (
        "Inspect " ∷ c.resource.target
        ∷ " and either restore it or explicitly review and remove the local change, then run synchronization again. Canonfig will not rewrite a target it cannot read under replace-if-unmodified."
        ∷ [])))

-- A file target whose object is not of the kind that was applied.
unfoldable pub has_changed_shape : AppliedRecord → PresentState → Bool
has_changed_shape applied p =
    if is_none applied.symlink_to
    then is_some p.symlink_to || not (unknown_or regular p.object_kind)
    else is_none p.symlink_to || not (unknown_or symlink p.object_kind)

-- `currentDigest` of `planReplaceIfUnmodified`, and the states that it is taken of.
module _ (env : PlanEnv) where
  unfoldable pub current_digest : PlanningContext → Option String
  unfolding observed_digest observed_directory_digest desired_directory_entries
  current_digest c = elim c.desired [
    | skill_resource _ tree ↦ elim c.observed [
      | directory_state d ↦ some (
          observed_directory_digest env d (
            or_else (elim c.applied [ none ↦ none | some applied ↦ applied.owned_files ])
              (desired_directory_entries env tree)))
      | _ ↦ observed_digest env c.observed
    ]
    | _ ↦ observed_digest env c.observed
  ]

-- `context.desired.kind === "file" && context.desired.symlinkTo === undefined`
unfoldable pub compares_file : DesiredResource → Bool
compares_file (file_resource f) = is_none f.symlink_to
compares_file _ = false

-- `context.desired.kind === "skill" && context.observed.state === "directory"`
unfoldable pub compares_skill_root : DesiredResource → ObservedState → Bool
compares_skill_root (skill_resource _ _) (directory_state _) = true
compares_skill_root _ _ = false

abbrev pub when {ℓ} : {A : Type ℓ} → Bool → Option A → Option A
when b o = if b then o else none

abbrev pub desired_executable : DesiredResource → Option Bool
desired_executable (file_resource f) = some f.executable
desired_executable _ = none

abbrev pub observed_executable : ObservedState → Option Bool
observed_executable (present p) = some p.executable
observed_executable _ = none

abbrev pub file_mode : DesiredResource → Option ℕ
file_mode (file_resource f) = some f.mode
file_mode (skill_resource _ tree) = some tree.mode
file_mode _ = none

abbrev pub applied_field {ℓ} :
    {A : Type ℓ} → (AppliedRecord → Option A) → Option AppliedRecord → Option A
applied_field f none = none
applied_field f (some applied) = f applied

-- The argument of `detectSkillDrift`.
unfoldable pub drift_input : PlanningContext → String → Option String → DriftInput
unfolding compares_file compares_skill_root
drift_input c desired_digest current =
    let of_file = compares_file c.desired in
    let of_root = compares_skill_root c.desired c.observed in
    record {
      desired_digest = desired_digest;
      observed_digest = current;
      applied_digest = applied_field (λ applied. some applied.digest) c.applied;
      desired_executable = when of_file (desired_executable c.desired);
      observed_executable = when of_file (observed_executable c.observed);
      applied_executable = when of_file (applied_field (λ applied. applied.executable) c.applied);
      desired_mode = when (of_file || of_root) (file_mode c.desired);
      observed_mode = elim c.observed [
        | present p ↦ when of_file p.mode
        | directory_state d ↦ when of_root (some d.mode)
        | _ ↦ none
      ];
      applied_mode = when (of_file || of_root) (applied_field (λ applied. applied.mode) c.applied);
    }

abbrev pub is_unverifiable : ObservedState → Bool
is_unverifiable (unverifiable _) = true
is_unverifiable _ = false

-- A drift conflict with the executable bits of the file on both sides.
unfoldable pub executable_drift : PlanningContext → String → String → Draft
unfolding drift_draft
executable_drift c desired current =
    drift_draft c desired current (desired_executable c.desired) (observed_executable c.observed)

module _ (env : PlanEnv) where
  abbrev pub unverifiable_digest : String
  unverifiable_digest = env.sha256_hex "canonfig:unverifiable-observed-state"

  -- `observedStateMatchesDesired`
  unfoldable pub state_matches_desired : PlanningContext → Bool
  unfolding observed_matches_desired
  state_matches_desired c = observed_matches_desired env c.desired c.observed || elim c.desired [
    | skill_resource _ _ ↦ elim c.observed [ present p ↦ is_none p.object_kind | _ ↦ false ]
    | _ ↦ false
  ]

  -- The `switch` on the drift.
  unfoldable pub by_drift : PlanningContext → String → Option String → DriftState → List Draft
  unfolding state_matches_desired no_op_draft executable_drift plan_replace
  by_drift c desired current unchanged =
      (if state_matches_desired c
        then no_op_draft
        else executable_drift c desired (or_else current unverifiable_digest))
      ∷ []
  by_drift c desired current converged =
      (if state_matches_desired c
        then no_op_draft
        else executable_drift c desired (or_else current unverifiable_digest))
      ∷ []
  by_drift c desired current remote_only = plan_replace env c
  by_drift c desired none local_only = plan_replace env c
  by_drift c desired none conflicting = plan_replace env c
  by_drift c desired (some current) local_only = executable_drift c desired current ∷ []
  by_drift c desired (some current) conflicting = executable_drift c desired current ∷ []

  -- A skill directory that is at the wanted tree.
  unfoldable pub is_converged_skill : PlanningContext → Bool
  unfolding observed_matches_desired compares_skill_root
  is_converged_skill c =
      compares_skill_root c.desired c.observed && observed_matches_desired env c.desired c.observed

  -- The test before the drift: a wanted file over an object of another kind than was applied.
  unfoldable pub is_shape_conflict : PlanningContext → Bool
  unfolding has_changed_shape
  is_shape_conflict c = elim c.desired [
    | file_resource _ ↦ elim c.applied [
      | none ↦ false
      | some applied ↦ elim c.observed [ present p ↦ has_changed_shape applied p | _ ↦ false ]
    ]
    | _ ↦ false
  ]

  -- `planReplaceIfUnmodified`, where the wanted resource has a digest.
  unfoldable pub plan_unmodified : PlanningContext → String → List Draft
  unfolding unreadable_target is_converged_skill is_shape_conflict executable_drift current_digest
      by_drift detect_skill_drift drift_input no_op_draft
  plan_unmodified c desired =
      let current = current_digest env c in
      if is_unverifiable c.observed
      then unreadable_target c ∷ []
      else if is_converged_skill c
      then no_op_draft ∷ []
      else if is_shape_conflict c
      then executable_drift c desired (or_else current unverifiable_digest) ∷ []
      else by_drift c desired current (detect_skill_drift (drift_input c desired current))

  -- `planReplaceIfUnmodified`
  unfoldable pub plan_replace_if_unmodified : PlanningContext → List Draft
  unfolding desired_resource_digest plan_unmodified unresolved_agent_task resolve_summary
  plan_replace_if_unmodified c = elim (desired_resource_digest env c.desired) [
    | none ↦ unresolved_agent_task env c (resolve_summary env c) ∷ []
    | some desired ↦ plan_unmodified c desired
  ]

  -- The human action of `planAppendLocal` for a target that cannot be read.
  unfoldable pub unreadable_text : PlanningContext → String → Draft
  unfolding template
  unreadable_text c reason = draft (
      human_action (template ("Cannot read append-local target: " ∷ reason ∷ [])) (
        template (
          "Inspect " ∷ c.resource.target
          ∷ ". Restore valid UTF-8 text and the Canonfig Source markers before retrying." ∷ [])))

  -- `planAppendLocal`, of a wanted file and a present target.
  unfoldable pub append_to_present : PlanningContext → FileSpec → PresentState → List Draft
  unfolding drift_draft write_file_draft plan_replace_if_unmodified
  append_to_present c f p =
      let was_appended = applied_field (λ applied. applied.policy) c.applied == some append_local in
      if not (p.object_kind == some regular) || (is_none p.managed_source_digest && was_appended)
      then drift_draft c f.digest p.digest none none ∷ []
      else elim p.managed_source_digest [
        | none ↦ write_file_draft c f.digest (some false) (some f.mode) ∷ []
        | some source ↦
            plan_replace_if_unmodified
              (record c { observed = present (record p { digest = source }) })
      ]

  -- `planAppendLocal`
  unfoldable pub plan_append_local : PlanningContext → Planned
  unfolding unreadable_text write_file_draft append_to_present drift_draft observed_digest
      state_text
  plan_append_local c = elim c.desired [
    | file_resource f ↦ elim c.observed [
      | unverifiable reason ↦ drafts (unreadable_text c reason ∷ [])
      | absent ↦ drafts (write_file_draft c f.digest (some false) (some f.mode) ∷ [])
      | directory_state d ↦ drafts (
          drift_draft c f.digest
            (or_else (observed_digest env (directory_state d))
              (env.sha256_hex "canonfig:invalid-text-target"))
            none none
          ∷ [])
      | present p ↦ drafts (append_to_present c f p)
    ]
    | _ ↦ throws (
        invalid_observed_state (record {
          resource = c.resource.id;
          kind = c.resource.kind;
          observed_state = state_text c.observed;
        }))
  ]
