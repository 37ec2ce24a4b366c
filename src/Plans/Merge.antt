-- ===== src/Plans/Merge.antt =====
-- resource-plans.ts: the policies `merge` and `mirror-owned`.
pub mod Keys
pub mod Mirror
use codexport.Base.{
  Bool, true, false, ◌&&◌, ◌||◌, not, String, List, [], ◌∷◌, Option, none, some, ◌==◌, ℕ, is_none,
  is_some, if◌then◌else◌, or_else, template, join, option_eq, nat_eq, string_eq, filter, contains,
  to_set, set_from, text_lt, map, map_get, map_from,
}
use codexport.Base.Order.{sort, sorted_unique}
use codexport.Domain.{
  DesiredResource, ConfigSpec, directory_resource, skill_resource, config_resource, FileEntry,
  ObservedState, absent, present, directory_state, unverifiable, PlanningContext, AppliedRecord,
  human_action, write_config, mirror_directory,
}
use codexport.Plans.Env.{PlanEnv, Draft, draft, no_op_draft}
use codexport.Plans.Entries.{
  file_signature, desired_directory_entries, desired_resource_digest, paths_of,
}
use codexport.Plans.Matching.{observed_matches_desired}
use codexport.Plans.Drift.{desired_resource_mode}
use codexport.Plans.Replace.{observed_entries, is_foreign, is_missing}
use codexport.Plans.Unmodified.{applied_field}

-- The declared keys that the Local Overlay holds too.
unfoldable pub overlay_conflicts : List String → List String → List String
overlay_conflicts declared overlay = filter (λ key. contains key overlay) declared

-- The owned keys that are no longer declared, and that the overlay has not claimed.
unfoldable pub prunable_keys : List String → List String → List String → List String
unfolding sorted_unique set_from
prunable_keys owned declared overlay =
    filter (λ key. not (contains key overlay))
      (sorted_unique (filter (λ key. not (contains key (to_set declared))) owned))

-- The human action of `planMerge`.
unfoldable pub overlay_conflict : PlanningContext → List String → Draft
unfolding template join
overlay_conflict c keys = draft (
    human_action (template ("Local Overlay conflicts with canonical keys: " ∷ join ", " keys ∷ []))
      (template (
        "Remove or rename the conflicting Local Overlay keys for " ∷ c.resource.id
        ∷ ", then rerun synchronization." ∷ [])))

abbrev pub owned_keys_of : PlanningContext → List String
owned_keys_of c = or_else (applied_field (λ applied. applied.owned_keys) c.applied) []

abbrev pub is_empty {ℓ} : {A : Type ℓ} → List A → Bool
is_empty [] = true
is_empty (x ∷ xs) = false

abbrev pub owned_entries_of : PlanningContext → List FileEntry
owned_entries_of c = or_else (applied_field (λ applied. applied.owned_files) c.applied) []

-- An observed entry that is owned and has the signature that was applied.
unfoldable pub is_owned_unchanged : List FileEntry → FileEntry → Bool
unfolding map_get map_from file_signature
is_owned_unchanged owned f =
    elim (map_get f.path (map_from [] (map (λ (o : FileEntry). (o.path, o)) owned))) [
      | none ↦ false
      | some o ↦ file_signature o == file_signature f
    ]

module _ (env : PlanEnv) where
  -- `planMerge`, of a config resource.
  unfoldable pub merge_config : PlanningContext → ConfigSpec → List Draft
  unfolding overlay_conflicts overlay_conflict prunable_keys sorted_unique observed_matches_desired
      no_op_draft
  merge_config c config =
      let conflicts = overlay_conflicts config.keys c.overlay_keys in
      let prunable = prunable_keys (owned_keys_of c) config.keys c.overlay_keys in
      if not (is_empty conflicts)
      then overlay_conflict c (sorted_unique conflicts) ∷ []
      else if not (is_empty prunable)
      then draft (write_config c.resource.target (sorted_unique config.keys) (some prunable)) ∷ []
      else if observed_matches_desired env c.desired c.observed
      then no_op_draft ∷ []
      else draft (write_config c.resource.target (sorted_unique config.keys) none) ∷ []

  -- `planMerge`
  unfoldable pub plan_merge : PlanningContext → List Draft
  unfolding merge_config desired_resource_digest observed_matches_desired no_op_draft
  plan_merge c = elim c.desired [
    | config_resource config ↦ merge_config c config
    | _ ↦
        (if is_some (desired_resource_digest env c.desired)
            && observed_matches_desired env c.desired c.observed
          then no_op_draft
          else draft (write_config c.resource.target [] none))
        ∷ []
  ]

  -- `desiredFiles` of `planMirror`, with the entries that have no digest left out: only the
  -- entry of a resource that is no tree can lack one, and such an entry is neither added nor kept.
  unfoldable pub mirror_entries : PlanningContext → List FileEntry
  unfolding desired_directory_entries desired_resource_digest
  mirror_entries c = elim c.desired [
    | directory_resource tree ↦ desired_directory_entries env tree
    | skill_resource _ tree ↦ desired_directory_entries env tree
    | _ ↦ elim (desired_resource_digest env c.desired) [
      | none ↦ []
      | some digest ↦
          record {
            path = c.resource.target;
            digest = digest;
            executable = none;
            mode = none;
            object_kind = none;
            symlink_to = none;
          }
          ∷ []
    ]
  ]

  -- `desiredPaths` of `planMirror`.
  unfoldable pub mirror_paths : PlanningContext → List String
  unfolding desired_directory_entries set_from
  mirror_paths c = elim c.desired [
    | directory_resource tree ↦ to_set (paths_of (desired_directory_entries env tree))
    | skill_resource _ tree ↦ to_set (paths_of (desired_directory_entries env tree))
    | _ ↦ c.resource.target ∷ []
  ]

  -- `adds` of `planMirror`.
  unfoldable pub mirror_adds : PlanningContext → List String
  unfolding sort text_lt is_missing mirror_entries observed_entries
  mirror_adds c =
      sort text_lt (paths_of (filter (is_missing (observed_entries c.observed)) (mirror_entries c)))

  -- `removes` of `planMirror`.
  unfoldable pub mirror_removes : PlanningContext → List String
  unfolding sort text_lt is_foreign mirror_paths observed_entries is_owned_unchanged
  mirror_removes c = sort text_lt (
      paths_of (
        filter (is_owned_unchanged (owned_entries_of c))
          (filter (is_foreign (mirror_paths c)) (observed_entries c.observed))))

  -- The observed root is there, and has the wanted mode if it is a directory.
  unfoldable pub is_root_settled : PlanningContext → Bool
  unfolding desired_resource_mode
  is_root_settled c = elim c.observed [
    | absent ↦ false
    | directory_state d ↦ elim c.desired [
      | directory_resource tree ↦ d.mode == tree.mode
      | skill_resource _ tree ↦ d.mode == tree.mode
      | _ ↦ false
    ]
    | _ ↦ true
  ]

  -- `planMirror`
  unfoldable pub plan_mirror : PlanningContext → List Draft
  unfolding mirror_adds mirror_removes is_root_settled no_op_draft
  plan_mirror c =
      let adds = mirror_adds c in
      let removes = mirror_removes c in
      if is_empty adds && is_empty removes && is_root_settled c
      then no_op_draft ∷ []
      else draft (mirror_directory c.resource.target adds removes) ∷ []
