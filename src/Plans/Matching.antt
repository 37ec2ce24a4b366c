-- ===== src/Plans/Matching.antt =====
-- resource-plans.ts: does the observed state match the wanted state, or what was last applied?
use codexport.Base.{
  Bool, true, false, ◌&&◌, ◌||◌, not, String, List, [], map, Option, none, some, ◌==◌, bool_eq,
  nat_eq, string_eq, option_eq, all, is_none, is_some, map_get, map_from, if◌then◌else◌,
}
use codexport.Domain.{
  TreeSpec, FileSpec, DesiredResource, file_resource, directory_resource, config_resource,
  skill_resource, tool_resource, credential_resource, FileEntry, ObservedFile, absent_file,
  present_file, ObjectKind, regular, directory_object, symlink, object_kind_eq, ObservedState,
  absent, present, directory_state, unverifiable, DirectoryState, PresentState, AppliedRecord,
  PlanningContext, ResourceKind, file, directory, skill, kind_eq,
}
use codexport.Plans.Env.{PlanEnv}
use codexport.Plans.Entries.{
  is_kind, file_signature, desired_directory_entries, directory_entries_digest,
  observed_directory_digest, observed_digest,
}

-- `value === undefined || value === expected`, of an optional object kind.
abbrev pub unknown_or : ObjectKind → Option ObjectKind → Bool
unknown_or k o = is_none o || is_kind k o

abbrev pub is_listed : ObservedFile → Bool
is_listed (absent_file _) = false
is_listed (present_file _) = true

-- The `file` case of `observedMatchesDesired`.
unfoldable pub file_matches_desired : FileSpec → PresentState → Bool
file_matches_desired f p =
    p.digest == f.digest
    && p.executable == f.executable
    && (is_none p.mode || p.mode == some f.mode)
    && (if is_none f.symlink_to
        then is_none p.symlink_to && unknown_or regular p.object_kind
        else is_some p.symlink_to && unknown_or symlink p.object_kind)

module _ (env : PlanEnv) where
  -- The `directory` and `skill` case of `observedMatchesDesired`.
  unfoldable pub tree_matches_desired : TreeSpec → DirectoryState → Bool
  unfolding desired_directory_entries directory_entries_digest observed_directory_digest
  tree_matches_desired tree d =
      let entries = desired_directory_entries env tree in
      unknown_or directory_object d.object_kind
      && d.mode == tree.mode
      && all is_listed d.files
      && observed_directory_digest env d entries == directory_entries_digest env entries

  -- `observedMatchesDesired`
  unfoldable pub observed_matches_desired : DesiredResource → ObservedState → Bool
  unfolding file_matches_desired tree_matches_desired
  observed_matches_desired desired absent = false
  observed_matches_desired desired (unverifiable _) = false
  observed_matches_desired (file_resource f) (present p) = file_matches_desired f p
  observed_matches_desired (file_resource f) (directory_state _) = false
  observed_matches_desired (config_resource c) (present p) =
      p.digest == c.digest && unknown_or regular p.object_kind
  observed_matches_desired (config_resource c) (directory_state _) = false
  observed_matches_desired (directory_resource tree) (present _) = false
  observed_matches_desired (directory_resource tree) (directory_state d) =
      tree_matches_desired tree d
  observed_matches_desired (skill_resource _ tree) (present _) = false
  observed_matches_desired (skill_resource _ tree) (directory_state d) = tree_matches_desired tree d
  observed_matches_desired (tool_resource _) (present _) = true
  observed_matches_desired (tool_resource _) (directory_state _) = false
  observed_matches_desired (credential_resource _ _) (present _) = true
  observed_matches_desired (credential_resource _ _) (directory_state _) = false

-- The signatures of owned entries, by path; a later entry for a path replaces an earlier one.
unfoldable pub signatures_by_path : List FileEntry → List (String × String)
unfolding map_from file_signature
signatures_by_path fs = map_from [] (map (λ f. (f.path, file_signature f)) fs)

-- An observed entry is absent, not owned, or as it was applied.
unfoldable pub is_untouched : List (String × String) → ObservedFile → Bool
unfolding map_get file_signature
is_untouched owned (absent_file _) = true
is_untouched owned (present_file f) = elim (map_get f.path owned) [
  | none ↦ true
  | some signature ↦ signature == file_signature f
]

-- The branch of `observedMatchesApplied` for a tree whose owned entries are recorded.
unfoldable pub tree_matches_applied : AppliedRecord → List FileEntry → DirectoryState → Bool
unfolding signatures_by_path is_untouched
tree_matches_applied applied owned d =
    (is_none applied.mode || some d.mode == applied.mode)
    && all (is_untouched (signatures_by_path owned)) d.files

-- The further tests of `observedMatchesApplied` on a file whose digest is as it was applied.
unfoldable pub file_keeps_shape : AppliedRecord → PresentState → Bool
file_keeps_shape applied p =
    not (
      (is_some applied.executable && not (some p.executable == applied.executable))
      || ((is_none applied.symlink_to && is_some applied.mode && not (p.mode == applied.mode))
          || ((is_none applied.symlink_to && not (unknown_or regular p.object_kind))
              || (is_some applied.symlink_to && not (unknown_or symlink p.object_kind)))))
    && not (is_none applied.symlink_to && is_some p.symlink_to)

module _ (env : PlanEnv) where
  -- What `observedMatchesApplied` does where the tree branch is not taken.
  unfoldable pub digest_matches_applied : ResourceKind → ObservedState → AppliedRecord → Bool
  unfolding observed_digest file_keeps_shape
  digest_matches_applied kind observed applied =
      observed_digest env observed == some applied.digest
      && elim observed [ present p ↦ not (kind == file) || file_keeps_shape applied p | _ ↦ true ]

  -- `observedMatchesApplied`, where something was applied.
  unfoldable pub state_matches_applied : ResourceKind → ObservedState → AppliedRecord → Bool
  unfolding digest_matches_applied tree_matches_applied
  state_matches_applied kind absent applied = true
  state_matches_applied kind (directory_state d) applied = elim applied.owned_files [
    | none ↦ digest_matches_applied kind (directory_state d) applied
    | some owned ↦
        if kind == directory || kind == skill
        then tree_matches_applied applied owned d
        else digest_matches_applied kind (directory_state d) applied
  ]
  state_matches_applied kind observed applied = digest_matches_applied kind observed applied

  -- `observedMatchesApplied`
  unfoldable pub observed_matches_applied : PlanningContext → Bool
  unfolding state_matches_applied
  observed_matches_applied c = elim c.applied [
    | none ↦ true
    | some applied ↦ state_matches_applied c.resource.kind c.observed applied
  ]
