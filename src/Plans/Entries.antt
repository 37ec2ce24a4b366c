-- ===== src/Plans/Entries.antt =====
-- resource-plans.ts and src/profile/profile-codec.ts: the entries of directory trees, their
-- signatures and digests.
use codexport.Base.{
  Bool, true, ◌&&◌, ◌||◌, not, String, List, [], ◌∷◌, ◌++◌, map, Option, none, some, ◌==◌, bool_eq,
  nat_eq, string_eq, option_eq, if◌then◌else◌, filter, contains, set_add, to_set, set_from, or_else,
  is_none, template, join, octal, ancestors, nul_text, line_break, text_lt, ◌/◌, ◌%◌,
}
use codexport.Base.Order.{sort}
use codexport.Domain.{
  DesiredFile, DesiredDirectory, TreeSpec, DesiredResource, file_resource, directory_resource,
  config_resource, skill_resource, tool_resource, credential_resource, FileEntry, ObservedFile,
  absent_file, present_file, ObjectKind, regular, directory_object, symlink, object_kind_eq,
  object_kind_text, ObservedState, absent, present, directory_state, unverifiable, DirectoryState,
}
use codexport.Plans.Env.{PlanEnv}

-- The inner loop of `relativePathAncestors`: it breaks at an ancestor that is in the set.
unfoldable pub add_ancestors : List String → List String → List String
add_ancestors set [] = set
add_ancestors set (ancestor ∷ rest) =
    let more = add_ancestors (set_add set ancestor) rest in
    if contains ancestor set then set else more

ancestors_from : List String → List String → List String
ancestors_from set [] = set
ancestors_from set (path ∷ paths) = ancestors_from (add_ancestors set (ancestors path)) paths

-- `relativePathAncestors`
unfoldable pub relative_path_ancestors : List String → List String
unfolding ancestors_from add_ancestors ancestors
relative_path_ancestors paths = ancestors_from [] paths

-- An optional field that equals a literal.
abbrev pub is_kind : ObjectKind → Option ObjectKind → Bool
is_kind k o = o == some k

abbrev pub is_true : Option Bool → Bool
is_true o = o == some true

-- The part of a signature that is the mode of an entry that is no symlink.
mode_signature : FileEntry → String
unfolding octal
mode_signature f =
    if is_none f.symlink_to && not (is_kind symlink f.object_kind)
    then elim f.mode [ none ↦ if is_true f.executable then "x" else "-" | some mode ↦ octal mode ]
    else "-"

-- `objectKind ?? (symlinkTo === undefined ? "regular" : "symlink")`
abbrev pub entry_kind : FileEntry → ObjectKind
entry_kind f = or_else f.object_kind (if is_none f.symlink_to then regular else symlink)

-- `fileSignature`
unfoldable pub file_signature : FileEntry → String
unfolding template mode_signature object_kind_text
file_signature f = template (
    f.digest
    ∷ nul_text
    ∷ mode_signature f
    ∷ nul_text
    ∷ object_kind_text (entry_kind f)
    ∷ nul_text
    ∷ or_else f.symlink_to ""
    ∷ [])

-- The mode of an entry in the encoding of `directoryEntriesDigest`.
mode_code : FileEntry → String
unfolding octal
mode_code f =
    if entry_kind f == symlink
    then "-"
    else elim f.mode [ none ↦ if is_true f.executable then "100" else "0" | some mode ↦ octal mode ]

-- One line of the encoding of `directoryEntriesDigest`.
entry_line : FileEntry → String
unfolding template mode_code object_kind_text
entry_line f = template (
    f.path
    ∷ nul_text
    ∷ f.digest
    ∷ nul_text
    ∷ object_kind_text (entry_kind f)
    ∷ nul_text
    ∷ mode_code f
    ∷ nul_text
    ∷ or_else f.symlink_to ""
    ∷ [])

-- `presentObservedFiles`
unfoldable pub present_observed_files : List ObservedFile → List FileEntry
present_observed_files [] = []
present_observed_files (absent_file _ ∷ fs) = present_observed_files fs
present_observed_files (present_file f ∷ fs) = f ∷ present_observed_files fs

-- The entry of a wanted file in `desiredDirectoryEntries`.
abbrev pub desired_file_entry : DesiredFile → FileEntry
desired_file_entry f = record {
  path = f.path;
  digest = f.digest;
  executable = some f.executable;
  mode = some f.mode;
  object_kind = none;
  symlink_to = f.symlink_to;
}

abbrev pub paths_of : List FileEntry → List String
paths_of fs = map (λ (f : FileEntry). f.path) fs

module _ (env : PlanEnv) where
  -- `directoryEntriesDigest`
  unfoldable pub directory_entries_digest : List FileEntry → String
  unfolding join entry_line sort text_lt
  directory_entries_digest entries =
      env.sha256_hex
        (join line_break (map entry_line (sort (λ l r. text_lt l.path r.path) entries)))

  -- The entry of a wanted directory in `desiredDirectoryEntries`.
  abbrev pub desired_directory_entry : DesiredDirectory → FileEntry
  desired_directory_entry d = record {
    path = d.path;
    digest = env.sha256_hex "canonfig:directory";
    executable = some (not (d.mode / 64 % 2 == 0));
    mode = some d.mode;
    object_kind = some directory_object;
    symlink_to = none;
  }

  -- `desiredDirectoryEntries`
  unfoldable pub desired_directory_entries : TreeSpec → List FileEntry
  desired_directory_entries tree =
      map desired_file_entry tree.files ++ map desired_directory_entry tree.directories

  -- `observedDirectoryDigest`: a directory that is only the parent of a declared path is not owned.
  unfoldable pub observed_directory_digest : DirectoryState → List FileEntry → String
  unfolding directory_entries_digest present_observed_files relative_path_ancestors set_from
  observed_directory_digest observed declared =
      let declared_paths = to_set (paths_of declared) in
      let parents = relative_path_ancestors declared_paths in
      directory_entries_digest (
        filter
          (λ f.
            contains f.path declared_paths
            || (not (is_kind directory_object f.object_kind) || not (contains f.path parents)))
          (present_observed_files observed.files))

  -- `desiredResourceDigest`
  unfoldable pub desired_resource_digest : DesiredResource → Option String
  unfolding directory_entries_digest desired_directory_entries
  desired_resource_digest (file_resource f) = some f.digest
  desired_resource_digest (config_resource c) = some c.digest
  desired_resource_digest (skill_resource _ tree) =
      some (directory_entries_digest (desired_directory_entries tree))
  desired_resource_digest (directory_resource tree) =
      some (directory_entries_digest (desired_directory_entries tree))
  desired_resource_digest (tool_resource _) = none
  desired_resource_digest (credential_resource _ _) = none

  -- `observedDigest`
  unfoldable pub observed_digest : ObservedState → Option String
  unfolding directory_entries_digest present_observed_files
  observed_digest absent = none
  observed_digest (unverifiable _) = none
  observed_digest (present p) = some p.digest
  observed_digest (directory_state d) =
      some (directory_entries_digest (present_observed_files d.files))
