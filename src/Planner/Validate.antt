-- ===== src/Planner/Validate.antt =====
-- planner.ts: `validateResourceInputs`.
use codexport.Base.{
  Bool, true, false, not, ◌&&◌, ◌||◌, ℕ, ◌/◌, ◌%◌, String, List, [], ◌∷◌, map, Option, none, some,
  ◌==◌, nat_eq, string_eq, if◌then◌else◌, is_none, is_some, contains, keys, map_get,
}
use codexport.Domain.{
  PublishedResource, DesiredResource, file_resource, directory_resource, skill_resource,
  tool_resource, ToolRecipe, desired_kind, ResourceKind, file, directory, config, skill, tool,
  credential, kind_eq, append_local, policy_eq, policy_compatible_with_kind, VerificationInput,
  digest_check, command_check, executable_present, credential_present, symlink_check, FileEntry,
  directory_object, object_kind_eq, Platform,
}
use codexport.Profile.Paths.{TextEnv}
use codexport.Profile.Targets.{
  PathResource, PathEntry, PathError, invalid_target, conflicting_target, validate_path_conflicts,
}
use codexport.Plans.Env.{PlanEnv}
use codexport.Plans.Entries.{desired_directory_entries, is_kind}
use codexport.Planner.Data.{
  IndexedInput, PlanningError, policy_kind_mismatch, missing_desired, missing_observed,
  kind_mismatch, text_composition, verification_kind_mismatch, verification_content_mismatch,
  invalid_recipe, invalid_path, conflicting_path,
}

-- What the validation takes from elsewhere: `recipeValidationError` of src/domain/recipe-versions.ts,
-- the functions of planning, and those of texts.
pub record ValidationEnv : Type 0 where
  pub plan : PlanEnv
  pub text : TextEnv
  pub recipe_error : ToolRecipe → Option String

-- The words of the source for the methods of verification.
unfoldable pub method_name : VerificationInput → String
method_name (digest_check _) = "digest"
method_name (command_check _ _) = "command"
method_name (executable_present _) = "executable-present"
method_name (credential_present _) = "credential-present"
method_name (symlink_check _) = "symlink"

abbrev is_digest : VerificationInput → Bool
is_digest (digest_check _) = true
is_digest _ = false

abbrev is_command : VerificationInput → Bool
is_command (command_check _ _) = true
is_command _ = false

abbrev is_symlink : VerificationInput → Bool
is_symlink (symlink_check _) = true
is_symlink _ = false

abbrev is_executable_present : VerificationInput → Bool
is_executable_present (executable_present _) = true
is_executable_present _ = false

abbrev is_credential_present : VerificationInput → Bool
is_credential_present (credential_present _) = true
is_credential_present _ = false

-- `verificationCompatibleWithDesired`
unfoldable pub verification_compatible : ResourceKind → DesiredResource → VerificationInput → Bool
verification_compatible file (file_resource f) v =
    if is_none f.symlink_to then is_digest v else is_symlink v
verification_compatible file _ v = false
verification_compatible directory d v = is_digest v || is_command v
verification_compatible config d v = is_digest v || is_command v
verification_compatible skill d v = is_digest v || is_command v
verification_compatible tool d v = is_executable_present v || is_command v
verification_compatible credential d v = is_credential_present v || is_command v

-- `(mode & 0o111) !== 0`
unfoldable pub has_execute_bit : ℕ → Bool
has_execute_bit mode = not (mode % 2 == 0 && mode / 8 % 2 == 0 && mode / 64 % 2 == 0)

-- A wanted file that is no text which `append-local` can compose.
unfoldable pub is_not_text : DesiredResource → Bool
unfolding has_execute_bit
is_not_text (file_resource f) = is_some f.symlink_to || (f.executable || has_execute_bit f.mode)
is_not_text _ = false

-- The verification of a file names other content than the file has.
unfoldable pub is_other_content : DesiredResource → VerificationInput → Bool
is_other_content (file_resource f) (digest_check digest) =
    is_none f.symlink_to && not (digest == f.digest)
is_other_content (file_resource f) (symlink_check target) = elim f.symlink_to [
  | none ↦ false
  | some expected ↦ not (target == expected)
]
is_other_content _ _ = false

abbrev content_reason : DesiredResource → String
content_reason (file_resource f) =
    if is_none f.symlink_to
    then "digest verification does not match authored file content"
    else "symlink verification target does not match authored symlink target"
content_reason _ = ""

module _ (env : ValidationEnv) where
  -- The loop over the recipes of a tool.
  unfoldable pub recipe_error_of : String → List ToolRecipe → Option PlanningError
  recipe_error_of resource [] = none
  recipe_error_of resource (r ∷ recipes) =
      let rest = recipe_error_of resource recipes in
      elim (env.recipe_error r) [
        | none ↦ rest
        | some reason ↦
            if env.plan.is_missing_version r
            then rest
            else some (invalid_recipe resource r.method r.package_name reason)
      ]

  -- The errors that depend on the wanted resource and its verification.
  unfoldable pub verification_error :
      PublishedResource → DesiredResource → Option VerificationInput → Option PlanningError
  unfolding verification_compatible is_other_content method_name
  verification_error r d none = some (verification_kind_mismatch r.id r.kind "missing")
  verification_error r d (some v) =
      if not (verification_compatible r.kind d v)
      then some (verification_kind_mismatch r.id r.kind (method_name v))
      else if is_other_content d v
      then some (verification_content_mismatch r.id r.kind (method_name v) (content_reason d))
      else none

  abbrev tool_recipes : DesiredResource → List ToolRecipe
  tool_recipes (tool_resource t) = t.recipes
  tool_recipes _ = []

  -- The tests of a resource whose wanted state is there.
  unfoldable pub desired_error :
      IndexedInput → PublishedResource → DesiredResource → Option PlanningError
  unfolding is_not_text verification_error recipe_error_of map_get
  desired_error indexed r d =
      if not (desired_kind d == r.kind)
      then some (kind_mismatch r.id r.kind (desired_kind d))
      else if r.policy == append_local && is_not_text d
      then some (text_composition r.id "append-local requires a non-executable regular text file")
      else elim (verification_error r d (map_get r.id indexed.verification)) [
        | some error ↦ some error
        | none ↦ elim (recipe_error_of r.id (tool_recipes d)) [
          | some error ↦ some error
          | none ↦
              if contains r.id (keys indexed.observed) then none else some (missing_observed r.id)
        ]
      ]

  -- The body of the loop over the resources.
  unfoldable pub resource_error : IndexedInput → PublishedResource → Option PlanningError
  unfolding policy_compatible_with_kind desired_error map_get
  resource_error indexed r =
      if not (policy_compatible_with_kind r.kind r.policy)
      then some (policy_kind_mismatch r.id r.kind r.policy)
      else elim (map_get r.id indexed.desired) [
        | none ↦ some (missing_desired r.id)
        | some d ↦ desired_error indexed r d
      ]

  unfoldable pub first_resource_error : IndexedInput → List PublishedResource → Option PlanningError
  unfolding resource_error
  first_resource_error indexed [] = none
  first_resource_error indexed (r ∷ rs) = elim (resource_error indexed r) [
    | some error ↦ some error
    | none ↦ first_resource_error indexed rs
  ]

  abbrev path_entry : FileEntry → PathEntry
  path_entry f = record { path = f.path; is_directory = is_kind directory_object f.object_kind }

  -- `entries` of the resources that are checked for conflicting paths.
  unfoldable pub path_entries : Option DesiredResource → List PathEntry
  unfolding desired_directory_entries
  path_entries (some (directory_resource tree)) =
      map path_entry (desired_directory_entries env.plan tree)
  path_entries (some (skill_resource _ tree)) =
      map path_entry (desired_directory_entries env.plan tree)
  path_entries _ = []

  unfoldable pub path_resource : IndexedInput → PublishedResource → PathResource
  unfolding path_entries map_get
  path_resource indexed r = record {
    id = r.id;
    kind = r.kind;
    target = r.target;
    entries = path_entries (map_get r.id indexed.desired);
  }

  abbrev first_path_error : List PathError → Option PlanningError
  first_path_error [] = none
  first_path_error (invalid_target id target reason ∷ _) = some (invalid_path id target reason)
  first_path_error (conflicting_target id target conflicts_with reason ∷ _) =
      some (conflicting_path id target conflicts_with reason)

  -- `validateResourceInputs`
  unfoldable pub validate_resource_inputs :
      List PublishedResource → IndexedInput → Platform → Option PlanningError
  unfolding first_resource_error validate_path_conflicts path_resource
  validate_resource_inputs resources indexed platform =
      elim (first_resource_error indexed resources) [
        | some error ↦ some error
        | none ↦
            first_path_error
              (validate_path_conflicts env.text platform (map (path_resource indexed) resources))
      ]
