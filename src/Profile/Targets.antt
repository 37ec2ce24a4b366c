-- ===== src/Profile/Targets.antt =====
-- src/domain/profile.ts: `validateResourcePathConflicts`. The only namespace is that of files.
pub mod Disjoint
use text.Mathlib.Text.{starts_with}
use codexport.Base.{
  Bool, true, false, not, ◌&&◌, ◌||◌, String, List, [], ◌∷◌, ◌++◌, map, Option, none, some, ◌==◌,
  string_eq, any, if◌then◌else◌, template, text_lt, or_else, map_get, map_set, is_some,
}
use codexport.Base.Order.{sort}
use codexport.Domain.{ResourceKind, file, directory, config, skill, kind_eq, Platform}
use codexport.Profile.Paths.{
  TextEnv, normalized_target_path, invalid_target_reason, invalid_relative_target_reason,
}

-- An entry of a managed tree: another directory, or a leaf.
pub record PathEntry : Type 0 where
  pub path : String
  pub is_directory : Bool

-- `ResourcePathResource`
pub record PathResource : Type 0 where
  pub id : String
  pub kind : ResourceKind
  pub target : String
  pub entries : List PathEntry

-- The two errors of `validateResourcePathConflicts`.
pub data PathError : Type 0 where
  invalid_target : (id target reason : String) → PathError
  conflicting_target : (id target conflicts_with reason : String) → PathError

-- `CanonicalResourcePathClaim`, without its resource.
pub record EntryClaim : Type 0 where
  pub raw_path : String
  pub path : String
  pub is_directory : Bool

-- `ResourceTargetClaim`
pub record TargetClaim : Type 0 where
  pub resource : PathResource
  pub path : String
  pub raw_path : String
  pub is_root : Bool
  pub is_directory : Bool

-- `path` is below `parent`.
unfoldable pub is_below : String → String → Bool
unfolding template
is_below path parent = starts_with path (template (parent ∷ "/" ∷ []))

-- `overlaps`
unfoldable pub overlaps : String → String → Bool
unfolding is_below
overlaps left right = left == right || (is_below left right || is_below right left)

-- Whether a directory of the two contains the other claim.
unfoldable pub has_directory_ancestor : TargetClaim → TargetClaim → Bool
unfolding is_below
has_directory_ancestor claim other =
    if is_below claim.path other.path
    then other.is_directory
    else is_below other.path claim.path && claim.is_directory

-- An earlier error of the same two resources.
unfoldable pub is_reported : String → String → PathError → Bool
is_reported id conflicts_with (invalid_target _ _ _) = false
is_reported id conflicts_with (conflicting_target i _ c _) = i == id && c == conflicts_with

-- Two overlapping claims of one resource.
unfoldable pub own_conflict : TargetClaim → TargetClaim → Option PathError
unfolding has_directory_ancestor template
own_conflict claim other =
    if claim.is_root || other.is_root
    then none
    else if claim.raw_path == other.raw_path
    then some (
        conflicting_target claim.resource.id claim.raw_path other.resource.id
          (template ("managed path " ∷ claim.path ∷ " is declared more than once" ∷ [])))
    else if has_directory_ancestor claim other
    then none
    else some (
        conflicting_target claim.resource.id claim.raw_path other.resource.id
          (template ("managed path " ∷ claim.path ∷ " overlaps managed path " ∷ other.path ∷ [])))

-- Two overlapping claims of two resources: reported once.
unfoldable pub foreign_conflict : List PathError → TargetClaim → TargetClaim → Option PathError
unfolding is_reported template
foreign_conflict errors claim other =
    if any (is_reported claim.resource.id other.resource.id) errors
    then none
    else some (
        conflicting_target claim.resource.id claim.resource.target other.resource.id
          (template ("target " ∷ claim.path ∷ " overlaps target " ∷ other.path ∷ [])))

-- The body of the inner loop.
unfoldable pub conflict_of : List PathError → TargetClaim → TargetClaim → Option PathError
unfolding overlaps own_conflict foreign_conflict
conflict_of errors claim other =
    if not (overlaps claim.path other.path)
    then none
    else if claim.resource.id == other.resource.id
    then own_conflict claim other
    else foreign_conflict errors claim other

abbrev pub push_error : List PathError → Option PathError → List PathError
push_error errors none = errors
push_error errors (some error) = errors ++ error ∷ []

-- The inner loop.
unfoldable pub compare_with : TargetClaim → List PathError → List TargetClaim → List PathError
unfolding conflict_of
compare_with claim errors [] = errors
compare_with claim errors (other ∷ others) =
    compare_with claim (push_error errors (conflict_of errors claim other)) others

-- The outer loop.
unfoldable pub compare_all : List PathError → List TargetClaim → List PathError
unfolding compare_with
compare_all errors [] = errors
compare_all errors (claim ∷ claims) = compare_all (compare_with claim errors claims) claims

-- The kinds that claim paths of the file system.
unfoldable pub is_filesystem_kind : ResourceKind → Bool
is_filesystem_kind kind = kind == file || kind == directory || kind == config || kind == skill

-- The order of the claims: by resource, path and raw path.
unfoldable pub claim_lt : TargetClaim → TargetClaim → Bool
unfolding text_lt
claim_lt l r =
    if text_lt l.resource.id r.resource.id
    then true
    else if text_lt r.resource.id l.resource.id
    then false
    else if text_lt l.path r.path
    then true
    else if text_lt r.path l.path
    then false
    else text_lt l.raw_path r.raw_path

module _ (env : TextEnv) (platform : Platform) where
  -- The loop of `canonicalResourcePathClaims`.
  unfoldable pub entry_claims : PathResource → List PathEntry → List EntryClaim × List PathError
  unfolding invalid_relative_target_reason normalized_target_path template
  entry_claims resource [] = ([], [])
  entry_claims resource (entry ∷ entries) =
      let rest = entry_claims resource entries in
      elim (invalid_relative_target_reason env entry.path platform) [
        | some reason ↦ (rest.0, invalid_target resource.id entry.path reason ∷ rest.1)
        | none ↦ (
          record {
            raw_path = entry.path;
            path =
                normalized_target_path env (template (resource.target ∷ "/" ∷ entry.path ∷ []))
                  platform;
            is_directory = entry.is_directory;
          }
              ∷ rest.0,
          rest.1,
        )
      ]

  -- `canonicalResourcePathClaims`
  unfoldable pub canonical_claims : PathResource → List EntryClaim × List PathError
  unfolding entry_claims sort text_lt
  canonical_claims resource =
      entry_claims resource (sort (λ l r. text_lt l.path r.path) resource.entries)

  -- The error of the target of a resource.
  unfoldable pub target_errors : PathResource → List PathError
  unfolding invalid_target_reason
  target_errors resource = elim (invalid_target_reason env resource.target) [
    | none ↦ []
    | some reason ↦ invalid_target resource.id resource.target reason ∷ []
  ]

  -- The first loop: the errors of the paths, and the claims of each resource by its identifier.
  unfoldable pub collect_claims :
      List PathResource
      → List PathError
      → List (String × List EntryClaim)
      → List PathError × List (String × List EntryClaim)
  unfolding target_errors canonical_claims map_set
  collect_claims [] errors claims = (errors, claims)
  collect_claims (r ∷ rs) errors claims =
      collect_claims rs ((errors ++ target_errors r) ++ (canonical_claims r).1)
        (map_set r.id (canonical_claims r).0 claims)

  abbrev pub entry_claim : PathResource → EntryClaim → TargetClaim
  entry_claim resource claim = record {
    resource = resource;
    path = claim.path;
    raw_path = claim.raw_path;
    is_root = false;
    is_directory = claim.is_directory;
  }

  -- `root` of `validateResourcePathConflicts`.
  unfoldable pub root_claim : PathResource → TargetClaim
  unfolding normalized_target_path
  root_claim resource = record {
    resource = resource;
    path = normalized_target_path env resource.target platform;
    raw_path = resource.target;
    is_root = true;
    is_directory = resource.kind == directory || resource.kind == skill;
  }

  -- The claims of all resources, before they are sorted.
  unfoldable pub all_claims : List (String × List EntryClaim) → List PathResource → List TargetClaim
  unfolding is_filesystem_kind root_claim map_get
  all_claims by_resource [] = []
  all_claims by_resource (r ∷ rs) =
      let rest = all_claims by_resource rs in
      if is_filesystem_kind r.kind
      then (root_claim r ∷ map (entry_claim r) (or_else (map_get r.id by_resource) [])) ++ rest
      else rest

  -- `orderedResources`
  unfoldable pub ordered_resources : List PathResource → List PathResource
  unfolding sort text_lt
  ordered_resources resources = sort (λ l r. text_lt l.id r.id) resources

  -- The claims of the resources: their targets, and the entries of their trees.
  unfoldable pub claims_of : List PathResource → List TargetClaim
  unfolding all_claims collect_claims ordered_resources
  claims_of resources =
      let ordered = ordered_resources resources in
      all_claims (collect_claims ordered [] []).1 ordered

  -- `claims` of `validateResourcePathConflicts`.
  unfoldable pub sorted_claims : List PathResource → List TargetClaim
  unfolding claims_of sort claim_lt
  sorted_claims resources = sort claim_lt (claims_of resources)

  -- `validateResourcePathConflicts`
  unfoldable pub validate_path_conflicts : List PathResource → List PathError
  unfolding sorted_claims compare_all collect_claims ordered_resources
  validate_path_conflicts resources =
      compare_all (collect_claims (ordered_resources resources) [] []).0 (sorted_claims resources)
