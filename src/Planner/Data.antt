-- ===== src/Planner/Data.antt =====
-- src/synchronization/synchronization.types.ts and synchronization.errors.ts: the planner's input
-- and errors. A map is an association list in the order of insertion.
use codexport.Base.{String, List, Option}
use codexport.Domain.{
  PublishedResource, PlanningRevision, DesiredResource, VerificationInput, AvailableBlob,
  ObservedState, AppliedRecord, Platform, ResourceKind, ApplyPolicy, RecipeMethod,
}

pub record ObservedEntry : Type 0 where
  pub resource : String
  pub observed : ObservedState

pub record OverlayEntry : Type 0 where
  pub resource : String
  pub target : Option String
  pub keys : List String

-- `SynchronizationPlannerInput`, with the fields of its `observedState`.
pub record PlannerInput : Type 0 where
  pub revision : PlanningRevision
  pub follower : String
  pub platform : Platform
  pub observed_resources : List ObservedEntry
  pub available_blobs : List String
  pub local_overlay : List OverlayEntry
  pub applied_resources : List AppliedRecord

abbrev pub TextMap : Type 0 → Type 0
TextMap V = List (String × V)

pub record IndexedInput : Type 0 where
  pub resources : TextMap PublishedResource
  pub desired : TextMap DesiredResource
  pub verification : TextMap VerificationInput
  pub observed : TextMap ObservedState
  pub overlays : TextMap (List String)
  pub applied : TextMap AppliedRecord
  pub blobs : TextMap AvailableBlob

-- `SynchronizationPlanningError`; a verification that is missing has the method "missing".
pub data PlanningError : Type 0 where
  duplicate_input : (collection id : String) → PlanningError
  missing_dependency : (resource dependency : String) → PlanningError
  dependency_cycle : (cycle : List String) → PlanningError
  missing_blob_metadata : (resource blob : String) → PlanningError
  policy_kind_mismatch :
      (resource : String) (kind : ResourceKind) (policy : ApplyPolicy) → PlanningError
  missing_desired : (resource : String) → PlanningError
  missing_observed : (resource : String) → PlanningError
  kind_mismatch : (resource : String) (published wanted : ResourceKind) → PlanningError
  text_composition : (resource reason : String) → PlanningError
  verification_kind_mismatch :
      (resource : String) (kind : ResourceKind) (method : String) → PlanningError
  verification_content_mismatch :
      (resource : String) (kind : ResourceKind) (method reason : String) → PlanningError
  invalid_recipe :
      (resource : String) (method : RecipeMethod) (package_name reason : String) → PlanningError
  invalid_path : (resource path reason : String) → PlanningError
  conflicting_path : (resource path conflicts_with reason : String) → PlanningError

pub data Result {ℓ} (A : Type ℓ) : Type ℓ where
  ok : A → Result A
  fail : PlanningError → Result A

infixl 5 ◌>>=◌
abbrev pub ◌>>=◌ {ℓ κ} : {A : Type ℓ} {B : Type κ} → Result A → (A → Result B) → Result B
ok a >>= f = f a
fail e >>= f = fail e
