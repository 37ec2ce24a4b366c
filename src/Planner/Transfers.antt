-- ===== src/Planner/Transfers.antt =====
-- planner.ts: `planTransfers`, the blobs that the follower has to fetch.
pub mod Required
pub mod Actions
use codexport.Base.{
  not, String, List, [], ◌∷◌, ◌++◌, none, some, keys, contains, string_eq, map_get, map_set, to_set,
  set_from, if◌then◌else◌, text_lt, template, filter, or_else,
}
use codexport.Base.Order.{sort}
use codexport.Domain.{
  PublishedResource, AvailableBlob, PlannedAction, transfer_blob, transfer_blob_kind,
}
use codexport.Planner.Data.{TextMap, Result, ok, fail, missing_blob_metadata, ◌>>=◌}

pub record TransferPlan : Type 0 where
  pub actions : List PlannedAction
  pub by_blob : TextMap String
  pub required_blobs : List String

-- One round of the inner loop: a blob belongs to the least resource that names it.
unfoldable pub own_blob : String → TextMap String → String → TextMap String
unfolding map_get map_set text_lt
own_blob resource owners blob = elim (map_get blob owners) [
  | none ↦ map_set blob resource owners
  | some owner ↦ if text_lt resource owner then map_set blob resource owners else owners
]

unfoldable pub own_blobs : String → TextMap String → List String → TextMap String
unfolding own_blob
own_blobs resource owners [] = owners
own_blobs resource owners (blob ∷ blobs) = own_blobs resource (own_blob resource owners blob) blobs

-- `blobOwners`
unfoldable pub blob_owners : TextMap String → List PublishedResource → TextMap String
unfolding own_blobs
blob_owners owners [] = owners
blob_owners owners (r ∷ rs) = blob_owners (own_blobs r.id owners r.blobs) rs

-- `transfer:${blob}`
unfoldable pub transfer_id : String → String
unfolding template
transfer_id blob = template ("transfer:" ∷ blob ∷ [])

abbrev pub transfer_action : String → String → AvailableBlob → PlannedAction
transfer_action blob owner metadata = record {
  id = transfer_id blob;
  resource = owner;
  kind = transfer_blob_kind;
  detail = transfer_blob metadata.id metadata.bytes;
  before = [];
}

-- The loop over the required blobs: the actions, and their identifiers by blob.
unfoldable pub transfers_from :
    TextMap String
    → TextMap AvailableBlob
    → List PlannedAction
    → TextMap String
    → List String
    → Result (List PlannedAction × TextMap String)
unfolding map_get map_set transfer_id
transfers_from owners blobs actions by_blob [] = ok (actions, by_blob)
transfers_from owners blobs actions by_blob (blob ∷ required) = elim (map_get blob blobs) [
  | none ↦ fail (missing_blob_metadata (or_else (map_get blob owners) "$unknown") blob)
  | some metadata ↦ elim (map_get blob owners) [
    | none ↦ fail (missing_blob_metadata "$unknown" blob)
    | some owner ↦
        transfers_from owners blobs (actions ++ transfer_action blob owner metadata ∷ [])
          (map_set blob (transfer_id blob) by_blob) required
  ]
]

-- The blobs that are named and not available.
unfoldable pub required_blobs : TextMap String → List String → List String
unfolding sort text_lt
required_blobs owners available =
    sort text_lt (filter (λ blob. not (contains blob available)) (keys owners))

-- `planTransfers`
unfoldable pub plan_transfers :
    List PublishedResource → TextMap AvailableBlob → List String → Result TransferPlan
unfolding blob_owners required_blobs transfers_from set_from
plan_transfers resources blobs available = do
  let owners = blob_owners [] resources
  let required = required_blobs owners (to_set available)
  planned ← transfers_from owners blobs [] [] required
  ok (record { actions = planned.0; by_blob = planned.1; required_blobs = required })
