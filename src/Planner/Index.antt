-- ===== src/Planner/Index.antt =====
-- planner.ts: `indexUnique`, `indexBlobs` and `indexInput`.
pub mod Unique
use codexport.Base.{
  String, List, [], ◌∷◌, none, some, map, keys, contains, string_eq, nat_eq, ◌==◌, map_get, map_set,
  if◌then◌else◌,
}
use codexport.Domain.{AvailableBlob, DesiredResourceEntry, PublishedResource, AppliedRecord}
use codexport.Planner.Data.{
  TextMap, PlannerInput, IndexedInput, ObservedEntry, OverlayEntry, Result, ok, fail,
  duplicate_input, ◌>>=◌,
}

module _ {V : Type 0} (collection : String) where
  -- The loop of `indexUnique`.
  unfoldable pub index_from : TextMap V → List (String × V) → Result (TextMap V)
  unfolding map_set
  index_from m [] = ok m
  index_from m ((id, value) ∷ entries) =
      let rest = index_from (map_set id value m) entries in
      if contains id (keys m) then fail (duplicate_input collection id) else rest

  -- `indexUnique`
  unfoldable pub index_unique : List (String × V) → Result (TextMap V)
  unfolding index_from
  index_unique entries = index_from [] entries

-- The loop of `indexBlobs`.
unfoldable pub index_blobs_from :
    TextMap AvailableBlob → List AvailableBlob → Result (TextMap AvailableBlob)
unfolding map_get map_set
index_blobs_from m [] = ok m
index_blobs_from m (blob ∷ blobs) =
    let fresh = index_blobs_from (map_set blob.id blob m) blobs in
    let shared = index_blobs_from m blobs in
    elim (map_get blob.id m) [
      | none ↦ fresh
      | some existing ↦
          if existing.bytes == blob.bytes
          then shared
          else fail (duplicate_input "revision.blobs" blob.id)
    ]

-- `indexBlobs`
unfoldable pub index_blobs : List AvailableBlob → Result (TextMap AvailableBlob)
unfolding index_blobs_from
index_blobs blobs = index_blobs_from [] blobs

-- `indexInput`
unfoldable pub index_input : PlannerInput → Result IndexedInput
unfolding index_unique index_blobs
index_input input = do
  resources ←
      index_unique "revision.resources"
        (map (λ (r : PublishedResource). (r.id, r)) input.revision.resources)
  desired ←
      index_unique "revision.desired"
        (map (λ (e : DesiredResourceEntry). (e.resource, e.desired)) input.revision.desired)
  verification ←
      index_unique "revision.desired"
        (map (λ (e : DesiredResourceEntry). (e.resource, e.verification)) input.revision.desired)
  observed ←
      index_unique "observedState.resources"
        (map (λ (e : ObservedEntry). (e.resource, e.observed)) input.observed_resources)
  overlays ←
      index_unique "localOverlay"
        (map (λ (e : OverlayEntry). (e.resource, e.keys)) input.local_overlay)
  applied ←
      index_unique "appliedResources"
        (map (λ (e : AppliedRecord). (e.resource, e)) input.applied_resources)
  blobs ← index_blobs input.revision.blobs
  ok (record {
    resources = resources;
    desired = desired;
    verification = verification;
    observed = observed;
    overlays = overlays;
    applied = applied;
    blobs = blobs;
  })
