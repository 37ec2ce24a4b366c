-- ===== src/Planner/Synchronize/Indexed.antt =====
-- planner.ts: the observed and the applied states that `indexInput` indexes.
use mathlib.Core.List.{Memᴰ}
use mathlib.Core.List.Memᴰ
use codexport.Base.{
  ◌≡◌, inl, inr, String, List, map, some, arith, subst, map_get, mem_of_map_get, string_eq,
}
use codexport.Domain.{
  PublishedResource, DesiredResource, DesiredResourceEntry, ObservedState, AppliedRecord,
  VerificationInput,
}
use codexport.Planner.Data.{TextMap, ObservedEntry, OverlayEntry, PlannerInput, IndexedInput, ok}
use codexport.Planner.Index.{index_input, index_unique, index_blobs}
use codexport.Planner.Index.Unique.{index_unique_iff}
use codexport.Planner.Synchronize.Accepted.{Result-cases}

abbrev pub observed_entry : ObservedEntry → String × ObservedState
observed_entry e = (e.resource, e.observed)

abbrev pub applied_entry : AppliedRecord → String × AppliedRecord
applied_entry a = (a.resource, a)

pub index_input-observed :
    (input : PlannerInput) (indexed : IndexedInput)
    → index_input input ≡ ok indexed
    → (index_unique "observedState.resources" (map observed_entry input.observed_resources)
        ≡ ok indexed.observed)
      × (index_unique "appliedResources" (map applied_entry input.applied_resources)
          ≡ ok indexed.applied)
unfolding index_input
index_input-observed input indexed e =
    elim (Result-cases (
      index_unique "revision.resources"
        (map (λ (r : PublishedResource). (r.id, r)) input.revision.resources))) [
          | inl (x, failed) ↦ absurd (ground (arith, failed, e))
          | inr (resources, a) ↦
              elim (Result-cases (
                index_unique "revision.desired" (
                  map (λ (d : DesiredResourceEntry). (d.resource, d.desired))
                    input.revision.desired))) [
                      | inl (x, failed) ↦ absurd (ground (arith, a, failed, e))
                      | inr (desired, b) ↦
                          elim (Result-cases (
                            index_unique "revision.desired" (
                              map (λ (d : DesiredResourceEntry). (d.resource, d.verification))
                                input.revision.desired))) [
                                  | inl (x, failed) ↦ absurd (ground (arith, a, b, failed, e))
                                  | inr (verification, c) ↦
                                      later resources desired verification a b c
                                ]
                    ]
        ]
  where
    later :
        (resources : TextMap PublishedResource) (desired : TextMap DesiredResource)
        (verification : TextMap VerificationInput)
        → index_unique "revision.resources"
            (map (λ (r : PublishedResource). (r.id, r)) input.revision.resources)
          ≡ ok resources
        → index_unique "revision.desired"
            (map (λ (d : DesiredResourceEntry). (d.resource, d.desired)) input.revision.desired)
          ≡ ok desired
        → index_unique "revision.desired" (
            map (λ (d : DesiredResourceEntry). (d.resource, d.verification)) input.revision.desired)
          ≡ ok verification
        → (index_unique "observedState.resources" (map observed_entry input.observed_resources)
            ≡ ok indexed.observed)
          × (index_unique "appliedResources" (map applied_entry input.applied_resources)
              ≡ ok indexed.applied)
    later resources desired verification a b c =
        elim (Result-cases
          (index_unique "observedState.resources" (map observed_entry input.observed_resources))) [
            | inl (x, failed) ↦ absurd (ground (arith, a, b, c, failed, e))
            | inr (observed, o) ↦
                elim (Result-cases (
                  index_unique "localOverlay"
                    (map (λ (l : OverlayEntry). (l.resource, l.keys)) input.local_overlay))) [
                      | inl (x, failed) ↦ absurd (ground (arith, a, b, c, o, failed, e))
                      | inr (overlays, l) ↦
                          elim (Result-cases (
                            index_unique "appliedResources"
                              (map applied_entry input.applied_resources))) [
                                | inl (x, failed) ↦
                                    absurd (ground (arith, a, b, c, o, l, failed, e))
                                | inr (applied, p) ↦
                                    elim (Result-cases (index_blobs input.revision.blobs)) [
                                      | inl (x, failed) ↦
                                          absurd (ground (arith, a, b, c, o, l, p, failed, e))
                                      | inr (blobs, q) ↦ (
                                        ground (arith, a, b, c, o, l, p, q, e),
                                        ground (arith, a, b, c, o, l, p, q, e),
                                      )
                                    ]
                              ]
                    ]
          ]

-- An entry of an index comes from an item of the collection.
pub item_of_index :
    {A V : Type 0} (collection : String) (entry : A → String × V) (xs : List A) (m : TextMap V)
    (id : String) {v : V}
    → index_unique collection (map entry xs) ≡ ok m
    → map_get id m ≡ some v
    → (x : A) × Memᴰ x xs × (entry x ≡ (id, v))
item_of_index collection entry xs m id {v} made found =
    let same = ((index_unique_iff collection (map entry xs) m).0 made).0 in
    Memᴰ.of_map entry xs (subst (λ l. Memᴰ (id, v) l) same (mem_of_map_get id m found))
