-- ===== src/Planner/Synchronize/Live.antt =====
-- planner.ts: that `planSynchronization` ends with a plan or an error of the typed channel.
use mathlib.Core.List.{Memᴰ}
use codexport.Base.{
  true, ◌≡◌, refl, ap, ◌∙◌, ◌⊎◌, inl, inr, String, List, [], ◌∷◌, some, arith, subst, map_get,
  string_eq, Option-cases, Bool-cases, contains, to_set, or_else,
}
use codexport.Domain.{
  PublishedResource, DesiredResource, ObservedState, PresentState, present, AppliedRecord,
  desired_kind, policy_compatible_with_kind,
}
use codexport.Plans.Decoding.{is_content_digest}
use codexport.Plans.Decoding.Digests.{HasDigests}
use codexport.Plans.Dispatch.Total.{Plans, plan_resource-Plans, plan_withdrawn-Plans}
use codexport.Planner.Data.{ObservedEntry, PlannerInput, IndexedInput, PlanningError, ok}
use codexport.Planner.Index.{index_input}
use codexport.Planner.Transfers.{TransferPlan, plan_transfers}
use codexport.Planner.Build.{
  Building, built, build_resource, build_resources, build_plan, drafts_of, context_of,
}
use codexport.Planner.Synchronize.{
  PlannerEnv, PlannedSynchronization, planned, refused, plan_synchronization, synchronize_ordered,
  hydrate,
}
use codexport.Planner.Synchronize.Accepted.{Result-cases, Built-cases, plan_synchronization-cases}
use codexport.Planner.Synchronize.Indexed.{
  observed_entry, applied_entry, index_input-observed, item_of_index,
}
use codexport.Planner.Synchronize.Validated.{IsSettled, valid-IsSettled}

-- The texts that the input gives as digests of observed and applied states are digests.
pub record IsDecodable (input : PlannerInput) : Type 0 where
  pub observed :
      (e : ObservedEntry) (p : PresentState)
      → Memᴰ e input.observed_resources
      → e.observed ≡ present p
      → is_content_digest p.digest ≡ true
  pub source :
      (e : ObservedEntry) (p : PresentState) (s : String)
      → Memᴰ e input.observed_resources
      → e.observed ≡ present p
      → p.managed_source_digest ≡ some s
      → is_content_digest s ≡ true
  pub applied :
      (a : AppliedRecord) → Memᴰ a input.applied_resources → is_content_digest a.digest ≡ true

module _ (env : PlannerEnv) (input : PlannerInput) (indexed : IndexedInput)
    (transfer : TransferPlan) (d : IsDecodable input) (made : index_input input ≡ ok indexed) where
  context_of-HasDigests :
      (r : PublishedResource) (w : DesiredResource) (o : ObservedState)
      → map_get r.id indexed.observed ≡ some o
      → HasDigests (context_of env.validation.plan input indexed transfer r w o)
  unfolding context_of
  context_of-HasDigests r w o found =
      let (observed, applied) = index_input-observed input indexed made in
      let (e, m, same) =
        item_of_index "observedState.resources" observed_entry input.observed_resources
          indexed.observed r.id observed found in
      let state : e.observed ≡ o = ap (λ (x : String × ObservedState). x.1) same in
      record {
        observed = λ p k. d.observed e p m (state ∙ k);
        source = λ p s k. d.source e p s m (state ∙ k);
        applied = λ a k.
            let (b, n, like) =
              item_of_index "appliedResources" applied_entry input.applied_resources indexed.applied
                r.id applied k in
            let record_of : b ≡ a = ap (λ (x : String × AppliedRecord). x.1) like in
            subst (λ (x : AppliedRecord). is_content_digest x.digest ≡ true) record_of
              (d.applied b n);
      }

  drafts_of-Plans :
      (r : PublishedResource) (w : DesiredResource) (o : ObservedState)
      → policy_compatible_with_kind r.kind r.policy ≡ true
      → desired_kind w ≡ r.kind
      → map_get r.id indexed.observed ≡ some o
      → Plans (
          drafts_of env.validation.plan input indexed transfer
            (context_of env.validation.plan input indexed transfer r w o))
  unfolding drafts_of context_of
  drafts_of-Plans r w o p k found =
      let c = context_of env.validation.plan input indexed transfer r w o in
      let good = context_of-HasDigests r w o found in
      elim (Bool-cases
        (contains c.resource.id (to_set (or_else input.revision.removed_resources [])))) [
          | inl removed ↦
              let (ds, e) = plan_withdrawn-Plans env.validation.plan c good in
              (ds, ground (arith, removed, e))
          | inr kept ↦
              let (ds, e) = plan_resource-Plans env.validation.plan c p k good in
              (ds, ground (arith, kept, e))
        ]

  build_resource-built :
      (r : PublishedResource) (b : Building)
      → IsSettled env.validation indexed r
      → (b' : Building) × (build_resource env.validation.plan input indexed transfer r b ≡ built b')
  unfolding build_resource
  build_resource-built r b s =
      elim (Built-cases env input (build_resource env.validation.plan input indexed transfer r b)) [
        | inl done ↦ done
        | inr (x, failed) ↦ elim (Option-cases (map_get r.id indexed.observed)) [
          | inl missing ↦ absurd (ground (arith, s.has_wanted, missing, failed))
          | inr (o, observed) ↦
              let (ds, e) = drafts_of-Plans r s.wanted o s.policy s.same_kind observed in
              absurd (ground (arith, s.has_wanted, observed, e, failed))
        ]
      ]

  build_resources-built :
      (rs : List PublishedResource) (b : Building)
      → ((r : PublishedResource) → Memᴰ r rs → IsSettled env.validation indexed r)
      → (b' : Building) × (build_resources env.validation.plan input indexed transfer rs b
          ≡ built b')
  unfolding build_resources
  build_resources-built [] b f = (b, refl)
  build_resources-built (r ∷ rs) b f =
      let (c, e) = build_resource-built r b (f r (Memᴰ.head refl)) in
      let (w, k) = build_resources-built rs c (λ x m. f x (Memᴰ.tail m)) in
      (w, rw (e, build_resources) k)

-- Where the texts that the input gives as digests of observed and applied states are digests,
-- `plan_synchronization` does not throw: it refuses the input with an error of the typed channel, or
-- gives a plan.
pub plan_synchronization-ends :
    (env : PlannerEnv) (input : PlannerInput)
    → IsDecodable input
    → ((p : PlannedSynchronization) × (plan_synchronization env input ≡ planned p))
      ⊎ ((e : PlanningError) × (plan_synchronization env input ≡ refused e))
unfolding synchronize_ordered build_plan
plan_synchronization-ends env input d = elim (plan_synchronization-cases env input) [
  | inl failed ↦ inr failed
  | inr (indexed, ordered, v) ↦
      elim (Result-cases (plan_transfers ordered indexed.blobs input.available_blobs)) [
        | inl (error, failed) ↦ inr (error, ground (arith, v.outcome, failed))
        | inr (transfer, transferred) ↦
            let (b, done) =
              build_resources-built env input indexed transfer d v.indexed_input ordered
                (record { actions = transfer.actions; tasks = []; terminals = [] })
                (λ r m. valid-IsSettled env input indexed ordered v m) in
            inl (hydrate env input transfer b, ground (arith, v.outcome, transferred, done))
      ]
]
