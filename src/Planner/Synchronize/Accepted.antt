-- ===== src/Planner/Synchronize/Accepted.antt =====
-- planner.ts: the stages that a plan of `planSynchronization` has passed.
use codexport.Base.{
  ◌≡◌, refl, sym, ◌∙◌, String, List, map, none, arith, IsSetList, Option-cases, ◌⊎◌, inl, inr, [],
  ◌∷◌, ◌++◌, contains, keys, string_eq, ap, subst,
}
use codexport.Domain.{PublishedResource}
use codexport.Plans.Env.{Thrown}
use codexport.Planner.Index.Unique.{index_unique_iff}
use codexport.Planner.Data.{PlannerInput, IndexedInput, PlanningError, Result, ok, fail}
use codexport.Planner.Index.{index_input, index_unique}
use codexport.Planner.Order.{order_resources}
use codexport.Planner.Order.Topological.{ids}
use codexport.Planner.Order.Sound.{entry_of, IsDependencyOrder, order_resources-IsDependencyOrder}
use codexport.Planner.Validate.{validate_resource_inputs}
use codexport.Planner.Transfers.{TransferPlan, plan_transfers}
use codexport.Planner.Build.{build_plan, Building, Built, built, thrown}
use codexport.Planner.Build.WellBuilt.{IsActionPlan, build_plan-IsActionPlan}
use codexport.Planner.Build.Complete.{all_unscheduled, actions_of_resources, build_plan-actions}
use codexport.Planner.Synchronize.{
  PlannerEnv, PlannedSynchronization, planned, refused, plan_synchronization, synchronize_ordered,
  hydrate,
}

pub Result-cases {ℓ} :
    {A : Type ℓ} (x : Result A) → ((e : PlanningError) × (x ≡ fail e)) ⊎ ((a : A) × (x ≡ ok a))
Result-cases (fail e) = inl (e, refl)
Result-cases (ok a) = inr (a, refl)

pub index_input-resources :
    (input : PlannerInput) (indexed : IndexedInput)
    → index_input input ≡ ok indexed
    → index_unique "revision.resources" (map entry_of input.revision.resources)
      ≡ ok indexed.resources
unfolding index_input
index_input-resources input indexed e =
    elim (Result-cases
      (index_unique "revision.resources" (map entry_of input.revision.resources))) [
        | inl (error, failed) ↦ absurd (ground (arith, failed, e))
        | inr (resources, found) ↦ ground (arith, found, e)
      ]

module _ (env : PlannerEnv) (input : PlannerInput) where
  -- An input that has passed the stages before the transfers.
  pub record IsValidated (indexed : IndexedInput) (ordered : List PublishedResource) : Type 0 where
    pub indexed_input : index_input input ≡ ok indexed
    pub order : order_resources indexed.resources ≡ ok ordered
    pub valid : validate_resource_inputs env.validation ordered indexed input.platform ≡ none
    pub outcome : plan_synchronization env input ≡ synchronize_ordered env input indexed ordered

  pub IsValidated-order :
      (indexed : IndexedInput) (ordered : List PublishedResource)
      → IsValidated indexed ordered
      → IsDependencyOrder indexed.resources ordered
  IsValidated-order indexed ordered v =
      order_resources-IsDependencyOrder "revision.resources" input.revision.resources
        indexed.resources ordered (index_input-resources input indexed v.indexed_input) v.order

  -- An input is refused before the transfers, or validated.
  pub plan_synchronization-cases :
      ((e : PlanningError) × (plan_synchronization env input ≡ refused e))
      ⊎ ((indexed : IndexedInput) × (ordered : List PublishedResource) × IsValidated indexed
            ordered)
  unfolding plan_synchronization
  plan_synchronization-cases = elim (Result-cases (index_input input)) [
    | inl (e, failed) ↦ inl (e, ground (arith, failed))
    | inr (indexed, found) ↦ elim (Result-cases (order_resources indexed.resources)) [
      | inl (e, failed) ↦ inl (e, ground (arith, found, failed))
      | inr (ordered, sorted) ↦
          elim (Option-cases
            (validate_resource_inputs env.validation ordered indexed input.platform)) [
              | inr (e, invalid) ↦ inl (e, ground (arith, found, sorted, invalid))
              | inl valid ↦ inr (
                indexed,
                ordered,
                record {
                  indexed_input = found;
                  order = sorted;
                  valid = valid;
                  outcome = ground (arith, found, sorted, valid);
                },
              )
            ]
    ]
  ]

  -- A plan that is handed out, with the stages that it has passed.
  pub record IsAccepted (p : PlannedSynchronization) : Type 0 where
    pub indexed : IndexedInput
    pub ordered : List PublishedResource
    pub transfer : TransferPlan
    pub building : Building
    pub validated : IsValidated indexed ordered
    pub transfers : plan_transfers ordered indexed.blobs input.available_blobs ≡ ok transfer
    pub actions : build_plan env.validation.plan input indexed transfer ordered ≡ built building
    pub result : p ≡ hydrate env input transfer building

  pub Built-cases : (x : Built) → ((b : Building) × (x ≡ built b)) ⊎ ((e : Thrown) × (x ≡ thrown e))
  Built-cases (built b) = inl (b, refl)
  Built-cases (thrown e) = inr (e, refl)

  ordered-IsAccepted :
      (p : PlannedSynchronization) (indexed : IndexedInput) (ordered : List PublishedResource)
      → IsValidated indexed ordered
      → synchronize_ordered env input indexed ordered ≡ planned p
      → IsAccepted p
  unfolding synchronize_ordered
  ordered-IsAccepted p indexed ordered v e =
      elim (Result-cases (plan_transfers ordered indexed.blobs input.available_blobs)) [
        | inl (error, failed) ↦ absurd (ground (arith, failed, e))
        | inr (transfer, transferred) ↦
            elim (Built-cases (build_plan env.validation.plan input indexed transfer ordered)) [
              | inr (error, failed) ↦ absurd (ground (arith, transferred, failed, e))
              | inl (b, done) ↦ record {
                indexed = indexed;
                ordered = ordered;
                transfer = transfer;
                building = b;
                validated = v;
                transfers = transferred;
                actions = done;
                result = ground (arith, transferred, done, e);
              }
            ]
      ]

  pub plan_synchronization-IsAccepted :
      (p : PlannedSynchronization) → plan_synchronization env input ≡ planned p → IsAccepted p
  plan_synchronization-IsAccepted p e = elim plan_synchronization-cases [
    | inl (error, failed) ↦ absurd (cc (sym failed ∙ e))
    | inr (indexed, ordered, v) ↦ ordered-IsAccepted p indexed ordered v (sym v.outcome ∙ e)
  ]

-- What a plan has: the order of the resources and the transfers that it is built of, actions with
-- distinct identifiers that wait only for earlier ones, and exactly the actions that these two call
-- for.
pub record IsPlanOf (env : PlannerEnv) (input : PlannerInput) (p : PlannedSynchronization)
    : Type 0 where
  pub indexed : IndexedInput
  pub ordered : List PublishedResource
  pub transfer : TransferPlan
  pub indexed_input : index_input input ≡ ok indexed
  pub order : order_resources indexed.resources ≡ ok ordered
  pub transfers : plan_transfers ordered indexed.blobs input.available_blobs ≡ ok transfer
  pub plan : IsActionPlan ordered p.body.actions
  pub each_once : IsSetList (ids ordered)
  pub same_ids :
      (id : String) → contains id (ids ordered) ≡ contains id (ids input.revision.resources)
  pub complete :
      all_unscheduled p.body.actions
      ≡ all_unscheduled transfer.actions
        ++ actions_of_resources env.validation.plan input indexed transfer ordered

-- A plan that `plan_synchronization` gives is built of the order of its input's resources, in which
-- each published resource stands once, and of the plan of their transfers. Up to what they wait for,
-- its actions are those of the transfers, and then, resource after resource in this order, one for
-- each draft that `plan_resource` or `plan_withdrawn` gives for the resource, under its identifier and
-- the draft's ordinal, with the draft's detail. The identifiers are distinct, each action has the kind
-- of its detail, and waits only for actions that stand before it.
pub plan_synchronization-IsPlanOf :
    (env : PlannerEnv) (input : PlannerInput) (p : PlannedSynchronization)
    → plan_synchronization env input ≡ planned p
    → IsPlanOf env input p
unfolding hydrate
plan_synchronization-IsPlanOf env input p e =
    let a = plan_synchronization-IsAccepted env input p e in
    let order = IsValidated-order env input a.indexed a.ordered a.validated in
    let plan =
      build_plan-IsActionPlan env.validation.plan input a.indexed a.transfer a.ordered
        input.available_blobs a.building order.distinct a.transfers a.actions in
    let resources =
      (index_unique_iff "revision.resources" (map entry_of input.revision.resources)
          a.indexed.resources).0
        (index_input-resources input a.indexed a.validated.indexed_input) in
    record {
      indexed = a.indexed;
      ordered = a.ordered;
      transfer = a.transfer;
      indexed_input = a.validated.indexed_input;
      order = a.validated.order;
      transfers = a.transfers;
      plan =
          subst (λ (x : PlannedSynchronization). IsActionPlan a.ordered x.body.actions)
            (sym a.result) plan;
      each_once = order.distinct;
      same_ids = λ id.
          order.same_ids id
          ∙ ap (λ m. contains id (keys m)) resources.0
          ∙ keys-entry_of id input.revision.resources;
      complete =
          ap (λ (x : PlannedSynchronization). all_unscheduled x.body.actions) a.result
          ∙ build_plan-actions env.validation.plan input a.indexed a.transfer a.ordered a.building
              a.actions;
    }
  where
    keys-entry_of :
        (id : String) (rs : List PublishedResource)
        → contains id (keys (map entry_of rs)) ≡ contains id (ids rs)
    keys-entry_of id [] = refl
    keys-entry_of id (r ∷ rs) = ground (arith, keys-entry_of id rs)
