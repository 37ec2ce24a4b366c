-- ===== src/Planner/Build/WellBuilt.antt =====
-- planner.ts: the actions that `buildPlan` puts together.
use codexport.Base.{
  true, false, ◌≡◌, refl, sym, inl, inr, String, List, [], ◌∷◌, map, none, some, arith, contains,
  IsSetList, All, string_eq, ◌==◌, eq_iff, Bool-cases, Option-cases, map_get, subst,
}
use codexport.Domain.{
  PlannedAction, PublishedResource, DesiredResource, ObservedState, AvailableBlob,
}
use codexport.Plans.Env.{PlanEnv, Planned, drafts, throws}
use codexport.Planner.Data.{TextMap, PlannerInput, IndexedInput, ok}
use codexport.Planner.Order.Topological.{ids}
use codexport.Planner.Transfers.{TransferPlan, plan_transfers, transfer_id}
use codexport.Planner.Transfers.Required.{action_ids, plan_transfers-IsTransferPlan}
use codexport.Planner.Transfers.Actions.{IsFirst, plan_transfers-IsTransferred}
use codexport.Planner.Build.{
  resource_prerequisites, add_drafts, Building, Built, built, thrown, build_resource,
  build_resources, build_plan, drafts_of, context_of,
}
use codexport.Planner.Build.Ids.{eq_of_transfer_id}
use codexport.Planner.Build.Scheduled.{IsScheduled, IsTyped, of_transfer}
use codexport.Planner.Build.Loop.{
  IsBuilding, add_drafts-IsLooped, finish-IsBuilding, prerequisites-AreIds, Seen,
  IsWellBuilt-weaken, Done,
}

module _ (resources : List String) where
  first-IsScheduled :
      (seen : List String) (actions : List PlannedAction)
      → All (IsFirst resources) actions
      → IsScheduled seen actions
  first-IsScheduled seen [] h = tt
  first-IsScheduled seen (a ∷ actions) h =
      (λ id m. ground (arith, h.0.waits_for_none, m), first-IsScheduled (a.id ∷ seen) actions h.1)

  first-IsTyped : (actions : List PlannedAction) → All (IsFirst resources) actions → IsTyped actions
  first-IsTyped [] h = tt
  first-IsTyped (a ∷ actions) h = (h.0.typed, first-IsTyped actions h.1)

  first-known :
      (actions : List PlannedAction)
      → All (IsFirst resources) actions
      → All (λ (a : PlannedAction). contains a.resource resources ≡ true) actions
  first-known [] h = tt
  first-known (a ∷ actions) h = (h.0.known, first-known actions h.1)

contains-transfers :
    (id : String) (blobs : List String)
    → contains id (map transfer_id blobs) ≡ true
    → (b : String) × (contains b blobs ≡ true) × (id ≡ transfer_id b)
contains-transfers id [] h = cc
contains-transfers id (b ∷ blobs) h = elim (Bool-cases (transfer_id b == id)) [
  | inl same ↦ (b, ground (arith, eq_iff b b), ground (arith, eq_iff (transfer_id b) id))
  | inr other ↦
      let (c, m, e) = contains-transfers id blobs (ground (arith, h)) in (c, ground (arith, m), e)
]

transfers-IsSetList : (blobs : List String) → IsSetList blobs → IsSetList (map transfer_id blobs)
transfers-IsSetList [] h = tt
transfers-IsSetList (b ∷ blobs) h = (fresh, transfers-IsSetList blobs h.1)
  where
    fresh : contains (transfer_id b) (map transfer_id blobs) ≡ false
    fresh = elim (Bool-cases (contains (transfer_id b) (map transfer_id blobs))) [
      | inr absent ↦ absent
      | inl old ↦
          let (c, m, e) = contains-transfers (transfer_id b) blobs old in
          absurd (ground (arith, eq_of_transfer_id b c e, h.0, m))
    ]

-- The transfers alone.
transfers-IsBuilding :
    (rs : List PublishedResource) (blobs : TextMap AvailableBlob) (available : List String)
    (p : TransferPlan)
    → plan_transfers rs blobs available ≡ ok p
    → IsBuilding p (ids rs) [] (record { actions = p.actions; tasks = []; terminals = [] })
unfolding map_get
transfers-IsBuilding rs blobs available p e =
    let t = plan_transfers-IsTransferred rs blobs available p e in
    let q = plan_transfers-IsTransferPlan rs blobs available p e in
    record {
      well = record {
        scheduled = first-IsScheduled (ids rs) [] p.actions t.first;
        typed = first-IsTyped (ids rs) p.actions t.first;
        distinct =
            subst IsSetList (sym q.one_each) (transfers-IsSetList p.required_blobs q.distinct);
        origin = λ id m.
            let (b, n, same) = contains-transfers id p.required_blobs (rw q.one_each at m) in
            of_transfer b same;
        known = first-known (ids rs) p.actions t.first;
      };
      terminal_ids = λ k id m. cc;
      transfer_ids = t.blob_ids;
    }

module _ (env : PlanEnv) (input : PlannerInput) (indexed : IndexedInput) (transfer : TransferPlan)
    (resources : List String) where
  skip-IsBuilding :
      (seen : List String) (id : String) (b b' : Building)
      → IsBuilding transfer resources seen b
      → b ≡ b'
      → IsBuilding transfer resources (id ∷ seen) b'
  skip-IsBuilding seen id b b' w e =
      subst (λ x. IsBuilding transfer resources (id ∷ seen) x) e
        (record {
          well =
              IsWellBuilt-weaken (Seen seen) (Seen (id ∷ seen)) resources b.actions
                (λ r n m. ground (arith, m)) w.well;
          terminal_ids = w.terminal_ids;
          transfer_ids = w.transfer_ids;
        })

  build_resource-IsBuilding :
      (seen : List String) (r : PublishedResource) (b b' : Building)
      → contains r.id seen ≡ false
      → contains r.id resources ≡ true
      → IsBuilding transfer resources seen b
      → build_resource env input indexed transfer r b ≡ built b'
      → IsBuilding transfer resources (r.id ∷ seen) b'
  unfolding build_resource
  build_resource-IsBuilding seen r b b' new member w e =
      elim (Option-cases (map_get r.id indexed.desired)) [
        | inl missing ↦ skip-IsBuilding seen r.id b b' w (ground (arith, e))
        | inr (d, desired) ↦ elim (Option-cases (map_get r.id indexed.observed)) [
          | inl missing ↦ skip-IsBuilding seen r.id b b' w (ground (arith, e))
          | inr (o, observed) ↦
              go d o desired observed
                (drafts_of env input indexed transfer (context_of env input indexed transfer r d o))
                refl
        ]
      ]
    where
      go :
          (d : DesiredResource) (o : ObservedState)
          → map_get r.id indexed.desired ≡ some d
          → map_get r.id indexed.observed ≡ some o
          → (x : Planned)
          → drafts_of env input indexed transfer (context_of env input indexed transfer r d o) ≡ x
          → IsBuilding transfer resources (r.id ∷ seen) b'
      go d o desired observed (throws error) x = absurd (ground (arith, e))
      go d o desired observed (drafts ds) x =
          subst (λ y. IsBuilding transfer resources (r.id ∷ seen) y) (ground (arith, e))
            (finish-IsBuilding transfer resources seen b r.id
              (add_drafts r (resource_prerequisites transfer b.terminals r) 0 ds
                (record { actions = b.actions; tasks = b.tasks; previous = none }))
              w
              (add_drafts-IsLooped resources seen r (resource_prerequisites transfer b.terminals r)
                ds 0 b.actions (record { actions = b.actions; tasks = b.tasks; previous = none })
                new member (prerequisites-AreIds transfer resources seen b r w)
                (record {
                  well =
                      IsWellBuilt-weaken (Seen seen) (Done seen r.id 0) resources b.actions
                        (λ s n m. inl m) w.well;
                  previous_id = λ id m. cc;
                  grows = λ id m. m;
                })))

  build_resources-IsBuilding :
      (seen : List String) (rs : List PublishedResource) (b b' : Building)
      → IsSetList (ids rs)
      → ((id : String)
          → contains id (ids rs) ≡ true
          → (contains id seen ≡ false) × (contains id resources ≡ true))
      → IsBuilding transfer resources seen b
      → build_resources env input indexed transfer rs b ≡ built b'
      → (all : List String) × IsBuilding transfer resources all b'
  unfolding build_resources
  build_resources-IsBuilding seen [] b b' s f w e =
      (seen, subst (λ y. IsBuilding transfer resources seen y) (ground (arith, e)) w)
  build_resources-IsBuilding seen (r ∷ rs) b b' s f w e =
      go (build_resource env input indexed transfer r b) refl
        (build_resources-IsBuilding (r.id ∷ seen) rs)
    where
      go :
          (x : Built)
          → build_resource env input indexed transfer r b ≡ x
          → ((c c' : Building)
              → IsSetList (ids rs)
              → ((id : String)
                  → contains id (ids rs) ≡ true
                  → (contains id (r.id ∷ seen) ≡ false) × (contains id resources ≡ true))
              → IsBuilding transfer resources (r.id ∷ seen) c
              → build_resources env input indexed transfer rs c ≡ built c'
              → (all : List String) × IsBuilding transfer resources all c')
          → (all : List String) × IsBuilding transfer resources all b'
      go (thrown error) x rest = absurd (ground (arith, e))
      go (built c) x rest =
          rest c b' s.1
            (λ id m.
              let (new, known) = f id (ground (arith, m)) in
              (ground (arith, new, eq_iff r.id id, s.0, m), known))
            (let (new, known) = f r.id (ground (arith, eq_iff r.id r.id)) in
              build_resource-IsBuilding seen r b c new known w x)
            (ground (arith, e))

-- What the actions of a plan have.
pub record IsActionPlan (rs : List PublishedResource) (actions : List PlannedAction) : Type 0 where
  pub scheduled : IsScheduled [] actions
  pub typed : IsTyped actions
  pub distinct : IsSetList (action_ids actions)
  pub known : All (λ (a : PlannedAction). contains a.resource (ids rs) ≡ true) actions

-- For an order without a repeated resource and the plan of its transfers, the actions that
-- `build_plan` puts together have distinct identifiers; each has the kind of its detail, is of one of
-- the resources, and waits only for actions that stand before it.
pub build_plan-IsActionPlan :
    (env : PlanEnv) (input : PlannerInput) (indexed : IndexedInput) (transfer : TransferPlan)
    (rs : List PublishedResource) (available : List String) (b : Building)
    → IsSetList (ids rs)
    → plan_transfers rs indexed.blobs available ≡ ok transfer
    → build_plan env input indexed transfer rs ≡ built b
    → IsActionPlan rs b.actions
unfolding build_plan
build_plan-IsActionPlan env input indexed transfer rs available b s t e =
    let (all, w) =
      build_resources-IsBuilding env input indexed transfer (ids rs) [] rs
        (record { actions = transfer.actions; tasks = []; terminals = [] }) b s (λ id m. (refl, m))
        (transfers-IsBuilding rs indexed.blobs available transfer t) e in
    record {
      scheduled = w.well.scheduled;
      typed = w.well.typed;
      distinct = w.well.distinct;
      known = w.well.known;
    }
