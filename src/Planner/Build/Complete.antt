-- ===== src/Planner/Build/Complete.antt =====
-- planner.ts: which actions `buildPlan` makes of the resources, up to what they wait for.
use mathlib.Core.List.{append_assoc, append-nil, map-append}
use codexport.Base.{
  ◌≡◌, refl, sym, ap, ◌∙◌, inl, inr, ℕ, suc, String, List, [], ◌∷◌, ◌++◌, map, none, some, arith,
  Option-cases, map_get, string_eq,
}
use codexport.Domain.{PlannedAction, PublishedResource, DesiredResource, ObservedState, detail_kind}
use codexport.Plans.Env.{PlanEnv, Draft, Planned, drafts, throws}
use codexport.Planner.Data.{PlannerInput, IndexedInput}
use codexport.Planner.Transfers.{TransferPlan}
use codexport.Planner.Build.{
  draft_action_id, materialized_detail, materialize_draft, with_previous, push_task,
  resource_prerequisites, DraftLoop, add_drafts, finish_resource, Building, Built, built, thrown,
  context_of, drafts_of, build_resource, build_resources, build_plan,
}

-- An action without what it waits for.
abbrev pub unscheduled : PlannedAction → PlannedAction
unscheduled a = record a { before = [] }

abbrev pub all_unscheduled : List PlannedAction → List PlannedAction
all_unscheduled = map unscheduled

-- The actions that the drafts of a resource call for, from an ordinal on: one for each draft, under
-- the identifier of the resource and the ordinal.
abbrev pub actions_for : PublishedResource → ℕ → List Draft → List PlannedAction
actions_for r n [] = []
actions_for r n (d ∷ ds) =
    record {
      id = draft_action_id r.id n d.kind;
      resource = r.id;
      kind = detail_kind d.detail;
      detail = materialized_detail d.detail r.id n;
      before = [];
    }
    ∷ actions_for r (suc n) ds

abbrev pub actions_for_planned : PublishedResource → Planned → List PlannedAction
actions_for_planned r (drafts ds) = actions_for r 0 ds
actions_for_planned r (throws e) = []

-- The actions of a resource in a plan: those that its drafts call for, where it has a wanted and an
-- observed state.
abbrev pub actions_of_resource :
    PlanEnv → PlannerInput → IndexedInput → TransferPlan → PublishedResource → List PlannedAction
actions_of_resource env input indexed transfer r = elim (map_get r.id indexed.desired) [
  | none ↦ []
  | some d ↦ elim (map_get r.id indexed.observed) [
    | none ↦ []
    | some o ↦
        actions_for_planned r
          (drafts_of env input indexed transfer (context_of env input indexed transfer r d o))
  ]
]

-- The actions of the resources, in their order.
abbrev pub actions_of_resources :
    PlanEnv
    → PlannerInput
    → IndexedInput
    → TransferPlan
    → List PublishedResource
    → List PlannedAction
actions_of_resources env input indexed transfer [] = []
actions_of_resources env input indexed transfer (r ∷ rs) =
    actions_of_resource env input indexed transfer r
    ++ actions_of_resources env input indexed transfer rs

add_drafts-actions :
    (r : PublishedResource) (prerequisites : List String) (n : ℕ) (ds : List Draft) (s : DraftLoop)
    → all_unscheduled (add_drafts r prerequisites n ds s).actions
      ≡ all_unscheduled s.actions ++ actions_for r n ds
unfolding add_drafts materialize_draft
add_drafts-actions r prerequisites n [] s = sym (append-nil (all_unscheduled s.actions))
add_drafts-actions r prerequisites n (d ∷ ds) s =
    let m = materialize_draft d r n (with_previous prerequisites s.previous) in
    let rest = add_drafts-actions r prerequisites (suc n) ds (record {
      actions = s.actions ++ m.action ∷ [];
      tasks = push_task s.tasks m.task;
      previous = some m.action.id;
    }) in
    rest
    ∙ ap (λ xs. xs ++ actions_for r (suc n) ds) (map-append unscheduled s.actions (m.action ∷ []))
    ∙ append_assoc (all_unscheduled s.actions) (unscheduled m.action ∷ [])
        (actions_for r (suc n) ds)

module _ (env : PlanEnv) (input : PlannerInput) (indexed : IndexedInput)
    (transfer : TransferPlan) where
  build_resource-actions :
      (r : PublishedResource) (b b' : Building)
      → build_resource env input indexed transfer r b ≡ built b'
      → all_unscheduled b'.actions
        ≡ all_unscheduled b.actions ++ actions_of_resource env input indexed transfer r
  unfolding build_resource finish_resource
  build_resource-actions r b b' e = elim (Option-cases (map_get r.id indexed.desired)) [
    | inl missing ↦ ground (arith, missing, e, append-nil (all_unscheduled b.actions))
    | inr (d, desired) ↦ elim (Option-cases (map_get r.id indexed.observed)) [
      | inl missing ↦ ground (arith, desired, missing, e, append-nil (all_unscheduled b.actions))
      | inr (o, observed) ↦
          go d o desired observed
            (drafts_of env input indexed transfer (context_of env input indexed transfer r d o))
            refl
    ]
  ]
    where
      go :
          (d : DesiredResource) (o : ObservedState)
          → map_get r.id indexed.desired ≡ some d
          → map_get r.id indexed.observed ≡ some o
          → (x : Planned)
          → drafts_of env input indexed transfer (context_of env input indexed transfer r d o) ≡ x
          → all_unscheduled b'.actions
            ≡ all_unscheduled b.actions ++ actions_of_resource env input indexed transfer r
      go d o desired observed (throws error) x = absurd (ground (arith, e))
      go d o desired observed (drafts ds) x =
          let prerequisites = resource_prerequisites transfer b.terminals r in
          let start : DraftLoop = record {
            actions = b.actions;
            tasks = b.tasks;
            previous = none;
          } in
          let same : b'.actions ≡ (add_drafts r prerequisites 0 ds start).actions =
            ground (arith, e) in
          ground (arith, desired, observed, x, same, add_drafts-actions r prerequisites 0 ds start)

  build_resources-actions :
      (rs : List PublishedResource) (b b' : Building)
      → build_resources env input indexed transfer rs b ≡ built b'
      → all_unscheduled b'.actions
        ≡ all_unscheduled b.actions ++ actions_of_resources env input indexed transfer rs
  unfolding build_resources
  build_resources-actions [] b b' e = ground (arith, e, append-nil (all_unscheduled b.actions))
  build_resources-actions (r ∷ rs) b b' e =
      go (build_resource env input indexed transfer r b) refl (build_resources-actions rs)
    where
      own : List PlannedAction
      own = actions_of_resource env input indexed transfer r

      others : List PlannedAction
      others = actions_of_resources env input indexed transfer rs

      go :
          (x : Built)
          → build_resource env input indexed transfer r b ≡ x
          → ((c c' : Building)
              → build_resources env input indexed transfer rs c ≡ built c'
              → all_unscheduled c'.actions ≡ all_unscheduled c.actions ++ others)
          → all_unscheduled b'.actions ≡ all_unscheduled b.actions ++ (own ++ others)
      go (thrown error) x rest = absurd (ground (arith, e))
      go (built c) x rest =
          rest c b' (ground (arith, e))
          ∙ ap (λ xs. xs ++ others) (build_resource-actions r b c x)
          ∙ append_assoc (all_unscheduled b.actions) own others

  -- What is planned: the transfers, and then the actions of the resources, in their order.
  pub build_plan-actions :
      (rs : List PublishedResource) (b : Building)
      → build_plan env input indexed transfer rs ≡ built b
      → all_unscheduled b.actions
        ≡ all_unscheduled transfer.actions ++ actions_of_resources env input indexed transfer rs
  unfolding build_plan
  build_plan-actions rs b e =
      build_resources-actions rs (record { actions = transfer.actions; tasks = []; terminals = [] })
        b e
