-- ===== src/Planner/Build/Loop.antt =====
-- planner.ts: the loops of `buildPlan` over the drafts of a resource and over the resources.
use codexport.Base.{
  true, false, ◌≡◌, refl, ◌⊎◌, inl, inr, ℕ, suc, ◌<◌, String, List, [], ◌∷◌, ◌++◌, Option, none,
  some, arith, contains, contains-append, string_eq, ◌==◌, eq_iff, Bool-cases, Option-cases,
  map_get, map_get-map_set,
}
use codexport.Base.Order.{sorted_unique}
use codexport.Domain.{PlannedAction, PublishedResource}
use codexport.Plans.Env.{Draft}
use codexport.Planner.Data.{TextMap}
use codexport.Planner.Transfers.{TransferPlan}
use codexport.Planner.Transfers.Required.{action_ids}
use codexport.Planner.Build.{
  materialize_draft, found_in, resource_prerequisites, with_previous, DraftLoop, add_drafts,
  push_task, finish_resource, Building,
}
use codexport.Planner.Build.Scheduled.{
  IsWellBuilt, IsWellBuilt-push, contains-action_ids-concat, Origin-weaken,
}

-- The resources that are done, and the current one up to an ordinal.
abbrev pub Done : List String → String → ℕ → String → ℕ → Type 0
Done seen current n s m = (contains s seen ≡ true) ⊎ ((s ≡ current) × (m < n))

abbrev pub Seen : List String → String → ℕ → Type 0
Seen seen s m = contains s seen ≡ true

abbrev pub AreIds : List String → List PlannedAction → Type 0
AreIds xs actions = (id : String) → contains id xs ≡ true → contains id (action_ids actions) ≡ true

abbrev pub IsIdOf : List PlannedAction → Option String → Type 0
IsIdOf actions o = (id : String) → o ≡ some id → contains id (action_ids actions) ≡ true

pub IsWellBuilt-weaken :
    (P Q : String → ℕ → Type 0) (resources : List String) (actions : List PlannedAction)
    → ((r : String) (n : ℕ) → P r n → Q r n)
    → IsWellBuilt P resources actions
    → IsWellBuilt Q resources actions
IsWellBuilt-weaken P Q resources actions f w = record {
  scheduled = w.scheduled;
  typed = w.typed;
  distinct = w.distinct;
  origin = λ id m. Origin-weaken P Q f (w.origin id m);
  known = w.known;
}

with_previous-AreIds :
    (prerequisites : List String) (previous : Option String) (actions : List PlannedAction)
    → AreIds prerequisites actions
    → IsIdOf actions previous
    → AreIds (with_previous prerequisites previous) actions
with_previous-AreIds prerequisites none actions h k = h
with_previous-AreIds prerequisites (some p) actions h k = λ id m.
    elim (Bool-cases (contains id prerequisites)) [
      | inl old ↦ h id old
      | inr new ↦ k id (ground (arith, contains-append id prerequisites (p ∷ []), eq_iff p id, m))
    ]

-- What the loop over the drafts leaves.
pub record IsLooped (P : String → ℕ → Type 0) (resources : List String)
    (before : List PlannedAction) (s : DraftLoop) : Type 0 where
  pub well : IsWellBuilt P resources s.actions
  pub previous_id : IsIdOf s.actions s.previous
  pub grows : AreIds (action_ids before) s.actions

module _ (resources seen : List String) (r : PublishedResource) (prerequisites : List String) where
  pub add_drafts-IsLooped :
      (ds : List Draft) (n : ℕ) (before : List PlannedAction) (s : DraftLoop)
      → contains r.id seen ≡ false
      → contains r.id resources ≡ true
      → AreIds prerequisites s.actions
      → IsLooped (Done seen r.id n) resources before s
      → IsLooped (Seen (r.id ∷ seen)) resources before (add_drafts r prerequisites n ds s)
  unfolding add_drafts
  add_drafts-IsLooped [] n before s new member earlier l = record {
    well =
        IsWellBuilt-weaken (Done seen r.id n) (Seen (r.id ∷ seen)) resources s.actions
          (λ x m d. ground (arith, d, eq_iff r.id x)) l.well;
    previous_id = l.previous_id;
    grows = l.grows;
  }
  add_drafts-IsLooped (d ∷ ds) n before s new member earlier l =
      let pre = with_previous prerequisites s.previous in
      let action = (materialize_draft d r n pre).action in
      let grown : AreIds (action_ids s.actions) (s.actions ++ action ∷ []) =
        λ id m. ground (arith, contains-action_ids-concat id s.actions action, m) in
      add_drafts-IsLooped ds (suc n) before
        (record {
          actions = s.actions ++ action ∷ [];
          tasks = push_task s.tasks (materialize_draft d r n pre).task;
          previous = some action.id;
        })
        new member (λ id m. grown id (earlier id m))
        (record {
          well =
              IsWellBuilt-push (Done seen r.id n) (Done seen r.id (suc n)) resources s.actions d r n
                pre l.well (λ x m h. ground (arith, h)) (inr (refl, omega arith))
                (λ h. ground (arith, h, new)) member
                (with_previous-AreIds prerequisites s.previous s.actions earlier l.previous_id);
          previous_id = λ id e.
              ground
                (arith, contains-action_ids-concat id s.actions action, eq_iff action.id id, e);
          grows = λ id m. grown id (l.grows id m);
        })

-- What holds between the resources.
pub record IsBuilding (transfer : TransferPlan) (resources seen : List String) (b : Building)
    : Type 0 where
  pub well : IsWellBuilt (Seen seen) resources b.actions
  pub terminal_ids :
      (k id : String) → map_get k b.terminals ≡ some id → contains id (action_ids b.actions) ≡ true
  pub transfer_ids :
      (k id : String)
      → map_get k transfer.by_blob ≡ some id
      → contains id (action_ids b.actions) ≡ true

found_in-AreIds :
    (m : TextMap String) (ks : List String) (actions : List PlannedAction)
    → ((k id : String) → map_get k m ≡ some id → contains id (action_ids actions) ≡ true)
    → AreIds (found_in m ks) actions
unfolding found_in
found_in-AreIds m [] actions h = λ id c. cc
found_in-AreIds m (k ∷ ks) actions h = λ id c. elim (Option-cases (map_get k m)) [
  | inl missing ↦ found_in-AreIds m ks actions h id (ground (arith, c))
  | inr (v, found) ↦ elim (Bool-cases (v == id)) [
    | inl same ↦ h k id (ground (arith, found, eq_iff v id))
    | inr other ↦ found_in-AreIds m ks actions h id (ground (arith, c))
  ]
]

pub prerequisites-AreIds :
    (transfer : TransferPlan) (resources seen : List String) (b : Building) (r : PublishedResource)
    → IsBuilding transfer resources seen b
    → AreIds (resource_prerequisites transfer b.terminals r) b.actions
unfolding resource_prerequisites
prerequisites-AreIds transfer resources seen b r w = λ id m.
    elim (Bool-cases (contains id (found_in b.terminals (sorted_unique r.depends_on)))) [
      | inl dependency ↦
          found_in-AreIds b.terminals (sorted_unique r.depends_on) b.actions w.terminal_ids id
            dependency
      | inr other ↦
          found_in-AreIds transfer.by_blob (sorted_unique r.blobs) b.actions w.transfer_ids id (
            ground (
              arith,
              contains-append id (found_in b.terminals (sorted_unique r.depends_on))
                  (found_in transfer.by_blob (sorted_unique r.blobs)),
              m,
            ))
    ]

pub finish-IsBuilding :
    (transfer : TransferPlan) (resources seen : List String) (b : Building) (id : String)
    (loop : DraftLoop)
    → IsBuilding transfer resources seen b
    → IsLooped (Seen (id ∷ seen)) resources b.actions loop
    → IsBuilding transfer resources (id ∷ seen) (finish_resource id b.terminals loop)
unfolding finish_resource
finish-IsBuilding transfer resources seen b id loop w l = record {
  well = l.well;
  terminal_ids = λ k x e. elim (Option-cases loop.previous) [
    | inl nothing ↦ l.grows x (w.terminal_ids k x (ground (arith, e)))
    | inr (last, ended) ↦ elim (Bool-cases (id == k)) [
      | inl same ↦ l.previous_id x (ground (arith, map_get-map_set id k last b.terminals, e))
      | inr other ↦
          l.grows x (w.terminal_ids k x (ground (arith, map_get-map_set id k last b.terminals, e)))
    ]
  ];
  transfer_ids = λ k x e. l.grows x (w.transfer_ids k x e);
}
