-- ===== src/Executor/Contexts/Sound.antt =====
-- executor.ts: what `executionContexts` guarantees of the actions that it orders.
use codexport.Base.{
  ◌≡◌, ◌≢◌, refl, ap, sym, ◌∙◌, subst, ◌⊎◌, inl, inr, ℕ, zero, suc, ◌≤◌, String, List, [], ◌∷◌, map,
  some, arith, contains, string_eq, Bool-cases, Option-cases, length, set_add, contains-set_add,
}
use mathlib.Core.List.{Permᴰ}
use codexport.Domain.{PlannedAction, action_kind_eq}
use codexport.Planner.Build.Scheduled.{IsScheduled}
use codexport.Planner.Data.{PlannerInput}
use codexport.Planner.Synchronize.{
  PlannedSynchronization, PlannerEnv, planned, plan_synchronization,
}
use codexport.Planner.Synchronize.Accepted.{plan_synchronization-IsPlanOf}
use codexport.Executor.Contexts.{
  Limits, RunInput, DigestEnv, ExecutionError, ActionState, Ordered, ordered, rejected, out_of_fuel,
  take_ready, Catalog, Checked, checked, refused, check_action, order_actions, execution_contexts,
  are_limits_valid, is_identified, catalog_of,
}
use codexport.Executor.Contexts.Rounds.{
  IsReady, take_ready-IsReady, length-take_ready, take_ready-head, IsChecked,
  check_action-IsChecked,
}

-- Contexts in an order in which they can run, after the actions `seen`.
abbrev pub IsRunnable : String → Limits → Catalog → (seen : List String) → List ActionState → Type 0
IsRunnable run limits catalog seen [] = Unit
IsRunnable run limits catalog seen (s ∷ states) =
    IsReady seen s.action
    × IsChecked run limits catalog seen s.action s
    × IsRunnable run limits catalog (set_add seen s.action.id) states

abbrev pub actions_of : List ActionState → List PlannedAction
actions_of = map (λ s. s.action)

module _ (run : String) (limits : Limits) (catalog : Catalog) where
  -- A round that succeeds.
  record IsRound (fuel : ℕ) (seen : List String) (a : PlannedAction) (actions : List PlannedAction)
      (states : List ActionState) : Type 0 where
    ready : PlannedAction
    others : List PlannedAction
    taken : take_ready seen (a ∷ actions) ≡ some (ready, others)
    state : ActionState
    passed : check_action run limits catalog seen ready ≡ checked state
    rest : List ActionState
    later : order_actions run limits catalog fuel (set_add seen ready.id) others ≡ ordered rest
    result : states ≡ state ∷ rest

  Checked-cases :
      (x : Checked)
      → ((s : ActionState) × (x ≡ checked s)) ⊎ ((e : ExecutionError) × (x ≡ refused e))
  Checked-cases (checked s) = inl (s, refl)
  Checked-cases (refused e) = inr (e, refl)

  Ordered-cases :
      (x : Ordered)
      → ((states : List ActionState) × (x ≡ ordered states))
        ⊎ (((e : ExecutionError) × (x ≡ rejected e)) ⊎ (x ≡ out_of_fuel))
  Ordered-cases (ordered states) = inl (states, refl)
  Ordered-cases (rejected e) = inr (inl (e, refl))
  Ordered-cases out_of_fuel = inr (inr refl)

  ordered-injective : {xs ys : List ActionState} → ordered xs ≡ ordered ys → xs ≡ ys
  ordered-injective e = ground (arith, e)

  order_actions-IsRound :
      (fuel : ℕ) (seen : List String) (a : PlannedAction) (actions : List PlannedAction)
      (states : List ActionState)
      → order_actions run limits catalog (suc fuel) seen (a ∷ actions) ≡ ordered states
      → IsRound fuel seen a actions states
  unfolding order_actions
  order_actions-IsRound fuel seen a actions states e =
      elim (Option-cases (take_ready seen (a ∷ actions))) [
        | inl stuck ↦ absurd (ground (arith, stuck, e))
        | inr ((ready, others), taken) ↦
            elim (Checked-cases (check_action run limits catalog seen ready)) [
              | inr (error, bad) ↦ absurd (ground (arith, taken, bad, e))
              | inl (state, passed) ↦
                  elim (Ordered-cases
                    (order_actions run limits catalog fuel (set_add seen ready.id) others)) [
                      | inr (inl (error, bad)) ↦ absurd (ground (arith, taken, passed, bad, e))
                      | inr (inr bad) ↦ absurd (ground (arith, taken, passed, bad, e))
                      | inl (rest, later) ↦ record {
                        ready = ready;
                        others = others;
                        taken = taken;
                        state = state;
                        passed = passed;
                        rest = rest;
                        later = later;
                        result = ordered-injective (ground (arith, taken, passed, later, e));
                      }
                    ]
            ]
      ]

  order_actions-IsRunnable :
      (fuel : ℕ) (seen : List String) (actions : List PlannedAction) (states : List ActionState)
      → order_actions run limits catalog fuel seen actions ≡ ordered states
      → IsRunnable run limits catalog seen states × Permᴰ actions (actions_of states)
  unfolding order_actions
  order_actions-IsRunnable fuel seen [] states e =
      subst
        (λ (l : List ActionState). IsRunnable run limits catalog seen l × Permᴰ [] (actions_of l))
        (ordered-injective e) (tt, Permᴰ.nil)
  order_actions-IsRunnable zero seen (a ∷ actions) states e = absurd (ground (arith, e))
  order_actions-IsRunnable (suc fuel) seen (a ∷ actions) states e =
      let r = order_actions-IsRound fuel seen a actions states e in
      let (runnable, perm) =
        order_actions-IsRunnable fuel (set_add seen r.ready.id) r.others r.rest r.later in
      let (ready, moved) = take_ready-IsReady seen (a ∷ actions) r.ready r.others r.taken in
      let c = check_action-IsChecked run limits catalog seen r.ready r.state r.passed in
      subst
        (λ (l : List ActionState).
          IsRunnable run limits catalog seen l × Permᴰ (a ∷ actions) (actions_of l))
        (sym r.result)
        (
          subst
              (λ (x : PlannedAction).
                IsReady seen x
                × IsChecked run limits catalog seen x r.state
                × IsRunnable run limits catalog (set_add seen x.id) r.rest)
              (sym c.action) (ready, c, runnable),
          Permᴰ.trans moved (Permᴰ.cons (sym c.action) perm),
        )

  -- A round after which the loop has not ended.
  round-out_of_fuel :
      (fuel : ℕ) (seen : List String) (a : PlannedAction) (actions : List PlannedAction)
      → order_actions run limits catalog (suc fuel) seen (a ∷ actions) ≡ out_of_fuel
      → (ready : PlannedAction) × (others : List PlannedAction) × (take_ready seen (a ∷ actions)
          ≡ some (ready, others))
        × (order_actions run limits catalog fuel (set_add seen ready.id) others ≡ out_of_fuel)
  unfolding order_actions
  round-out_of_fuel fuel seen a actions e = elim (Option-cases (take_ready seen (a ∷ actions))) [
    | inl stuck ↦ absurd (ground (arith, stuck, e))
    | inr ((ready, others), taken) ↦
        elim (Checked-cases (check_action run limits catalog seen ready)) [
          | inr (error, bad) ↦ absurd (ground (arith, taken, bad, e))
          | inl (state, passed) ↦
              elim (Ordered-cases
                (order_actions run limits catalog fuel (set_add seen ready.id) others)) [
                  | inl (rest, later) ↦ absurd (ground (arith, taken, passed, later, e))
                  | inr (inl (error, bad)) ↦ absurd (ground (arith, taken, passed, bad, e))
                  | inr (inr bad) ↦ (ready, others, taken, bad)
                ]
        ]
  ]

  -- The loop ends within any fuel that is not below the number of actions, whatever the actions are:
  -- cyclic ones, repeated ones and ones that wait for an unknown action included.
  pub order_actions_fuel :
      (fuel : ℕ) (seen : List String) (actions : List PlannedAction)
      → length actions ≤ fuel
      → order_actions run limits catalog fuel seen actions ≢ out_of_fuel
  unfolding order_actions
  order_actions_fuel fuel seen [] h = λ e. cc
  order_actions_fuel zero seen (a ∷ actions) h = absurd (omega arith)
  order_actions_fuel (suc fuel) seen (a ∷ actions) h = λ e.
      let (ready, others, taken, rest) = round-out_of_fuel fuel seen a actions e in
      let shorter = length-take_ready seen (a ∷ actions) ready others taken in
      order_actions_fuel fuel (set_add seen ready.id) others (omega (arith, shorter, h)) rest

  -- Where each action waits only for earlier ones, the actions run in their own order.
  order_actions-scheduled :
      (fuel : ℕ) (before seen : List String) (actions : List PlannedAction)
      (states : List ActionState)
      → ((id : String) → contains id before ≡ contains id seen)
      → IsScheduled before actions
      → order_actions run limits catalog fuel seen actions ≡ ordered states
      → actions_of states ≡ actions
  unfolding order_actions
  order_actions-scheduled fuel before seen [] states same h e =
      ap actions_of (sym (ordered-injective e))
  order_actions-scheduled zero before seen (a ∷ actions) states same h e =
      absurd (ground (arith, e))
  order_actions-scheduled (suc fuel) before seen (a ∷ actions) states same h e =
      let r = order_actions-IsRound fuel seen a actions states e in
      let first = take_ready-head seen a actions (λ id m. sym (same id) ∙ h.0 id m) in
      let c = check_action-IsChecked run limits catalog seen r.ready r.state r.passed in
      let head : a ≡ r.ready = ground (arith, first, r.taken) in
      let tail : actions ≡ r.others = ground (arith, first, r.taken) in
      let rest =
        order_actions-scheduled fuel (a.id ∷ before) (set_add seen r.ready.id) actions r.rest
          (λ id. ground (arith, contains-set_add seen r.ready.id id, same id, ap (λ x. x.id) head))
          h.1 (cc (tail, r.later)) in
      cc (ap actions_of r.result, head, c.action, rest)

-- The number of the plan's actions is fuel enough for the loop of `execution_contexts`: for no input
-- does it run out, plans with cycles or repeated actions included.
pub execution_contexts-fuel :
    (env : DigestEnv) (input : RunInput) (limits : Limits)
    → execution_contexts env input limits ≢ out_of_fuel
unfolding execution_contexts
execution_contexts-fuel env input limits = ground (
  arith,
  order_actions_fuel input.id limits (catalog_of input.revision) (length input.plan.body.actions) []
      input.plan.body.actions (omega arith),
)

-- What `execution_contexts` has checked where it accepts a run.
execution_contexts-ordered :
    (env : DigestEnv) (input : RunInput) (limits : Limits) (states : List ActionState)
    → execution_contexts env input limits ≡ ordered states
    → order_actions input.id limits
        (catalog_of input.revision)
        (length input.plan.body.actions)
        []
        input.plan.body.actions
      ≡ ordered states
unfolding execution_contexts
execution_contexts-ordered env input limits states e = elim (Bool-cases (are_limits_valid limits)) [
  | inr bad ↦ absurd (ground (arith, bad, e))
  | inl valid ↦ elim (Bool-cases (is_identified env input)) [
    | inr bad ↦ absurd (ground (arith, valid, bad, e))
    | inl known ↦ ground (arith, valid, known, e)
  ]
]

-- The contexts of a run that is accepted are those of the plan's actions, each once. An action
-- stands after every action that it waits for, under an identifier of its own; its kind is that of
-- its detail, its resource and wanted state are those of the revision, and its verification and
-- intent fit them.
pub execution_contexts-IsRunnable :
    (env : DigestEnv) (input : RunInput) (limits : Limits) (states : List ActionState)
    → execution_contexts env input limits ≡ ordered states
    → IsRunnable input.id limits (catalog_of input.revision) [] states
      × Permᴰ input.plan.body.actions (actions_of states)
execution_contexts-IsRunnable env input limits states e =
    order_actions-IsRunnable input.id limits (catalog_of input.revision)
      (length input.plan.body.actions) [] input.plan.body.actions states
      (execution_contexts-ordered env input limits states e)

-- A run that is accepted for a plan of `plan_synchronization` runs the actions in the order in which
-- the plan lists them.
pub execution_contexts-plan_synchronization :
    (planner : PlannerEnv) (request : PlannerInput) (p : PlannedSynchronization)
    → plan_synchronization planner request ≡ planned p
    → (env : DigestEnv) (input : RunInput) (limits : Limits) (states : List ActionState)
    → input.plan ≡ p
    → execution_contexts env input limits ≡ ordered states
    → actions_of states ≡ p.body.actions
execution_contexts-plan_synchronization planner request p made env input limits states same e =
    let made_of = plan_synchronization-IsPlanOf planner request p made in
    let run = execution_contexts-ordered env input limits states e in
    order_actions-scheduled input.id limits (catalog_of input.revision) (length p.body.actions) []
      [] p.body.actions states (λ id. refl) made_of.plan.scheduled
      (subst
        (λ (x : PlannedSynchronization).
          order_actions input.id limits (catalog_of input.revision) (length x.body.actions) []
            x.body.actions
          ≡ ordered states)
        same run)
