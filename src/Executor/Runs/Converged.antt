-- ===== src/Executor/Runs/Converged.antt =====
-- executor.ts: the journal of a run that converges.
use mathlib.Core.List.{reverse, append_assoc, append-nil}
use codexport.Base.{
  true, ◌≡◌, ◌≢◌, refl, sym, ap, ◌∙◌, ◌⊎◌, inl, inr, String, List, [], ◌∷◌, ◌++◌, Option, none,
  some, arith, Option-cases, is_some,
}
use codexport.Domain.Outcome.{
  JournalActionInput, RunOutcome, converged, human_action_required, follower_drift, failed_run,
  interrupted,
}
use codexport.Executor.Contexts.{ActionState, RunInput}
use codexport.Executor.Machine.{Exit, success, failure, Machine, Run, call, journal}
use codexport.Executor.Actions.{
  ActionResult, ResultKind, verified_kind, human_kind, drift_kind, failed_kind, execute_action,
}
use codexport.Executor.Actions.Shapes.{IsClosedTrace, IsSuccess, IsTraced}
use codexport.Executor.Actions.Traced.{execute_action-IsTraced}
use codexport.Executor.Runs.{
  Completed, Progress, push_option, later_reason, start_progress, note_result, undo_all, after_undo,
  after_entry, rolled_back_entry, go_on, run_actions, outcome_of, result_with, execute_ordered,
}

-- The events of actions that succeed one after the other, each at its first attempt.
abbrev pub IsSuccessful : List ActionState → List JournalActionInput → Type 0
IsSuccessful [] events = events ≡ []
IsSuccessful (s ∷ states) events =
    (own : List JournalActionInput) × (rest : List JournalActionInput) × (events ≡ own ++ rest)
    × IsClosedTrace s.action.id 1 IsSuccess own
    × IsSuccessful states rest

List-cases : {A : Type 0} (xs : List A) → (xs ≡ []) ⊎ ((x : A) × (rest : List A) × (xs ≡ x ∷ rest))
List-cases [] = inl refl
List-cases (x ∷ rest) = inr (x, rest, refl)

module _ {W : Type 0} (m : Machine W) (input : RunInput) where
  -- Nothing has failed, drifted or needed a person.
  abbrev IsClean : Progress W → Type 0
  IsClean p = (p.failed_reason ≡ none) × (p.drift ≡ []) × (p.human ≡ [])

  after_entry-reason :
      (c : Completed W) (p : Progress W) (x : Exit (Unit {0}) × Run W)
      → is_some p.failed_reason ≡ true
      → is_some (after_entry m input c p x).0.failed_reason ≡ true
  after_entry-reason c p (success u, r) h = h
  after_entry-reason c p (failure e, r) h = refl

  after_undo-reason :
      (c : Completed W) (p : Progress W) (x : Exit (Unit {0}) × Run W)
      → is_some p.failed_reason ≡ true
      → is_some (after_undo m input c p x).0.failed_reason ≡ true
  after_undo-reason c p (success u, r) h =
      after_entry-reason c p (journal m (rolled_back_entry m input c) r) h
  after_undo-reason c p (failure e, r) h = refl

  undo_all-reason :
      (cs : List (Completed W)) (x : Progress W × Run W)
      → is_some x.0.failed_reason ≡ true
      → is_some (undo_all m input cs x).0.failed_reason ≡ true
  unfolding undo_all
  undo_all-reason [] x h = h
  undo_all-reason (c ∷ cs) (p, r) h =
      undo_all-reason cs (after_undo m input c p (call c.rollback r))
        (after_undo-reason c p (call c.rollback r) h)

  later-some :
      (old reason : Option String)
      → is_some reason ≡ true
      → is_some (later_reason old reason) ≡ true
  later-some old (some reason) h = refl
  later-some old none h = cc

  push-ne-nil : {A : Type 0} (xs : List A) (x : Option A) → is_some x ≡ true → push_option xs x ≢ []
  push-ne-nil xs none h = λ e. cc
  push-ne-nil [] (some x) h = λ e. ground (arith, e)
  push-ne-nil (y ∷ xs) (some x) h = λ e. ground (arith, e)

  -- What a run does from here, if it ends clean.
  abbrev Ends : List ActionState → Progress W × Run W → Progress W × Run W → Type 0
  Ends states (p, r) (p', r') =
      IsClean p'
      → (events : List JournalActionInput) × (r'.journal ≡ r.journal ++ events)
        × IsSuccessful states events

  go_on-Ends :
      (k : ResultKind) (s : ActionState) (states : List ActionState) (result : ActionResult W)
      (p : Progress W) (r r1 : Run W) (own : List JournalActionInput)
      → ((x : Progress W × Run W) → Ends states x (run_actions m input states x))
      → r1.journal ≡ r.journal ++ own
      → IsTraced s.action.id 1 k result own
      → Ends
          (s ∷ states)
          (p, r)
          (go_on m input k states (run_actions m input states) (note_result input s result p, r1))
  unfolding note_result
  go_on-Ends verified_kind s states result p r r1 own ih e (closed, reason, human, drift) clean =
      let (events, added, good) = ih (note_result input s result p, r1) clean in
      (
        own ++ events,
        added ∙ ap (λ l. l ++ events) e ∙ append_assoc r.journal own events,
        (own, events, refl, closed, good),
      )
  go_on-Ends failed_kind s states result p r r1 own ih e (still, reason) clean =
      let x : Progress W × Run W = (note_result input s result p, r1) in
      let bad =
        undo_all-reason (reverse x.0.completed_rollbacks) x
          (later-some p.failed_reason result.reason reason) in
      absurd (ground (arith, bad, clean.0))
  go_on-Ends human_kind s states result p r r1 own ih e (still, reason, human, drift) clean =
      absurd (push-ne-nil p.human result.human human clean.2)
  go_on-Ends drift_kind s states result p r r1 own ih e (still, reason, human, drift) clean =
      absurd (push-ne-nil p.drift result.drift drift clean.1)

  pub run_actions-Ends :
      (states : List ActionState) (x : Progress W × Run W)
      → Ends states x (run_actions m input states x)
  unfolding run_actions
  run_actions-Ends [] (p, r) = λ clean. ([], sym (append-nil r.journal), refl)
  run_actions-Ends (s ∷ states) (p, r) =
      let (own, added, traced) = execute_action-IsTraced m input s 1 r in
      go_on-Ends (execute_action m input s 1 r).0.kind s states (execute_action m input s 1 r).0 p r
        (execute_action m input s 1 r).1 own (run_actions-Ends states) added traced

  IsClean-of_converged :
      (p : Progress W) (run : String) (verified : List String)
      → outcome_of m input p ≡ converged run verified
      → IsClean p
  unfolding outcome_of
  IsClean-of_converged p run verified e = elim (Option-cases p.failed_reason) [
    | inr (reason, bad) ↦ absurd (ground (arith, bad, e))
    | inl fine ↦ elim (List-cases p.drift) [
      | inr (d, ds, bad) ↦ absurd (ground (arith, fine, bad, e))
      | inl straight ↦ elim (List-cases p.human) [
        | inr (h, hs, bad) ↦ absurd (ground (arith, fine, straight, bad, e))
        | inl alone ↦ (fine, straight, alone)
      ]
    ]
  ]

  converged_of_result :
      (o : RunOutcome) (p : Progress W) (r : Run W) (run : String) (verified : List String)
      → (result_with m input o p r).0.outcome ≡ converged run verified
      → o ≡ converged run verified
  unfolding result_with
  converged_of_result (converged run' verified') p r run verified e = e
  converged_of_result (human_action_required run' actions) p r run verified e = e
  converged_of_result (follower_drift run' conflicts) p r run verified e = e
  converged_of_result (failed_run run' reason) p r run verified e = e
  converged_of_result (interrupted run' completed) p r run verified e = e

  journal_of_result :
      (o : RunOutcome) (p : Progress W) (r : Run W)
      → (result_with m input o p r).1.journal ≡ r.journal
  unfolding result_with
  journal_of_result (converged run' verified') p r = refl
  journal_of_result (human_action_required run' actions) p r = refl
  journal_of_result (follower_drift run' conflicts) p r = refl
  journal_of_result (failed_run run' reason) p r = refl
  journal_of_result (interrupted run' completed) p r = refl

  -- A run converges only if every action succeeded: what it has added to the journal are, in the order
  -- of the actions, the events of their first attempts, each of which ends with its success and with
  -- evidence of a verification that passed.
  pub execute_ordered-IsSuccessful :
      (states : List ActionState) (r : Run W) (run : String) (verified : List String)
      → (execute_ordered m input states r).0.outcome ≡ converged run verified
      → (events : List JournalActionInput) × ((execute_ordered m input states r).1.journal
          ≡ r.journal ++ events)
        × IsSuccessful states events
  unfolding execute_ordered
  execute_ordered-IsSuccessful states r run verified e =
      let x = run_actions m input states (start_progress, r) in
      let clean =
        IsClean-of_converged x.0 run verified
          (converged_of_result (outcome_of m input x.0) x.0 x.1 run verified e) in
      let (events, added, good) = run_actions-Ends states (start_progress, r) clean in
      (events, journal_of_result (outcome_of m input x.0) x.0 x.1 ∙ added, good)
