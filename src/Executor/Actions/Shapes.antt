-- ===== src/Executor/Actions/Shapes.antt =====
-- executor.ts: what the journal of one action looks like, by the result of the action.
use codexport.Base.{
  Bool, true, false, ◌≡◌, refl, sym, ap, ◌∙◌, subst, ◌⊎◌, ℕ, String, List, [], ◌∷◌, ◌++◌, Option,
  none, some, All, All-append, is_some,
}
use mathlib.Core.List.{append_assoc, append-nil}
use codexport.Domain.Outcome.{
  VerificationEvidence, passed, JournalState, running, succeeded, failed_state, skipped,
  JournalEntry, JournalActionInput,
}
use codexport.Executor.Machine.{
  Exit, success, failure, Machine, Task, pure, call, ◌>>=◌, read_clock, journal,
}
use codexport.Executor.Actions.{
  ActionResult, ResultKind, verified_kind, human_kind, drift_kind, failed_kind,
}
use codexport.Executor.Actions.Traces.{
  Adds, Adds-pure, Adds-call, Adds-bind, Adds-journal, Adds-read_clock, Stored,
}

-- The states that do not end an attempt for good.
abbrev pub is_open : JournalState → Bool
is_open running = true
is_open failed_state = true
is_open _ = false

abbrev pub is_passed : Option VerificationEvidence → Bool
is_passed none = false
is_passed (some e) = elim e.status [ passed ↦ true | _ ↦ false ]

-- An entry of an attempt at an action.
abbrev pub IsOf : String → ℕ → JournalEntry → Type 0
IsOf action attempt e = (e.action ≡ action) × (e.attempt ≡ attempt)

abbrev pub IsOpenEvent : String → ℕ → JournalActionInput → Type 0
IsOpenEvent action attempt e = IsOf action attempt e.entry × (is_open e.entry.state ≡ true)

-- Events that do not end the attempt.
abbrev pub IsOpenTrace : String → ℕ → List JournalActionInput → Type 0
IsOpenTrace action attempt events = All (IsOpenEvent action attempt) events

-- Events of which the last ends the attempt.
abbrev pub IsClosedTrace : String → ℕ → (JournalEntry → Type 0) → List JournalActionInput → Type 0
IsClosedTrace action attempt P events =
    (front : List JournalActionInput) × (last : JournalActionInput) × (events ≡ front ++ last ∷ [])
    × IsOpenTrace action attempt front
    × IsOf action attempt last.entry
    × P last.entry

abbrev pub IsSuccess : JournalEntry → Type 0
IsSuccess e = (e.state ≡ succeeded) × (is_passed e.verification ≡ true)

abbrev pub IsSkip : JournalEntry → Type 0
IsSkip e = e.state ≡ skipped

-- The journal and the result of an action, by the kind of the result.
abbrev pub IsTraced :
    {W : Type 0} → String → ℕ → ResultKind → ActionResult W → List JournalActionInput → Type 0
IsTraced action attempt verified_kind result events =
    IsClosedTrace action attempt IsSuccess events
    × (result.reason ≡ none)
    × (result.human ≡ none)
    × (result.drift ≡ none)
IsTraced action attempt human_kind result events =
    (IsOpenTrace action attempt events ⊎ IsClosedTrace action attempt IsSkip events)
    × (result.reason ≡ none)
    × (is_some result.human ≡ true)
    × (result.drift ≡ none)
IsTraced action attempt drift_kind result events =
    IsClosedTrace action attempt IsSkip events
    × (result.reason ≡ none)
    × (result.human ≡ none)
    × (is_some result.drift ≡ true)
IsTraced action attempt failed_kind result events =
    IsOpenTrace action attempt events × (is_some result.reason ≡ true)

open_nil :
    (action : String) (attempt : ℕ) (before : List JournalActionInput)
    → IsOpenTrace action attempt before
    → IsOpenTrace action attempt (before ++ [])
open_nil action attempt before h = All-append (IsOpenEvent action attempt) before [] h tt

abbrev NoEvents : {A : Type 0} → List JournalActionInput → Exit A → Type 0
NoEvents events e = events ≡ []

module _ {W : Type 0} (action : String) (attempt : ℕ) where
  -- With the events `before` of the same attempt.
  abbrev pub IsTrace :
      List JournalActionInput → List JournalActionInput → Exit (ActionResult W) → Type 0
  IsTrace before events (success result) =
      IsTraced action attempt result.kind result (before ++ events)
  IsTrace before events (failure e) = IsOpenTrace action attempt (before ++ events)

  pub Adds-weaken :
      {A : Type 0} (P Q : List JournalActionInput → Exit A → Type 0) (t : Task W A)
      → ((events : List JournalActionInput) (e : Exit A) → P events e → Q events e)
      → Adds P t
      → Adds Q t
  Adds-weaken P Q t f h r = let (events, e, p) = h r in (events, e, f events (t r).0 p)

  IsTrace-assoc :
      (before more events : List JournalActionInput) (e : Exit (ActionResult W))
      → IsTrace (before ++ more) events e
      → IsTrace before (more ++ events) e
  IsTrace-assoc before more events (success result) h =
      subst (λ (l : List JournalActionInput). IsTraced action attempt result.kind result l)
        (append_assoc before more events) h
  IsTrace-assoc before more events (failure e) h =
      subst (λ (l : List JournalActionInput). IsOpenTrace action attempt l)
        (append_assoc before more events) h

  -- A call of the machine within an attempt.
  pub IsTrace-call :
      {A : Type 0} (before : List JournalActionInput) (f : W → Exit A × W)
      (k : A → Task W (ActionResult W))
      → IsOpenTrace action attempt before
      → ((a : A) → Adds (IsTrace before) (k a))
      → Adds (IsTrace before) (call f >>= k)
  IsTrace-call before f k h g =
      Adds-bind NoEvents (IsTrace before) (call f) k (Adds-call NoEvents f (λ e. refl))
        (λ a more e.
          subst
            (λ (l : List JournalActionInput).
              Adds (λ events x. IsTrace before (l ++ events) x) (k a))
            (sym e) (g a))
        (λ events e n.
          subst (λ (l : List JournalActionInput). IsOpenTrace action attempt (before ++ l)) (sym n)
            (open_nil action attempt before h))

  pub IsTrace-clock :
      (m : Machine W) (before : List JournalActionInput) (k : String → Task W (ActionResult W))
      → IsOpenTrace action attempt before
      → ((time : String) → Adds (IsTrace before) (k time))
      → Adds (IsTrace before) (read_clock m >>= k)
  IsTrace-clock m before k h g =
      Adds-bind NoEvents (IsTrace before) (read_clock m) k (Adds-read_clock m NoEvents (λ e. refl))
        (λ a more e.
          subst
            (λ (l : List JournalActionInput).
              Adds (λ events x. IsTrace before (l ++ events) x) (k a))
            (sym e) (g a))
        (λ events e n.
          subst (λ (l : List JournalActionInput). IsOpenTrace action attempt (before ++ l)) (sym n)
            (open_nil action attempt before h))

  -- An entry that leaves the attempt open.
  pub IsTrace-open :
      (m : Machine W) (before : List JournalActionInput) (entry : JournalEntry)
      (k : Unit {0} → Task W (ActionResult W))
      → IsOpenTrace action attempt before
      → IsOf action attempt entry
      → is_open entry.state ≡ true
      → ((more : List JournalActionInput)
          → IsOpenTrace action attempt more
          → Adds (IsTrace more) (k tt))
      → Adds (IsTrace before) (journal m entry >>= k)
  IsTrace-open m before entry k h own still g =
      Adds-bind (Stored entry) (IsTrace before) (journal m entry) k (Adds-journal m entry)
        (λ u more (time, e).
          Adds-weaken (IsTrace (before ++ more)) (λ events x. IsTrace before (more ++ events) x)
            (k tt) (λ events x. IsTrace-assoc before more events x)
            (g (before ++ more) (
              subst (λ (l : List JournalActionInput). IsOpenTrace action attempt (before ++ l))
                (sym e)
                (All-append (IsOpenEvent action attempt) before
                  (record { entry = entry; recorded_at = time } ∷ []) h ((own, still), tt)))))
        (λ events e n.
          subst (λ (l : List JournalActionInput). IsOpenTrace action attempt (before ++ l)) (sym n)
            (open_nil action attempt before h))

  -- An entry that ends the attempt, and the result.
  pub IsTrace-close :
      (m : Machine W) (before : List JournalActionInput) (entry : JournalEntry)
      (result : ActionResult W)
      → IsOpenTrace action attempt before
      → ((events : List JournalActionInput) (time : String)
          → events ≡ before ++ record { entry = entry; recorded_at = time } ∷ []
          → IsTraced action attempt result.kind result events)
      → Adds (IsTrace before) (journal m entry >>= (λ _. pure result))
  IsTrace-close m before entry result h g =
      Adds-bind (Stored entry) (IsTrace before) (journal m entry) (λ _. pure result)
        (Adds-journal m entry)
        (λ u more (time, e).
          Adds-pure (λ events x. IsTrace before (more ++ events) x) result
            (g (before ++ (more ++ [])) time (ap (λ l. before ++ l) (append-nil more ∙ e))))
        (λ events e n.
          subst (λ (l : List JournalActionInput). IsOpenTrace action attempt (before ++ l)) (sym n)
            (open_nil action attempt before h))
