-- ===== src/Executor/Actions/Traces.antt =====
-- executor.ts: the events that one action writes to the journal.
use codexport.Base.{◌≡◌, refl, sym, ap, ◌∙◌, String, List, [], ◌∷◌, ◌++◌}
use mathlib.Core.List.{append_assoc, append-nil}
use codexport.Domain.Outcome.{JournalEntry, JournalActionInput}
use codexport.Executor.Machine.{
  Exit, success, failure, Machine, Run, Task, pure, call, ◌>>=◌, after, catch, caught, ignored,
  ignoring, kept, read_clock, journal,
}

-- The events that an exit has added to a journal. `P` tells of the events and the exit.
abbrev pub Added :
    {W A : Type 0}
    → (List JournalActionInput → Exit A → Type 0)
    → List JournalActionInput
    → Exit A × Run W
    → Type 0
Added P old (e, r) = (events : List JournalActionInput) × (r.journal ≡ old ++ events) × P events e

-- A task adds events to the journal, and takes nothing from it.
abbrev pub Adds : {W A : Type 0} → (List JournalActionInput → Exit A → Type 0) → Task W A → Type 0
Adds {W} {A} P t = (r : Run W) → Added P r.journal (t r)

module _ {W : Type 0} {A : Type 0} where
  pub Adds-pure :
      (P : List JournalActionInput → Exit A → Type 0) (a : A)
      → P [] (success a)
      → Adds {W = W} P (pure a)
  Adds-pure P a h r = ([], sym (append-nil r.journal), h)

  pub Adds-call :
      (P : List JournalActionInput → Exit A → Type 0) (f : W → Exit A × W)
      → ((e : Exit A) → P [] e)
      → Adds P (call f)
  unfolding call
  Adds-call P f h r = ([], sym (append-nil r.journal), h (f r.world).0)

  module _ {B : Type 0} (P : List JournalActionInput → Exit A → Type 0)
      (Q : List JournalActionInput → Exit B → Type 0) where
    after-Added :
        (k : A → Task W B) (old : List JournalActionInput) (x : Exit A × Run W)
        → Added P old x
        → ((a : A) (before : List JournalActionInput)
            → P before (success a)
            → Adds (λ events e. Q (before ++ events) e) (k a))
        → ((events : List JournalActionInput) (e : String)
            → P events (failure e)
            → Q events (failure e))
        → Added Q old (after x k)
    after-Added k old (success a, r) (events, e, p) f g =
        let (more, e', q) = f a events p r in
        (events ++ more, e' ∙ ap (λ l. l ++ more) e ∙ append_assoc old events more, q)
    after-Added k old (failure message, r) (events, e, p) f g = (events, e, g events message p)

    pub Adds-bind :
        (t : Task W A) (k : A → Task W B)
        → Adds P t
        → ((a : A) (before : List JournalActionInput)
            → P before (success a)
            → Adds (λ events e. Q (before ++ events) e) (k a))
        → ((events : List JournalActionInput) (e : String)
            → P events (failure e)
            → Q events (failure e))
        → Adds Q (t >>= k)
    unfolding ◌>>=◌
    Adds-bind t k h f g r = after-Added k r.journal (t r) (h r) f g

  module _ (P Q : List JournalActionInput → Exit A → Type 0) where
    caught-Added :
        (k : String → Task W A) (old : List JournalActionInput) (x : Exit A × Run W)
        → Added P old x
        → ((a : A) (before : List JournalActionInput) → P before (success a) → Q before (success a))
        → ((e : String) (before : List JournalActionInput)
            → P before (failure e)
            → Adds (λ events x. Q (before ++ events) x) (k e))
        → Added Q old (caught x k)
    caught-Added k old (success a, r) (events, e, p) f g = (events, e, f a events p)
    caught-Added k old (failure message, r) (events, e, p) f g =
        let (more, e', q) = g message events p r in
        (events ++ more, e' ∙ ap (λ l. l ++ more) e ∙ append_assoc old events more, q)

    pub Adds-catch :
        (t : Task W A) (k : String → Task W A)
        → Adds P t
        → ((a : A) (before : List JournalActionInput) → P before (success a) → Q before (success a))
        → ((e : String) (before : List JournalActionInput)
            → P before (failure e)
            → Adds (λ events x. Q (before ++ events) x) (k e))
        → Adds Q (catch t k)
    unfolding catch
    Adds-catch t k h f g r = caught-Added k r.journal (t r) (h r) f g

-- What storing one entry adds: that entry where it succeeds, and nothing where it fails.
abbrev pub Stored : JournalEntry → List JournalActionInput → Exit (Unit {0}) → Type 0
Stored entry events (success _) =
    (time : String) × (events ≡ record { entry = entry; recorded_at = time } ∷ [])
Stored entry events (failure _) = events ≡ []

module _ {W : Type 0} (m : Machine W) where
  kept-Added :
      (old : List JournalActionInput) (entry : JournalEntry) (time : String)
      (x : Exit (Unit {0}) × W)
      → Added (Stored entry) old (kept old (record { entry = entry; recorded_at = time }) x)
  kept-Added old entry time (success u, w) =
      (record { entry = entry; recorded_at = time } ∷ [], refl, (time, refl))
  kept-Added old entry time (failure e, w) = ([], sym (append-nil old), refl)

  pub Adds-journal : (entry : JournalEntry) → Adds (Stored entry) (journal m entry)
  unfolding journal
  Adds-journal entry r =
      let event : JournalActionInput = record { entry = entry; recorded_at = (m.now r.world).0 } in
      kept-Added r.journal entry (m.now r.world).0 (m.store event (m.now r.world).1)

  pub Adds-read_clock :
      (P : List JournalActionInput → Exit String → Type 0)
      → ((time : String) → P [] (success time))
      → Adds P (read_clock m)
  unfolding read_clock
  Adds-read_clock P h r = ([], sym (append-nil r.journal), h (m.now r.world).0)

module _ {W : Type 0} (P Q : List JournalActionInput → Exit (Unit {0}) → Type 0) where
  ignored-Added :
      (old : List JournalActionInput) (x : Exit (Unit {0}) × Run W)
      → Added P old x
      → ((events : List JournalActionInput) (e : Exit (Unit {0}))
          → P events e
          → Q events (success tt))
      → Added Q old (ignored x)
  ignored-Added old (x, r) (events, e, p) f = (events, e, f events x p)

  pub Adds-ignoring :
      (t : Task W (Unit {0}))
      → Adds P t
      → ((events : List JournalActionInput) (e : Exit (Unit {0}))
          → P events e
          → Q events (success tt))
      → Adds Q (ignoring t)
  unfolding ignoring
  Adds-ignoring t h f r = ignored-Added r.journal (t r) (h r) f
