-- ===== src/Recovery/Journal/Done.antt =====
-- recovery.ts: the checks of one action whose first attempt succeeded.
use codexport.Base.{
  true, false, ◌≡◌, ℕ, ◌≤◌, String, List, [], ◌∷◌, map, some, arith, string_eq, nat_eq, filter,
  set_from,
}
use codexport.Domain.Outcome.{JournalRecord, succeeded, state_eq}
use codexport.Executor.Actions.Shapes.{is_open, is_passed}
use codexport.Recovery.Journal.{
  has_valid_start, are_attempts_ordered, split_terminal, is_attempt_closed, open_end, attempts_of,
  events_at, lacks_evidence, last_of, is_pending, latest, check_attempts, check_journal,
}

-- An event of the first attempt that does not end it.
abbrev pub IsOpenRecord : JournalRecord → Type 0
IsOpenRecord e = (e.attempt ≡ 1) × (is_open e.state ≡ true)

-- The events of a first attempt that succeeded.
abbrev pub IsDone : List JournalRecord → Type 0
IsDone [] = ⊥
IsDone (e ∷ []) = (e.attempt ≡ 1) × (e.state ≡ succeeded) × (is_passed e.verification ≡ true)
IsDone (e ∷ x ∷ events) = IsOpenRecord e × IsDone (x ∷ events)

pub IsDone-cons :
    (e : JournalRecord) (events : List JournalRecord)
    → IsOpenRecord e
    → IsDone events
    → IsDone (e ∷ events)
IsDone-cons e [] h d = absurd d
IsDone-cons e (x ∷ events) h d = (h, d)

pub IsDone-not_pending :
    (events : List JournalRecord) → IsDone events → filter is_pending events ≡ []
IsDone-not_pending [] d = absurd d
IsDone-not_pending (e ∷ []) d = ground (arith, d)
IsDone-not_pending (e ∷ x ∷ events) (h, d) = ground (arith, h, IsDone-not_pending (x ∷ events) d)

pub IsDone-ordered :
    (n : ℕ) (events : List JournalRecord)
    → n ≤ 1
    → IsDone events
    → are_attempts_ordered n events ≡ true
unfolding are_attempts_ordered
IsDone-ordered n [] k d = absurd d
IsDone-ordered n (e ∷ []) k d = ground (arith, d, k)
IsDone-ordered n (e ∷ x ∷ events) k (h, d) =
    rw (h.0) (ground (arith, k, IsDone-ordered 1 (x ∷ events) (omega arith) d))

pub IsDone-at : (events : List JournalRecord) → IsDone events → events_at 1 events ≡ events
IsDone-at [] d = absurd d
IsDone-at (e ∷ []) d = ground (arith, d)
IsDone-at (e ∷ x ∷ events) (h, d) = ground (arith, h, IsDone-at (x ∷ events) d)

pub IsDone-attempts_from :
    (events : List JournalRecord)
    → IsDone events
    → set_from (1 ∷ []) (map (λ (e : JournalRecord). e.attempt) events) ≡ 1 ∷ []
unfolding set_from
IsDone-attempts_from [] d = absurd d
IsDone-attempts_from (e ∷ []) d = ground (arith, d)
IsDone-attempts_from (e ∷ x ∷ events) (h, d) = rw (h.0) (IsDone-attempts_from (x ∷ events) d)

pub IsDone-attempts : (events : List JournalRecord) → IsDone events → attempts_of events ≡ 1 ∷ []
unfolding set_from
IsDone-attempts [] d = absurd d
IsDone-attempts (e ∷ []) d = ground (arith, d)
IsDone-attempts (e ∷ x ∷ events) (h, d) = rw (h.0) (IsDone-attempts_from (x ∷ events) d)

pub IsDone-closed :
    (events : List JournalRecord)
    → IsDone events
    → (e : JournalRecord) × (split_terminal events ≡ some (e, []))
unfolding split_terminal
IsDone-closed [] d = absurd d
IsDone-closed (e ∷ []) d = (e, ground (arith, d))
IsDone-closed (e ∷ x ∷ events) (h, d) =
    let (last, s) = IsDone-closed (x ∷ events) d in (last, ground (arith, h, s))

pub IsDone-evidence :
    (first : JournalRecord) (events : List JournalRecord)
    → IsDone events
    → lacks_evidence (last_of first events) ≡ false
IsDone-evidence first [] d = absurd d
IsDone-evidence first (e ∷ []) d = ground (arith, d)
IsDone-evidence first (e ∷ x ∷ events) (h, d) = IsDone-evidence e (x ∷ events) d

pub check_journal-latest :
    (action : String) (e : JournalRecord) (events : List JournalRecord)
    → is_pending e ≡ true
    → e.attempt ≡ 0
    → IsDone events
    → (l : JournalRecord) × (check_journal action (e ∷ events) ≡ latest l)
unfolding check_journal check_attempts has_valid_start open_end is_attempt_closed
check_journal-latest action e events p zeroth d =
    let (last, closed) = IsDone-closed events d in
    (
      last_of e events,
      ground (
        arith,
        p,
        zeroth,
        IsDone-not_pending events d,
        IsDone-ordered 0 events (omega arith) d,
        IsDone-attempts events d,
        IsDone-at events d,
        closed,
        IsDone-evidence e events d,
      ),
    )
