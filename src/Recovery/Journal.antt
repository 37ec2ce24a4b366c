-- ===== src/Recovery/Journal.antt =====
-- recovery.ts: `validateJournal` and `latestRollbackReference`.
pub mod Done
pub mod Stored
pub mod Accepts
use codexport.Base.{
  Bool, true, false, not, ◌&&◌, ◌||◌, ℕ, zero, suc, String, List, [], ◌∷◌, ◌++◌, map, Option, none,
  some, ◌==◌, string_eq, nat_eq, if◌then◌else◌, is_none, is_some, template, contains, filter, ltb,
  length, set_from, to_set, map_set,
}
use codexport.Base.Decimal.{decimal}
use codexport.Domain.{PlannedAction}
use codexport.Domain.Outcome.{
  VerificationEvidence, VerificationStatus, passed, not_run, status_eq, JournalState, pending,
  succeeded, failed_state, skipped, state_eq, JournalRecord, JournalActionInput,
}

-- The latest event of each action, or the message of the `RecoveryIntegrityError`.
pub data Validated : Type 0 where
  latest_of : List (String × JournalRecord) → Validated
  integrity_error : (message : String) → Validated

-- The loop over the events: each has its index as ordinal, and is of a planned action.
unfoldable pub is_in_order : List String → ℕ → List JournalRecord → Bool
is_in_order planned index [] = true
is_in_order planned index (e ∷ events) =
    e.ordinal == index && contains e.action planned && is_in_order planned (suc index) events

-- `events.get(action)`
unfoldable pub events_of : String → List JournalRecord → List JournalRecord
events_of action events = filter (λ (e : JournalRecord). e.action == action) events

abbrev pub is_pending : JournalRecord → Bool
is_pending e = e.state == pending

-- The initial event is the first, and the only one that is pending.
unfoldable pub has_valid_start : List JournalRecord → Bool
has_valid_start [] = false
has_valid_start (e ∷ events) =
    is_pending e && e.attempt == 0 && length (filter is_pending (e ∷ events)) == 1

-- The attempts start at 1 and do not go back.
unfoldable pub are_attempts_ordered : ℕ → List JournalRecord → Bool
are_attempts_ordered previous [] = true
are_attempts_ordered previous (e ∷ events) =
    not (ltb e.attempt 1 || ltb e.attempt previous) && are_attempts_ordered e.attempt events

abbrev pub is_terminal : JournalRecord → Bool
is_terminal e = e.state == succeeded || e.state == skipped

-- The first event that ends an attempt, and the events after it.
unfoldable pub split_terminal : List JournalRecord → Option (JournalRecord × List JournalRecord)
split_terminal [] = none
split_terminal (e ∷ events) =
    let rest = split_terminal events in if is_terminal e then some (e, events) else rest

abbrev pub is_run_rolled_back : JournalRecord → Bool
is_run_rolled_back e = e.state == failed_state && elim e.verification [
  | none ↦ false
  | some v ↦ v.status == not_run && v.method == "run-rolled-back"
]

-- `completedRollback`
abbrev pub is_completed_rollback : JournalRecord → List JournalRecord → Bool
is_completed_rollback terminal (e ∷ []) = terminal.state == succeeded && is_run_rolled_back e
is_completed_rollback terminal _ = false

abbrev pub is_empty : List JournalRecord → Bool
is_empty [] = true
is_empty (_ ∷ _) = false

-- Nothing follows the end of an attempt but the rollback of its run.
unfoldable pub is_attempt_closed : List JournalRecord → Bool
unfolding split_terminal
is_attempt_closed events = elim (split_terminal events) [
  | none ↦ true
  | some (terminal, later) ↦ is_empty later || is_completed_rollback terminal later
]

-- The events of an attempt.
abbrev pub events_at : ℕ → List JournalRecord → List JournalRecord
events_at attempt events = filter (λ (e : JournalRecord). e.attempt == attempt) events

-- The first attempt of these that is not closed.
unfoldable pub open_end : List ℕ → List JournalRecord → Option ℕ
unfolding is_attempt_closed
open_end [] events = none
open_end (attempt ∷ attempts) events =
    let rest = open_end attempts events in
    if is_attempt_closed (events_at attempt events) then rest else some attempt

abbrev pub lacks_evidence : JournalRecord → Bool
lacks_evidence e =
    e.state == succeeded && not (elim e.verification [ none ↦ false | some v ↦ v.status == passed ])

abbrev pub last_of : JournalRecord → List JournalRecord → JournalRecord
last_of e [] = e
last_of e (x ∷ events) = last_of x events

abbrev pub attempts_of : List JournalRecord → List ℕ
attempts_of events = to_set (map (λ (e : JournalRecord). e.attempt) events)

-- The checks of one action: its latest event, or a message.
pub data CheckedJournal : Type 0 where
  latest : JournalRecord → CheckedJournal
  broken : (message : String) → CheckedJournal

-- The checks behind the start of the journal of an action.
unfoldable pub check_attempts : String → JournalRecord → List JournalRecord → CheckedJournal
unfolding are_attempts_ordered open_end set_from template decimal
check_attempts action first events =
    if not (are_attempts_ordered 0 events)
    then broken (template ("action " ∷ action ∷ " has invalid attempt ordering" ∷ []))
    else elim (open_end (attempts_of events) events) [
      | some attempt ↦ broken (
          template (
            "terminal action "
            ∷ action
            ∷ " attempt "
            ∷ decimal attempt
            ∷ " has later journal events"
            ∷ []))
      | none ↦
          if lacks_evidence (last_of first events)
          then broken (
              template ("succeeded action " ∷ action ∷ " lacks passing verification evidence" ∷ []))
          else latest (last_of first events)
    ]

unfoldable pub check_journal : String → List JournalRecord → CheckedJournal
unfolding has_valid_start check_attempts template
check_journal action [] =
    broken (template ("action " ∷ action ∷ " does not have one valid initial journal event" ∷ []))
check_journal action (e ∷ events) =
    if has_valid_start (e ∷ events)
    then check_attempts action e events
    else broken
        (template ("action " ∷ action ∷ " does not have one valid initial journal event" ∷ []))

-- The loop over the actions.
unfoldable pub check_journals :
    List JournalRecord → List PlannedAction → List (String × JournalRecord) → Validated
unfolding events_of check_journal map_set
check_journals events [] known = latest_of known
check_journals events (a ∷ actions) known = elim (check_journal a.id (events_of a.id events)) [
  | broken message ↦ integrity_error message
  | latest e ↦ check_journals events actions (map_set a.id e known)
]

-- `validateJournal`
unfoldable pub validate_journal : List JournalRecord → List PlannedAction → Validated
unfolding is_in_order check_journals
validate_journal events actions =
    if is_in_order (map (λ (a : PlannedAction). a.id) actions) 0 events
    then check_journals events actions []
    else integrity_error "action journal order or action identity is invalid"

-- `latestRollbackReference`
unfoldable pub latest_rollback_reference : List JournalRecord → String → Option String
latest_rollback_reference [] action = none
latest_rollback_reference (e ∷ events) action =
    let rest = latest_rollback_reference events action in
    elim rest [
      | some reference ↦ some reference
      | none ↦ if e.action == action then e.rollback_reference else none
    ]

-- The events that `startRun` writes: each action of the plan is pending.
unfoldable pub pending_events : ℕ → List PlannedAction → List JournalRecord
pending_events index [] = []
pending_events index (a ∷ actions) =
    record {
      action = a.id;
      ordinal = index;
      state = pending;
      attempt = 0;
      verification = none;
      rollback_reference = none;
      removed_resource = none;
    }
    ∷ pending_events (suc index) actions

-- The event that `journalAction` writes.
abbrev pub record_of : ℕ → JournalActionInput → JournalRecord
record_of index e = record {
  action = e.entry.action;
  ordinal = index;
  state = e.entry.state;
  attempt = e.entry.attempt;
  verification = e.entry.verification;
  rollback_reference = e.entry.rollback_reference;
  removed_resource = e.entry.removed_record;
}

-- The events that `journalAction` writes one after the other.
unfoldable pub stored_events : ℕ → List JournalActionInput → List JournalRecord
stored_events index [] = []
stored_events index (e ∷ events) = record_of index e ∷ stored_events (suc index) events

-- The journal of a run with these actions, after these events.
unfoldable pub stored_journal : List PlannedAction → List JournalActionInput → List JournalRecord
unfolding pending_events stored_events
stored_journal actions events = pending_events 0 actions ++ stored_events (length actions) events
