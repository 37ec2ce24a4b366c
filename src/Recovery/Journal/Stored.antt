-- ===== src/Recovery/Journal/Stored.antt =====
-- recovery.ts: the stored events of a run whose actions succeeded.
use mathlib.Core.List.{append-nil}
use codexport.Base.{
  true, false, ◌≡◌, refl, sym, ap, ◌∙◌, subst, inl, inr, ℕ, suc, ◌+◌, String, List, [], ◌∷◌, ◌++◌,
  map, arith, All, All-append, ◌==◌, string_eq, nat_eq, eq_iff, Bool-cases, contains, length,
  IsSetList, map_set,
}
use codexport.Domain.{PlannedAction}
use codexport.Domain.Outcome.{JournalRecord, JournalActionInput, state_eq}
use codexport.Executor.Contexts.{ActionState}
use codexport.Executor.Contexts.Sound.{actions_of}
use codexport.Executor.Actions.Shapes.{IsOpenTrace, IsSuccess}
use codexport.Executor.Runs.Converged.{IsSuccessful}
use codexport.Recovery.Journal.{
  latest_of, is_in_order, events_of, is_pending, latest, check_journal, check_journals,
  pending_events, record_of, stored_events,
}
use codexport.Recovery.Journal.Done.{IsDone, IsDone-cons}

pub events_of-append :
    (action : String) (xs ys : List JournalRecord)
    → events_of action (xs ++ ys) ≡ events_of action xs ++ events_of action ys
unfolding events_of
events_of-append action [] ys = refl
events_of-append action (x ∷ xs) ys = ground (arith, events_of-append action xs ys)

pub stored-append :
    (n : ℕ) (xs ys : List JournalActionInput)
    → stored_events n (xs ++ ys) ≡ stored_events n xs ++ stored_events (n + length xs) ys
unfolding stored_events
stored-append n [] ys = ap (λ k. stored_events k ys) (omega arith)
stored-append n (x ∷ xs) ys =
    ap (λ l. record_of n x ∷ l)
      (stored-append (suc n) xs ys
        ∙ ap (λ k. stored_events (suc n) xs ++ stored_events k ys) (omega arith))

pub own-IsDone :
    (action : String) (n : ℕ) (front : List JournalActionInput) (last : JournalActionInput)
    → IsOpenTrace action 1 front
    → last.entry.action ≡ action
    → last.entry.attempt ≡ 1
    → IsSuccess last.entry
    → IsDone (events_of action (stored_events n (front ++ last ∷ [])))
unfolding events_of stored_events
own-IsDone action n [] last h own first good =
    ground (arith, own, eq_iff last.entry.action action, first, good)
own-IsDone action n (x ∷ front) last (((own', first'), still), rest) own first good =
    let keep : (x.entry.action == action) ≡ true = (eq_iff x.entry.action action).1 own' in
    rw keep (
      IsDone-cons (record_of n x) _ (first', still)
        (own-IsDone action (suc n) front last rest own first good))

pub own_other :
    (action other : String) (n : ℕ) (front : List JournalActionInput) (last : JournalActionInput)
    → (other == action) ≡ false
    → IsOpenTrace other 1 front
    → last.entry.action ≡ other
    → events_of action (stored_events n (front ++ last ∷ [])) ≡ []
unfolding events_of stored_events
own_other action other n [] last differ h own = ground (arith, own, differ)
own_other action other n (x ∷ front) last differ (((own', first'), still), rest) own =
    ground (arith, own', differ, own_other action other (suc n) front last differ rest own)

abbrev pub ids_of : List ActionState → List String
ids_of [] = []
ids_of (s ∷ states) = s.action.id ∷ ids_of states

-- The events of an action among those of a run that converged.
pub IsSuccessful-other :
    (action : String) (n : ℕ) (states : List ActionState) (events : List JournalActionInput)
    → contains action (ids_of states) ≡ false
    → IsSuccessful states events
    → events_of action (stored_events n events) ≡ []
unfolding events_of stored_events
IsSuccessful-other action n [] events c e = rw e refl
IsSuccessful-other action n (s ∷ states) events c
      (own, rest, e, (front, last, whole, still, (same, first), good), more) =
    ap (λ l. events_of action (stored_events n l)) e
    ∙ ap (events_of action) (stored-append n own rest)
    ∙ events_of-append action (stored_events n own) (stored_events (n + length own) rest)
    ∙ ap (λ l. l ++ events_of action (stored_events (n + length own) rest))
        (ap (λ l. events_of action (stored_events n l)) whole
          ∙ own_other action s.action.id n front last (ground (arith, c)) still same)
    ∙ IsSuccessful-other action (n + length own) states rest (ground (arith, c)) more

pub IsSuccessful-IsDone :
    (action : String) (n : ℕ) (states : List ActionState) (events : List JournalActionInput)
    → contains action (ids_of states) ≡ true
    → IsSetList (ids_of states)
    → IsSuccessful states events
    → IsDone (events_of action (stored_events n events))
IsSuccessful-IsDone action n [] events c d e = cc
IsSuccessful-IsDone action n (s ∷ states) events c (fresh, d)
      (own, rest, e, (front, last, whole, still, (same, first), good), more) =
    let parts : events_of action (stored_events n events)
        ≡ events_of action (stored_events n (front ++ last ∷ []))
          ++ events_of action (stored_events (n + length own) rest) =
      ap (λ l. events_of action (stored_events n l)) e
      ∙ ap (events_of action) (stored-append n own rest)
      ∙ events_of-append action (stored_events n own) (stored_events (n + length own) rest)
      ∙ ap
          (λ l.
            events_of action (stored_events n l)
            ++ events_of action (stored_events (n + length own) rest))
          whole in
    elim (Bool-cases (s.action.id == action)) [
      | inl here ↦
          let id : s.action.id ≡ action = (eq_iff s.action.id action).0 here in
          let none_later : events_of action (stored_events (n + length own) rest) ≡ [] =
            IsSuccessful-other action (n + length own) states rest
              (subst (λ a. contains a (ids_of states) ≡ false) id fresh) more in
          subst IsDone
            (sym (
              parts
              ∙ ap (λ l. events_of action (stored_events n (front ++ last ∷ [])) ++ l) none_later
              ∙ append-nil _))
            (own-IsDone action n front last (subst (λ a. IsOpenTrace a 1 front) id still)
              (same ∙ id) first good)
      | inr other ↦
          subst IsDone
            (sym (
              parts
              ∙ ap (λ l. l ++ events_of action (stored_events (n + length own) rest))
                  (own_other action s.action.id n front last other still same)))
            (IsSuccessful-IsDone action (n + length own) states rest (ground (arith, other, c)) d
              more)
    ]

-- The pending event of an action.
pub pending_none :
    (n : ℕ) (action : String) (states : List ActionState)
    → contains action (ids_of states) ≡ false
    → events_of action (pending_events n (actions_of states)) ≡ []
unfolding events_of pending_events
pending_none n action [] c = refl
pending_none n action (s ∷ states) c =
    ground (arith, c, pending_none (suc n) action states (ground (arith, c)))

abbrev pub IsPendingOnly : List JournalRecord → Type 0
IsPendingOnly events =
    (e : JournalRecord) × (events ≡ e ∷ []) × (is_pending e ≡ true) × (e.attempt ≡ 0)

pub pending_one :
    (n : ℕ) (action : String) (states : List ActionState)
    → contains action (ids_of states) ≡ true
    → IsSetList (ids_of states)
    → IsPendingOnly (events_of action (pending_events n (actions_of states)))
unfolding events_of pending_events
pending_one n action [] c d = cc
pending_one n action (s ∷ states) c (fresh, d) = elim (Bool-cases (s.action.id == action)) [
  | inl here ↦
      let id : s.action.id ≡ action = (eq_iff s.action.id action).0 here in
      let alone =
        pending_none (suc n) action states
          (subst (λ a. contains a (ids_of states) ≡ false) id fresh) in
      rw (here, alone) (_, refl, refl, refl)
  | inr other ↦ rw other (pending_one (suc n) action states (ground (arith, other, c)) d)
]

pub pending_in_order :
    (named : List String) (n : ℕ) (states : List ActionState) (rest : List JournalRecord)
    → All (λ (s : ActionState). contains s.action.id named ≡ true) states
    → is_in_order named (n + length (actions_of states)) rest ≡ true
    → is_in_order named n (pending_events n (actions_of states) ++ rest) ≡ true
unfolding is_in_order pending_events
pending_in_order named n [] rest h e = subst (λ k. is_in_order named k rest ≡ true) (omega arith) e
pending_in_order named n (s ∷ states) rest (here, h) e =
    let later =
      pending_in_order named (suc n) states rest h
        (subst (λ k. is_in_order named k rest ≡ true) (omega arith) e) in
    ground (arith, here, later)

pub stored_in_order :
    (named : List String) (n : ℕ) (events : List JournalActionInput)
    → All (λ (e : JournalActionInput). contains e.entry.action named ≡ true) events
    → is_in_order named n (stored_events n events) ≡ true
unfolding is_in_order stored_events
stored_in_order named n [] h = refl
stored_in_order named n (e ∷ events) (here, h) =
    ground (arith, here, stored_in_order named (suc n) events h)

pub trace_planned :
    (named : List String) (action : String) (front : List JournalActionInput)
    → contains action named ≡ true
    → IsOpenTrace action 1 front
    → All (λ (e : JournalActionInput). contains e.entry.action named ≡ true) front
trace_planned named action [] c h = tt
trace_planned named action (x ∷ front) c (((own, first), still), h) =
    (subst (λ a. contains a named ≡ true) (sym own) c, trace_planned named action front c h)

abbrev pub IsPlanned : List String → JournalActionInput → Type 0
IsPlanned named e = contains e.entry.action named ≡ true

pub successful-IsPlanned :
    (named : List String) (states : List ActionState) (events : List JournalActionInput)
    → All (λ (s : ActionState). contains s.action.id named ≡ true) states
    → IsSuccessful states events
    → All (IsPlanned named) events
successful-IsPlanned named [] events h e = subst (All (IsPlanned named)) (sym e) tt
successful-IsPlanned named (s ∷ states) events (here, h)
      (own, rest, e, (front, last, whole, still, (same, first), good), more) =
    let ours : All (IsPlanned named) (front ++ last ∷ []) =
      All-append (IsPlanned named) front (last ∷ [])
        (trace_planned named s.action.id front here still)
        (subst (λ a. contains a named ≡ true) (sym same) here, tt) in
    subst (All (IsPlanned named)) (sym e) (
      All-append (IsPlanned named) own rest (subst (All (IsPlanned named)) (sym whole) ours)
        (successful-IsPlanned named states rest h more))

-- The actions of the states are named.
pub All-planned :
    (named : List String) (states : List ActionState)
    → ((id : String) → contains id (ids_of states) ≡ true → contains id named ≡ true)
    → All (λ (s : ActionState). contains s.action.id named ≡ true) states
All-planned named [] h = tt
All-planned named (s ∷ states) h = (
  h s.action.id (ground (arith, eq_iff s.action.id s.action.id)),
  All-planned named states (λ id m. h id (ground (arith, m))),
)

pub contains-ids :
    (id : String) (states : List ActionState)
    → contains id (map (λ (a : PlannedAction). a.id) (actions_of states))
      ≡ contains id (ids_of states)
contains-ids id [] = refl
contains-ids id (s ∷ states) = ground (arith, contains-ids id states)

pub check_journals-latest :
    (events : List JournalRecord) (states : List ActionState)
    (known : List (String × JournalRecord))
    → All
        (λ (s : ActionState).
          (l : JournalRecord) × (check_journal s.action.id (events_of s.action.id events)
            ≡ latest l))
        states
    → (latest : List (String × JournalRecord)) × (check_journals events (actions_of states) known
        ≡ latest_of latest)
unfolding check_journals
check_journals-latest events [] known h = (known, refl)
check_journals-latest events (s ∷ states) known ((l, e), h) =
    let (more, e') = check_journals-latest events states (map_set s.action.id l known) h in
    (more, ground (arith, e, e'))
