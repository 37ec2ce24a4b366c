-- ===== src/Executor/Actions/Traced.antt =====
-- executor.ts: the journal of `executeSynchronizationAction`.
use codexport.Base.{
  template, Bool, true, false, ◌≡◌, refl, sym, subst, inl, inr, ℕ, String, List, [], ◌∷◌, ◌++◌,
  Option, none, some, arith, All-append, if◌then◌else◌, Bool-cases, is_some,
}
use mathlib.Core.List.{append-nil}
use codexport.Domain.{
  ActionDetail, no_op, transfer_blob, write_file, write_config, mirror_directory, remove_resource,
  install_tool, verify_only, human_action, agent_task, drift_conflict, PlannedAgentTask,
}
use codexport.Domain.Outcome.{not_run, failed_state, skipped, JournalEntry, JournalActionInput}
use codexport.Executor.Contexts.{ActionState, RunInput}
use codexport.Executor.Machine.{
  Exit, success, failure, Prepared, Verification, Machine, Run, Task, pure, call, ◌>>=◌, catch,
  ignoring, journal,
}
use codexport.Executor.Actions.{
  ActionResult, failed_kind, failed_result, human_result, drift_result, conflict_of_drift,
  rollback_of, reference_of, plain_entry, verification_evidence, verify_agent_work,
  finish_agent_task, offer_agent_task, resolvable_task, agent_action_result, accept_prepared,
  reject_prepared, verify_prepared, finish_prepared, execute_prepared, recover_action, work,
  perform, execute_action, after_journal, after_rollback, evidence, unresolved_result,
  accepted_result, accepted_entry, applied_resource_for, prepared_or, never_fails,
}
use codexport.Executor.Actions.Traces.{
  Added, Adds, Adds-pure, Adds-bind, Adds-catch, Adds-journal, Adds-ignoring, Stored,
}
use codexport.Executor.Actions.Shapes.{
  is_open, is_passed, IsOpenTrace, IsClosedTrace, IsSkip, IsTraced, IsTrace, IsTrace-call,
  IsTrace-clock, IsTrace-open, IsTrace-close,
}

module _ {W : Type 0} (m : Machine W) (input : RunInput) (s : ActionState) (attempt : ℕ) where
  abbrev T : List JournalActionInput → List JournalActionInput → Exit (ActionResult W) → Type 0
  T before = IsTrace s.action.id attempt before

  abbrev IsOpen : List JournalActionInput → Type 0
  IsOpen before = IsOpenTrace s.action.id attempt before

  verify_agent_work-trace :
      (before : List JournalActionInput)
      → IsOpen before
      → Adds (T before) (verify_agent_work m input s attempt)
  unfolding verify_agent_work verification_evidence
  verify_agent_work-trace before h = IsTrace-call s.action.id attempt before (m.verify s) _ h (λ v.
      IsTrace-close s.action.id attempt m before _ _ h (λ events time e.
        elim (Bool-cases v.is_passed) [
          | inl p ↦ rw p (
            (
              before,
              record { entry = _; recorded_at = time },
              rw p at e,
              h,
              (refl, refl),
              (refl, ground (arith, p)),
            ),
            refl,
            refl,
            refl,
          )
          | inr p ↦ rw p (
            subst IsOpen (sym e) (All-append _ before _ h (((refl, refl), ground (arith, p)), tt)),
            refl,
          )
        ]))

  IsSkip-closed :
      (before events : List JournalActionInput) (time : String)
      → IsOpen before
      → events
        ≡ before
          ++ record {
            entry = plain_entry input.id s.action.id skipped attempt none;
            recorded_at = time;
          }
            ∷ []
      → IsClosedTrace s.action.id attempt IsSkip events
  IsSkip-closed before events time h e = (
    before,
    record { entry = plain_entry input.id s.action.id skipped attempt none; recorded_at = time },
    e,
    h,
    (refl, refl),
    refl,
  )

  finish_agent_task-trace :
      (summary : String) (before : List JournalActionInput) (applied : Bool)
      → IsOpen before
      → Adds (T before) (finish_agent_task m input s attempt summary applied)
  unfolding finish_agent_task
  finish_agent_task-trace summary before true h = verify_agent_work-trace before h
  finish_agent_task-trace summary before false h =
      IsTrace-close s.action.id attempt m before _ _ h
        (λ events time e. (inr (IsSkip-closed before events time h e), refl, refl, refl))

  offer_agent_task-trace :
      (summary : String) (task : Option PlannedAgentTask)
      → Adds (T []) (offer_agent_task m input s attempt summary task)
  unfolding offer_agent_task
  offer_agent_task-trace summary none =
      IsTrace-close s.action.id attempt m [] _ _ tt
        (λ events time e. (inr (IsSkip-closed [] events time tt e), refl, refl, refl))
  offer_agent_task-trace summary (some task) =
      IsTrace-open s.action.id attempt m [] _ _ tt (refl, refl) refl
        (λ more h.
          IsTrace-call s.action.id attempt more (m.resolve input task) _ h
            (λ applied. finish_agent_task-trace summary more applied h))

  noted-IsOpen :
      (entry : JournalEntry) (before events : List JournalActionInput) (x : Exit (Unit {0}))
      → IsOpen before
      → (entry.action ≡ s.action.id) × (entry.attempt ≡ attempt) × (is_open entry.state ≡ true)
      → Stored entry events x
      → IsOpen (before ++ events)
  noted-IsOpen entry before events (success u) h own (time, e) =
      subst (λ (l : List JournalActionInput). IsOpen (before ++ l)) (sym e)
        (All-append _ before (record { entry = entry; recorded_at = time } ∷ []) h
          (((own.0, own.1), own.2), tt))
  noted-IsOpen entry before events (failure message) h own e =
      subst (λ (l : List JournalActionInput). IsOpen (before ++ l)) (sym e)
        (All-append _ before [] h tt)

  abbrev StillOpen : List JournalActionInput → List JournalActionInput → Exit (Unit {0}) → Type 0
  StillOpen before events e = IsOpen (before ++ events)

  trace_ignored :
      (before : List JournalActionInput) (entry : JournalEntry) (result : ActionResult W)
      → IsOpen before
      → (entry.action ≡ s.action.id) × (entry.attempt ≡ attempt) × (is_open entry.state ≡ true)
      → ((events : List JournalActionInput)
          → IsOpen events
          → IsTraced s.action.id attempt result.kind result events)
      → Adds (T before) (ignoring (journal m entry) >>= (λ _. pure result))
  trace_ignored before entry result h own g =
      Adds-bind (StillOpen before) (T before) (ignoring (journal m entry)) (λ _. pure result)
        (Adds-ignoring (Stored entry) (StillOpen before) (journal m entry) (Adds-journal m entry)
          (λ events x stored. noted-IsOpen entry before events x h own stored))
        (λ u more still.
          Adds-pure (λ events x. T before (more ++ events) x) result
            (g (before ++ (more ++ [])) (
              subst (λ (l : List JournalActionInput). IsOpen (before ++ l)) (sym (append-nil more))
                still)))
        (λ events e still. still)

  agent_action_result-trace :
      (task_id summary : String)
      → Adds (T []) (agent_action_result m input s attempt task_id summary)
  unfolding agent_action_result
  agent_action_result-trace task_id summary =
      Adds-catch (T []) (T []) _ _ (offer_agent_task-trace summary (resolvable_task input task_id))
        (λ result before h. h)
        (λ message before h.
          trace_ignored before _ (unresolved_result m input s attempt message) h (refl, refl, refl)
            (λ events still. (inl still, refl, refl, refl)))

  evidence-passed :
      (v : Verification) → v.is_passed ≡ true → is_passed (some (verification_evidence v)) ≡ true
  unfolding verification_evidence
  evidence-passed v good = ground (arith, good)

  accept_prepared-trace :
      (p : Prepared W) (v : Verification) (before : List JournalActionInput)
      → v.is_passed ≡ true
      → IsOpen before
      → Adds (T before) (accept_prepared m input s attempt p v)
  unfolding accept_prepared accepted_entry
  accept_prepared-trace p v before good h =
      IsTrace-clock s.action.id attempt m before
        (λ now.
          journal m (accepted_entry m input s attempt p v (applied_resource_for m.plan input s now))
          >>= (λ u.
              pure (accepted_result m input s attempt p (applied_resource_for m.plan input s now))))
        h
        (λ now.
          IsTrace-close s.action.id attempt m before
            (accepted_entry m input s attempt p v (applied_resource_for m.plan input s now))
            (accepted_result m input s attempt p (applied_resource_for m.plan input s now)) h
            (λ events time e. (
              (
                before,
                record { entry = _; recorded_at = time },
                e,
                h,
                (refl, refl),
                (refl, evidence-passed v good),
              ),
              refl,
              refl,
              refl,
            )))

  reject_prepared-trace :
      (p : Prepared W) (v : Verification) (before : List JournalActionInput)
      → IsOpen before
      → Adds (T before) (reject_prepared m input s attempt p v)
  unfolding reject_prepared
  reject_prepared-trace p v before h =
      IsTrace-call s.action.id attempt before (rollback_of (some p)) _ h (λ u.
        IsTrace-open s.action.id attempt m before _ _ h (refl, refl) refl
          (λ more still.
            Adds-pure (T more)
              (failed_result
                (template ("verification failed for resource " ∷ s.action.resource ∷ [])))
              (All-append _ more [] still tt, refl)))

  verify_prepared-trace :
      (p : Prepared W) (before : List JournalActionInput)
      → IsOpen before
      → Adds (T before) (verify_prepared m input s attempt p)
  unfolding verify_prepared
  verify_prepared-trace p before h =
      IsTrace-call s.action.id attempt before (m.verify s) _ h (λ v. choose v v.is_passed refl)
    where
      choose :
          (v : Verification) (b : Bool)
          → v.is_passed ≡ b
          → Adds (T before) (
              if b
              then accept_prepared m input s attempt p v
              else reject_prepared m input s attempt p v)
      choose v true good = accept_prepared-trace p v before good h
      choose v false bad = reject_prepared-trace p v before h

  finish_prepared-trace :
      (d : ActionDetail) (p : Prepared W) (before : List JournalActionInput)
      → IsOpen before
      → Adds (T before) (finish_prepared m input s attempt d p)
  unfolding finish_prepared
  finish_prepared-trace (transfer_blob blob bytes) p before h =
      IsTrace-close s.action.id attempt m before _ _ h (λ events time e. (
        (before, record { entry = _; recorded_at = time }, e, h, (refl, refl), (refl, refl)),
        refl,
        refl,
        refl,
      ))
  finish_prepared-trace (remove_resource target paths keys) p before h =
      IsTrace-close s.action.id attempt m before _ _ h (λ events time e. (
        (before, record { entry = _; recorded_at = time }, e, h, (refl, refl), (refl, refl)),
        refl,
        refl,
        refl,
      ))
  finish_prepared-trace no_op p before h = verify_prepared-trace p before h
  finish_prepared-trace (write_file w) p before h = verify_prepared-trace p before h
  finish_prepared-trace (write_config target keys removes) p before h =
      verify_prepared-trace p before h
  finish_prepared-trace (mirror_directory target adds removes) p before h =
      verify_prepared-trace p before h
  finish_prepared-trace (install_tool t) p before h = verify_prepared-trace p before h
  finish_prepared-trace (verify_only method) p before h = verify_prepared-trace p before h
  finish_prepared-trace (human_action reason instructions) p before h =
      verify_prepared-trace p before h
  finish_prepared-trace (agent_task task_id summary) p before h = verify_prepared-trace p before h
  finish_prepared-trace (drift_conflict d) p before h = verify_prepared-trace p before h

  execute_prepared-trace : (p : Prepared W) → Adds (T []) (execute_prepared m input s attempt p)
  unfolding execute_prepared
  execute_prepared-trace p =
      IsTrace-open s.action.id attempt m [] _ _ tt (refl, refl) refl
        (λ more still.
          IsTrace-call s.action.id attempt more p.execute _ still
            (λ u. finish_prepared-trace s.action.detail p more still))

  after_journal-Added :
      (before old : List JournalActionInput) (entry : JournalEntry) (result : ActionResult W)
      (x : Exit (Unit {0}) × Run W)
      → IsOpen before
      → (entry.action ≡ s.action.id) × (entry.attempt ≡ attempt) × (is_open entry.state ≡ true)
      → (result.kind ≡ failed_kind) × (is_some result.reason ≡ true)
      → Added (Stored entry) old x
      → Added (T before) old (after_journal m input s attempt result x)
  after_journal-Added before old entry result (success u, r) h own (kind, reason)
        (events, e, stored) =
      (
        events,
        e,
        subst (λ k. IsTraced s.action.id attempt k result (before ++ events)) (sym kind)
            (noted-IsOpen entry before events (success u) h own stored, reason),
      )
  after_journal-Added before old entry result (failure message, r) h own (kind, reason)
        (events, e, stored) =
      (
        events,
        e,
        subst
            (λ k.
              IsTraced s.action.id attempt k
                (record result { reason = some (m.redact message input.known_secrets) })
                (before ++ events))
            (sym kind) (noted-IsOpen entry before events (failure message) h own stored, refl),
      )

  after_rollback-failed :
      (p : Option (Prepared W)) (e : String) (x : Exit (Unit {0}))
      → ((after_rollback m input s attempt p e x).kind ≡ failed_kind)
        × (is_some (after_rollback m input s attempt p e x).reason ≡ true)
  after_rollback-failed p e (success u) = (refl, refl)
  after_rollback-failed p e (failure undone) = (refl, refl)

  recover_action-trace :
      (p : Option (Prepared W)) (message : String) (before : List JournalActionInput)
      → IsOpen before
      → Adds (T before) (recover_action m input s attempt p message)
  unfolding recover_action call
  recover_action-trace p message before h r =
      let rolled = rollback_of p r.world in
      let entry : JournalEntry =
        record (plain_entry input.id s.action.id failed_state attempt (reference_of p)) {
          verification = some (evidence not_run "action-failed");
        } in
      after_journal-Added before r.journal entry _ _ h (refl, refl, refl)
        (after_rollback-failed p message rolled.0)
        (Adds-journal m entry (record r { world = rolled.1 }))

  prepared_or-Added :
      (old : List JournalActionInput) (x : Exit (Prepared W) × Run W)
      → x.1.journal ≡ old
      → Added (T []) old (prepared_or m input s attempt x)
  prepared_or-Added old (failure e, r) same =
      subst (λ l. Added (T []) l (recover_action m input s attempt none e r)) same
        (recover_action-trace none e [] tt r)
  prepared_or-Added old (success p, r) same =
      subst
        (λ l. Added (T []) l (
          catch (execute_prepared m input s attempt p) (recover_action m input s attempt (some p))
            r))
        same
        (Adds-catch (T []) (T []) _ _ (execute_prepared-trace p) (λ result before h. h)
          (λ message before h. recover_action-trace (some p) message before h) r)

  work-trace : Adds (T []) (work m input s attempt)
  unfolding work call
  work-trace r = prepared_or-Added r.journal (call (m.prepare s) r) refl

  perform-trace : (d : ActionDetail) → Adds (T []) (perform m input s attempt d)
  unfolding perform drift_result
  perform-trace (human_action reason instructions) =
      IsTrace-close s.action.id attempt m [] _ (human_result s.action.resource reason instructions)
        tt (λ events time e. (inr (IsSkip-closed [] events time tt e), refl, refl, refl))
  perform-trace (agent_task task_id summary) = agent_action_result-trace task_id summary
  perform-trace (drift_conflict d) =
      let close : Unit {0} → Task W (ActionResult W) = λ _.
        journal m (plain_entry input.id s.action.id skipped attempt none)
        >>= (λ _. pure (drift_result input s (drift_conflict d))) in
      IsTrace-clock s.action.id attempt m []
        (λ now. call (m.store_drift input.id (conflict_of_drift input s d) now) >>= close) tt
        (λ now.
          IsTrace-call s.action.id attempt []
            (m.store_drift input.id (conflict_of_drift input s d) now) close tt
            (λ u.
              IsTrace-close s.action.id attempt m []
                (plain_entry input.id s.action.id skipped attempt none)
                (drift_result input s (drift_conflict d)) tt
                (λ events time e. (IsSkip-closed [] events time tt e, refl, refl, refl))))
  perform-trace no_op = work-trace
  perform-trace (transfer_blob blob bytes) = work-trace
  perform-trace (write_file w) = work-trace
  perform-trace (write_config target keys removes) = work-trace
  perform-trace (mirror_directory target adds removes) = work-trace
  perform-trace (remove_resource target paths keys) = work-trace
  perform-trace (install_tool t) = work-trace
  perform-trace (verify_only method) = work-trace

  never_fails-Added :
      (old : List JournalActionInput) (x : Exit (ActionResult W) × Run W)
      → Added (T []) old x
      → (events : List JournalActionInput) × ((never_fails m input s attempt x).1.journal
          ≡ old ++ events)
        × IsTraced s.action.id attempt
            (never_fails m input s attempt x).0.kind
            (never_fails m input s attempt x).0
            events
  never_fails-Added old (success result, r) h = h
  never_fails-Added old (failure e, r) (events, added, still) = (events, added, (still, refl))

  -- An action adds events of its own attempt to the journal, and takes none from it. Where its result
  -- is verified, the last of them is its success with evidence that passed, and none before it ends the
  -- attempt; where it is drift, the last is that it was skipped; where it needs a person, it was
  -- skipped or nothing ends the attempt; where it failed, there is a reason, and nothing says that it
  -- succeeded or was skipped.
  pub execute_action-IsTraced :
      (r : Run W)
      → (events : List JournalActionInput) × ((execute_action m input s attempt r).1.journal
          ≡ r.journal ++ events)
        × IsTraced s.action.id attempt
            (execute_action m input s attempt r).0.kind
            (execute_action m input s attempt r).0
            events
  unfolding execute_action
  execute_action-IsTraced r =
      never_fails-Added r.journal (perform m input s attempt s.action.detail r)
        (perform-trace s.action.detail r)
