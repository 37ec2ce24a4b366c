-- ===== src/Domain/Outcome.antt =====
-- src/domain/synchronization.ts and src/state/state-repository.types.ts: how a run ends, and what its
-- journal holds.
use codexport.Base.{Bool, true, false, ℕ, String, List, Option, arith, ◌≡◌, ◌↔◌, Eq}
use codexport.Domain.Observed.{AppliedRecord}

pub record HumanAction : Type 0 where
  pub reason : String
  pub instructions : String
  pub resource : Option String

pub record DriftConflict : Type 0 where
  pub resource : String
  pub target : String
  pub desired_digest : String
  pub observed_digest : String
  pub last_applied_digest : String
  pub desired_executable : Option Bool
  pub observed_executable : Option Bool
  pub desired_mode : Option ℕ
  pub observed_mode : Option ℕ

-- `SynchronizationOutcome`
pub data RunOutcome : Type 0 where
  converged : (run : String) (verified : List String) → RunOutcome
  human_action_required : (run : String) (actions : List HumanAction) → RunOutcome
  follower_drift : (run : String) (conflicts : List DriftConflict) → RunOutcome
  failed_run : (run reason : String) → RunOutcome
  interrupted : (run : String) (completed_actions : List String) → RunOutcome

-- The run of an outcome.
abbrev pub outcome_run : RunOutcome → String
outcome_run (converged run _) = run
outcome_run (human_action_required run _) = run
outcome_run (follower_drift run _) = run
outcome_run (failed_run run _) = run
outcome_run (interrupted run _) = run

pub data VerificationStatus : Type 0 where
  passed failed not_run : VerificationStatus

-- `VerificationEvidence`, with exit codes that are natural numbers.
pub record VerificationEvidence : Type 0 where
  pub status : VerificationStatus
  pub method : String
  pub observed_digest : Option String
  pub exit_code : Option ℕ

-- `ActionJournalState`
pub data JournalState : Type 0 where
  pending running succeeded failed_state skipped : JournalState

abbrev pub status_beq : VerificationStatus → VerificationStatus → Bool
status_beq passed passed = true
status_beq failed failed = true
status_beq not_run not_run = true
status_beq _ _ = false

pub status_beq_iff : (a b : VerificationStatus) → (status_beq a b ≡ true) ↔ (a ≡ b)
status_beq_iff a b = ground arith

instance abbrev pub status_eq : Eq VerificationStatus
status_eq = record { beq = status_beq; beq_iff = status_beq_iff }

abbrev pub state_beq : JournalState → JournalState → Bool
state_beq pending pending = true
state_beq running running = true
state_beq succeeded succeeded = true
state_beq failed_state failed_state = true
state_beq skipped skipped = true
state_beq _ _ = false

pub state_beq_iff : (a b : JournalState) → (state_beq a b ≡ true) ↔ (a ≡ b)
state_beq_iff a b = ground arith

instance abbrev pub state_eq : Eq JournalState
state_eq = record { beq = state_beq; beq_iff = state_beq_iff }

-- `JournalActionInput`, without its time.
pub record JournalEntry : Type 0 where
  pub run : String
  pub action : String
  pub state : JournalState
  pub attempt : ℕ
  pub verification : Option VerificationEvidence
  pub rollback_reference : Option String
  pub applied_resource : Option AppliedRecord
  pub removed_resource : Option String
  pub removed_record : Option AppliedRecord

pub record JournalActionInput : Type 0 where
  pub entry : JournalEntry
  pub recorded_at : String

-- `ActionJournalRecord`, without its time.
pub record JournalRecord : Type 0 where
  pub action : String
  pub ordinal : ℕ
  pub state : JournalState
  pub attempt : ℕ
  pub verification : Option VerificationEvidence
  pub rollback_reference : Option String
  pub removed_resource : Option AppliedRecord
