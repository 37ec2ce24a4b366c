-- ===== src/Executor/Machine.antt =====
-- What a run of executor.ts does step by step: the machine, the journal, and tasks that may fail.
use codexport.Base.{ℕ, Bool, String, List, [], ◌∷◌, ◌++◌, Option}
use codexport.Domain.{PlannedAgentTask}
use codexport.Domain.Outcome.{DriftConflict, JournalEntry, JournalActionInput}
use codexport.Plans.Env.{PlanEnv}
use codexport.Executor.Contexts.{ActionState, RunInput}

-- A value, or an error with its message.
pub data Exit (A : Type 0) : Type 0 where
  success : A → Exit A
  failure : (message : String) → Exit A

-- An effect on the machine, which fails or not.
abbrev pub Effect : Type 0 → Type 0
Effect W = W → Exit (Unit {0}) × W

-- `Effect.void`
abbrev pub void_effect : {W : Type 0} → Effect W
void_effect w = (success tt, w)

-- `PreparedResourceAction`
pub record Prepared (W : Type 0) : Type 0 where
  pub reference : Option String
  pub execute : Effect W
  pub rollback : Option (Effect W)

-- `ResourceVerification`
pub record Verification : Type 0 where
  pub is_passed : Bool
  pub method : String
  pub observed_digest : Option String
  pub exit_code : Option ℕ

-- What the executor calls: the resource executors, the state repository, the clock, the resolution of
-- agent tasks, and the redaction of messages. `W` is the state of the machine.
pub record Machine (W : Type 0) : Type 0 where
  pub plan : PlanEnv
  pub prepare : ActionState → W → Exit (Prepared W) × W
  pub verify : ActionState → W → Exit Verification × W
  pub store : JournalActionInput → Effect W
  pub store_drift : (run : String) → DriftConflict → (recorded_at : String) → Effect W
  pub now : W → String × W
  pub resolve : RunInput → PlannedAgentTask → W → Exit Bool × W
  pub redact : String → List String → String

-- The machine, and the events that the repository has stored in this run.
pub record Run (W : Type 0) : Type 0 where
  pub world : W
  pub journal : List JournalActionInput

abbrev pub Task : Type 0 → Type 0 → Type 0
Task W A = Run W → Exit A × Run W

module _ {W : Type 0} {A : Type 0} where
  abbrev pub pure : A → Task W A
  pure a r = (success a, r)

  -- A call of the machine.
  unfoldable pub call : (W → Exit A × W) → Task W A
  call f r = let (e, w) = f r.world in (e, record r { world = w })

  abbrev pub after : {B : Type 0} → Exit A × Run W → (A → Task W B) → Exit B × Run W
  after (success a, r) k = k a r
  after (failure e, r) k = (failure e, r)

  infixl 5 ◌>>=◌
  unfoldable pub ◌>>=◌ : {B : Type 0} → Task W A → (A → Task W B) → Task W B
  ◌>>=◌ t k r = after (t r) k

  abbrev pub caught : Exit A × Run W → (String → Task W A) → Exit A × Run W
  caught (success a, r) k = (success a, r)
  caught (failure e, r) k = k e r

  -- `Effect.catch`
  unfoldable pub catch : Task W A → (String → Task W A) → Task W A
  catch t k r = caught (t r) k

module _ {W : Type 0} where
  -- `Effect.ignore`
  abbrev pub ignored : Exit (Unit {0}) × Run W → Exit (Unit {0}) × Run W
  ignored (e, r) = (success tt, r)

  unfoldable pub ignoring : Task W (Unit {0}) → Task W (Unit {0})
  ignoring t r = ignored (t r)

  abbrev pub kept :
      List JournalActionInput → JournalActionInput → Exit (Unit {0}) × W → Exit (Unit {0}) × Run W
  kept events event (success u, w) =
      (success u, record { world = w; journal = events ++ event ∷ [] })
  kept events event (failure e, w) = (failure e, record { world = w; journal = events })

  -- The clock, which does not fail.
  unfoldable pub read_clock : Machine W → Task W String
  read_clock m r = let (time, w) = m.now r.world in (success time, record r { world = w })

  -- `journal`
  unfoldable pub journal : Machine W → JournalEntry → Task W (Unit {0})
  journal m entry r =
      let (time, w) = m.now r.world in
      let event : JournalActionInput = record { entry = entry; recorded_at = time } in
      kept r.journal event (m.store event w)
