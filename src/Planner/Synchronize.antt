-- ===== src/Planner/Synchronize.antt =====
-- planner.ts: `planSynchronization`. The encoding of a plan is `encodePlan`, a function of its body.
pub mod Accepted
pub mod Validated
pub mod Indexed
pub mod Live
use codexport.Base.{String, List, Option, none, some}
use codexport.Domain.{PlannedAction, PlannedAgentTask, PublishedResource}
use codexport.Plans.Env.{Thrown}
use codexport.Planner.Data.{PlannerInput, IndexedInput, PlanningError, Result, ok, fail}
use codexport.Planner.Index.{index_input}
use codexport.Planner.Order.{order_resources}
use codexport.Planner.Validate.{ValidationEnv, validate_resource_inputs}
use codexport.Planner.Transfers.{TransferPlan, plan_transfers}
use codexport.Planner.Build.{build_plan, Building, built, thrown}

-- `PlanBody`
pub record PlanBody : Type 0 where
  pub revision : String
  pub follower : String
  pub required_blobs : List String
  pub actions : List PlannedAction
  pub agent_tasks : List PlannedAgentTask

-- `PlannedSynchronization`
pub record PlannedSynchronization : Type 0 where
  pub body : PlanBody
  pub digest : String
  pub encoded : String

pub record PlannerEnv : Type 0 where
  pub validation : ValidationEnv
  pub encode : PlanBody → String

-- A plan, an error of the typed channel, or what is thrown.
pub data Outcome : Type 0 where
  planned : PlannedSynchronization → Outcome
  refused : PlanningError → Outcome
  died : Thrown → Outcome

module _ (env : PlannerEnv) where
  -- The result of `buildPlan`.
  unfoldable pub hydrate : PlannerInput → TransferPlan → Building → PlannedSynchronization
  hydrate input transfer b =
      let body : PlanBody = record {
        revision = input.revision.id;
        follower = input.follower;
        required_blobs = transfer.required_blobs;
        actions = b.actions;
        agent_tasks = b.tasks;
      } in
      let encoded : String = env.encode body in
      record { body = body; digest = env.validation.plan.sha256_hex encoded; encoded = encoded }

  -- `planSynchronization`, from the transfers on.
  unfoldable pub synchronize_ordered :
      PlannerInput → IndexedInput → List PublishedResource → Outcome
  unfolding plan_transfers build_plan hydrate
  synchronize_ordered input indexed ordered =
      elim (plan_transfers ordered indexed.blobs input.available_blobs) [
        | fail error ↦ refused error
        | ok transfer ↦ elim (build_plan env.validation.plan input indexed transfer ordered) [
          | thrown error ↦ died error
          | built b ↦ planned (hydrate input transfer b)
        ]
      ]

  -- `planSynchronization`
  unfoldable pub plan_synchronization : PlannerInput → Outcome
  unfolding index_input order_resources validate_resource_inputs synchronize_ordered
  plan_synchronization input = elim (index_input input) [
    | fail error ↦ refused error
    | ok indexed ↦ elim (order_resources indexed.resources) [
      | fail error ↦ refused error
      | ok ordered ↦ elim (validate_resource_inputs env.validation ordered indexed input.platform) [
        | some error ↦ refused error
        | none ↦ synchronize_ordered input indexed ordered
      ]
    ]
  ]
