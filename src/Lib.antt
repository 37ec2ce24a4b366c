-- ===== src/Lib.antt =====
-- Canonfig publishes a machine profile from a Source and converges Followers to it. A run observes
-- each resource, plans actions for it, and applies them. This library models the planning, pure
-- functions from what is wanted, observed and last applied to the actions that are planned, the run
-- that accepts a plan and executes its actions, and the validation of the journal that a run leaves.
--
-- The parts, and the files that model them:
-- - Base: the shared helpers. Lists, sets and maps in the order of insertion (`Set`, `Map`), texts and
--   their order by code units (`compareText`), stable sorting, and the pigeonhole for sets.
-- - Domain: src/domain/resource.ts, src/domain/synchronization.ts, src/domain/profile.ts and
--   src/synchronization/synchronization.types.ts. Interfaces are records, literals and tagged unions
--   are data types, optional fields are options, modes are natural numbers. `Domain.Composition` has
--   the files of src/domain/text-composition.ts, as decoded texts, and `Domain.Outcome` the outcomes of
--   runs and the events of their journal.
-- - Profile: the paths of src/domain/profile.ts. `Profile.Paths` has the normal form of a target and the
--   reasons to refuse one, `Profile.Targets` the claims of resources and `validateResourcePathConflicts`.
-- - Plans: src/synchronization/resource-plans.ts. `Plans.Entries` has the entries of directory trees,
--   their signatures and digests (with `directoryEntriesDigest` of src/profile/profile-codec.ts),
--   `Plans.Matching` the tests against the wanted and the applied state, `Plans.Drift` drift and its
--   conflicts, and `Plans.Replace`, `Plans.Unmodified`, `Plans.Merge`, `Plans.Recipes`,
--   `Plans.Ensure` and `Plans.Dispatch` the Apply Policies, removal and `planResource`. A function
--   keeps its name in snake case: `planAppendLocal` is `plan_append_local`.
-- - Planner: src/synchronization/planner.ts. `Planner.Index` has `indexInput`, `Planner.Order` the
--   order of the resources by their dependencies, `Planner.Validate` the checks of a resource's inputs,
--   which call the validation of paths in Profile, `Planner.Transfers` the blobs to fetch,
--   `Planner.Build` the loops of `buildPlan`, which call `planResource` and `planRemoved` of Plans, and
--   `Planner.Synchronize` their composition, `planSynchronization`.
-- - Executor: src/synchronization/executor.ts. `Executor.Contexts` has the limits of a run and
--   `executionContexts`, which reads the plan that the planner gave, `Executor.Machine` the tasks that
--   call the machine and write the journal, `Executor.Actions` `executeSynchronizationAction` with the
--   resolution of agent tasks and the rollback of an action that fails, and `Executor.Runs`
--   `executeSynchronizationPlan`: the loop over the actions, the rollback of a run, and its outcome.
-- - Recovery: src/synchronization/recovery.ts. `Recovery.Journal` has `validateJournal`, and the events
--   that `startRun` and `journalAction` of src/state/state-repository.layer.ts store.
-- - Examples: the theorems on concrete resources.
--
-- Parameters. `PlanEnv` holds SHA-256, which is Node's, and two functions of other files of the
-- repository: `isMissingAutomaticRecipeVersion` and `isNestedCommandLauncher`. `ValidationEnv` adds
-- `recipeValidationError`, `PlannerEnv` and `DigestEnv` the canonical encoding of a plan's body, and
-- `TextEnv` what the language gives: `trim`, `normalize` and `toLowerCase`. `Machine` is what a run
-- calls: the resource executors, the state repository, the clock, the resolution of agent tasks and
-- the redaction of messages; each call takes the world `W` to an exit and the world after it. Nothing
-- is assumed of them.
--
-- Fuel. `visit` of `orderResources` recurs on a graph that may have cycles; `Planner.Order.visit`
-- takes fuel for its depth, which is `order_fuel`, one more than the number of resources: the stack of
-- active resources is a set of known resources. The loop of `executionContexts` takes the number of
-- actions as fuel: each round takes an action out. Running out is a result of its own in both.
--
-- Digests. `Schema.decodeUnknownSync(ContentDigest)` throws on a text that is no digest. The functions
-- of the Apply Policies give what they return where every call succeeds, `Plans.Decoding` has the texts
-- that each path of `planResource` and `planRemoved` decodes, and `plan_resource` and `plan_withdrawn`
-- throw at the first of them that is no digest.
--
-- Not modelled: the decoding of identifiers by the schema library, limits and exit codes that are no natural numbers, the
-- artifacts of a run (no function here reads them), the interruption of a run and the cleanup of its
-- snapshots, `recoverSynchronizationPlan`, and the code that observes and applies: it is input and
-- output. A run is taken to be alone: no other one writes its journal.
pub mod Base
pub mod Domain
pub mod Profile
pub mod Plans
pub mod Planner
pub mod Executor
pub mod Recovery
pub mod Examples
