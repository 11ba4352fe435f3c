-- ===== src/Lib.antt =====
-- Intent Rebase: the versions of intents, the rebase engine, the compensation service and the graph
-- of causal lineage, modelled and verified.
--
-- The program keeps versions of intents. The engine compares two versions, rates the risk of the
-- difference and plans the rebase; a guard decides whether the plan is applied on its own. When a
-- rebase changes an intent, side effects that already happened have to be compensated, and the
-- artefacts that depend on the intent are found in a graph.
--
-- crates/rebase-engine, in Engine:
--   Engine/Types.antt          the sections of crates/intent-rebase-types/src/intent.rs
--   Engine/Diff                diff.rs: the matching by key (Keyed), the walk of the scope lists
--                              (Scope), the diffs of the sections and of a version (Defs)
--   Engine/Risk                risk.rs and rules.rs: severity, statistics of the matching, confidence
--                              and manual review
--   Engine/Plan                planner.rs: the decision class, the checkpoint and the plan
--   Engine/Revalidation.antt   approval_revalidation.rs: the approvals that become stale
--   Engine/Facade.antt         lib.rs: compute_diff and generate_plan
--   Engine/RulePacks           rule_pack.rs, rule_pack_registry.rs: the packs (Defs), one call (Calls)
--                              and sequences of calls (History)
--   Engine/Examples.antt       two versions of an intent
-- crates/rebase-orchestrator, in Orchestrator:
--   Orchestrator/Pipeline.antt   apply_pipeline.rs: the guards of the apply pipeline
--   Orchestrator/Gate.antt       from two versions over the plan to the outcome of the pipeline
--   Orchestrator/Updater.antt    graph_updater.rs: the updates of node states, in batches
--   Orchestrator/Settling.antt   what one such update leaves in the graph
--   Orchestrator/Updates.antt    what a batch leaves, and the signals it gives
--
-- crates/compensation-service, in Compensation:
--   Compensation/SideEffect.antt    side_effect.rs: the classes S0 to S4 and the record
--   Compensation/Action             compensation_action.rs: the action, the retry policy (Retry), the
--                                   table of transitions (Transition)
--   Compensation/Repo               compensation_action_repo.rs: the in-memory repository with its
--                                   indexes and the optimistic lock
--   Compensation/Planner.antt       compensation_planner.rs: from side effects to actions
--   Compensation/Executor.antt      the four bounded executors
--   Compensation/Service            compensation_action_service.rs: create, approve, waive, execute,
--                                   reapprove, the dead letter queue and the batch candidates, with
--                                   the writes that check no transition (Writes)
--   Compensation/Gate.antt          the policy gate and the coordination status of an action
--   Compensation/Proposal           the dry run: what may be done with explicit actions
--   Compensation/Run.antt           orchestration_run.rs and the store of runs
--   Compensation/Runtime            orchestration_runtime.rs: one pass over explicit actions
--   Compensation/Mappings.antt      the texts of the enumerations in the database
--   Compensation/Examples.antt      concrete inputs
-- The planner makes actions, the service stores them and moves them through their statuses by the
-- repository's locked writes, with the executors in between, and the runtime calls the service for
-- each action of a run.
--
-- crates/graph-service, in Graph:
--   Graph/Types.antt        the nodes and edges of crates/intent-rebase-types/src/graph.rs
--   Graph/Store             in_memory.rs: the tenant-scoped store of nodes and edges
--   Graph/Traversal         traversal.rs: reachability by breadth-first search: the nodes it returns
--                           (Soundness, Completeness) and the start among them (Start)
--   Graph/Classification    classification.rs: the loop (Defs, Fuel), the nodes that a change affects
--                           (Affects) and that just these are classified (Soundness, Completeness,
--                           with the levels of the queue in Near and Levels)
--   Graph/Reevaluation      edge_reevaluation.rs: the edges into a version with a stale end
--   Graph/Mappings.antt     type_mappings.rs: the texts of the enumerations in the database
--   Graph/Examples.antt     concrete inputs
--
-- crates/intent-service, in Intent:
--   Intent/Types.antt      the intent and the requests of crates/intent-rebase-types/src/intent.rs
--   Intent/Repo            in_memory_intent_repository.rs: the operations (Defs), the versions as a
--                          chain (Chain, History), what is read of them (Reading, Head)
--   Intent/Approval        approval_request_repo.rs: the operations (Defs), one call (Writes) and
--                          sequences of calls (History), the indexes (Index) and listings (Listing)
--   Intent/Service         intent_service.rs: the operations (Defs), the lock on the version number
--                          (Versions), the requests that a version cancels (Cancellation), reading
--                          back (Reading), the diff and the preview of a rebase (Comparison)
--   Intent/Examples.antt   concrete inputs
-- The service creates versions in the one repository and cancels the pending requests in the other;
-- its diff and preview hand two stored versions to the engine.
--
-- Shared: Base passes on the library's names, with tests on numbers (Base/Tests), lists
-- (Base/Lists), maps keyed by numbers (Base/Maps) and indexes of them (Base/Index), results, errors
-- and stateful code (Base/Results), the wrap-around of `i32` (Base/Int32), Boolean equality as an
-- interface (Base/Equality), sums over lists and a stable sort (Base/Sums) and tables of texts
-- (Base/Codec).
--
-- Conventions. A `Uuid` and a time are numbers; the identifier that `Uuid::new_v4` gives and the
-- clock are arguments. An `async fn` over locks is one step: a function from the state to a result
-- and the state after it, so that the effects before an error stay. Interleavings are sequences of
-- such steps (`History`, `run`); the reads and writes inside one call are not interleaved with other
-- calls. A formatted text is the list of its pieces. An `i32` keeps its wrap-around. The loops
-- run over lists, but for three. The walk of two sorted lists has their length as fuel, and each turn
-- takes an item. The search of the graph has as fuel the number of edges out
-- of the start and out of all stored nodes, which is enough since a node is expanded once. The
-- classification expands a node that is no target each time that it meets it, so its fuel is a bound
-- on the entries of every level: the ends of all edges, to the power of the levels left. What the
-- code does with an `f64` is an interface, a parameter of the definitions, and the theorems hold for
-- every one. An unordered map that is sorted afterwards is read in list order.
--
-- Not modelled: the SQL repositories, HTTP, authentication, serialization and tracing, which are
-- I/O; the rationales of plans, which are texts for people; the ingestion, the paths, the cycles and
-- the orphans of the graph; the forensic and tenant services; the alignment of checkpoints and the
-- workflow of the orchestrator.
pub mod Base
pub mod Compensation
pub mod Engine
pub mod Graph
pub mod Intent
pub mod Orchestrator
