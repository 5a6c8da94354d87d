-- ===== src/Lib.antt =====
-- A model of the coordinator of workbuddy: how issues of a forge become tasks of agents, and how often.
--
-- The program polls the forge (internal/poller), turns what has changed into events, drives one state
-- machine per issue with them (internal/statemachine), and queues tasks for workers in a database
-- (internal/store), whose leases keep two workers from one task and two coordinators from one issue. After
-- a run, the labels of the issue are judged (internal/labelcheck); the single-pod runtime also steers a
-- run by what it observes (internal/control).
--
-- Prelude                 tests, lists, texts, association lists for Go's maps, exit codes
-- Control                 internal/control: Feedback, Message, Decide, Run
--   Policy, Rounds          what Feedback and Decide answer; that Run returns
-- Store.Rows              a table as the list of its rows in rowid order, UPDATE and SELECT on it
-- Store.Claims            internal/store/store.go: AcquireIssueClaim, ReleaseIssueClaim,
--                         DeleteIssueClaim, RefreshIssueClaim, QueryIssueClaim
--   Leases, Races           what a grant gives; interleavings of several processes
-- Store.Tasks.Row, Queue  internal/store/store.go: InsertTask to CompleteTask
-- Store.Tasks.Queries     HasActiveTask, CountConsecutiveAgentFailures, SummarizeRolloutGroup
--   Steps, Settled, Ownership, Pick  the operations as steps; settled and leased rows; ClaimNextTask
-- Machine.Config          internal/config/types.go, as far as the state machine reads it
-- Machine.Groups          internal/statemachine/statemachine.go: dispatchGroup, MarkAgentCompletedWithDecision
--   WellFormed, Reported, Joins, AnyPassed, Runs  the group's invariant; what a report records; the joins;
--                           reports that come twice
-- Machine.Cycles          processWorkflowEvent up to the dispatch, applyDevReviewCycleCap, enforceCycleCap,
--                         recordStateEntry; internal/store/queries.go: issue_cycle_state
--   Caps, Bounds            the counters; runs of entries
-- Machine.Transitions     evaluateTransitions, transitionAllowedForState, resolveStateRollouts, isBackEdge;
--                         IncrementTransition
--   Retries, Rollouts       how often an edge is taken; the rollout labels
-- Machine.Dispatch        dispatchStateAgents, dispatchSingleAgent, inheritedRolloutRequests
--   Slots                   what goes out, and what is put in flight
-- Machine.Watch           findInflightSlotTask, inflightTaskKeepsGroupLive, reconcileStaleInflight, CheckStuck
-- Machine.Events          processWorkflowEvent, put together from the modules above
--   Gates                   when an event leads to requests
-- Poller                  internal/poller/poller.go: poll, planDiffIssue, planDiffPR, diffLabels
--   Diffs, Cycles, Commits, Synced  the labels; the reasons of events; when a cycle takes effect
-- Labelcheck              internal/labelcheck/labelcheck.go: Classify, ResolveCurrent, Summary
--   Verdicts                what a classification means
--
-- Machine.Completions     the end of MarkAgentCompletedWithDecision, evaluateCompletionTransitions,
--                         advanceRolloutFailureToBlocked
--   Gated, Followed         when a completion requests anything; what a resolved group leaves behind
-- Machine.Handle          HandleEvent, ResetDedup and the pipeline hazards of the state machine
--   Effects, Reported       what an event changes; how often a hazard is told
-- Machine.Claiming        SetIssueClaim, isBlockedByIssueClaim, releaseIssueClaim, ReleaseAllIssueClaims
--   Exclusive, Returned     what the gate of the claim stops; how a claim is given back
-- Store.Hazards           internal/store/pipeline_hazards.go
-- Dependency              internal/dependency/dependency.go: buildResolveResult; gate.go: IsBlocked
--   Refs                    normalizeDependency, ParseDeclaration (Normal, Printed: its results)
--   Cycles                  detectCycles (Walks, Steps, Reports, Real, Done, Fuel, Complete: its
--                           proofs)
--   Evaluate                EvaluateOpenIssues (Others, Reopened, Outcome: its proofs)
--   Verdicts, Reasons       what a verdict says of the dependencies
-- Router                  internal/router/router.go: decide; internal/taskprep/taskprep.go: Prepare
--   Rows                    the rows that requests become
-- Bus                     internal/alertbus/alertbus.go, internal/tasknotify/hub.go, step by step
--   Runs, Delivery          what every interleaving keeps to; who receives what is published
--
-- State is passed explicitly: a function over a table, a map or a group returns the new one. A map is an
-- association list, a set a list that an element enters once, a machine's `int` that is not negative a
-- native number, a time a number of seconds, NULL and nil `none`. An error that the callers tell apart is a
-- constructor of its own.
--
-- Parameters, for code that is not in the repository or that the model leaves open: the agent and the
-- observer of the control loop (over a world of any type), the forge's listings and the cache faults of a
-- poll cycle, Go's ToLower, the tokens and ids that are drawn, and, for a dispatch, the verdicts of the
-- dependency gate (Dependency models it) and of the issue claim (Store.Claims models it). A row that another
-- process inserts between the SELECT and the INSERT of an acquisition is a parameter too. For the dependency
-- gate: the YAML parser, as the entries that a body declares; the forge's answer for an issue that is not
-- open, the same during one evaluation; and the hashes.
--
-- Fuel: the control loop has as many rounds as max_rounds_of allows, since every turn uses one up. The search
-- for cycles has one unit more than the graph has keys: each nested visit turns a key from white, or is of a
-- node without dependencies (Dependency.Cycles.Fuel: more changes nothing). All else is structural recursion.
--
-- Not modelled: a failing database outside the poller's reads, the MySQL variants of the statements, the
-- log lines, alerts and traces (but for the notices of the cycle caps), the cancellation of contexts, and
-- the packages that run processes, serve pages or call the forge. Of the modelled packages: the rows of
-- issue_dependencies (nothing here reads them back), the texts of prompts and comments, the hand-over of a task
-- to the embedded worker, the watchdogs over timers, and the validation of configuration
-- files.
pub mod Prelude
pub mod Bus
pub mod Control
pub mod Store
pub mod Machine
pub mod Dependency
pub mod Poller
pub mod Router
pub mod Labelcheck
