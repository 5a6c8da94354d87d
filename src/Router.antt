-- ===== src/Router.antt =====
-- internal/router/router.go and internal/taskprep/taskprep.go: from a dispatch request to a row of task_queue.
-- The ids of the tasks are drawn outside; the hand-over to the embedded worker, which reads the forge, and the
-- events are left out.
mod Rows
mod Examples
use workbuddy.Prelude.{
  ℕ, String, Bool, true, false, Option, none, some, List, [], ◌∷◌, lookup, string_eq, pos,
}
use workbuddy.Dependency.{DependencyVerdict, IssueDependencyState, is_blocked}
use workbuddy.Store.Tasks.Row.{Task, pending}
use workbuddy.Store.Tasks.Queue.{Tasks, Outcome, insert_task}
use workbuddy.Machine.Config.{State, Workflow}
use workbuddy.Machine.Dispatch.{Request}

pub record AgentConfig : Type 0 where
  pub role : String
  pub runtime : String

pub record Decision : Type 0 where
  pub request : Request
  pub agent : AgentConfig
  pub state_def : Option State
  pub source_state_def : Option State

pub data Decided : Type 0 where
  agent_not_found unreadable : Decided
  gated : Option DependencyVerdict → Decided
  proceed : Decision → Decided

unfoldable pub state_in : String → Option Workflow → Option State
state_in name none = none
state_in name (some wf) = lookup name wf.states

unfoldable pub lookup_state : List (String × Workflow) → (workflow state : String) → Option State
lookup_state wfs workflow state = state_in state (lookup workflow wfs)

unfoldable pub decide_gate :
    List (String × Workflow)
    → AgentConfig
    → Request
    → Option (Bool × Option DependencyVerdict)
    → Decided
decide_gate wfs agent req none = unreadable
decide_gate wfs agent req (some (true, verdict)) = gated verdict
decide_gate wfs agent req (some (false, verdict)) = proceed (record {
  request = req;
  agent = agent;
  state_def = lookup_state wfs req.workflow req.state;
  source_state_def = lookup_state wfs req.workflow req.source_state;
})

unfoldable pub decide_agent :
    List (String × Workflow)
    → Option (Option IssueDependencyState)
    → Request
    → Option AgentConfig
    → Decided
decide_agent wfs gate req none = agent_not_found
decide_agent wfs gate req (some agent) = decide_gate wfs agent req (is_blocked gate)

-- The gate is the row of the issue's dependency state, `none` where it cannot be read.
unfoldable pub decide :
    List (String × AgentConfig)
    → List (String × Workflow)
    → Option (Option IssueDependencyState)
    → Request
    → Decided
decide agents wfs gate req = decide_agent wfs gate req (lookup req.agent_name agents)

-- The columns that the record leaves out are Go's zero values.
unfoldable pub task_record : String → Decision → Task
task_record id d = record {
  id = id;
  repo = d.request.repo;
  issue_num = d.request.issue_num;
  agent_name = d.request.agent_name;
  role = d.agent.role;
  runtime = d.agent.runtime;
  workflow = d.request.workflow;
  state = d.request.state;
  worker_id = some "";
  claim_token = some "";
  status = pending;
  lease_expires_at = none;
  acked_at = none;
  heartbeat_at = none;
  completed_at = none;
  exit_code = pos 0;
  session_refs = "";
  rollout_index = d.request.rollout_index;
  rollouts_total = d.request.rollouts_total;
  rollout_group_id = d.request.rollout_group_id;
  created_at = 0;
  updated_at = 0;
}

unfoldable pub prepare : ℕ → String → Decision → Tasks → Outcome (Unit {0}) × Tasks
prepare now id d tasks = insert_task now (task_record id d) tasks

-- An error of the preparation is only logged.
unfoldable pub handle_decided : ℕ → String → Decided → Tasks → Tasks
handle_decided now id (proceed d) tasks = (prepare now id d tasks).1
handle_decided now id _ tasks = tasks

unfoldable pub handle_dispatch :
    List (String × AgentConfig)
    → List (String × Workflow)
    → Option (Option IssueDependencyState)
    → ℕ
    → String
    → Request
    → Tasks
    → Tasks
handle_dispatch agents wfs gate now id req tasks =
    handle_decided now id (decide agents wfs gate req) tasks

-- The requests of one issue, each with the id of its task, as the channel hands them over.
unfoldable pub run :
    List (String × AgentConfig)
    → List (String × Workflow)
    → Option (Option IssueDependencyState)
    → ℕ
    → List (String × Request)
    → Tasks
    → Tasks
run agents wfs gate now [] tasks = tasks
run agents wfs gate now ((id, req) ∷ reqs) tasks =
    run agents wfs gate now reqs (handle_dispatch agents wfs gate now id req tasks)
