-- ===== src/Machine/Dispatch.antt =====
-- internal/statemachine/statemachine.go: what is requested of the agents of a state (dispatchStateAgents,
-- inheritedRolloutRequests, dispatchSingleAgent), for one issue. The verdicts of the dependency gate and
-- of the issue claim, the reconciliation of a stale group, and the new group id are inputs; the context
-- is not cancelled.
pub mod Slots
mod Examples
use workbuddy.Prelude.{
  ℕ, zero, suc, ◌+◌, String, Bool, true, false, not, ◌&&◌, ◌||◌, Option, none, some, List, [], ◌∷◌,
  ◌++◌, map, ltb, leb, ◌==◌, if◌then◌else◌, str_eq, trim_space, contains, filter_by, lookup, insert,
  string_eq,
}
use workbuddy.Store.Tasks.Row.{Task}
use workbuddy.Store.Tasks.Queue.{Tasks}
use workbuddy.Store.Tasks.Queries.{of_issue, is_completed, RolloutSummary, summarize_rollout_group}
use workbuddy.Machine.Config.{
  JoinConfig, State, Workflow, join_rollouts, state_mode_synth, default_join_config,
}
use workbuddy.Machine.Transitions.{
  state_agents, state_mode, Resolved, rollouts, resolve_state_rollouts,
}
use workbuddy.Machine.Groups.{DispatchGroup, new_dispatch_group, rollout_slot_key}

pub record Request : Type 0 where
  pub repo : String
  pub issue_num : ℕ
  pub agent_name : String
  pub workflow : String
  pub state : String
  pub source_state : String
  pub rollout_index : ℕ
  pub rollouts_total : ℕ
  pub rollout_group_id : String

unfoldable pub dispatch_slot_key : Request → String
dispatch_slot_key r =
    if ltb 0 r.rollout_index then rollout_slot_key r.rollout_index else r.agent_name

-- `for idx := 1; idx <= rollouts; idx++`, from `idx` on for `count` turns.
unfoldable pub rollout_requests : Request → String → (total idx count : ℕ) → List Request
rollout_requests base group total idx zero = []
rollout_requests base group total idx (suc count) =
    record base { rollout_index = idx; rollouts_total = total; rollout_group_id = group }
    ∷ rollout_requests base group total (suc idx) count

unfoldable pub agent_requests : Request → List String → List Request
agent_requests base [] = []
agent_requests base (a ∷ agents) =
    record base { agent_name = a; rollout_index = 0; rollouts_total = 0; rollout_group_id = "" }
    ∷ agent_requests base agents

-- The group of the newest task of the state that is in a group.
unfoldable pub newest_group : Option Task → Tasks → String
newest_group none [] = ""
newest_group (some best) [] = best.rollout_group_id
newest_group none (t ∷ ts) = newest_group (some t) ts
newest_group (some best) (t ∷ ts) =
    newest_group (some (if leb best.created_at t.created_at then t else best)) ts

abbrev grouped : String → ℕ → String → String → Task → Bool
grouped repo issue workflow state t =
    of_issue repo issue t
    && str_eq t.workflow workflow
    && str_eq t.state state
    && not (str_eq t.rollout_group_id "")

unfoldable pub latest_rollout_group_summary :
    String → ℕ → String → String → Tasks → Option RolloutSummary
latest_rollout_group_summary repo issue workflow state tasks =
    summarize_rollout_group
      (newest_group none (filter_by (grouped repo issue workflow state) tasks)) tasks

-- By the rollout index; `sort.Slice` says nothing of the order of equal ones.
unfoldable pub insert_request : Request → List Request → List Request
insert_request r [] = r ∷ []
insert_request r (q ∷ qs) =
    if ltb r.rollout_index q.rollout_index then r ∷ q ∷ qs else q ∷ insert_request r qs

unfoldable pub inherit : Request → Tasks → List Request
inherit base [] = []
inherit base (t ∷ ts) =
    if is_completed t.status && ltb 0 t.rollout_index
    then insert_request
        (record base {
          rollout_index = t.rollout_index;
          rollouts_total = t.rollouts_total;
          rollout_group_id = t.rollout_group_id;
        })
        (inherit base ts)
    else inherit base ts

unfoldable pub inherit_summary : Request → Option RolloutSummary → List Request
inherit_summary base none = []
inherit_summary base (some s) = if s.success_count == 0 then [] else inherit base s.tasks

abbrev joins_rollouts : Option State → Bool
joins_rollouts none = false
joins_rollouts (some s) = str_eq (trim_space s.join.strategy) join_rollouts

unfoldable pub inherited_rollout_requests : Workflow → Request → Tasks → List Request
inherited_rollout_requests wf base tasks =
    if str_eq base.source_state "" || str_eq base.source_state base.state
    then []
    else if not (joins_rollouts (lookup base.source_state wf.states))
    then []
    else inherit_summary base
        (latest_rollout_group_summary base.repo base.issue_num wf.name base.source_state tasks)

abbrev or_agents : List Request → List Request → List Request
or_agents [] agents = agents
or_agents (r ∷ rs) agents = r ∷ rs

unfoldable pub requests_for :
    Workflow → State → Request → List String → (group_id : String) → ℕ → Tasks → List Request
requests_for wf s base agents group_id n tasks =
    if ltb 1 n
    then rollout_requests base group_id n 1 n
    else if str_eq (state_mode s) state_mode_synth
    then agent_requests base agents
    else or_agents (inherited_rollout_requests wf base tasks) (agent_requests base agents)

-- `slots[dispatchSlotKey(req)] = req.AgentName`, for each request.
unfoldable pub slots_of : List Request → List (String × String) → List (String × String)
slots_of [] slots = slots
slots_of (r ∷ rs) slots = slots_of rs (insert (dispatch_slot_key r) r.agent_name slots)

unfoldable pub join_of : State → JoinConfig
join_of s = if str_eq (trim_space s.join.strategy) "" then default_join_config else s.join

-- `dispatchSingleAgent` on the group of the request's own state.
unfoldable pub dispatch_single_agent : Request → DispatchGroup → List Request × DispatchGroup
dispatch_single_agent r g =
    if contains g.dispatched_slots (dispatch_slot_key r)
    then ([], g)
    else (r ∷ [], record g { dispatched_slots = dispatch_slot_key r ∷ g.dispatched_slots })

unfoldable pub dispatch_all : List Request → DispatchGroup → List Request × DispatchGroup
dispatch_all [] g = ([], g)
dispatch_all (r ∷ rs) g =
    let (sent, g') = dispatch_single_agent r g in
    let (more, g'') = dispatch_all rs g' in (sent ++ more, g'')

pub data Dispatch : Type 0 where
  no_agents blocked_by_dependency blocked_by_claim : Dispatch
  rollouts_refused : Resolved → Dispatch
  skipped_inflight : Dispatch
  sent : List Request → Dispatch

unfoldable pub start_group :
    Workflow
    → State
    → Request
    → List Request
    → Option DispatchGroup
    → Dispatch × Option DispatchGroup
start_group wf s base requests (some existing) = (skipped_inflight, some existing)
start_group wf s base requests none =
    let group =
      new_dispatch_group wf.name base.state (state_mode s) (join_of s) (slots_of requests []) in
    let (out, group') = dispatch_all requests group in (sent out, some group')

unfoldable pub with_rollouts :
    Workflow
    → State
    → Request
    → List String
    → (group_id : String) → Resolved
    → Tasks
    → Option DispatchGroup
    → Dispatch × Option DispatchGroup
with_rollouts wf s base agents group_id (rollouts n) tasks inflight =
    start_group wf s base (requests_for wf s base agents group_id n tasks) inflight
with_rollouts wf s base agents group_id error tasks inflight = (rollouts_refused error, inflight)

-- `base` carries the issue and the names of the states.
unfoldable pub dispatch_agents :
    Workflow
    → State
    → Request
    → List String
    → (labels : List String) → (group_id : String) → (dependency_blocks claim_blocks : Bool)
    → (reconcile : Option DispatchGroup → Option DispatchGroup) → Tasks
    → Option DispatchGroup
    → Dispatch × Option DispatchGroup
dispatch_agents wf s base [] labels group_id dep claim reconcile tasks inflight =
    (no_agents, inflight)
dispatch_agents wf s base (a ∷ agents) labels group_id dep claim reconcile tasks inflight =
    if dep
    then (blocked_by_dependency, inflight)
    else if claim
    then (blocked_by_claim, reconcile inflight)
    else with_rollouts wf s (record base { agent_name = a; workflow = wf.name }) (a ∷ agents)
        group_id (resolve_state_rollouts s labels) tasks (reconcile inflight)

unfoldable pub dispatch_state_agents :
    Workflow
    → State
    → Request
    → (labels : List String) → (group_id : String) → (dependency_blocks claim_blocks : Bool)
    → (reconcile : Option DispatchGroup → Option DispatchGroup) → Tasks
    → Option DispatchGroup
    → Dispatch × Option DispatchGroup
dispatch_state_agents wf s base labels group_id dep claim reconcile tasks inflight =
    dispatch_agents wf s base (state_agents s) labels group_id dep claim reconcile tasks inflight
