-- ===== src/Machine/Events/Gates.antt =====
-- When an event leads to requests (internal/statemachine/statemachine.go, processWorkflowEvent).
use workbuddy.Prelude.{
  Bool, false, arith, String, ◌≡◌, refl, ◌⊎◌, inl, inr, true, ◌||◌, Option, none, some, List, [],
  ◌∷◌, lookup, string_eq, if_ind, Bool-cases,
}
use workbuddy.Poller.{ChangeEvent}
use workbuddy.Store.Tasks.Queue.{Tasks}
use workbuddy.Machine.Config.{State, Workflow}
use workbuddy.Machine.Groups.{DispatchGroup}
use workbuddy.Machine.Transitions.{
  state_agents, Evaluation, no_label, no_transition, not_allowed, target_unknown, cycle_limit,
  taken, evaluate_transitions,
}
use workbuddy.Machine.Dispatch.{
  dispatch_agents, dispatch_state_agents, Request, Dispatch, no_agents, blocked_by_dependency,
  blocked_by_claim, rollouts_refused, skipped_inflight, sent,
}
use workbuddy.Machine.Dispatch.Slots.{IsStarted, Started, dispatch_state_agents-Started}
use workbuddy.Machine.Watch.{reconcile_stale_inflight}
use workbuddy.Machine.Cycles.{enter_state}
use workbuddy.Machine.Events.{
  find_current_state, IssueState, Env, Processed, dispatched, is_label_added, is_resync,
  detects_entry, is_staffed, resync_held, dispatch_to, enter_staffed, enter_bare, advance_to,
  after_evaluation, evaluate, in_state, in_found, process_workflow_event, base_request,
}

-- The requests that went out.
unfoldable pub requests_of : Processed → List Request
requests_of (dispatched (sent rs)) = rs
requests_of _ = []

-- Nothing went out, or a group was put in flight whose slots are what went out, once each.
abbrev pub Sends : Processed × IssueState → Type 0
Sends out =
    (requests_of out.0 ≡ [])
    ⊎ ((g : DispatchGroup) × (out.1.inflight ≡ some g) × IsStarted (requests_of out.0) g)

Started-Sends :
    (before fresh : Option DispatchGroup) (d : Dispatch) (after : Option DispatchGroup)
    (st : IssueState)
    → Started before fresh d after
    → Sends (dispatched d, record st { inflight = after })
unfolding requests_of
Started-Sends before fresh (sent rs) none st h = absurd h
Started-Sends before fresh (sent rs) (some g) st h = inr (g, refl, h.1)
Started-Sends before fresh no_agents after st h = inl refl
Started-Sends before fresh blocked_by_dependency after st h = inl refl
Started-Sends before fresh blocked_by_claim after st h = inl refl
Started-Sends before fresh (rollouts_refused r) after st h = inl refl
Started-Sends before fresh skipped_inflight after st h = inl refl

module _ (wf : Workflow) (ev : ChangeEvent) (env : Env) where
  to-Sends :
      (source name : String) (s : State) (st : IssueState)
      → Sends (dispatch_to wf ev env source name s st)
  unfolding dispatch_to
  to-Sends source name s st = Started-Sends _ _ _ _ st (
      dispatch_state_agents-Started wf s (base_request ev source name) ev.labels env.group_id
        env.dependency_blocks env.claim_blocks
        (reconcile_stale_inflight env.now ev.repo ev.issue_num env.tasks) env.tasks st.inflight)

-- What holds where nothing is requested and of every dispatch holds of every event.
module _ (wf : Workflow) (ev : ChangeEvent) (env : Env) (P : Processed × IssueState → Type 0)
    (quiet : (p : Processed) (st : IssueState) → requests_of p ≡ [] → P (p, st))
    (sent_to : (source name : String) (s : State) (st : IssueState)
      → P (dispatch_to wf ev env source name s st)) where
  staffed_ind :
      (name : String) (s : State) (st : IssueState) → P (enter_staffed wf ev env name s st)
  unfolding enter_staffed requests_of
  staffed_ind name s st =
      if_ind P (enter_state env.now wf (is_resync ev.type) name st.progress).admitted
        (sent_to st.progress.current_state name s _) (quiet _ _ refl)

  advance_ind :
      (name target : String) (o : Option State) (st : IssueState)
      → P (advance_to wf ev env name target o st)
  unfolding advance_to requests_of
  advance_ind name target none st = quiet _ _ refl
  advance_ind name target (some s) st =
      if_ind P (is_staffed (state_agents s)) (sent_to name target s _) (quiet _ _ refl)

  evaluation_ind :
      (name : String) (v : Evaluation) (st : IssueState) → P (after_evaluation wf ev env name v st)
  unfolding after_evaluation requests_of
  evaluation_ind name (taken target) st = advance_ind name target (lookup target wf.states) st
  evaluation_ind name no_label st = quiet _ _ refl
  evaluation_ind name no_transition st = quiet _ _ refl
  evaluation_ind name not_allowed st = quiet _ _ refl
  evaluation_ind name target_unknown st = quiet _ _ refl
  evaluation_ind name (cycle_limit c) st = quiet _ _ refl

  pub evaluate_ind :
      (name : String) (s : State) (st : IssueState) → P (evaluate wf ev env name s st)
  unfolding evaluate requests_of
  evaluate_ind name s st =
      let out = evaluate_transitions wf name s ev.detail ev.labels st.counts in
      elim (Bool-cases (is_label_added ev.type)) [
        | inl added ↦ rw added (evaluation_ind name out.0 (record st { counts = out.1 }))
        | inr other ↦ rw other (quiet _ _ refl)
      ]

  state_ind : (name : String) (s : State) (st : IssueState) → P (in_state wf ev env name s st)
  unfolding in_state enter_bare requests_of
  state_ind name s st = elim (Bool-cases (detects_entry ev s)) [
    | inr no_entry ↦ rw no_entry (evaluate_ind name s st)
    | inl entry ↦ elim (Bool-cases (is_staffed (state_agents s))) [
      | inr bare ↦ rw (entry, bare) (quiet _ _ refl)
      | inl staffed ↦ elim (Bool-cases (resync_held ev env st)) [
        | inl held ↦ rw (entry, staffed, held) (quiet _ _ refl)
        | inr free ↦ rw (entry, staffed, free) (staffed_ind name s st)
      ]
    ]
  ]

  found_ind : (o : Option (String × State)) (st : IssueState) → P (in_found wf ev env o st)
  unfolding in_found requests_of
  found_ind none st = quiet _ _ refl
  found_ind (some (name, s)) st = state_ind name s _

  process_ind : (st : IssueState) → P (process_workflow_event wf ev env st)
  unfolding process_workflow_event
  process_ind st = found_ind (find_current_state ev.labels wf.states) st

pub evaluate-Sends :
    (wf : Workflow) (ev : ChangeEvent) (env : Env) (name : String) (s : State) (st : IssueState)
    → Sends (evaluate wf ev env name s st)
evaluate-Sends wf ev env name s st =
    evaluate_ind wf ev env Sends (λ p st h. inl h) (to-Sends wf ev env) name s st

-- Whatever event comes in, in whatever state of the issue: either nothing is requested, or the group that
-- is in flight afterwards is well formed and without an outcome, and each of its slots was requested once.
pub process_workflow_event-Sends :
    (wf : Workflow) (ev : ChangeEvent) (env : Env) (st : IssueState)
    → Sends (process_workflow_event wf ev env st)
process_workflow_event-Sends wf ev env st =
    process_ind wf ev env Sends (λ p st h. inl h) (to-Sends wf ev env) st

agents-quiet :
    (wf : Workflow) (s : State) (base : Request) (agents labels : List String) (group_id : String)
    (dep claim : Bool) (reconcile : Option DispatchGroup → Option DispatchGroup) (tasks : Tasks)
    (inflight : Option DispatchGroup)
    → (dep || claim) ≡ true
    → requests_of (
        dispatched
          (dispatch_agents wf s base agents labels group_id dep claim reconcile tasks inflight).0)
      ≡ []
unfolding dispatch_agents requests_of
agents-quiet wf s base [] labels group_id dep claim reconcile tasks inflight h = refl
agents-quiet wf s base (a ∷ agents) labels group_id true claim reconcile tasks inflight h = refl
agents-quiet wf s base (a ∷ agents) labels group_id false true reconcile tasks inflight h = refl
agents-quiet wf s base (a ∷ agents) labels group_id false false reconcile tasks inflight h =
    absurd (ground (arith, h))

-- No dispatch comes of a state of the gates that holds the issue back.
dispatch_to-quiet :
    (wf : Workflow) (ev : ChangeEvent) (env : Env) (source name : String) (s : State)
    (st : IssueState)
    → (env.dependency_blocks || env.claim_blocks) ≡ true
    → requests_of (dispatch_to wf ev env source name s st).0 ≡ []
unfolding dispatch_to dispatch_state_agents requests_of
dispatch_to-quiet wf ev env source name s st h =
    agents-quiet wf s (base_request ev source name) (state_agents s) ev.labels env.group_id
      env.dependency_blocks env.claim_blocks
      (reconcile_stale_inflight env.now ev.repo ev.issue_num env.tasks) env.tasks st.inflight h

-- While the dependency gate or the claim of another holds the issue back, no event requests anything.
pub process_workflow_event-quiet :
    (wf : Workflow) (ev : ChangeEvent) (env : Env) (st : IssueState)
    → (env.dependency_blocks || env.claim_blocks) ≡ true
    → requests_of (process_workflow_event wf ev env st).0 ≡ []
process_workflow_event-quiet wf ev env st h =
    process_ind wf ev env (λ out. requests_of out.0 ≡ []) (λ p st e. e)
      (λ source name s st. dispatch_to-quiet wf ev env source name s st h) st
