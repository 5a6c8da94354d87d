-- ===== src/Machine/Completions/Gated.antt =====
-- When a completion leads to requests (internal/statemachine/statemachine.go,
-- MarkAgentCompletedWithDecision).
use workbuddy.Prelude.{
  ℕ, String, ◌≡◌, refl, sym, subst, ◌⊎◌, inl, inr, Bool, true, false, ◌&&◌, Option, none, some,
  List, [], ◌∷◌, lookup, string_eq, if_ind, Bool-cases, if◌then◌else◌, str_eq, ℤ,
}
use workbuddy.Poller.{ChangeEvent}
use workbuddy.Machine.Config.{State, Workflow, state_mode_synth}
use workbuddy.Machine.Groups.{
  DispatchGroup, Verdict, Completion, no_group, seen_task, foreign_slot, recorded,
  mark_agent_completed,
}
use workbuddy.Machine.Transitions.{
  no_label, no_transition, not_allowed, target_unknown, cycle_limit, taken,
}
use workbuddy.Machine.Dispatch.{
  Request, no_agents, blocked_by_dependency, blocked_by_claim, rollouts_refused, skipped_inflight,
  sent,
}
use workbuddy.Machine.Dispatch.Slots.{IsStarted}
use workbuddy.Machine.Events.{
  IssueState, Env, Processed, no_state, resync_skipped, entered_only, capped, dispatched, evaluated,
  evaluate,
}
use workbuddy.Machine.Events.Gates.{requests_of, Sends, evaluate-Sends}
use workbuddy.Machine.Completions.{
  find_matching_workflows, state_mode_from_group, should_escalate, Replayed, untaken, took, broken,
  replayed, or_continue, replay_labels, replay_state, evaluate_completion_transitions, Aftermath,
  unresolved, moved, IssueRuntime, after_replay, after_failure, after_group, after_completion,
  completion_event, mark_agent_completed_with_decision,
}

-- The transition that a replay took sends as an event does.
abbrev Took : Replayed × IssueState → Type 0
Took (untaken, st) = Unit
Took (broken p, st) = Unit
Took (took p, st) = Sends (p, st)

or_continue-Took :
    (p : Processed) (st : IssueState) (next : Replayed × IssueState)
    → Sends (p, st)
    → Took next
    → Took (or_continue (replayed p, st) next)
unfolding or_continue replayed
or_continue-Took no_state st next h k = k
or_continue-Took resync_skipped st next h k = k
or_continue-Took entered_only st next h k = k
or_continue-Took (capped ns) st next h k = k
or_continue-Took (dispatched (sent rs)) st next h k = h
or_continue-Took (dispatched no_agents) st next h k = h
or_continue-Took (dispatched blocked_by_dependency) st next h k = h
or_continue-Took (dispatched blocked_by_claim) st next h k = h
or_continue-Took (dispatched (rollouts_refused r)) st next h k = tt
or_continue-Took (dispatched skipped_inflight) st next h k = h
or_continue-Took (evaluated (taken target)) st next h k = h
or_continue-Took (evaluated no_label) st next h k = k
or_continue-Took (evaluated no_transition) st next h k = k
or_continue-Took (evaluated not_allowed) st next h k = k
or_continue-Took (evaluated target_unknown) st next h k = k
or_continue-Took (evaluated (cycle_limit c)) st next h k = k

replay_labels-Took :
    (wf : Workflow) (ev : ChangeEvent) (env : Env) (name : String) (s : State)
    (labels : List String) (st : IssueState)
    → Took (replay_labels wf ev env name s labels st)
unfolding replay_labels
replay_labels-Took wf ev env name s [] st = tt
replay_labels-Took wf ev env name s (label ∷ labels) st =
    let ev' : ChangeEvent = record ev { detail = label } in
    let (out, st') = evaluate wf ev' env name s st in
    or_continue-Took out st' (replay_labels wf ev env name s labels st')
      (evaluate-Sends wf ev' env name s st) (replay_labels-Took wf ev env name s labels st')

replay_state-Took :
    (wf : Workflow) (ev : ChangeEvent) (env : Env) (name : String) (o : Option State)
    (st : IssueState)
    → Took (replay_state wf ev env name o st)
unfolding replay_state
replay_state-Took wf ev env name none st = tt
replay_state-Took wf ev env name (some s) st = replay_labels-Took wf ev env name s ev.labels st

evaluate_completion_transitions-Took :
    (wfs : List Workflow) (ev : ChangeEvent) (env : Env) (workflow source : String)
    (st : IssueState)
    → Took (evaluate_completion_transitions wfs ev env workflow source st)
unfolding evaluate_completion_transitions
evaluate_completion_transitions-Took [] ev env workflow source st = tt
evaluate_completion_transitions-Took (wf ∷ []) ev env workflow source st =
    if_ind Took (str_eq wf.name workflow)
      (replay_state-Took wf ev env source (lookup source wf.states) st) tt
evaluate_completion_transitions-Took (wf ∷ other ∷ wfs) ev env workflow source st = tt

-- The requests that went out after a completion.
unfoldable pub requests_after : Aftermath → List Request
requests_after (moved p) = requests_of p
requests_after _ = []

-- Nothing went out, or the group in flight is what went out, once for each slot.
abbrev pub SendsAfter : Aftermath × IssueRuntime → Type 0
SendsAfter out =
    (requests_after out.0 ≡ [])
    ⊎ ((g : DispatchGroup) × (out.1.st.inflight ≡ some g) × IsStarted (requests_after out.0) g)

module _ (wfs : List (String × Workflow)) (ev : ChangeEvent) (env : Env)
    (decision : Option String) where
  after_replay-SendsAfter :
      (g : DispatchGroup) (r : Replayed × IssueState) (i : IssueRuntime)
      → Took r
      → SendsAfter (after_replay wfs ev env decision g r i)
  unfolding after_replay requests_after
  after_replay-SendsAfter g (took p, st) i h = h
  after_replay-SendsAfter g (untaken, st) i h =
      if_ind SendsAfter (str_eq (state_mode_from_group g) state_mode_synth) (inl refl) (inl refl)
  after_replay-SendsAfter g (broken p, st) i h =
      if_ind SendsAfter (str_eq (state_mode_from_group g) state_mode_synth) (inl refl) (inl refl)

  after_group-SendsAfter :
      (g : DispatchGroup) (i : IssueRuntime) → SendsAfter (after_group wfs ev env decision g true i)
  unfolding after_group requests_after
  after_group-SendsAfter g i =
      if_ind SendsAfter
        (str_eq (state_mode_from_group g) state_mode_synth && should_escalate decision) (inl refl)
        (after_replay-SendsAfter g _ i (
          evaluate_completion_transitions-Took (find_matching_workflows ev.labels wfs) ev env
            g.workflow g.state i.st))

-- The completion resolved its group, with the given outcome.
abbrev pub Resolves : Bool → Completion → Type 0
Resolves passed c =
    (g : DispatchGroup) × (v : Verdict) × (c ≡ recorded g v)
    × (v.should_advance ≡ true)
    × (v.passed ≡ passed)

-- Nothing went out, or the completion resolved its group as passed and the group in flight is what went
-- out.
abbrev pub Hands : Completion → Aftermath × IssueRuntime → Type 0
Hands c out =
    (requests_after out.0 ≡ [])
    ⊎ (Resolves true c
        × ((g : DispatchGroup) × (out.1.st.inflight ≡ some g) × IsStarted (requests_after out.0) g))

module _ (wfs : List (String × Workflow)) (ev : ChangeEvent) (env : Env)
    (decision : Option String) where
  group-Hands :
      (g : DispatchGroup) (v : Verdict) (passed : Bool) (i : IssueRuntime)
      → v.should_advance ≡ true
      → v.passed ≡ passed
      → Hands (recorded g v) (after_group wfs ev env decision g passed i)
  group-Hands g v true i a p = elim (after_group-SendsAfter wfs ev env decision g i) [
    | inl none_sent ↦ inl none_sent
    | inr started ↦ inr ((g, v, refl, a, p), started)
  ]
  group-Hands g v false i a p =
      unfold after_group after_failure requests_after in
      (if_ind (Hands (recorded g v))
        (str_eq (state_mode_from_group g) state_mode_synth && should_escalate decision) (inl refl)
        (inl refl))

  after_completion-Hands :
      (c : Completion) (i : IssueRuntime) → Hands c (after_completion wfs ev env decision c i)
  unfolding after_completion requests_after
  after_completion-Hands no_group i = inl refl
  after_completion-Hands seen_task i = inl refl
  after_completion-Hands (foreign_slot g) i = inl refl
  after_completion-Hands (recorded g v) i = elim (Bool-cases v.should_advance) [
    | inl e ↦
        subst
          (λ (b : Bool).
            Hands (recorded g v)
              (if b then after_group wfs ev env decision g v.passed i else (unresolved, i)))
          (sym e) (group-Hands g v v.passed i e refl)
    | inr e ↦
        subst
          (λ (b : Bool).
            Hands (recorded g v)
              (if b then after_group wfs ev env decision g v.passed i else (unresolved, i)))
          (sym e) (inl refl)
  ]

-- Whatever task completes, in whatever state of its issue: either nothing is requested, or the completion
-- resolved its group as passed, and the group that is in flight afterwards is well formed, without an outcome,
-- and has each of its slots requested once.
pub mark_agent_completed_with_decision-Hands :
    (wfs : List (String × Workflow)) (repo : String) (issue_num : ℕ) (task_id agent_name : String)
    (exit_code : ℤ) (labels : List String) (decision : Option String) (env : Env) (i : IssueRuntime)
    → Hands (mark_agent_completed task_id agent_name exit_code env.tasks i.st.inflight).0 (
        mark_agent_completed_with_decision wfs repo issue_num task_id agent_name exit_code labels
          decision env i)
unfolding mark_agent_completed_with_decision
mark_agent_completed_with_decision-Hands wfs repo issue_num task_id agent_name exit_code labels
      decision env i =
    after_completion-Hands wfs (completion_event repo issue_num labels) env decision
      (mark_agent_completed task_id agent_name exit_code env.tasks i.st.inflight).0 _
