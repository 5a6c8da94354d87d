-- ===== src/Machine/Completions/Followed.antt =====
-- What a resolved group leaves behind (internal/statemachine/statemachine.go,
-- MarkAgentCompletedWithDecision).
use workbuddy.Prelude.{
  ℕ, String, ◌≡◌, ◌≢◌, arith, trim_space, str_eq_iff, refl, sym, ap, subst, ◌∙◌, ◌⊎◌, inl, inr,
  Bool, true, false, ◌&&◌, Option, none, some, List, [], lookup, string_eq, if_ind, Bool-cases,
  if◌then◌else◌, str_eq, ℤ,
}
use workbuddy.Poller.{ChangeEvent}
use workbuddy.Machine.Config.{State, Workflow, join_rollouts, state_mode_synth}
use workbuddy.Machine.Groups.{
  DispatchGroup, Verdict, recorded, advance, mark_agent_completed, remaining,
}
use workbuddy.Machine.Watch.{CompletionRecord, record_stuck_candidate}
use workbuddy.Machine.Events.{IssueState, Env, Processed}
use workbuddy.Machine.Completions.{
  find_matching_workflows, evaluate_completion_transitions, state_mode_from_group, should_escalate,
  Replayed, untaken, took, broken, to_blocked, blocked_state, advance_rollout_failure_to_blocked,
  Aftermath, unresolved, malformed, moved, IssueRuntime, after_replay, after_failure, after_group,
  after_completion, completion_event, mark_agent_completed_with_decision,
}
use workbuddy.Machine.Completions.Gated.{Resolves, requests_after}

abbrev candidate : Env → List String → CompletionRecord
candidate env labels = record { at = env.now; labels = labels }

-- What the labels of a passed group come to.
abbrev pub replay_of :
    List (String × Workflow)
    → ChangeEvent
    → Env
    → DispatchGroup
    → IssueState
    → Replayed × IssueState
replay_of wfs ev env g st =
    evaluate_completion_transitions (find_matching_workflows ev.labels wfs) ev env g.workflow
      g.state st

-- Moved on, by the transition that the labels allow; a synthesis that passed without a call to escalate and whose
-- labels allow no transition; or watched for being stuck.
abbrev pub IsFollowed :
    List (String × Workflow)
    → ChangeEvent
    → Env
    → (decision : Option String) → (passed : Bool) → DispatchGroup
    → IssueState
    → Aftermath × IssueRuntime
    → Type 0
IsFollowed wfs ev env decision passed g st out =
    ((p : Processed) × (passed ≡ true)
      × ((replay_of wfs ev env g st).0 ≡ took p)
      × (out.0 ≡ moved p)
      × (out.1.st ≡ (replay_of wfs ev env g st).1))
    ⊎ ((passed ≡ true)
        × (g.mode ≡ state_mode_synth)
        × (decision ≢ none)
        × (decision ≢ some "escalate")
        × (((replay_of wfs ev env g st).0 ≡ untaken)
            ⊎ ((p : Processed) × ((replay_of wfs ev env g st).0 ≡ broken p)))
        × (out.0 ≡ malformed))
    ⊎ (out.1.stuck ≡ some (record { at = env.now; labels = ev.labels }))

-- The state stays, or becomes "blocked"; nothing is in flight or requested; the issue is watched.
abbrev pub IsHalted : Env → List String → IssueRuntime → Aftermath × IssueRuntime → Type 0
IsHalted env labels i out =
    (requests_after out.0 ≡ [])
    × (out.1.st.inflight ≡ none)
    × (out.1.stuck ≡ some (record { at = env.now; labels = labels }))
    × ((out.1.st.progress.current_state ≡ i.st.progress.current_state)
        ⊎ (out.1.st.progress.current_state ≡ "blocked"))

to_blocked_lem :
    (source : String) (o : Option State) (st : IssueState)
    → ((to_blocked source o st).inflight ≡ st.inflight)
      × (((to_blocked source o st).progress.current_state ≡ st.progress.current_state)
          ⊎ ((to_blocked source o st).progress.current_state ≡ "blocked"))
unfolding to_blocked
to_blocked_lem source none st = (refl, inl refl)
to_blocked_lem source (some s) st = (refl, inr refl)

module _ (wfs : List (String × Workflow)) (ev : ChangeEvent) (env : Env)
    (decision : Option String) where
  synth_mode :
      (g : DispatchGroup)
      → str_eq (state_mode_from_group g) state_mode_synth ≡ true
      → g.mode ≡ state_mode_synth
  unfolding state_mode_from_group str_eq
  synth_mode g h = elim (Bool-cases (str_eq (trim_space g.mode) "")) [
    | inl blank ↦ absurd (ground (arith, rw blank at h))
    | inr named ↦ (str_eq_iff g.mode state_mode_synth).0 (rw named at h)
  ]

  decided : (d : Option String) → should_escalate d ≡ false → (d ≢ none) × (d ≢ some "escalate")
  unfolding should_escalate
  decided none h = absurd (ground arith)
  decided (some d) h = ((λ e. ground arith), (λ e. ground (arith, e, str_eq_iff d "escalate")))

  after_replay-IsFollowed :
      (g : DispatchGroup) (st : IssueState) (r : Replayed × IssueState) (i : IssueRuntime)
      → replay_of wfs ev env g st ≡ r
      → (str_eq (state_mode_from_group g) state_mode_synth && should_escalate decision) ≡ false
      → IsFollowed wfs ev env decision true g st (after_replay wfs ev env decision g r i)
  unfolding after_replay record_stuck_candidate
  after_replay-IsFollowed g st (took p, st') i e h = inl (
    p,
    refl,
    ap (λ (x : Replayed × IssueState). x.0) e,
    refl,
    sym (ap (λ (x : Replayed × IssueState). x.1) e),
  )
  after_replay-IsFollowed g st (untaken, st') i e h =
      elim (Bool-cases (str_eq (state_mode_from_group g) state_mode_synth)) [
        | inl synth ↦
            let (some_decision, calm) = decided decision (ground (arith, synth, h)) in
            rw synth (
              inr (
                inl (
                  refl,
                  synth_mode g synth,
                  some_decision,
                  calm,
                  inl (ap (λ (x : Replayed × IssueState). x.0) e),
                  refl,
                )))
        | inr other ↦ rw other (inr (inr refl))
      ]
  after_replay-IsFollowed g st (broken p, st') i e h =
      elim (Bool-cases (str_eq (state_mode_from_group g) state_mode_synth)) [
        | inl synth ↦
            let (some_decision, calm) = decided decision (ground (arith, synth, h)) in
            rw synth (
              inr (
                inl (
                  refl,
                  synth_mode g synth,
                  some_decision,
                  calm,
                  inr (p, ap (λ (x : Replayed × IssueState). x.0) e),
                  refl,
                )))
        | inr other ↦ rw other (inr (inr refl))
      ]

  after_group-IsFollowed :
      (g : DispatchGroup) (passed : Bool) (i : IssueRuntime)
      → IsFollowed wfs ev env decision passed g i.st (after_group wfs ev env decision g passed i)
  unfolding after_group after_failure record_stuck_candidate
  after_group-IsFollowed g passed i =
      elim (Bool-cases
        (str_eq (state_mode_from_group g) state_mode_synth && should_escalate decision)) [
          | inl up ↦ rw up (inr (inr refl))
          | inr calm ↦ rw calm (by_outcome g passed i calm)
        ]
    where
      by_outcome :
          (g : DispatchGroup) (passed : Bool) (i : IssueRuntime)
          → (str_eq (state_mode_from_group g) state_mode_synth && should_escalate decision) ≡ false
          → IsFollowed wfs ev env decision passed g i.st (
              if passed
              then after_replay wfs ev env decision g (replay_of wfs ev env g i.st) i
              else after_failure wfs ev env decision g i)
      by_outcome g true i h = after_replay-IsFollowed g i.st (replay_of wfs ev env g i.st) i refl h
      by_outcome g false i h = inr (inr refl)

  after_failure-IsHalted :
      (g : DispatchGroup) (i : IssueRuntime)
      → i.st.inflight ≡ none
      → IsHalted env ev.labels i (after_failure wfs ev env decision g i)
  unfolding after_failure advance_rollout_failure_to_blocked record_stuck_candidate requests_after
  after_failure-IsHalted g i e =
      let (kept, state) = to_blocked_lem g.state (blocked_state (lookup g.workflow wfs)) i.st in
      elim (Bool-cases (str_eq g.join.strategy join_rollouts)) [
        | inl j ↦ rw j (refl, kept ∙ e, refl, state)
        | inr j ↦ rw j (refl, e, refl, inl refl)
      ]

  after_group-IsHalted :
      (g : DispatchGroup) (i : IssueRuntime)
      → i.st.inflight ≡ none
      → IsHalted env ev.labels i (after_group wfs ev env decision g false i)
  unfolding after_group advance_rollout_failure_to_blocked record_stuck_candidate requests_after
  after_group-IsHalted g i e =
      let (kept, state) = to_blocked_lem g.state (blocked_state (lookup g.workflow wfs)) i.st in
      if_ind (IsHalted env ev.labels i)
        (str_eq (state_mode_from_group g) state_mode_synth && should_escalate decision)
        (refl, kept ∙ e, refl, state) (after_failure-IsHalted g i e)

  after_resolution :
      (g : DispatchGroup) (v : Verdict) (i : IssueRuntime)
      → v.should_advance ≡ true
      → after_completion wfs ev env decision (recorded g v) i
        ≡ after_group wfs ev env decision g v.passed i
  unfolding after_completion
  after_resolution g v i e =
      ap (λ (b : Bool). if b then after_group wfs ev env decision g v.passed i else (unresolved, i))
        e

remaining-none :
    (before : Option DispatchGroup) (g : DispatchGroup) (v : Verdict)
    → v.should_advance ≡ true
    → remaining before (recorded g v) ≡ none
unfolding remaining
remaining-none before g v e = ap (λ (b : Bool). if b then none else some g) e

resolved-inflight :
    (task_id agent_name : String) (exit_code : ℤ) (env : Env) (before : Option DispatchGroup)
    (g : DispatchGroup) (v : Verdict)
    → (mark_agent_completed task_id agent_name exit_code env.tasks before).0 ≡ recorded g v
    → v.should_advance ≡ true
    → (mark_agent_completed task_id agent_name exit_code env.tasks before).1 ≡ none
unfolding mark_agent_completed
resolved-inflight task_id agent_name exit_code env before g v e a =
    ap (remaining before) e ∙ remaining-none before g v a

-- When a completion resolves its group, with the group no longer in flight. Either the group passed, its labels allow
-- a transition, and that is the one taken; or it is of the synthesis, passed, was decided on without a call to
-- escalate, and its labels allow no transition or one that cannot be dispatched; or the issue is watched for being
-- stuck from that time on with the labels it had.
pub mark_agent_completed_with_decision-IsFollowed :
    (wfs : List (String × Workflow)) (repo : String) (issue_num : ℕ) (task_id agent_name : String)
    (exit_code : ℤ) (labels : List String) (decision : Option String) (env : Env) (i : IssueRuntime)
    (passed : Bool) (g : DispatchGroup) (v : Verdict)
    → (mark_agent_completed task_id agent_name exit_code env.tasks i.st.inflight).0 ≡ recorded g v
    → v ≡ advance passed
    → IsFollowed wfs
        (completion_event repo issue_num labels)
        env
        decision
        passed
        g
        (record i.st { inflight = none })
        (mark_agent_completed_with_decision wfs repo issue_num task_id agent_name exit_code labels
          decision env i)
unfolding mark_agent_completed_with_decision
mark_agent_completed_with_decision-IsFollowed wfs repo issue_num task_id agent_name exit_code labels
      decision env i passed g v e q =
    let ev = completion_event repo issue_num labels in
    let a = ap (λ (v : Verdict). v.should_advance) q in
    let gone = resolved-inflight task_id agent_name exit_code env i.st.inflight g v e a in
    rw (e, gone)
      (rw (after_resolution wfs ev env decision g v _ a) (
        subst
          (λ (b : Bool).
            IsFollowed wfs ev env decision passed g (record i.st { inflight = none })
              (after_group wfs ev env decision g b
                (record i { st = record i.st { inflight = none } })))
          (sym (ap (λ (v : Verdict). v.passed) q))
          (after_group-IsFollowed wfs ev env decision g passed
            (record i { st = record i.st { inflight = none } }))))

-- When a completion resolves its group as failed: nothing is requested and nothing is in flight any more, the
-- issue is watched for being stuck from that time on with the labels it had, and its state stays or becomes
-- "blocked".
pub mark_agent_completed_with_decision-IsHalted :
    (wfs : List (String × Workflow)) (repo : String) (issue_num : ℕ) (task_id agent_name : String)
    (exit_code : ℤ) (labels : List String) (decision : Option String) (env : Env) (i : IssueRuntime)
    → Resolves false (mark_agent_completed task_id agent_name exit_code env.tasks i.st.inflight).0
    → IsHalted env labels i (
        mark_agent_completed_with_decision wfs repo issue_num task_id agent_name exit_code labels
          decision env i)
unfolding mark_agent_completed_with_decision
mark_agent_completed_with_decision-IsHalted wfs repo issue_num task_id agent_name exit_code labels
      decision env i (g, v, e, a, p) =
    let ev = completion_event repo issue_num labels in
    let i' : IssueRuntime = record i {
      st = record i.st {
        inflight = (mark_agent_completed task_id agent_name exit_code env.tasks i.st.inflight).1;
      };
    } in
    let halted =
      after_group-IsHalted wfs ev env decision g i'
        (resolved-inflight task_id agent_name exit_code env i.st.inflight g v e a) in
    subst (λ c. IsHalted env labels i (after_completion wfs ev env decision c i')) (sym e)
      (subst (λ t. IsHalted env labels i t) (sym (after_resolution wfs ev env decision g v i' a))
        (subst (λ (b : Bool). IsHalted env labels i (after_group wfs ev env decision g b i'))
          (sym p) halted))
