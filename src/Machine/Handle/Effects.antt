-- ===== src/Machine/Handle/Effects.antt =====
-- What an event changes, and how often (internal/statemachine/statemachine.go, HandleEvent).
use workbuddy.Prelude.{
  ◌≡◌, refl, ◌⊎◌, inl, inr, true, not, ◌&&◌, some, List, [], ◌∷◌, ltb, if_ind, Bool-cases, contains,
}
use workbuddy.Poller.{ChangeEvent}
use workbuddy.Store.Keys.{issue_key_eq}
use workbuddy.Machine.Sets.{contains_head}
use workbuddy.Machine.Config.{Workflow}
use workbuddy.Machine.Dispatch.{Request}
use workbuddy.Machine.Groups.{DispatchGroup}
use workbuddy.Machine.Dispatch.Slots.{IsStarted}
use workbuddy.Machine.Events.Gates.{requests_of, process_workflow_event-Sends}
use workbuddy.Machine.Completions.{find_matching_workflows}
use workbuddy.Machine.Handle.{
  Machine, HandleEnv, Handled, duplicate, handled, is_cycle_done, event_key, issue_state,
  with_state, handle_matched, cleared, handle_among, handle_event,
}

among-processed :
    (henv : HandleEnv) (ev : ChangeEvent) (wfs : List Workflow) (m : Machine)
    → (handle_among henv ev wfs m).1.processed_events ≡ m.processed_events
unfolding handle_among handle_matched with_state cleared
among-processed henv ev [] m =
    if_ind (λ (out : Handled × Machine). out.1.processed_events ≡ m.processed_events)
      (ltb 0 ev.issue_num && not (is_cycle_done ev.type)) refl refl
among-processed henv ev (wf ∷ []) m = refl
among-processed henv ev (wf ∷ other ∷ wfs) m = refl

handled-contains :
    (henv : HandleEnv) (ev : ChangeEvent) (m : Machine)
    → contains (handle_event henv ev m).1.processed_events (event_key ev) ≡ true
unfolding handle_event
handled-contains henv ev m = elim (Bool-cases (contains m.processed_events (event_key ev))) [
  | inl e ↦ rw e e
  | inr e ↦
      rw
        (
          e,
          among-processed henv ev (find_matching_workflows ev.labels henv.workflows)
              (record m { processed_events = event_key ev ∷ m.processed_events }),
        )
        (contains_head (event_key ev) m.processed_events)
]

seen-duplicate :
    (henv : HandleEnv) (ev : ChangeEvent) (m : Machine)
    → contains m.processed_events (event_key ev) ≡ true
    → handle_event henv ev m ≡ (duplicate, m)
unfolding handle_event
seen-duplicate henv ev m e = rw e refl

-- An event that comes in again before the events are forgotten does nothing at all, whatever the environment has
-- become.
pub handle_event-twice :
    (henv later : HandleEnv) (ev : ChangeEvent) (m : Machine)
    → handle_event later ev (handle_event henv ev m).1 ≡ (duplicate, (handle_event henv ev m).1)
handle_event-twice henv later ev m =
    seen-duplicate later ev (handle_event henv ev m).1 (handled-contains henv ev m)

-- The requests that went out.
unfoldable pub requests_handled : Handled → List Request
requests_handled (handled told p) = requests_of p
requests_handled _ = []

-- Nothing went out, or the labels match one workflow and no other, and the group in flight is what went out.
abbrev pub SendsFor : HandleEnv → ChangeEvent → Handled × Machine → Type 0
SendsFor henv ev out =
    (requests_handled out.0 ≡ [])
    ⊎ ((wf : Workflow) × (g : DispatchGroup) × (find_matching_workflows ev.labels henv.workflows
          ≡ wf ∷ [])
        × (out.1.inflight ≡ some g)
        × IsStarted (requests_handled out.0) g)

matched-SendsFor :
    (henv : HandleEnv) (ev : ChangeEvent) (wf : Workflow) (m : Machine)
    → find_matching_workflows ev.labels henv.workflows ≡ wf ∷ []
    → SendsFor henv ev (handle_matched henv ev wf m)
unfolding handle_matched with_state requests_handled
matched-SendsFor henv ev wf m e =
    elim (process_workflow_event-Sends wf ev henv.env (issue_state wf.name m)) [
      | inl none_sent ↦ inl none_sent
      | inr (g, put, started) ↦ inr (wf, g, e, put, started)
    ]

among-SendsFor :
    (henv : HandleEnv) (ev : ChangeEvent) (wfs : List Workflow) (m : Machine)
    → find_matching_workflows ev.labels henv.workflows ≡ wfs
    → SendsFor henv ev (handle_among henv ev wfs m)
unfolding handle_among requests_handled
among-SendsFor henv ev [] m e =
    if_ind (SendsFor henv ev) (ltb 0 ev.issue_num && not (is_cycle_done ev.type)) (inl refl)
      (inl refl)
among-SendsFor henv ev (wf ∷ []) m e = matched-SendsFor henv ev wf (cleared ev m) e
among-SendsFor henv ev (wf ∷ other ∷ wfs) m e = inl refl

-- Whatever event comes in: either nothing is requested, or its labels match exactly one workflow, and the group
-- that is in flight afterwards is well formed, without an outcome, and has each of its slots requested once.
pub handle_event-SendsFor :
    (henv : HandleEnv) (ev : ChangeEvent) (m : Machine) → SendsFor henv ev (handle_event henv ev m)
unfolding handle_event requests_handled
handle_event-SendsFor henv ev m =
    if_ind (SendsFor henv ev) (contains m.processed_events (event_key ev)) (inl refl)
      (among-SendsFor henv ev (find_matching_workflows ev.labels henv.workflows) _ refl)
