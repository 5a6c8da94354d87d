-- ===== src/Machine/Handle/Reported.antt =====
-- The hazards that an event records and clears (internal/statemachine/statemachine.go, HandleEvent).
use workbuddy.Prelude.{
  ℕ, String, ◌≡◌, ◌≢◌, refl, sym, ap, subst, ◌∙◌, inl, inr, Bool, true, false, not, ◌&&◌, Option,
  none, some, List, [], ◌∷◌, ltb, if◌then◌else◌, if_ind, Bool-cases, contains, lookup,
  lookup-insert, lookup-delete, arith,
}
use workbuddy.Poller.{ChangeEvent, EventType}
use workbuddy.Store.Keys.{IssueKey, issue_key_eq, key_eq_iff}
use workbuddy.Store.Hazards.{
  Hazards, HazardKind, no_workflow_match, awaiting_status_label, upsert_issue_pipeline_hazard,
  same_kind, PipelineHazard, clear_hazard_if_kind, clear_if_kind, query_issue_pipeline_hazard,
  clear_issue_pipeline_hazard,
}
use workbuddy.Store.Hazards.Upserts.{same_kind_iff, upsert_issue_pipeline_hazard_lem}
use workbuddy.Machine.Config.{Workflow, State}
use workbuddy.Machine.Events.{Env, find_current_state}
use workbuddy.Machine.Completions.{find_matching_workflows}
use workbuddy.Machine.Handle.{
  Machine, HandleEnv, Handled, unmatched, is_cycle_done, event_key, key_of, has_status_label,
  has_any_workflow, detect_no_workflow_match_hazard, detect_unentered, clear_if_issue,
  check_entered, with_state, handle_matched, cleared, handle_among, handle_event,
}

-- The row of an issue is not of the kind.
abbrev pub IsNot : HazardKind → Option PipelineHazard → Type 0
IsNot kind none = Unit
IsNot kind (some h) = h.kind ≢ kind

clear_if_kind-IsNot :
    (key : IssueKey) (kind : HazardKind) (o : Option PipelineHazard) (hazards : Hazards)
    → lookup key hazards ≡ o
    → IsNot kind (lookup key (clear_if_kind key kind o hazards))
unfolding clear_if_kind clear_issue_pipeline_hazard
clear_if_kind-IsNot key kind none hazards e = rw e tt
clear_if_kind-IsNot key kind (some h) hazards e = elim (Bool-cases (same_kind h.kind kind)) [
  | inl k ↦ rw (k, lookup-delete key key hazards, (key_eq_iff key key).1 refl) tt
  | inr k ↦ rw k (rw e (λ q. ground (arith, q, k, same_kind_iff h.kind kind)))
]

clear_if_issue-IsNot :
    (ev : ChangeEvent) (kind : HazardKind) (hazards : Hazards)
    → ltb 0 ev.issue_num ≡ true
    → IsNot kind (lookup (key_of ev) (clear_if_issue ev kind hazards))
unfolding clear_if_issue clear_hazard_if_kind query_issue_pipeline_hazard
clear_if_issue-IsNot ev kind hazards h =
    subst
      (λ (b : Bool). IsNot kind (
        lookup (key_of ev) (
          if b
          then clear_if_kind (key_of ev) kind (lookup (key_of ev) hazards) hazards
          else hazards)))
      (sym h) (clear_if_kind-IsNot (key_of ev) kind (lookup (key_of ev) hazards) hazards refl)

upsert-IsNot :
    (now : ℕ) (key : IssueKey) (fingerprint : String) (hazards : Hazards)
    → IsNot no_workflow_match (
        lookup key
          (upsert_issue_pipeline_hazard now key awaiting_status_label fingerprint hazards).1)
unfolding upsert_issue_pipeline_hazard
upsert-IsNot now key fingerprint hazards =
    rw (lookup-insert key key _ hazards, (key_eq_iff key key).1 refl) (λ q. ground (arith, q))

clear_if_kind-other :
    (key : IssueKey) (kind other : HazardKind) (o : Option PipelineHazard) (hazards : Hazards)
    → IsNot other (lookup key hazards)
    → IsNot other (lookup key (clear_if_kind key kind o hazards))
unfolding clear_if_kind clear_issue_pipeline_hazard
clear_if_kind-other key kind other none hazards h = h
clear_if_kind-other key kind other (some r) hazards h =
    if_ind (λ (hs : Hazards). IsNot other (lookup key hs)) (same_kind r.kind kind)
      (rw (lookup-delete key key hazards, (key_eq_iff key key).1 refl) tt) h

unentered-IsNot :
    (henv : HandleEnv) (ev : ChangeEvent) (o : Option String) (hazards : Hazards)
    → IsNot no_workflow_match (lookup (key_of ev) hazards)
    → IsNot no_workflow_match (lookup (key_of ev) (detect_unentered henv ev o hazards).1)
unfolding detect_unentered
unentered-IsNot henv ev none hazards h = h
unentered-IsNot henv ev (some source_hash) hazards h =
    upsert-IsNot henv.env.now (key_of ev) _ hazards

check_entered-IsNot :
    (henv : HandleEnv) (ev : ChangeEvent) (o : Option (String × State)) (hazards : Hazards)
    → IsNot no_workflow_match (lookup (key_of ev) hazards)
    → IsNot no_workflow_match (lookup (key_of ev) (check_entered henv ev o hazards).1)
unfolding check_entered clear_if_issue clear_hazard_if_kind
check_entered-IsNot henv ev none hazards h =
    if_ind (λ (out : Bool × Hazards). IsNot no_workflow_match (lookup (key_of ev) out.1))
      (ltb 0 ev.issue_num) (unentered-IsNot henv ev henv.declaration hazards h) h
check_entered-IsNot henv ev (some s) hazards h =
    if_ind (λ (hs : Hazards). IsNot no_workflow_match (lookup (key_of ev) hs)) (ltb 0 ev.issue_num)
      (clear_if_kind-other (key_of ev) awaiting_status_label no_workflow_match _ hazards h) h

among-IsNot :
    (henv : HandleEnv) (ev : ChangeEvent) (wfs : List Workflow) (m : Machine)
    → ltb 0 ev.issue_num ≡ true
    → wfs ≢ []
    → IsNot no_workflow_match (lookup (key_of ev) (handle_among henv ev wfs m).1.hazards)
unfolding handle_among handle_matched with_state cleared
among-IsNot henv ev [] m h ne = absurd (ne refl)
among-IsNot henv ev (wf ∷ []) m h ne =
    check_entered-IsNot henv ev (find_current_state ev.labels wf.states) _
      (clear_if_issue-IsNot ev no_workflow_match m.hazards h)
among-IsNot henv ev (wf ∷ other ∷ wfs) m h ne =
    clear_if_issue-IsNot ev no_workflow_match m.hazards h

detect-told :
    (henv : HandleEnv) (env' : Env) (ev : ChangeEvent) (type : EventType) (detail author : String)
    (hazards : Hazards)
    → (detect_no_workflow_match_hazard
        (record henv { env = env' })
        (record ev { type = type; detail = detail; author = author })
        (detect_no_workflow_match_hazard henv ev hazards).1).0
      ≡ false
unfolding detect_no_workflow_match_hazard
detect-told henv env' ev type detail author hazards =
    elim (Bool-cases (has_status_label ev.labels && has_any_workflow henv.workflows)) [
      | inl e ↦
          rw e
            (upsert_issue_pipeline_hazard_lem henv.env.now env'.now (key_of ev) no_workflow_match
              (henv.labels_fingerprint ev.labels) hazards).1
      | inr e ↦ rw e refl
    ]

among-hazards :
    (henv : HandleEnv) (ev : ChangeEvent) (m : Machine)
    → ltb 0 ev.issue_num ≡ true
    → is_cycle_done ev.type ≡ false
    → (handle_among henv ev [] m).1.hazards ≡ (detect_no_workflow_match_hazard henv ev m.hazards).1
unfolding handle_among
among-hazards henv ev m h c = rw (h, c) refl

untold : (b : Bool) → b ≡ false → unmatched b ≢ unmatched true
untold true h q = ground (arith, h)
untold false h q = ground (arith, q)

among-told :
    (henv : HandleEnv) (ev : ChangeEvent) (m : Machine)
    → (detect_no_workflow_match_hazard henv ev m.hazards).0 ≡ false
    → (handle_among henv ev [] m).0 ≢ unmatched true
unfolding handle_among
among-told henv ev m h =
    if_ind (λ (out : Handled × Machine). out.0 ≢ unmatched true)
      (ltb 0 ev.issue_num && not (is_cycle_done ev.type)) (untold _ h) (untold false refl)

fresh-handled :
    (henv : HandleEnv) (ev : ChangeEvent) (m : Machine)
    → contains m.processed_events (event_key ev) ≡ false
    → handle_event henv ev m
      ≡ handle_among henv ev
          (find_matching_workflows ev.labels henv.workflows)
          (record m { processed_events = event_key ev ∷ m.processed_events })
unfolding handle_event
fresh-handled henv ev m e = rw e refl

again-told :
    (henv : HandleEnv) (ev : ChangeEvent) (m : Machine)
    → find_matching_workflows ev.labels henv.workflows ≡ []
    → (detect_no_workflow_match_hazard henv ev m.hazards).0 ≡ false
    → (handle_event henv ev m).0 ≢ unmatched true
unfolding handle_event
again-told henv ev m e h = rw e (
    if_ind (λ (out : Handled × Machine). out.0 ≢ unmatched true)
      (contains m.processed_events (event_key ev)) (λ q. ground (arith, q))
      (among-told henv ev (record m { processed_events = event_key ev ∷ m.processed_events }) h))

-- After an event of an issue that was not seen before: where its labels match a workflow, no hazard of an
-- unmatched issue is recorded for it any more; where they match none and the event is not the end of a poll,
-- no later event with the same labels is told as such a hazard again, as long as nothing else has come in between,
-- whatever its type, detail and author and whatever the time.
pub handle_event-IsNot :
    (henv : HandleEnv) (ev : ChangeEvent) (m : Machine)
    → contains m.processed_events (event_key ev) ≡ false
    → ltb 0 ev.issue_num ≡ true
    → (find_matching_workflows ev.labels henv.workflows ≢ []
        → IsNot no_workflow_match (lookup (key_of ev) (handle_event henv ev m).1.hazards))
      × (find_matching_workflows ev.labels henv.workflows ≡ []
          → is_cycle_done ev.type ≡ false
          → (env' : Env) (type : EventType) (detail author : String)
          → (handle_event
              (record henv { env = env' })
              (record ev { type = type; detail = detail; author = author })
              (handle_event henv ev m).1).0
            ≢ unmatched true)
handle_event-IsNot henv ev m e h =
    let m' : Machine = record m { processed_events = event_key ev ∷ m.processed_events } in
    (
      λ ne.
          subst (λ out. IsNot no_workflow_match (lookup (key_of ev) out.1.hazards))
            (sym (fresh-handled henv ev m e))
            (among-IsNot henv ev (find_matching_workflows ev.labels henv.workflows) m' h ne),
      λ none_match c env' type detail author.
          let recorded : (handle_event henv ev m).1.hazards
              ≡ (detect_no_workflow_match_hazard henv ev m.hazards).1 =
            ap (λ (out : Handled × Machine). out.1.hazards) (fresh-handled henv ev m e)
            ∙ (rw none_match (among-hazards henv ev m' h c)) in
          again-told (record henv { env = env' })
            (record ev { type = type; detail = detail; author = author }) (handle_event henv ev m).1
            none_match
            (subst
              (λ hs.
                (detect_no_workflow_match_hazard (record henv { env = env' })
                  (record ev { type = type; detail = detail; author = author }) hs).0
                ≡ false)
              (sym recorded) (detect-told henv env' ev type detail author m.hazards)),
    )
