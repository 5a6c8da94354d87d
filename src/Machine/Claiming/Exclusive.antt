-- ===== src/Machine/Claiming/Exclusive.antt =====
-- The gates of a dispatch keep an issue to one coordinator, and to fulfilled dependencies
-- (internal/statemachine/statemachine.go, isBlockedByIssueClaim and isBlockedByDependency under HandleEvent).
use workbuddy.Prelude.{
  ℕ, String, ◌≡◌, ◌≢◌, refl, ◌⊎◌, inl, inr, ◌<◌, true, false, not, ◌&&◌, ◌||◌, Option, none, some,
  List, [], ◌∷◌, if_ind, Bool-cases, ltb, str_eq, str_eq_iff, trim_space, contains, lookup, arith,
}
use workbuddy.Poller.{ChangeEvent}
use workbuddy.Store.Keys.{IssueKey, issue_key_eq}
use workbuddy.Store.Claims.{
  IssueClaim, Claims, lease_of, expired, against_holder, acquire_once, acquire_issue_claim,
}
use workbuddy.Dependency.{IssueDependencyState, is_blocked}
use workbuddy.Dependency.Evaluate.Reopened.{gate_blocks}
use workbuddy.Machine.Config.{Workflow}
use workbuddy.Machine.Events.Gates.{process_workflow_event-quiet}
use workbuddy.Machine.Completions.{find_matching_workflows}
use workbuddy.Machine.Handle.{
  Machine, HandleEnv, Handled, is_cycle_done, event_key, key_of, issue_state, handle_matched,
  cleared, handle_among, handle_event,
}
use workbuddy.Machine.Handle.Effects.{requests_handled}
use workbuddy.Machine.Claiming.{
  lease_or_default, Coordinator, after_acquire, is_blocked_by_issue_claim,
}

among-quiet :
    (henv : HandleEnv) (ev : ChangeEvent) (wfs : List Workflow) (m : Machine)
    → (henv.env.dependency_blocks || henv.env.claim_blocks) ≡ true
    → requests_handled (handle_among henv ev wfs m).0 ≡ []
unfolding handle_among handle_matched requests_handled
among-quiet henv ev [] m h =
    if_ind (λ (out : Handled × Machine). requests_handled out.0 ≡ [])
      (ltb 0 ev.issue_num && not (is_cycle_done ev.type)) refl refl
among-quiet henv ev (wf ∷ []) m h =
    process_workflow_event-quiet wf ev henv.env (issue_state wf.name (cleared ev m)) h
among-quiet henv ev (wf ∷ other ∷ wfs) m h = refl

handle_event-quiet :
    (henv : HandleEnv) (ev : ChangeEvent) (m : Machine)
    → (henv.env.dependency_blocks || henv.env.claim_blocks) ≡ true
    → requests_handled (handle_event henv ev m).0 ≡ []
unfolding handle_event
handle_event-quiet henv ev m h =
    if_ind (λ (out : Handled × Machine). requests_handled out.0 ≡ [])
      (contains m.processed_events (event_key ev)) (unfold requests_handled in refl)
      (among-quiet henv ev (find_matching_workflows ev.labels henv.workflows) _ h)

-- Another coordinator holds the issue, and its lease has not run out.
abbrev pub IsHeld : ℕ → String → Option IssueClaim → Type 0
IsHeld now claimer none = ⊥
IsHeld now claimer (some row) = (row.worker_id ≢ claimer) × (now < row.expires_at)

once-held :
    (now lease : ℕ) (token : String) (key : IssueKey) (rival row : Option IssueClaim)
    (c : Coordinator) (claims : Claims)
    → IsHeld now c.claimer_id row
    → (let (out, claims') = acquire_once now lease c.claimer_id token key rival row claims in
        after_acquire key c out claims').0
      ≡ true
unfolding acquire_once against_holder expired after_acquire
once-held now lease token key rival none c claims h = elim h [ ]
once-held now lease token key rival (some row) c claims (other, live) =
    let stranger : str_eq row.worker_id c.claimer_id ≡ false =
      ground (arith, str_eq_iff row.worker_id c.claimer_id, other) in
    let unexpired : ltb now row.expires_at ≡ true = ground (arith, live) in
    rw (stranger, unexpired) refl

held-blocked :
    (now : ℕ) (token : String) (key : IssueKey) (rival : Option IssueClaim) (c : Coordinator)
    (claims : Claims)
    → str_eq c.claimer_id "" ≡ false
    → IsHeld now c.claimer_id (lookup key claims)
    → (is_blocked_by_issue_claim now token key rival c claims).0 ≡ true
unfolding is_blocked_by_issue_claim acquire_issue_claim
held-blocked now token key rival c claims named h =
    rw named (elim (Bool-cases (str_eq (trim_space c.claimer_id) "")) [
      | inl blank ↦ rw blank (unfold after_acquire in refl)
      | inr named' ↦ rw named' (
          once-held now (lease_of (lease_or_default c.lease)) token key rival (lookup key claims) c
            claims h)
    ])

-- For a coordinator with a name, and where the two gates of the environment are those of the stores: no event of
-- an issue requests anything while another coordinator holds the issue with a lease that has not run out, whatever process inserts a claim
-- meanwhile, nor while the recorded dependency state gates the issue.
pub handle_event-excluded :
    (henv : HandleEnv) (ev : ChangeEvent) (m : Machine) (token : String) (rival : Option IssueClaim)
    (c : Coordinator) (claims : Claims) (recorded : Option IssueDependencyState)
    → henv.env.dependency_blocks ≡ gate_blocks (is_blocked (some recorded))
    → henv.env.claim_blocks
      ≡ (is_blocked_by_issue_claim henv.env.now token (key_of ev) rival c claims).0
    → str_eq c.claimer_id "" ≡ false
    → IsHeld henv.env.now c.claimer_id (lookup (key_of ev) claims)
      ⊎ (gate_blocks (is_blocked (some recorded)) ≡ true)
    → requests_handled (handle_event henv ev m).0 ≡ []
handle_event-excluded henv ev m token rival c claims recorded d k named (inl held) =
    let b = held-blocked henv.env.now token (key_of ev) rival c claims named held in
    handle_event-quiet henv ev m (ground (arith, k, b))
handle_event-excluded henv ev m token rival c claims recorded d k named (inr gated) =
    handle_event-quiet henv ev m (ground (arith, d, gated))
