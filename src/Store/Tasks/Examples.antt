-- ===== src/Store/Tasks/Examples.antt =====
-- The task queue at concrete inputs.
use workbuddy.Prelude.{
  ◌≢◌, ℕ, ◌≡◌, refl, ◌⊎◌, true, false, none, some, List, [], ◌∷◌, arith, pos, str_eq_iff,
}
use workbuddy.Store.Rows.{find_row, affected}
use workbuddy.Store.Tasks.Row.{
  Status, pending, running, completed, Task, is_terminal, scanned, lease_live, has_id,
}
use workbuddy.Store.Tasks.Queue.{
  ok, err, already_completed, not_claimed_by_worker, lease_expired, lease_of, claim_next_task,
  complete_task,
}
use workbuddy.Store.Tasks.Steps.{claim, release, complete, Op, by_worker, replay}
use workbuddy.Store.Tasks.Settled.{replay-settled}
use workbuddy.Store.Tasks.Ownership.{replay-leased, IsKeyed, completed_row, complete_task_lem}
use workbuddy.Store.Tasks.Pick.{Claimed, claim_next_task-Claimed}

abbrev row : Status → Task
row s = record {
  id = "t1";
  repo = "o/r";
  issue_num = 7;
  agent_name = "dev-agent";
  role = "dev";
  runtime = "";
  workflow = "default";
  state = "developing";
  worker_id = some "w";
  claim_token = some "tok";
  status = s;
  lease_expires_at = some 130;
  acked_at = none;
  heartbeat_at = none;
  completed_at = none;
  exit_code = pos 0;
  session_refs = "[]";
  rollout_index = 0;
  rollouts_total = 1;
  rollout_group_id = "";
  created_at = 90;
  updated_at = 100;
}

abbrev others : List (ℕ × Op)
others =
    (101, by_worker "wx" (claim "t1"))
    ∷ (102, by_worker "wx" (release "t1"))
    ∷ (103, by_worker "wx" (complete "t1" (pos 1) ""))
    ∷ []

found : (s : Status) → find_row (has_id "t1") (row s ∷ []) ≡ some (row s)
unfolding find_row
found s = ground (arith, (str_eq_iff "t1" "t1").1 refl)

one-IsKeyed : (s : Status) → IsKeyed (row s ∷ [])
unfolding affected
one-IsKeyed s id = (λ e. refl, tt)

replay-settled_example :
    find_row (has_id "t1") (replay others (row completed ∷ [])) ≡ some (row completed)
replay-settled_example =
    replay-settled "t1" (row completed) others (row completed ∷ []) refl (found completed)

replay-leased_example :
    find_row (has_id "t1") (replay others (row running ∷ [])) ≡ some (row running)
replay-leased_example =
    replay-leased "t1" (row running) "w" 130 others (row running ∷ [])
      (record { runs = refl; owned = refl; lasts = refl }) (found running)
      ((omega arith, λ e. cc), ((omega arith, λ e. cc), ((omega arith, λ e. cc), tt)))

complete_task_lem_example :
    let t = row running in
    let out = complete_task 110 "t1" "w" (pos 0) "" (t ∷ []) in
    ((is_terminal t.status ≡ true) × (out ≡ (err already_completed, t ∷ [])))
    ⊎ ((is_terminal t.status ≡ false)
        × (scanned t.worker_id ≢ "w")
        × (out ≡ (err not_claimed_by_worker, t ∷ [])))
    ⊎ ((is_terminal t.status ≡ false)
        × (scanned t.worker_id ≡ "w")
        × ((lease_live 110 t.lease_expires_at ≡ false) ⊎ (t.worker_id ≡ none))
        × (out ≡ (err lease_expired, t ∷ [])))
    ⊎ ((is_terminal t.status ≡ false)
        × (t.worker_id ≡ some "w")
        × (lease_live 110 t.lease_expires_at ≡ true)
        × (out.0 ≡ ok tt)
        × (find_row (has_id "t1") out.1 ≡ some (completed_row 110 (pos 0) "" t)))
complete_task_lem_example =
    complete_task_lem 110 "t1" "w" (pos 0) "" (row running ∷ []) (row running) (one-IsKeyed running)
      (found running)

claim_next_task-Claimed_example :
    let out = claim_next_task 200 "x" ("dev" ∷ []) [] "" "tok2" 0 (row pending ∷ []) in
    Claimed 200 (lease_of 0) "x" ("dev" ∷ []) [] "" "tok2" (row pending ∷ []) out.0 out.1
claim_next_task-Claimed_example =
    claim_next_task-Claimed 200 "x" ("dev" ∷ []) [] "" "tok2" 0 (row pending ∷ [])
      (one-IsKeyed pending)
