-- ===== src/Store/Tasks/Queue.antt =====
-- The operations of internal/store/store.go that change task_queue.
use workbuddy.Prelude.{
  ℕ, ◌+◌, String, Bool, true, false, not, ◌&&◌, ◌||◌, Option, none, some, List, [], ◌∷◌, ◌++◌, map,
  ltb, leb, ◌==◌, if◌then◌else◌, str_eq, str_leb, trim_space, filter_by, contains, ℤ, is_zero,
}
use workbuddy.Store.Rows.{update_rows, affected, find_row}
use workbuddy.Store.Tasks.Row.{
  Status, pending, running, completed, failed, other, Task, is_pending, is_running, is_active,
  is_terminal, scanned, sql_eq, lease_free, lease_live, has_id, sql_blank,
}

pub data TaskError : Type 0 where
  not_found unexpected_status status_terminal unsupported_status : TaskError
  task_not_found already_completed not_claimed_by_worker claim_conflict : TaskError
  not_running lease_expired primary_key : TaskError

pub data Outcome {ℓ} (A : Type ℓ) : Type ℓ where
  ok : A → Outcome A
  err : TaskError → Outcome A

abbrev pub Tasks : Type 0
Tasks = List Task

abbrev pub default_lease : ℕ
default_lease = 30

abbrev pub lease_of : ℕ → ℕ
lease_of lease = if lease == 0 then default_lease else lease

abbrev pub or_pending : Status → Status
or_pending (other s) = if str_eq s "" then pending else other s
or_pending known = known

-- The row that `InsertTask` writes: the columns that the INSERT does not name take their defaults.
abbrev pub stored : ℕ → Task → Task
stored now t = record t {
  status = or_pending t.status;
  session_refs = if str_eq t.session_refs "" then "[]" else t.session_refs;
  rollouts_total = if t.rollouts_total == 0 then 1 else t.rollouts_total;
  lease_expires_at = none;
  acked_at = none;
  heartbeat_at = none;
  completed_at = none;
  created_at = now;
  updated_at = now;
}

unfoldable pub insert_task : ℕ → Task → Tasks → Outcome (Unit {0}) × Tasks
insert_task now t tasks =
    if affected (has_id t.id) tasks
    then (err primary_key, tasks)
    else (ok tt, tasks ++ stored now t ∷ [])

unfoldable pub update_task_status : ℕ → String → Status → Tasks → Outcome (Unit {0}) × Tasks
update_task_status now id status tasks =
    if affected (has_id id) tasks
    then (
      ok tt,
      update_rows (has_id id) (λ t. record t { status = status; updated_at = now }) tasks,
    )
    else (err not_found, tasks)

-- What the two guarded updates answer when no row was active.
unfoldable pub refuse_settled : String → Tasks → TaskError
refuse_settled id tasks = elim (find_row (has_id id) tasks) [
  | none ↦ not_found
  | some t ↦ if is_terminal t.status then status_terminal else unexpected_status
]

abbrev pub active_with : String → Task → Bool
active_with id t = has_id id t && is_active t.status

unfoldable pub transition_task_status_if_running :
    ℕ → String → Status → Tasks → Outcome (Unit {0}) × Tasks
transition_task_status_if_running now id status tasks =
    if affected (active_with id) tasks
    then (
      ok tt,
      update_rows (active_with id) (λ t. record t { status = status; updated_at = now }) tasks,
    )
    else (err (refuse_settled id tasks), tasks)

abbrev pub finalized : ℕ → Status → ℤ → Task → Task
finalized now status exit t = record t {
  status = status;
  exit_code = exit;
  completed_at = some now;
  heartbeat_at = some now;
  lease_expires_at = none;
  updated_at = now;
}

unfoldable pub finalize_task_for_operator :
    ℕ → String → Status → ℤ → Tasks → Outcome (Unit {0}) × Tasks
finalize_task_for_operator now id status exit tasks =
    if not (is_terminal status)
    then (err unsupported_status, tasks)
    else if affected (active_with id) tasks
    then (ok tt, update_rows (active_with id) (finalized now status exit) tasks)
    else (err (refuse_settled id tasks), tasks)

abbrev pub pending_with : String → Task → Bool
pending_with id t = has_id id t && is_pending t.status

unfoldable pub claim_task : ℕ → String → String → Tasks → Bool × Tasks
claim_task now id worker tasks = (
  affected (pending_with id) tasks,
  update_rows (pending_with id)
      (λ t. record t { worker_id = some worker; status = running; updated_at = now }) tasks,
)

abbrev pub running_of : String → String → Task → Bool
running_of id worker t = has_id id t && sql_eq t.worker_id worker && is_running t.status

unfoldable pub release_task : ℕ → String → String → Tasks → Bool × Tasks
release_task now id worker tasks = (
  affected (running_of id worker) tasks,
  update_rows (running_of id worker)
      (λ t. record t { worker_id = none; status = pending; updated_at = now }) tasks,
)

-- `NOT (status = 'running' AND worker_id = ?)`, which is NULL, and so fails, for a running row
-- without a worker.
abbrev pub not_own_running : String → Task → Bool
not_own_running worker t =
    not (is_running t.status) || elim t.worker_id [ none ↦ false | some w ↦ not (str_eq w worker) ]

abbrev pub is_nil : List String → Bool
is_nil [] = true
is_nil (_ ∷ _) = false

-- The WHERE clause that finds a task to hand out. No roles, and no repos, mean any.
unfoldable pub claimable : ℕ → String → List String → List String → String → Task → Bool
claimable now worker roles repos runtime t =
    is_active t.status
    && lease_free now t.lease_expires_at
    && not_own_running worker t
    && (is_nil roles || contains roles t.role)
    && (is_nil repos || contains repos t.repo)
    && (sql_blank t.runtime || (not (str_eq runtime "") && str_eq t.runtime runtime))

-- `ORDER BY created_at, id`
unfoldable pub earlier : Task → Task → Bool
earlier a b = ltb a.created_at b.created_at || (a.created_at == b.created_at && str_leb a.id b.id)

unfoldable pub first_by : (Task → Task → Bool) → Tasks → Option Task
first_by before [] = none
first_by before (t ∷ ts) = elim (first_by before ts) [
  | none ↦ some t
  | some best ↦ some (if before t best then t else best)
]

-- `ORDER BY updated_at DESC`
abbrev pub newer : Task → Task → Bool
newer a b = leb b.updated_at a.updated_at

-- The row of an earlier request with the same token, while its lease lasts.
abbrev pub claimed_with : ℕ → String → String → Task → Bool
claimed_with now worker token t =
    sql_eq t.worker_id worker
    && sql_eq t.claim_token token
    && is_running t.status
    && elim t.lease_expires_at [ none ↦ false | some e ↦ leb now e ]

unfoldable pub replayed : ℕ → String → String → Tasks → Option Task
replayed now worker token tasks =
    if str_eq token ""
    then none
    else first_by newer (filter_by (claimed_with now worker token) tasks)

abbrev pub leased : ℕ → String → String → ℕ → Task → Task
leased now worker token lease t = record t {
  worker_id = some worker;
  claim_token = some token;
  status = running;
  lease_expires_at = some (now + lease);
  heartbeat_at = some now;
  updated_at = now;
}

-- The row that the UPDATE of a claim may change.
abbrev pub takeable : ℕ → String → Task → Bool
takeable now id t = has_id id t && is_active t.status && lease_free now t.lease_expires_at

unfoldable pub take_task :
    ℕ → String → String → ℕ → Option Task → Tasks → Outcome (Option Task) × Tasks
take_task now worker token lease none tasks = (ok none, tasks)
take_task now worker token lease (some t) tasks =
    if affected (takeable now t.id) tasks
    then (
      ok (
          some (record t {
            worker_id = some worker;
            claim_token = some token;
            status = running;
            lease_expires_at = some (now + lease);
            heartbeat_at = some now;
          })),
      update_rows (takeable now t.id) (leased now worker token lease) tasks,
    )
    else (err claim_conflict, tasks)

abbrev pub named_repos : List String → List String
named_repos repos = filter_by (λ r. not (str_eq r "")) (map trim_space repos)

-- "Caller explicitly provided repos but all were blank".
abbrev pub only_blank : List String → Bool
only_blank repos = is_nil (named_repos repos) && not (is_nil repos)

unfoldable pub next_claimable :
    ℕ → String → List String → List String → String → Tasks → Option Task
next_claimable now worker roles repos runtime tasks =
    first_by earlier
      (filter_by (claimable now worker roles (named_repos repos) (trim_space runtime)) tasks)

unfoldable pub claim_next_fresh :
    ℕ
    → String
    → List String
    → List String
    → String
    → String
    → ℕ
    → Tasks
    → Outcome (Option Task) × Tasks
claim_next_fresh now worker roles repos runtime token lease tasks =
    if only_blank repos
    then (ok none, tasks)
    else take_task now worker token lease (next_claimable now worker roles repos runtime tasks)
        tasks

-- `ClaimNextTask`, one attempt: `claimNextTaskOnce`.
unfoldable pub claim_next_task :
    ℕ
    → String
    → List String
    → List String
    → String
    → String
    → ℕ
    → Tasks
    → Outcome (Option Task) × Tasks
claim_next_task now worker roles repos runtime token lease tasks =
    elim (replayed now worker token tasks) [
      | some t ↦ (ok (some t), tasks)
      | none ↦ claim_next_fresh now worker roles repos runtime token (lease_of lease) tasks
    ]

unfoldable pub check_owner : String → Option Task → Outcome Task
check_owner worker none = err task_not_found
check_owner worker (some t) =
    if is_terminal t.status
    then err already_completed
    else if str_eq (scanned t.worker_id) worker
    then ok t
    else err not_claimed_by_worker

unfoldable pub ensure_task_ownership : String → String → Tasks → Outcome Task
ensure_task_ownership id worker tasks = check_owner worker (find_row (has_id id) tasks)

-- The second half of the three calls of the owner: the UPDATE, refused with `e` if it meets no row.
unfoldable pub guarded :
    TaskError → (Task → Bool) → (Task → Task) → Outcome Task → Tasks → Outcome (Unit {0}) × Tasks
guarded e p f (err e') tasks = (err e', tasks)
guarded e p f (ok _) tasks =
    if affected p tasks then (ok tt, update_rows p f tasks) else (err e, tasks)

abbrev pub or_now : ℕ → Option ℕ → Option ℕ
or_now now none = some now
or_now now (some t) = some t

abbrev pub owned_with : String → String → Task → Bool
owned_with id worker t = has_id id t && sql_eq t.worker_id worker

unfoldable pub ack_task : ℕ → String → String → ℕ → Tasks → Outcome (Unit {0}) × Tasks
ack_task now id worker lease tasks =
    guarded not_claimed_by_worker (owned_with id worker)
      (λ t. record t {
        acked_at = or_now now t.acked_at;
        heartbeat_at = some now;
        lease_expires_at = some (now + lease_of lease);
        updated_at = now;
      })
      (ensure_task_ownership id worker tasks) tasks

unfoldable pub heartbeat_task : ℕ → String → String → ℕ → Tasks → Outcome (Unit {0}) × Tasks
heartbeat_task now id worker lease tasks =
    guarded not_running (λ t. owned_with id worker t && is_running t.status)
      (λ t. record t {
        heartbeat_at = some now;
        lease_expires_at = some (now + lease_of lease);
        updated_at = now;
      })
      (ensure_task_ownership id worker tasks) tasks

-- The WHERE clause of `CompleteTask`: it names `completed` and `failed`, not `timeout`.
abbrev pub completable : ℕ → String → String → Task → Bool
completable now id worker t =
    owned_with id worker t
    && elim t.status [ completed ↦ false | failed ↦ false | _ ↦ true ]
    && lease_live now t.lease_expires_at

unfoldable pub complete_task : ℕ → String → String → ℤ → String → Tasks → Outcome (Unit {0}) × Tasks
complete_task now id worker exit refs tasks =
    guarded lease_expired (completable now id worker)
      (λ t. record (finalized now (if is_zero exit then completed else failed) exit t) {
        session_refs = if str_eq refs "" then "[]" else refs;
      })
      (ensure_task_ownership id worker tasks) tasks
