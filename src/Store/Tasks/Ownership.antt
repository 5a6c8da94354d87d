-- ===== src/Store/Tasks/Ownership.antt =====
-- Who may change a running row of task_queue (internal/store/store.go).
use workbuddy.Prelude.{
  ◌&&◌, ℕ, ◌≤◌, String, ◌≡◌, refl, ◌≢◌, ◌⊎◌, inl, inr, Bool, true, false, not, Option, none, some,
  List, [], ◌∷◌, arith, str_eq, str_eq_iff, All, if_ind, Bool-cases, ℤ, is_zero, if◌then◌else◌,
}
use workbuddy.Store.Rows.{
  update_rows, affected, find_row, find_row-update_rows, find_row-append, find_row-sat, Once,
  affected-Once, Once-update_rows, Once-snoc,
}
use workbuddy.Store.Tasks.Row.{
  running, completed, failed, Task, is_terminal, scanned, sql_eq, lease_live, has_id,
}
use workbuddy.Store.Tasks.Queue.{
  Outcome, ok, err, Tasks, already_completed, not_claimed_by_worker, lease_expired, stored,
  insert_task, claim_task, release_task, ack_task, heartbeat_task, complete_task, completable,
  finalized, takeable, replayed, only_blank, lease_of, TaskError, active_with, guarded, check_owner,
  ensure_task_ownership, claim_next_task, claim_next_fresh, take_task,
  transition_task_status_if_running, finalize_task_for_operator,
}
use workbuddy.Store.Tasks.Steps.{
  WorkerOp, claim, release, claim_next, ack, heartbeat, complete, Op, by_worker, insert, transition,
  finalize, work, apply, replay,
}
use workbuddy.Store.Tasks.Settled.{kept, claim_next_kept, guarded_kept}

-- The row runs under a lease of `owner` that lasts until `until`.
pub record IsLeased (t : Task) (owner : String) (until : ℕ) : Type 0 where
  pub runs : t.status ≡ running
  pub owned : t.worker_id ≡ some owner
  pub lasts : t.lease_expires_at ≡ some until

module _ (i : String) (t : Task) (owner : String) (until : ℕ)
    (leased : IsLeased t owner until) where
  work-leased :
      (now : ℕ) (w : String) (op : WorkerOp) (ts : Tasks)
      → now ≤ until
      → w ≢ owner
      → find_row (has_id i) ts ≡ some t
      → find_row (has_id i) (work now w op ts) ≡ some t
  unfolding work claim_task release_task ack_task heartbeat_task complete_task
  work-leased now w (claim id) ts h d e = kept i t _ _ ts (λ r. refl) e (ground arith)
  work-leased now w (release id) ts h d e =
      kept i t _ _ ts (λ r. refl) e (ground (arith, str_eq_iff owner w))
  work-leased now w (claim_next roles repos runtime token lease) ts h d e =
      claim_next_kept i t ts e now w roles repos runtime token lease (ground arith)
  work-leased now w (ack id lease) ts h d e =
      guarded_kept i t ts e w id _ _ _ (λ r. refl) (λ q. ground arith)
        (inr (ground (arith, str_eq_iff owner w)))
  work-leased now w (heartbeat id lease) ts h d e =
      guarded_kept i t ts e w id _ _ _ (λ r. refl) (λ q. ground arith)
        (inr (ground (arith, str_eq_iff owner w)))
  work-leased now w (complete id exit refs) ts h d e =
      guarded_kept i t ts e w id _ _ _ (λ r. refl) (λ q. ground arith)
        (inr (ground (arith, str_eq_iff owner w)))

-- An insertion, or an operation of another worker, no later than the end of the lease.
abbrev pub Intrudes : String → ℕ → ℕ × Op → Type 0
Intrudes owner until (now, by_worker w op) = (now ≤ until) × (w ≢ owner)
Intrudes owner until (now, insert u) = Unit
Intrudes owner until (now, transition id status) = ⊥
Intrudes owner until (now, finalize id status exit) = ⊥

-- While a worker's lease on a running task lasts, no sequence of other workers' operations and of
-- insertions changes the row: the task is not handed out twice, nor settled by a stranger.
pub replay-leased :
    (i : String) (t : Task) (owner : String) (until : ℕ) (ops : List (ℕ × Op)) (ts : Tasks)
    → IsLeased t owner until
    → find_row (has_id i) ts ≡ some t
    → All (Intrudes owner until) ops
    → find_row (has_id i) (replay ops ts) ≡ some t
unfolding replay apply insert_task
replay-leased i t owner until [] ts l e h = e
replay-leased i t owner until ((now, by_worker w op) ∷ ops) ts l e h =
    replay-leased i t owner until ops _ l (work-leased i t owner until l now w op ts h.0.0 h.0.1 e)
      h.1
replay-leased i t owner until ((now, insert u) ∷ ops) ts l e h =
    replay-leased i t owner until ops _ l
      (ground (arith, find_row-append (has_id i) ts (stored now u ∷ []) t e)) h.1
replay-leased i t owner until ((now, transition id status) ∷ ops) ts l e h = absurd h.0
replay-leased i t owner until ((now, finalize id status exit) ∷ ops) ts l e h = absurd h.0

-- The primary key: no two rows have the same id.
abbrev pub IsKeyed : Tasks → Type 0
IsKeyed ts = (id : String) → Once (has_id id) ts

module _ (ts : Tasks) (k : IsKeyed ts) where
  update-IsKeyed :
      (p : Task → Bool) (f : Task → Task)
      → ((id : String) (r : Task) → has_id id (f r) ≡ has_id id r)
      → IsKeyed (update_rows p f ts)
  update-IsKeyed p f h id = Once-update_rows (has_id id) p f ts (h id) (k id)

  take-IsKeyed :
      (now lease : ℕ) (w token : String) (o : Option Task)
      → IsKeyed (take_task now w token lease o ts).1
  unfolding take_task
  take-IsKeyed now lease w token none = k
  take-IsKeyed now lease w token (some u) =
      if_ind (λ (o : Outcome (Option Task) × Tasks). IsKeyed o.1) (affected (takeable now u.id) ts)
        (update-IsKeyed _ _ (λ id r. refl)) k

  next-IsKeyed :
      (now : ℕ) (w : String) (roles repos : List String) (runtime token : String) (lease : ℕ)
      (o : Option Task)
      → replayed now w token ts ≡ o
      → IsKeyed (claim_next_task now w roles repos runtime token lease ts).1
  unfolding claim_next_task claim_next_fresh
  next-IsKeyed now w roles repos runtime token lease none e =
      rw (e, claim_next_task)
        (if_ind (λ (o : Outcome (Option Task) × Tasks). IsKeyed o.1) (only_blank repos) k
          (take-IsKeyed now (lease_of lease) w token _))
  next-IsKeyed now w roles repos runtime token lease (some u) e = rw (e, claim_next_task) k

  guarded-IsKeyed :
      (e : TaskError) (p : Task → Bool) (f : Task → Task) (o : Outcome Task)
      → ((id : String) (r : Task) → has_id id (f r) ≡ has_id id r)
      → IsKeyed (guarded e p f o ts).1
  unfolding guarded
  guarded-IsKeyed e p f (err e') h = k
  guarded-IsKeyed e p f (ok u) h =
      if_ind (λ (o : Outcome (Unit {0}) × Tasks). IsKeyed o.1) (affected p ts)
        (update-IsKeyed p f h) k

  insert-IsKeyed : (now : ℕ) (u : Task) → IsKeyed (insert_task now u ts).1
  unfolding insert_task
  insert-IsKeyed now u = elim (Bool-cases (affected (has_id u.id) ts)) [
    | inl taken ↦ rw taken k
    | inr free ↦ rw free (λ id.
        Once-snoc (has_id id) ts (stored now u) (k id)
          (λ same. rw (← (str_eq_iff u.id id).0 same) free))
  ]

  work-IsKeyed : (now : ℕ) (w : String) (op : WorkerOp) → IsKeyed (work now w op ts)
  unfolding work claim_task release_task ack_task heartbeat_task complete_task
  work-IsKeyed now w (claim id) = update-IsKeyed _ _ (λ id r. refl)
  work-IsKeyed now w (release id) = update-IsKeyed _ _ (λ id r. refl)
  work-IsKeyed now w (claim_next roles repos runtime token lease) =
      next-IsKeyed now w roles repos runtime token lease _ refl
  work-IsKeyed now w (ack id lease) = guarded-IsKeyed _ _ _ _ (λ id r. refl)
  work-IsKeyed now w (heartbeat id lease) = guarded-IsKeyed _ _ _ _ (λ id r. refl)
  work-IsKeyed now w (complete id exit refs) = guarded-IsKeyed _ _ _ _ (λ id r. refl)

  apply-IsKeyed : (now : ℕ) (op : Op) → IsKeyed (apply now op ts)
  unfolding apply transition_task_status_if_running finalize_task_for_operator
  apply-IsKeyed now (by_worker w op) = work-IsKeyed now w op
  apply-IsKeyed now (insert u) = insert-IsKeyed now u
  apply-IsKeyed now (transition id status) =
      if_ind (λ (o : Outcome (Unit {0}) × Tasks). IsKeyed o.1) (affected (active_with id) ts)
        (update-IsKeyed _ _ (λ id r. refl)) k
  apply-IsKeyed now (finalize id status exit) =
      if_ind (λ (o : Outcome (Unit {0}) × Tasks). IsKeyed o.1) (not (is_terminal status)) k
        (if_ind (λ (o : Outcome (Unit {0}) × Tasks). IsKeyed o.1) (affected (active_with id) ts)
          (update-IsKeyed _ _ (λ id r. refl)) k)

-- Every operation keeps the ids of the table distinct.
pub replay-IsKeyed : (ops : List (ℕ × Op)) (ts : Tasks) → IsKeyed ts → IsKeyed (replay ops ts)
unfolding replay
replay-IsKeyed [] ts k = k
replay-IsKeyed ((now, op) ∷ ops) ts k =
    replay-IsKeyed ops (apply now op ts) (apply-IsKeyed ts k now op)

-- The row that a completion leaves: the exit code decides the status, and the lease is gone.
abbrev pub completed_row : ℕ → ℤ → String → Task → Task
completed_row now exit refs t =
    record (finalized now (if is_zero exit then completed else failed) exit t) {
      session_refs = if str_eq refs "" then "[]" else refs;
    }

refusal :
    (now : ℕ) (w : String) (t : Task)
    → str_eq (scanned t.worker_id) w ≡ true
    → (sql_eq t.worker_id w && lease_live now t.lease_expires_at) ≡ false
    → (lease_live now t.lease_expires_at ≡ false) ⊎ (t.worker_id ≡ none)
refusal now w t o l = go t.worker_id refl
  where
    go :
        (x : Option String)
        → t.worker_id ≡ x
        → (lease_live now t.lease_expires_at ≡ false) ⊎ (t.worker_id ≡ none)
    go none e = inr e
    go (some v) e = inl (ground (arith, o, l, e))

owner :
    (now : ℕ) (w : String) (t : Task)
    → (sql_eq t.worker_id w && lease_live now t.lease_expires_at) ≡ true
    → t.worker_id ≡ some w
owner now w t l = go t.worker_id refl
  where
    go : (x : Option String) → t.worker_id ≡ x → t.worker_id ≡ some w
    go none e = absurd (ground (arith, l, e))
    go (some v) e = ground (arith, str_eq_iff v w, l, e)

-- `CompleteTask` on a stored task, where ids are distinct, a worker id that is NULL reading as the empty text: a
-- settled task is refused, and so is a stranger's call; an owner is refused where the lease has run out or the
-- worker id is NULL; each refusal has its own error and leaves the table alone; an owner with a live lease settles
-- the row by the exit code.
pub complete_task_lem :
    (now : ℕ) (id w : String) (exit : ℤ) (refs : String) (ts : Tasks) (t : Task)
    → IsKeyed ts
    → find_row (has_id id) ts ≡ some t
    → let out = complete_task now id w exit refs ts in
      ((is_terminal t.status ≡ true) × (out ≡ (err already_completed, ts)))
      ⊎ ((is_terminal t.status ≡ false)
          × (scanned t.worker_id ≢ w)
          × (out ≡ (err not_claimed_by_worker, ts)))
      ⊎ ((is_terminal t.status ≡ false)
          × (scanned t.worker_id ≡ w)
          × ((lease_live now t.lease_expires_at ≡ false) ⊎ (t.worker_id ≡ none))
          × (out ≡ (err lease_expired, ts)))
      ⊎ ((is_terminal t.status ≡ false)
          × (t.worker_id ≡ some w)
          × (lease_live now t.lease_expires_at ≡ true)
          × (out.0 ≡ ok tt)
          × (find_row (has_id id) out.1 ≡ some (completed_row now exit refs t)))
unfolding complete_task ensure_task_ownership check_owner guarded
complete_task_lem now id w exit refs ts t k e =
    let mine = find_row-sat (has_id id) ts t e in
    let here =
      affected-Once (has_id id) (completable now id w) ts t (λ x c. ground arith) (k id) e in
    let after =
      find_row-update_rows (has_id id) (completable now id w) (completed_row now exit refs) ts
        (λ r. refl) in
    rw e (elim (Bool-cases (is_terminal t.status)) [
      | inl s ↦ inl (s, ground arith)
      | inr s ↦ elim (Bool-cases (str_eq (scanned t.worker_id) w)) [
        | inr o ↦ inr (inl (s, ground (arith, o, str_eq_iff (scanned t.worker_id) w), ground arith))
        | inl o ↦ elim (Bool-cases (sql_eq t.worker_id w && lease_live now t.lease_expires_at)) [
          | inr l ↦ inr (
              inr (
                inl (
                  s,
                  (str_eq_iff (scanned t.worker_id) w).0 o,
                  refusal now w t o l,
                  ground (arith, mine, here),
                )))
          | inl l ↦ inr (
              inr (
                inr (
                  s,
                  owner now w t l,
                  ground (arith, l),
                  ground (arith, mine, here),
                  ground (arith, mine, here, after),
                )))
        ]
      ]
    ])
