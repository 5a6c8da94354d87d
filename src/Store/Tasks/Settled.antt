-- ===== src/Store/Tasks/Settled.antt =====
-- Settled rows of task_queue (internal/store/store.go).
use workbuddy.Prelude.{
  ℕ, String, ◌≡◌, refl, sym, ◌∙◌, ◌⊎◌, Bool, true, false, ◌&&◌, Option, none, some, List, [], ◌∷◌,
  arith, str_eq, str_eq_iff, Bool-cases, inl, inr,
}
use workbuddy.Store.Rows.{
  update_rows, find_row, find_row-update_rows, find_row-append, find_row-sat,
}
use workbuddy.Store.Tasks.Row.{Task, is_active, is_terminal, scanned, lease_free, has_id}
use workbuddy.Store.Tasks.Queue.{
  Tasks, insert_task, transition_task_status_if_running, finalize_task_for_operator, claim_task,
  release_task, claim_next_task, ack_task, heartbeat_task, complete_task, take_task,
  claim_next_fresh, guarded, check_owner, ensure_task_ownership, TaskError, takeable, leased,
  lease_of, next_claimable, stored, active_with, finalized,
}
use workbuddy.Store.Tasks.Steps.{
  WorkerOp, claim, release, claim_next, ack, heartbeat, complete, Op, by_worker, insert, transition,
  finalize, work, apply, replay,
}

-- An update that passes the row over leaves it to be found.
pub kept :
    (i : String) (t : Task) (p : Task → Bool) (f : Task → Task) (ts : Tasks)
    → ((r : Task) → has_id i (f r) ≡ has_id i r)
    → find_row (has_id i) ts ≡ some t
    → p t ≡ false
    → find_row (has_id i) (update_rows p f ts) ≡ some t
kept i t p f ts h e q = ground (arith, find_row-update_rows (has_id i) p f ts h)

module _ (i : String) (t : Task) (ts : Tasks) (e : find_row (has_id i) ts ≡ some t) where
  found_id : t.id ≡ i
  found_id = (str_eq_iff t.id i).0 (find_row-sat (has_id i) ts t e)

  -- `take_task` writes only rows whose lease is free.
  pub take_kept :
      (now lease : ℕ) (w token : String) (o : Option Task)
      → (is_active t.status && lease_free now t.lease_expires_at) ≡ false
      → find_row (has_id i) (take_task now w token lease o ts).1 ≡ some t
  unfolding take_task
  take_kept now lease w token none h = e
  take_kept now lease w token (some u) h =
      ground (arith, kept i t (takeable now u.id) (leased now w token lease) ts (λ r. refl) e)

  pub claim_next_kept :
      (now : ℕ) (w : String) (roles repos : List String) (runtime token : String) (lease : ℕ)
      → (is_active t.status && lease_free now t.lease_expires_at) ≡ false
      → find_row (has_id i) (claim_next_task now w roles repos runtime token lease ts).1 ≡ some t
  unfolding claim_next_task claim_next_fresh
  claim_next_kept now w roles repos runtime token lease h = ground (
    arith,
    take_kept now (lease_of lease) w token (next_claimable now w roles repos runtime ts) h,
  )

  -- The calls of an owner are refused, or write only rows that meet their condition.
  pub guarded_kept :
      (w id : String) (e' : TaskError) (p : Task → Bool) (f : Task → Task)
      → ((r : Task) → has_id i (f r) ≡ has_id i r)
      → (p t ≡ true → has_id id t ≡ true)
      → ((is_terminal t.status ≡ true) ⊎ (str_eq (scanned t.worker_id) w ≡ false))
      → find_row (has_id i) (guarded e' p f (ensure_task_ownership id w ts) ts).1 ≡ some t
  unfolding guarded ensure_task_ownership check_owner
  guarded_kept w id e' p f h q refused = elim (Bool-cases (str_eq t.id id)) [
    | inl same ↦
        let named : i ≡ id = sym found_id ∙ (str_eq_iff t.id id).0 same in
        rw (← named) (rw e (ground arith))
    | inr apart ↦ ground (arith, kept i t p f ts h e)
  ]

module _ (i : String) (t : Task) (settled : is_terminal t.status ≡ true) where
  work-settled :
      (now : ℕ) (w : String) (op : WorkerOp) (ts : Tasks)
      → find_row (has_id i) ts ≡ some t
      → find_row (has_id i) (work now w op ts) ≡ some t
  unfolding work claim_task release_task ack_task heartbeat_task complete_task
  work-settled now w (claim id) ts e = kept i t _ _ ts (λ r. refl) e (ground arith)
  work-settled now w (release id) ts e = kept i t _ _ ts (λ r. refl) e (ground arith)
  work-settled now w (claim_next roles repos runtime token lease) ts e =
      claim_next_kept i t ts e now w roles repos runtime token lease (ground arith)
  work-settled now w (ack id lease) ts e =
      guarded_kept i t ts e w id _ _ _ (λ r. refl) (λ q. ground arith) (inl settled)
  work-settled now w (heartbeat id lease) ts e =
      guarded_kept i t ts e w id _ _ _ (λ r. refl) (λ q. ground arith) (inl settled)
  work-settled now w (complete id exit refs) ts e =
      guarded_kept i t ts e w id _ _ _ (λ r. refl) (λ q. ground arith) (inl settled)

  apply-settled :
      (now : ℕ) (op : Op) (ts : Tasks)
      → find_row (has_id i) ts ≡ some t
      → find_row (has_id i) (apply now op ts) ≡ some t
  unfolding apply insert_task transition_task_status_if_running finalize_task_for_operator
  apply-settled now (by_worker w op) ts e = work-settled now w op ts e
  apply-settled now (insert u) ts e =
      ground (arith, find_row-append (has_id i) ts (stored now u ∷ []) t e)
  apply-settled now (transition id status) ts e = ground (
    arith,
    kept i t (active_with id) (λ r. record r { status = status; updated_at = now }) ts (λ r. refl)
        e,
  )
  apply-settled now (finalize id status exit) ts e =
      ground (arith, kept i t (active_with id) (finalized now status exit) ts (λ r. refl) e)

-- Once a task has completed, failed or timed out, no sequence of claims, releases, heartbeats,
-- completions, operator finalisations, guarded transitions and insertions, by any workers at any
-- times, changes its row.
pub replay-settled :
    (i : String) (t : Task) (ops : List (ℕ × Op)) (ts : Tasks)
    → is_terminal t.status ≡ true
    → find_row (has_id i) ts ≡ some t
    → find_row (has_id i) (replay ops ts) ≡ some t
unfolding replay
replay-settled i t [] ts settled e = e
replay-settled i t ((now, op) ∷ ops) ts settled e =
    replay-settled i t ops (apply now op ts) settled (apply-settled i t settled now op ts e)
