-- ===== src/Store/Claims/Races.antt =====
-- Interleavings of claim operations by several processes (internal/store/store.go, issue_claim).
use workbuddy.Prelude.{
  ℕ, ◌+◌, ◌<◌, String, ◌≡◌, refl, ◌≢◌, inl, inr, ◌∙◌, false, Option, none, some, List, [], ◌∷◌,
  arith, str_eq_iff, lookup, insert, lookup-insert, lookup-delete, Bool-cases, All,
}
use workbuddy.Store.Keys.{IssueKey, key_eq, key_eq_iff, issue_key_eq}
use workbuddy.Store.Claims.{
  IssueClaim, Claims, lease_of, holds, fresh_claim, against_holder, without_holder, acquire_once,
  acquire_issue_claim, query_issue_claim, release_row, release_issue_claim, refresh_row,
  refresh_issue_claim,
}

-- What a process may ask of the table. (An operator's DeleteIssueClaim is not among them.)
pub data Request : Type 0 where
  acquire :
      (lease : ℕ) (worker token : String) (key : IssueKey) (rival : Option IssueClaim) → Request
  release : (worker token : String) (key : IssueKey) → Request
  refresh : (lease : ℕ) (worker token : String) (key : IssueKey) → Request

pub apply : ℕ → Request → Claims → Claims
apply now (acquire lease worker token key rival) claims =
    (acquire_issue_claim now lease worker token key rival claims).1
apply now (release worker token key) claims = (release_issue_claim worker token key claims).1
apply now (refresh lease worker token key) claims =
    (refresh_issue_claim now lease worker token key claims).1

pub replay : List (ℕ × Request) → Claims → Claims
replay [] claims = claims
replay ((now, r) ∷ rs) claims = replay rs (apply now r claims)

abbrev pub worker_of : Request → String
worker_of (acquire _ worker _ _ _) = worker
worker_of (release worker _ _) = worker
worker_of (refresh _ worker _ _) = worker

module _ (key j : IssueKey) (elsewhere : key_eq j key ≡ false) where
  insert_elsewhere :
      (c : IssueClaim) (claims : Claims) → lookup key (insert j c claims) ≡ lookup key claims
  insert_elsewhere c claims = ground (arith, lookup-insert j key c claims)

  against_elsewhere :
      (now lease : ℕ) (worker token : String) (holder : IssueClaim) (claims : Claims)
      → lookup key (against_holder now lease worker token j holder claims).1 ≡ lookup key claims
  unfolding against_holder
  against_elsewhere now lease worker token holder claims = ground (
    arith,
    insert_elsewhere (record holder { expires_at = now + lease }) claims,
    insert_elsewhere (fresh_claim now lease worker token) claims,
  )

  without_elsewhere :
      (now lease : ℕ) (worker token : String) (rival : Option IssueClaim) (claims : Claims)
      → lookup key (without_holder now lease worker token j rival claims).1 ≡ lookup key claims
  unfolding without_holder
  without_elsewhere now lease worker token none claims = insert_elsewhere _ claims
  without_elsewhere now lease worker token (some r) claims =
      against_elsewhere now lease worker token r (insert j r claims) ∙ insert_elsewhere r claims

  once_elsewhere :
      (now lease : ℕ) (worker token : String) (rival row : Option IssueClaim) (claims : Claims)
      → lookup key (acquire_once now lease worker token j rival row claims).1 ≡ lookup key claims
  unfolding acquire_once
  once_elsewhere now lease worker token rival none claims =
      without_elsewhere now lease worker token rival claims
  once_elsewhere now lease worker token rival (some h) claims =
      against_elsewhere now lease worker token h claims

  acquire_elsewhere :
      (now lease : ℕ) (worker token : String) (rival : Option IssueClaim) (claims : Claims)
      → lookup key (acquire_issue_claim now lease worker token j rival claims).1 ≡ lookup key claims
  unfolding acquire_issue_claim
  acquire_elsewhere now lease worker token rival claims =
      ground
        (arith, once_elsewhere now (lease_of lease) worker token rival (lookup j claims) claims)

  release_elsewhere :
      (worker token : String) (row : Option IssueClaim) (claims : Claims)
      → lookup key (release_row worker token j row claims).1 ≡ lookup key claims
  unfolding release_row
  release_elsewhere worker token none claims = refl
  release_elsewhere worker token (some h) claims = ground (arith, lookup-delete j key claims)

  refresh_elsewhere :
      (now lease : ℕ) (worker token : String) (row : Option IssueClaim) (claims : Claims)
      → lookup key (refresh_row now lease worker token j row claims).1 ≡ lookup key claims
  unfolding refresh_row
  refresh_elsewhere now lease worker token none claims = refl
  refresh_elsewhere now lease worker token (some h) claims =
      ground (arith, insert_elsewhere (record h { expires_at = now + lease_of lease }) claims)

module _ (now : ℕ) (key : IssueKey) (c : IssueClaim) (live : now < c.expires_at) where
  -- A live row refuses everybody but its owner.
  acquire_live :
      (lease : ℕ) (worker token : String) (rival : Option IssueClaim) (claims : Claims)
      → lookup key claims ≡ some c
      → worker ≢ c.worker_id
      → (acquire_issue_claim now lease worker token key rival claims).1 ≡ claims
  unfolding acquire_issue_claim acquire_once against_holder
  acquire_live lease worker token rival claims e h =
      rw (e) (ground (arith, str_eq_iff c.worker_id worker))

  release_live :
      (worker token : String) (claims : Claims)
      → lookup key claims ≡ some c
      → worker ≢ c.worker_id
      → (release_issue_claim worker token key claims).1 ≡ claims
  unfolding release_issue_claim release_row holds
  release_live worker token claims e h = rw e (ground (arith, str_eq_iff c.worker_id worker))

  refresh_live :
      (lease : ℕ) (worker token : String) (claims : Claims)
      → lookup key claims ≡ some c
      → worker ≢ c.worker_id
      → (refresh_issue_claim now lease worker token key claims).1 ≡ claims
  unfolding refresh_issue_claim refresh_row holds
  refresh_live lease worker token claims e h = rw e (ground (arith, str_eq_iff c.worker_id worker))

  apply_live :
      (r : Request) (claims : Claims)
      → lookup key claims ≡ some c
      → worker_of r ≢ c.worker_id
      → lookup key (apply now r claims) ≡ some c
  unfolding apply
  apply_live (acquire lease worker token j rival) claims e h = elim (Bool-cases (key_eq j key)) [
    | inl same ↦
        rw ((key_eq_iff j key).0 same) (rw (acquire_live lease worker token rival claims e h) e)
    | inr other ↦ acquire_elsewhere key j other now lease worker token rival claims ∙ e
  ]
  apply_live (release worker token j) claims e h = elim (Bool-cases (key_eq j key)) [
    | inl same ↦ rw ((key_eq_iff j key).0 same) (rw (release_live worker token claims e h) e)
    | inr other ↦
        unfold release_issue_claim in
        (release_elsewhere key j other worker token (lookup j claims) claims ∙ e)
  ]
  apply_live (refresh lease worker token j) claims e h = elim (Bool-cases (key_eq j key)) [
    | inl same ↦ rw ((key_eq_iff j key).0 same) (rw (refresh_live lease worker token claims e h) e)
    | inr other ↦
        unfold refresh_issue_claim in
        (refresh_elsewhere key j other now lease worker token (lookup j claims) claims ∙ e)
  ]

-- A request of another worker, made before the row expires.
abbrev pub Intrudes : IssueClaim → ℕ × Request → Type 0
Intrudes c (now, r) = (now < c.expires_at) × (worker_of r ≢ c.worker_id)

-- Mutual exclusion: while a worker's claim is live, no sequence of acquisitions, releases and
-- refreshes by other workers, on any issues and with any races, changes its row.
pub replay-excludes :
    (key : IssueKey) (c : IssueClaim) (rs : List (ℕ × Request)) (claims : Claims)
    → query_issue_claim key claims ≡ some c
    → All (Intrudes c) rs
    → query_issue_claim key (replay rs claims) ≡ some c
unfolding replay query_issue_claim
replay-excludes key c [] claims e h = e
replay-excludes key c ((now, r) ∷ rs) claims e h =
    replay-excludes key c rs (apply now r claims) (apply_live now key c h.0.0 r claims e h.0.1) h.1
