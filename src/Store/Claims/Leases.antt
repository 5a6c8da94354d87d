-- ===== src/Store/Claims/Leases.antt =====
-- What acquiring a claim guarantees (internal/store/store.go, acquireIssueClaimOnce).
use workbuddy.Prelude.{
  ℕ, ◌+◌, ◌<◌, String, ◌≡◌, refl, ◌≢◌, inl, inr, Option, none, some, arith, ltb, str_eq, str_eq_iff,
  trim_space, lookup, insert, lookup-insert, Bool-cases,
}
use mathlib.Core.Bool.{and-false}
use workbuddy.Store.Keys.{IssueKey, key_eq_iff, issue_key_eq}
use workbuddy.Store.Claims.{
  IssueClaim, Claims, worker_id_required, held_by_other, ClaimOutcome, ok, err, lease_of,
  fresh_claim, against_holder, without_holder, acquire_once, acquire_issue_claim, query_issue_claim,
}

-- After a granted acquisition the worker holds the row, with the token that it was told, for the lease.
pub record Holds (claims : Claims) (key : IssueKey) (worker token : String) (until : ℕ)
    : Type 0 where
  pub row : IssueClaim
  pub stored : query_issue_claim key claims ≡ some row
  pub owner : row.worker_id ≡ worker
  pub named : row.claim_token ≡ token
  pub deadline : row.expires_at ≡ until

-- Another worker's unexpired row.
pub record HeldByOther (claims : Claims) (key : IssueKey) (worker : String) (now : ℕ) : Type 0 where
  pub row : IssueClaim
  pub stored : query_issue_claim key claims ≡ some row
  pub stranger : row.worker_id ≢ worker
  pub live : now < row.expires_at

abbrev pub Agrees : ℕ → ℕ → String → IssueKey → ClaimOutcome → Claims → Type 0
Agrees now lease worker key (ok a) claims' = Holds claims' key worker a.claim_token (now + lease)
Agrees now lease worker key (err held_by_other) claims' = HeldByOther claims' key worker now
Agrees now lease worker key (err worker_id_required) claims' = trim_space worker ≡ ""

lookup-insert_self :
    (key : IssueKey) (c : IssueClaim) (claims : Claims) → lookup key (insert key c claims) ≡ some c
lookup-insert_self key c claims = ground (arith, lookup-insert key key c claims, key_eq_iff key key)

against_holder-Agrees :
    (now lease : ℕ) (worker token : String) (key : IssueKey) (holder : IssueClaim) (claims : Claims)
    → lookup key claims ≡ some holder
    → let (out, claims') = against_holder now lease worker token key holder claims in
      Agrees now lease worker key out claims'
unfolding against_holder query_issue_claim fresh_claim
against_holder-Agrees now lease worker token key holder claims e =
    elim (Bool-cases (ltb now holder.expires_at)) [
      | inl live ↦ elim (Bool-cases (str_eq holder.worker_id worker)) [
        | inl own ↦
            rw (own, live)
              (record {
                row = record holder { expires_at = now + lease };
                stored = lookup-insert_self key _ claims;
                owner = (str_eq_iff _ _).0 own;
                named = refl;
                deadline = refl;
              })
        | inr other ↦
            rw (other, live)
              (record {
                row = holder;
                stored = e;
                stranger = λ same. absurd (ground (arith, str_eq_iff holder.worker_id worker));
                live = ground arith;
              })
      ]
      | inr dead ↦ rw dead (
          rw and-false (record {
            row = fresh_claim now lease worker token;
            stored = lookup-insert_self key _ claims;
            owner = refl;
            named = refl;
            deadline = refl;
          }))
    ]

without_holder-Agrees :
    (now lease : ℕ) (worker token : String) (key : IssueKey) (rival : Option IssueClaim)
    (claims : Claims)
    → let (out, claims') = without_holder now lease worker token key rival claims in
      Agrees now lease worker key out claims'
unfolding without_holder query_issue_claim fresh_claim
without_holder-Agrees now lease worker token key none claims = record {
  row = fresh_claim now lease worker token;
  stored = lookup-insert_self key _ claims;
  owner = refl;
  named = refl;
  deadline = refl;
}
without_holder-Agrees now lease worker token key (some r) claims =
    against_holder-Agrees now lease worker token key r (insert key r claims)
      (lookup-insert_self key r claims)

acquire_once-Agrees :
    (now lease : ℕ) (worker token : String) (key : IssueKey) (rival row : Option IssueClaim)
    (claims : Claims)
    → lookup key claims ≡ row
    → let (out, claims') = acquire_once now lease worker token key rival row claims in
      Agrees now lease worker key out claims'
unfolding acquire_once
acquire_once-Agrees now lease worker token key rival none claims e =
    without_holder-Agrees now lease worker token key rival claims
acquire_once-Agrees now lease worker token key rival (some holder) claims e =
    against_holder-Agrees now lease worker token key holder claims e

-- Whatever row is there, and whatever row another process slips in between the SELECT and the INSERT:
-- a granted acquisition leaves the worker holding the issue with its token for the whole lease, a
-- refusal as held leaves an unexpired row of another worker there, and the only other refusal is of
-- a blank worker id.
pub acquire_issue_claim-Agrees :
    (now lease : ℕ) (worker token : String) (key : IssueKey) (rival : Option IssueClaim)
    (claims : Claims)
    → let (out, claims') = acquire_issue_claim now lease worker token key rival claims in
      Agrees now (lease_of lease) worker key out claims'
unfolding acquire_issue_claim
acquire_issue_claim-Agrees now lease worker token key rival claims =
    elim (Bool-cases (str_eq (trim_space worker) "")) [
      | inl blank ↦ rw blank ((str_eq_iff _ _).0 blank)
      | inr named ↦ rw named (
          acquire_once-Agrees now (lease_of lease) worker token key rival (lookup key claims) claims
            refl)
    ]
