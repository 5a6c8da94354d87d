-- ===== src/Store/Claims.antt =====
-- internal/store/store.go, the issue_claim table (per-issue dispatch lease, REQ-057). Times are
-- seconds; a lease of 0 stands for the leases that are not positive.
pub mod Leases
mod Races
mod Examples
use workbuddy.Prelude.{
  ℕ, zero, suc, ◌+◌, ◌*◌, String, Bool, true, false, not, ◌&&◌, Option, none, some, List, [], ◌∷◌,
  ltb, ◌==◌, if◌then◌else◌, str_eq, trim_space, lookup, insert, delete,
}
use workbuddy.Store.Keys.{IssueKey, issue_key_eq}

pub record IssueClaim : Type 0 where
  pub worker_id : String
  pub claim_token : String
  pub acquired_at : ℕ
  pub expires_at : ℕ

abbrev pub Claims : Type 0
Claims = List (IssueKey × IssueClaim)

pub record AcquireResult : Type 0 where
  pub claim_token : String
  pub extended : Bool
  pub overwrote_prior : Bool
  pub prior_worker_id : String

pub data ClaimError : Type 0 where
  worker_id_required held_by_other : ClaimError

pub data ClaimOutcome : Type 0 where
  ok : AcquireResult → ClaimOutcome
  err : ClaimError → ClaimOutcome

abbrev pub default_lease : ℕ
default_lease = 1800

unfoldable pub lease_of : ℕ → ℕ
lease_of lease = if lease == 0 then default_lease else lease

-- `expired := holderExp.IsZero() || !holderExp.After(now)`
unfoldable pub expired : ℕ → IssueClaim → Bool
expired now holder = not (ltb now holder.expires_at)

unfoldable pub fresh_claim : ℕ → ℕ → String → String → IssueClaim
fresh_claim now lease worker token = record {
  worker_id = worker;
  claim_token = token;
  acquired_at = now;
  expires_at = now + lease;
}

-- The second half of `acquireIssueClaimOnce`: what becomes of a row that is there.
unfoldable pub against_holder :
    ℕ → ℕ → String → String → IssueKey → IssueClaim → Claims → ClaimOutcome × Claims
unfolding expired
against_holder now lease worker token key holder claims =
    if str_eq holder.worker_id worker && not (expired now holder)
    then (
      ok (record {
        claim_token = holder.claim_token;
        extended = true;
        overwrote_prior = false;
        prior_worker_id = "";
      }),
      insert key (record holder { expires_at = now + lease }) claims,
    )
    else if not (expired now holder)
    then (err held_by_other, claims)
    else (
      ok (record {
        claim_token = token;
        extended = false;
        overwrote_prior = true;
        prior_worker_id = holder.worker_id;
      }),
      insert key (fresh_claim now lease worker token) claims,
    )

-- No row at the SELECT. `rival` is the row that another process inserts before the INSERT, which then
-- meets the primary key and reads that row.
unfoldable pub without_holder :
    ℕ
    → ℕ
    → String
    → String
    → IssueKey
    → (rival : Option IssueClaim) → Claims
    → ClaimOutcome × Claims
without_holder now lease worker token key none claims = (
  ok (record {
    claim_token = token;
    extended = false;
    overwrote_prior = false;
    prior_worker_id = "";
  }),
  insert key (fresh_claim now lease worker token) claims,
)
without_holder now lease worker token key (some r) claims =
    against_holder now lease worker token key r (insert key r claims)

-- `acquireIssueClaimOnce`, after its SELECT.
unfoldable pub acquire_once :
    ℕ
    → ℕ
    → String
    → String
    → IssueKey
    → (rival row : Option IssueClaim) → Claims
    → ClaimOutcome × Claims
acquire_once now lease worker token key rival none claims =
    without_holder now lease worker token key rival claims
acquire_once now lease worker token key rival (some holder) claims =
    against_holder now lease worker token key holder claims

-- `AcquireIssueClaim`; `token` is what `generateClaimToken` draws.
unfoldable pub acquire_issue_claim :
    ℕ
    → ℕ
    → String
    → String
    → IssueKey
    → (rival : Option IssueClaim) → Claims
    → ClaimOutcome × Claims
acquire_issue_claim now lease worker token key rival claims =
    if str_eq (trim_space worker) ""
    then (err worker_id_required, claims)
    else acquire_once now (lease_of lease) worker token key rival (lookup key claims) claims

unfoldable pub holds : String → String → IssueClaim → Bool
holds worker token c = str_eq c.worker_id worker && str_eq c.claim_token token

unfoldable pub release_row : String → String → IssueKey → Option IssueClaim → Claims → Bool × Claims
release_row worker token key none claims = (false, claims)
release_row worker token key (some c) claims =
    if holds worker token c then (true, delete key claims) else (false, claims)

unfoldable pub release_issue_claim : String → String → IssueKey → Claims → Bool × Claims
release_issue_claim worker token key claims =
    release_row worker token key (lookup key claims) claims

unfoldable pub delete_row : IssueKey → Option IssueClaim → Claims → Bool × Claims
delete_row key none claims = (false, claims)
delete_row key (some c) claims = (true, delete key claims)

unfoldable pub delete_issue_claim : IssueKey → Claims → Bool × Claims
delete_issue_claim key claims = delete_row key (lookup key claims) claims

unfoldable pub refresh_row :
    ℕ → ℕ → String → String → IssueKey → Option IssueClaim → Claims → Bool × Claims
refresh_row now lease worker token key none claims = (false, claims)
refresh_row now lease worker token key (some c) claims =
    if holds worker token c && ltb now c.expires_at
    then (true, insert key (record c { expires_at = now + lease_of lease }) claims)
    else (false, claims)

unfoldable pub refresh_issue_claim : ℕ → ℕ → String → String → IssueKey → Claims → Bool × Claims
refresh_issue_claim now lease worker token key claims =
    refresh_row now lease worker token key (lookup key claims) claims

unfoldable pub query_issue_claim : IssueKey → Claims → Option IssueClaim
query_issue_claim key claims = lookup key claims
