-- ===== src/Machine/Claiming.antt =====
-- internal/statemachine/statemachine.go: the claim that a coordinator takes before it dispatches
-- (SetIssueClaim, isBlockedByIssueClaim, releaseIssueClaim, ReleaseAllIssueClaims), over the table of Store.Claims. The warnings
-- and events are left out, and the keys of the token map are issues.
mod Exclusive
mod Returned
mod Examples
use workbuddy.Prelude.{
  ℕ, String, Bool, true, false, Option, none, some, List, [], ◌∷◌, ◌==◌, if◌then◌else◌, str_eq,
  trim_space, lookup, insert, delete,
}
use workbuddy.Store.Keys.{IssueKey, issue_key_eq}
use workbuddy.Store.Claims.{
  IssueClaim, Claims, AcquireResult, ClaimError, worker_id_required, held_by_other, ClaimOutcome,
  ok, err, acquire_issue_claim, release_issue_claim,
}

-- A lease of 0 stands for those that are not positive.
pub record Coordinator : Type 0 where
  pub claimer_id : String
  pub lease : ℕ
  pub tokens : List (IssueKey × String)

abbrev default_issue_claim_lease : ℕ
default_issue_claim_lease = 1800

unfoldable pub lease_or_default : ℕ → ℕ
lease_or_default lease = if lease == 0 then default_issue_claim_lease else lease

unfoldable pub set_issue_claim : (claimer_id : String) → (lease : ℕ) → Coordinator → Coordinator
set_issue_claim claimer_id lease c = record c {
  claimer_id = trim_space claimer_id;
  lease = lease_or_default lease;
}

-- The first result says that the dispatch does not take place: it is refused, or the claim fails.
unfoldable pub after_acquire :
    IssueKey → Coordinator → ClaimOutcome → Claims → Bool × Coordinator × Claims
after_acquire key c (ok res) claims =
    (false, record c { tokens = insert key res.claim_token c.tokens }, claims)
after_acquire key c (err held_by_other) claims = (true, c, claims)
after_acquire key c (err worker_id_required) claims = (true, c, claims)

unfoldable pub is_blocked_by_issue_claim :
    (now : ℕ)
    → (token : String) → IssueKey
    → (rival : Option IssueClaim) → Coordinator
    → Claims
    → Bool × Coordinator × Claims
is_blocked_by_issue_claim now token key rival c claims =
    if str_eq c.claimer_id ""
    then (false, c, claims)
    else (let (out, claims') =
          acquire_issue_claim now (lease_or_default c.lease) c.claimer_id token key rival claims in
        after_acquire key c out claims')

unfoldable pub release_token : IssueKey → Option String → String → Claims → Claims
release_token key none claimer claims = claims
release_token key (some token) claimer claims =
    if str_eq token "" then claims else (release_issue_claim claimer token key claims).1

unfoldable pub release_claim : IssueKey → Coordinator → Claims → Coordinator × Claims
release_claim key c claims = if str_eq c.claimer_id "" then (c, claims) else (
  record c { tokens = delete key c.tokens },
  release_token key (lookup key c.tokens) c.claimer_id claims,
)

unfoldable pub release_tokens : List (IssueKey × String) → String → Claims → Claims
release_tokens [] claimer claims = claims
release_tokens ((key, token) ∷ tokens) claimer claims =
    release_tokens tokens claimer (release_token key (some token) claimer claims)

unfoldable pub release_all_issue_claims : Coordinator → Claims → Coordinator × Claims
release_all_issue_claims c claims =
    if str_eq c.claimer_id ""
    then (c, claims)
    else (record c { tokens = [] }, release_tokens c.tokens c.claimer_id claims)
