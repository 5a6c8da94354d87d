-- ===== src/Store/Claims/Examples.antt =====
-- Issue claims at concrete inputs.
use workbuddy.Prelude.{ℕ, lookup, ◌≡◌, refl, none, some, List, [], ◌∷◌, arith}
use workbuddy.Store.Keys.{IssueKey, key_eq_iff, issue_key_eq}
use workbuddy.Store.Claims.{IssueClaim, Claims, lease_of, acquire_issue_claim, query_issue_claim}
use workbuddy.Store.Claims.Leases.{Agrees, acquire_issue_claim-Agrees}
use workbuddy.Store.Claims.Races.{Request, acquire, release, refresh, replay, replay-excludes}

abbrev issue : IssueKey
issue = record { repo = "o/r"; issue_num = 7 }

abbrev held : IssueClaim
held = record { worker_id = "a"; claim_token = "t1"; acquired_at = 100; expires_at = 1900 }

abbrev table : Claims
table = (issue, held) ∷ []

abbrev rivals : List (ℕ × Request)
rivals =
    (200, acquire 0 "ab" "t2" issue none)
    ∷ (300, release "ab" "t1" issue)
    ∷ (400, refresh 60 "ac" "t1" issue)
    ∷ []

acquire_issue_claim-Agrees_example :
    let out = acquire_issue_claim 200 0 "ab" "t2" issue none table in
    Agrees 200 (lease_of 0) "ab" issue out.0 out.1
acquire_issue_claim-Agrees_example = acquire_issue_claim-Agrees 200 0 "ab" "t2" issue none table

found : query_issue_claim issue table ≡ some held
unfolding query_issue_claim lookup
found = ground (arith, (key_eq_iff issue issue).1 refl)

replay-excludes_example : query_issue_claim issue (replay rivals table) ≡ some held
replay-excludes_example =
    replay-excludes issue held rivals table found
      ((omega arith, λ e. cc), ((omega arith, λ e. cc), ((omega arith, λ e. cc), tt)))
