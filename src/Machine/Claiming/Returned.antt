-- ===== src/Machine/Claiming/Returned.antt =====
-- A claim is given back as it was taken (internal/statemachine/statemachine.go, isBlockedByIssueClaim and
-- releaseIssueClaim).
use workbuddy.Prelude.{
  ℕ, String, Bool, sym, if◌then◌else◌, not, ◌&&◌, if_ind, ◌≡◌, ◌∙◌, ◌≢◌, refl, inl, inr, true,
  false, Bool-cases, Option, none, some, List, str_eq, str_eq_iff, lookup, insert, delete,
  lookup-insert, lookup-delete, arith, trim_space,
}
use workbuddy.Store.Keys.{IssueKey, key_eq, key_eq_iff, issue_key_eq}
use workbuddy.Store.Claims.{
  IssueClaim, Claims, expired, against_holder, without_holder, acquire_once, ClaimOutcome, ok, err,
  worker_id_required, held_by_other, lease_of, holds, release_row, release_issue_claim,
  query_issue_claim, acquire_issue_claim,
}
use workbuddy.Store.Claims.Leases.{Agrees, acquire_issue_claim-Agrees}
use workbuddy.Machine.Claiming.{
  lease_or_default, Coordinator, after_acquire, is_blocked_by_issue_claim, release_token,
  release_claim,
}

other_insert :
    {V : Type 0} (key j : IssueKey) (v : V) (m : List (IssueKey × V))
    → j ≢ key
    → lookup j (insert key v m) ≡ lookup j m
other_insert key j v m other = ground (arith, lookup-insert key j v m, key_eq_iff key j)

against_holder-others :
    (now lease : ℕ) (worker token : String) (key j : IssueKey) (holder : IssueClaim)
    (claims : Claims)
    → j ≢ key
    → lookup j (against_holder now lease worker token key holder claims).1 ≡ lookup j claims
unfolding against_holder
against_holder-others now lease worker token key j holder claims other =
    if_ind (λ (out : ClaimOutcome × Claims). lookup j out.1 ≡ lookup j claims)
      (str_eq holder.worker_id worker && not (expired now holder))
      (other_insert key j _ claims other)
      (if_ind (λ (out : ClaimOutcome × Claims). lookup j out.1 ≡ lookup j claims)
        (not (expired now holder)) refl (other_insert key j _ claims other))

acquire_once-others :
    (now lease : ℕ) (worker token : String) (key j : IssueKey) (rival row : Option IssueClaim)
    (claims : Claims)
    → j ≢ key
    → lookup j (acquire_once now lease worker token key rival row claims).1 ≡ lookup j claims
unfolding acquire_once without_holder
acquire_once-others now lease worker token key j rival (some row) claims other =
    against_holder-others now lease worker token key j row claims other
acquire_once-others now lease worker token key j none none claims other =
    other_insert key j _ claims other
acquire_once-others now lease worker token key j (some r) none claims other =
    against_holder-others now lease worker token key j r (insert key r claims) other
    ∙ other_insert key j r claims other

acquire_issue_claim-others :
    (now lease : ℕ) (worker token : String) (key j : IssueKey) (rival : Option IssueClaim)
    (claims : Claims)
    → j ≢ key
    → lookup j (acquire_issue_claim now lease worker token key rival claims).1 ≡ lookup j claims
unfolding acquire_issue_claim
acquire_issue_claim-others now lease worker token key j rival claims other =
    if_ind (λ (out : ClaimOutcome × Claims). lookup j out.1 ≡ lookup j claims)
      (str_eq (trim_space worker) "") refl
      (acquire_once-others now _ worker token key j rival (lookup key claims) claims other)

release_row-others :
    (key j : IssueKey) (token claimer : String) (row : Option IssueClaim) (claims : Claims)
    → j ≢ key
    → lookup j (release_row claimer token key row claims).1 ≡ lookup j claims
unfolding release_row
release_row-others key j token claimer none claims other = refl
release_row-others key j token claimer (some row) claims other =
    if_ind (λ (out : Bool × Claims). lookup j out.1 ≡ lookup j claims) (holds claimer token row)
      (ground (arith, lookup-delete key j claims, key_eq_iff key j)) refl

release_token-others :
    (key j : IssueKey) (token : Option String) (claimer : String) (claims : Claims)
    → j ≢ key
    → lookup j (release_token key token claimer claims) ≡ lookup j claims
unfolding release_token release_issue_claim
release_token-others key j none claimer claims other = refl
release_token-others key j (some token) claimer claims other =
    if_ind (λ (m : Claims). lookup j m ≡ lookup j claims) (str_eq token "") refl
      (release_row-others key j token claimer (lookup key claims) claims other)

row_released :
    (claimer token : String) (key : IssueKey) (row : IssueClaim) (claims : Claims)
    → lookup key claims ≡ some row
    → row.worker_id ≡ claimer
    → row.claim_token ≡ token
    → str_eq token "" ≡ false
    → lookup key (release_token key (some token) claimer claims) ≡ none
unfolding release_token release_issue_claim release_row holds
row_released claimer token key row claims there owner same filled =
    let h : holds claimer token row ≡ true =
      ground
        (arith, str_eq_iff row.worker_id claimer, str_eq_iff row.claim_token token, owner, same) in
    rw (filled, there, h) (ground (arith, lookup-delete key key claims, key_eq_iff key key))

after_released :
    (now lease : ℕ) (key : IssueKey) (c : Coordinator) (out : ClaimOutcome) (claims' : Claims)
    → str_eq c.claimer_id "" ≡ false
    → Agrees now lease c.claimer_id key out claims'
    → (after_acquire key c out claims').0 ≡ false
    → lookup key (after_acquire key c out claims').1.tokens ≢ some ""
    → let (_, c', claims'') = after_acquire key c out claims' in
      let (released, left) = release_claim key c' claims'' in
      (lookup key left ≡ none) × (lookup key released.tokens ≡ none)
unfolding release_claim after_acquire query_issue_claim
after_released now lease key c (ok res) claims' named a blocked filled =
    let told : lookup key (insert key res.claim_token c.tokens) ≡ some res.claim_token =
      ground (arith, lookup-insert key key res.claim_token c.tokens, key_eq_iff key key) in
    let nonempty : str_eq res.claim_token "" ≡ false =
      ground (arith, str_eq_iff res.claim_token "", told, filled) in
    let forgotten : lookup key (delete key (insert key res.claim_token c.tokens)) ≡ none =
      ground
        (arith, lookup-delete key key (insert key res.claim_token c.tokens), key_eq_iff key key) in
    rw (named, told)
      (
        row_released c.claimer_id res.claim_token key a.row claims' a.stored a.owner a.named
            nonempty,
        forgotten,
      )
after_released now lease key c (err held_by_other) claims' named a blocked filled = ground arith
after_released now lease key c (err worker_id_required) claims' named a blocked filled =
    ground arith

release_claim-others :
    (key j : IssueKey) (c : Coordinator) (claims : Claims)
    → j ≢ key
    → lookup j (release_claim key c claims).1 ≡ lookup j claims
unfolding release_claim
release_claim-others key j c claims other =
    if_ind (λ (out : Coordinator × Claims). lookup j out.1 ≡ lookup j claims)
      (str_eq c.claimer_id "") refl
      (release_token-others key j (lookup key c.tokens) c.claimer_id claims other)

pass_then_release-others :
    (key j : IssueKey) (c : Coordinator) (out : ClaimOutcome) (claims : Claims)
    → j ≢ key
    → let (_, c', claims') = after_acquire key c out claims in
      lookup j (release_claim key c' claims').1 ≡ lookup j claims
unfolding after_acquire
pass_then_release-others key j c (ok res) claims other = release_claim-others key j _ claims other
pass_then_release-others key j c (err held_by_other) claims other =
    release_claim-others key j c claims other
pass_then_release-others key j c (err worker_id_required) claims other =
    release_claim-others key j c claims other

-- Where this coordinator has a name, and the token that it was told is not empty: once the gate of the claim has let
-- it pass, releasing the claim leaves the issue without one, whoever held it or slipped in before, leaves the claims
-- of all other issues as they were, and leaves no token of the issue behind.
pub release_claim-returned :
    (now : ℕ) (token : String) (key j : IssueKey) (rival : Option IssueClaim) (c : Coordinator)
    (claims : Claims)
    → str_eq c.claimer_id "" ≡ false
    → (is_blocked_by_issue_claim now token key rival c claims).0 ≡ false
    → lookup key (is_blocked_by_issue_claim now token key rival c claims).1.tokens ≢ some ""
    → let (_, c', claims') = is_blocked_by_issue_claim now token key rival c claims in
      let (released, left) = release_claim key c' claims' in
      (lookup j left ≡ (if key_eq key j then none else lookup j claims))
      × (lookup key released.tokens ≡ none)
unfolding is_blocked_by_issue_claim
release_claim-returned now token key j rival c claims named = rw named λ passed filled.
    let (free, forgotten) =
      after_released now (lease_of (lease_or_default c.lease)) key c _ _ named
        (acquire_issue_claim-Agrees now (lease_or_default c.lease) c.claimer_id token key rival
          claims)
        passed filled in
    (
      elim (Bool-cases (key_eq key j)) [
        | inl same ↦ rw (same, sym ((key_eq_iff key j).0 same)) free
        | inr other ↦ rw other (
            pass_then_release-others key j c _ _ (ground (arith, other, key_eq_iff key j))
            ∙ acquire_issue_claim-others now _ c.claimer_id token key j rival claims
                (ground (arith, other, key_eq_iff key j)))
      ],
      forgotten,
    )
