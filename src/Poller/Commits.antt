-- ===== src/Poller/Commits.antt =====
-- When a poll cycle takes effect (internal/poller/poller.go, poll).
use workbuddy.Prelude.{
  ◌<◌, ◌≤◌, true, false, ◌||◌, All, Some, lookup, nat_eq, has_prefix, arith, Bool-cases, ℕ, String,
  ◌≡◌, refl, ◌⊎◌, inl, inr, Bool, not, ◌&&◌, Option, none, some, List, [], ◌∷◌, ◌++◌, leb, length,
  nat_eq, if_ind,
}
use workbuddy.Poller.{
  row_of, plan_issue, plan_pr, plan_prs, plan_closed, plan_closes, plan_resyncs, due, is_open,
  Cache, Issue, Pr, poll_cycle_done, ChangeEvent, Plan, no_plan, plan_issues, gh_list_limit, Poller,
  commit, apply_op, CacheOp, upsert, close, stamp, apply_backoff, Listing, listed, rate_limited,
  unavailable, finish, planned, after_issues, poll,
}

-- The cycle is over without an event, and the cache and the times of the last resyncs are as before. (The
-- backoff alone may have grown.)
pub record Aborts (poller : Poller) (out : List ChangeEvent × Poller) : Type 0 where
  pub silent : out.0 ≡ []
  pub cache_kept : out.1.cache ≡ poller.cache
  pub resyncs_kept : out.1.last_resync_at ≡ poller.last_resync_at
  pub backoff_set :
      (out.1.backoff ≡ poller.backoff) ⊎ (out.1.backoff ≡ apply_backoff poller.backoff)

-- Why a cycle aborts: a listing did not come in, a cached row cannot be read, or, where fewer than 100 issues are
-- listed, the numbers of the cached issues cannot.
abbrev pub Faults : (ℕ → Bool) → Bool → Listing Issue → Listing Pr → Type 0
Faults unreadable unlistable rate_limited prs = Unit
Faults unreadable unlistable unavailable prs = Unit
Faults unreadable unlistable (listed issues) rate_limited = Unit
Faults unreadable unlistable (listed issues) unavailable = Unit
Faults unreadable unlistable (listed issues) (listed prs) =
    Some (λ i. unreadable i.number ≡ true) issues
    ⊎ Some (λ q. unreadable q.number ≡ true) prs
    ⊎ ((length issues < 100) × (unlistable ≡ true))

abbrev pub Has : CacheOp → List CacheOp → Type 0
Has op ops = Some (λ x. x ≡ op) ops

-- Both listings and all cached rows came in; the events end with the one that marks the cycle, the writes of the
-- cache have the row of every listed issue among them, and the backoff is over.
pub record Commits (to_lower : String → String) (now : ℕ) (unreadable : ℕ → Bool)
    (unlistable : Bool) (issues : Listing Issue) (prs : Listing Pr) (poller : Poller)
    (out : List ChangeEvent × Poller) : Type 0 where
  pub issues_listed : List Issue
  pub prs_listed : List Pr
  pub both : (issues ≡ listed issues_listed) × (prs ≡ listed prs_listed)
  pub issues_read : All (λ i. unreadable i.number ≡ false) issues_listed
  pub prs_read : All (λ q. unreadable q.number ≡ false) prs_listed
  pub numbers_read : (100 ≤ length issues_listed) ⊎ (unlistable ≡ false)
  pub earlier : List ChangeEvent
  pub last : ChangeEvent
  pub marked : (out.0 ≡ earlier ++ last ∷ []) × (last.type ≡ poll_cycle_done)
  pub ops : List CacheOp
  pub covers : All (λ i. Has (upsert i.number (row_of to_lower i)) ops) issues_listed
  pub written : out.1 ≡ commit now ops (record poller { backoff = 0 })
  pub rested : out.1.backoff ≡ 0

commit-backoff :
    (now : ℕ) (ops : List CacheOp) (p : Poller) → (commit now ops p).backoff ≡ p.backoff
unfolding commit apply_op
commit-backoff now [] p = refl
commit-backoff now (upsert n row ∷ ops) p = commit-backoff now ops _
commit-backoff now (close n ∷ ops) p = commit-backoff now ops _
commit-backoff now (stamp n ∷ ops) p = commit-backoff now ops _

pub still : (poller : Poller) → Aborts poller ([], poller)
still poller = record {
  silent = refl;
  cache_kept = refl;
  resyncs_kept = refl;
  backoff_set = inl refl;
}

pub backs_off :
    (poller : Poller) → Aborts poller ([], record poller { backoff = apply_backoff poller.backoff })
backs_off poller = record {
  silent = refl;
  cache_kept = refl;
  resyncs_kept = refl;
  backoff_set = inr refl;
}

Has-append : (op : CacheOp) (xs ys : List CacheOp) → Has op xs → Has op (xs ++ ys)
Has-append op [] ys h = absurd h
Has-append op (x ∷ xs) ys (inl e) = inl e
Has-append op (x ∷ xs) ys (inr h) = inr (Has-append op xs ys h)

Has-last : (op : CacheOp) (xs : List CacheOp) → Has op (xs ++ op ∷ [])
Has-last op [] = inl refl
Has-last op (x ∷ xs) = inr (Has-last op xs)

-- Planning goes on by adding writes.
abbrev Keeps : Plan → Plan → Type 0
Keeps p q = (op : CacheOp) → Has op p.cache_ops → Has op q.cache_ops

closed-Keeps :
    (repo : String) (issues : List Issue) (prs : List Pr) (rows : Cache) (p : Plan)
    → Keeps p (plan_closed repo issues prs rows p)
unfolding plan_closed
closed-Keeps repo issues prs [] p op h = h
closed-Keeps repo issues prs ((num, row) ∷ rest) p op h =
    elim (Bool-cases (has_prefix row.state "pr:" || is_open issues prs num)) [
      | inl skip ↦ rw skip (closed-Keeps repo issues prs rest p op h)
      | inr shut ↦ rw shut (closed-Keeps repo issues prs rest _ op (Has-append op _ _ h))
    ]

closes-Keeps :
    (repo : String) (issues : List Issue) (prs : List Pr) (cache : Cache) (p : Plan)
    → Keeps p (plan_closes repo issues prs cache p)
unfolding plan_closes
closes-Keeps repo issues prs cache p op h =
    if_ind (λ (q : Plan). Has op q.cache_ops) (leb gh_list_limit (length issues)) h
      (closed-Keeps repo issues prs cache p op h)

resyncs-Keeps :
    (repo : String) (t interval : ℕ) (last : List (ℕ × ℕ)) (rest : List Issue) (p : Plan)
    → Keeps p (plan_resyncs repo t interval last rest p)
unfolding plan_resyncs
resyncs-Keeps repo t interval last [] p op h = h
resyncs-Keeps repo t interval last (x ∷ rest) p op h =
    elim (Bool-cases (due t interval (lookup x.number last))) [
      | inl ready ↦ rw ready (resyncs-Keeps repo t interval last rest _ op (Has-append op _ _ h))
      | inr early ↦ rw early (resyncs-Keeps repo t interval last rest p op h)
    ]

All-Has :
    (to_lower : String → String) (xs ys : List CacheOp) (is : List Issue)
    → ((op : CacheOp) → Has op xs → Has op ys)
    → All (λ i. Has (upsert i.number (row_of to_lower i)) xs) is
    → All (λ i. Has (upsert i.number (row_of to_lower i)) ys) is
All-Has to_lower xs ys [] k h = tt
All-Has to_lower xs ys (i ∷ is) k h = (k _ h.0, All-Has to_lower xs ys is k h.1)

module _ (to_lower : String → String) (now : ℕ) (unreadable : ℕ → Bool) where
  abbrev Covers : List Issue → Plan → Type 0
  Covers is p = All (λ i. Has (upsert i.number (row_of to_lower i)) p.cache_ops) is

  -- A plan is made where all rows are read, and then it covers the issues.
  abbrev IssuesPlanned : List Issue → Plan → Option Plan → Type 0
  IssuesPlanned is p none = Some (λ i. unreadable i.number ≡ true) is
  IssuesPlanned is p (some q) = All (λ i. unreadable i.number ≡ false) is × Covers is q × Keeps p q

  issues-next :
      (i : Issue) (is : List Issue) (p p' : Plan) (o : Option Plan)
      → unreadable i.number ≡ false
      → Has (upsert i.number (row_of to_lower i)) p'.cache_ops
      → Keeps p p'
      → IssuesPlanned is p' o
      → IssuesPlanned (i ∷ is) p o
  issues-next i is p p' none e h k r = inr r
  issues-next i is p p' (some q) e h k (a, c, k') = ((e, a), (k' _ h, c), (λ op x. k' op (k op x)))

  plan_issues-Planned :
      (repo : String) (cache : Cache) (is : List Issue) (p : Plan)
      → IssuesPlanned is p (plan_issues to_lower repo unreadable cache is p)
  unfolding plan_issues plan_issue
  plan_issues-Planned repo cache [] p = (tt, tt, (λ op h. h))
  plan_issues-Planned repo cache (i ∷ is) p = elim (Bool-cases (unreadable i.number)) [
    | inl bad ↦ rw bad (inl bad)
    | inr fine ↦ rw fine (
        issues-next i is p (plan_issue to_lower repo cache i p) _ fine (Has-last _ p.cache_ops)
          (λ op h. Has-append op _ _ h) (plan_issues-Planned repo cache is _))
  ]

  abbrev PrsPlanned : List Pr → Plan → Option Plan → Type 0
  PrsPlanned qs p none = Some (λ q. unreadable q.number ≡ true) qs
  PrsPlanned qs p (some r) = All (λ q. unreadable q.number ≡ false) qs × Keeps p r

  prs-next :
      (q : Pr) (qs : List Pr) (p p' : Plan) (o : Option Plan)
      → unreadable q.number ≡ false
      → Keeps p p'
      → PrsPlanned qs p' o
      → PrsPlanned (q ∷ qs) p o
  prs-next q qs p p' none e k r = inr r
  prs-next q qs p p' (some r) e k (a, k') = ((e, a), (λ op x. k' op (k op x)))

  plan_prs-Planned :
      (repo : String) (cache : Cache) (qs : List Pr) (p : Plan)
      → PrsPlanned qs p (plan_prs to_lower repo unreadable cache qs p)
  unfolding plan_prs plan_pr
  plan_prs-Planned repo cache [] p = (tt, (λ op h. h))
  plan_prs-Planned repo cache (q ∷ qs) p = elim (Bool-cases (unreadable q.number)) [
    | inl bad ↦ rw bad (inl bad)
    | inr fine ↦ rw fine (
        prs-next q qs p (plan_pr to_lower repo cache q p) _ fine (λ op h. Has-append op _ _ h)
          (plan_prs-Planned repo cache qs _))
  ]

  abbrev Whole : Bool → Listing Issue → Listing Pr → Poller → List ChangeEvent × Poller → Type 0
  Whole unlistable issues prs poller out =
      (Aborts poller out × Faults unreadable unlistable issues prs)
      ⊎ Commits to_lower now unreadable unlistable issues prs poller out

  finish-Commits :
      (unlistable : Bool) (is : List Issue) (qs : List Pr) (p : Plan) (poller : Poller)
      → All (λ i. unreadable i.number ≡ false) is
      → All (λ q. unreadable q.number ≡ false) qs
      → (100 ≤ length is) ⊎ (unlistable ≡ false)
      → Covers is p
      → Commits to_lower now unreadable unlistable
          (listed is)
          (listed qs)
          poller
          (finish now is qs p poller)
  unfolding finish
  finish-Commits unlistable is qs p poller a b n c = record {
    issues_listed = is;
    prs_listed = qs;
    both = (refl, refl);
    issues_read = a;
    prs_read = b;
    numbers_read = n;
    earlier = _;
    last = _;
    marked = (refl, refl);
    ops = _;
    covers =
        All-Has to_lower p.cache_ops _ is
          (λ op h. Has-append op _ _ (
            resyncs-Keeps poller.repo now poller.resync_interval poller.last_resync_at
              p.resync_candidates _ op (closes-Keeps poller.repo is qs poller.cache p op h)))
          c;
    written = refl;
    rested = commit-backoff now _ _;
  }

  planned-Whole :
      (unlistable : Bool) (is : List Issue) (qs : List Pr) (p : Plan) (o : Option Plan)
      (poller : Poller)
      → All (λ i. unreadable i.number ≡ false) is
      → Covers is p
      → PrsPlanned qs p o
      → Whole unlistable (listed is) (listed qs) poller (planned now unlistable is qs o poller)
  unfolding planned
  planned-Whole unlistable is qs p none poller a c r = inl (still poller, inr (inl r))
  planned-Whole unlistable is qs p (some q) poller a c (b, k) =
      elim (Bool-cases (not (leb gh_list_limit (length is)) && unlistable)) [
        | inl bad ↦
            rw bad (inl (still poller, inr (inr (ground (arith, bad), ground (arith, bad)))))
        | inr fine ↦ rw fine (
            inr (
              finish-Commits unlistable is qs q poller a b (ground (arith, fine))
                (All-Has to_lower p.cache_ops q.cache_ops is k c)))
      ]

  after-Whole :
      (unlistable : Bool) (is : List Issue) (prs : Listing Pr) (o : Option Plan) (poller : Poller)
      → IssuesPlanned is no_plan o
      → Whole unlistable
          (listed is)
          prs
          poller
          (after_issues to_lower now unreadable unlistable is prs o poller)
  unfolding after_issues
  after-Whole unlistable is rate_limited none poller r = inl (still poller, tt)
  after-Whole unlistable is unavailable none poller r = inl (still poller, tt)
  after-Whole unlistable is (listed qs) none poller r = inl (still poller, inl r)
  after-Whole unlistable is rate_limited (some p) poller r = inl (backs_off poller, tt)
  after-Whole unlistable is unavailable (some p) poller r = inl (still poller, tt)
  after-Whole unlistable is (listed qs) (some p) poller (a, c, k) =
      planned-Whole unlistable is qs p _ poller a c (plan_prs-Planned poller.repo poller.cache qs p)

  -- A cycle takes effect as a whole or not at all. It aborts only where a listing did not come in, a cached row
  -- that it asks for cannot be read, or the cached numbers cannot where fewer than 100 issues are listed: then it
  -- emits nothing and leaves the cache and the times of the last resyncs alone. Otherwise all of these came in, the
  -- row of every listed issue is among the writes of the cache, the events end with the mark of the cycle, and the
  -- backoff is cleared.
  pub poll-Whole :
      (unlistable : Bool) (issues : Listing Issue) (prs : Listing Pr) (poller : Poller)
      → let out = poll to_lower now unreadable unlistable issues prs poller in
        (Aborts poller out × Faults unreadable unlistable issues prs)
        ⊎ Commits to_lower now unreadable unlistable issues prs poller out
  unfolding poll
  poll-Whole unlistable rate_limited prs poller = inl (backs_off poller, tt)
  poll-Whole unlistable unavailable prs poller = inl (still poller, tt)
  poll-Whole unlistable (listed is) prs poller =
      after-Whole unlistable is prs _ poller
        (plan_issues-Planned poller.repo poller.cache is no_plan)
