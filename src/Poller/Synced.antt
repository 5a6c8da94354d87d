-- ===== src/Poller/Synced.antt =====
-- What the cache holds after a poll cycle (internal/poller/poller.go, the commit of poll).
use workbuddy.Prelude.{
  ℕ, String, ◌≡◌, refl, ◌∙◌, ◌⊎◌, inl, inr, Bool, true, false, not, ◌&&◌, ◌||◌, Option, none, some,
  List, [], ◌∷◌, ◌++◌, map, arith, leb, ◌==◌, ==_iff, has_prefix, length, any, All, lookup, nat_eq,
  lookup-insert, lookup-delete, if_ind, Bool-cases,
}
use workbuddy.Poller.{
  Issue, Pr, ChangeEvent, CacheRow, Cache, row_of, Plan, no_plan, plan_issue, plan_issues, plan_pr,
  plan_prs, gh_list_limit, is_open, plan_closed, plan_closes, due, plan_resyncs, Poller, commit,
  apply_op, CacheOp, upsert, close, stamp, listed, finish, planned, after_issues, poll,
}
use workbuddy.Poller.Commits.{Aborts, still}

-- The listing has the issue, and no later one with its number.
abbrev pub Listed : Issue → List Issue → Type 0
Listed iss [] = ⊥
Listed iss (x ∷ xs) = ((x ≡ iss) × All (λ y. (y.number == iss.number) ≡ false) xs) ⊎ Listed iss xs

commit-append :
    (now : ℕ) (xs ys : List CacheOp) (p : Poller)
    → commit now (xs ++ ys) p ≡ commit now ys (commit now xs p)
unfolding commit
commit-append now [] ys p = refl
commit-append now (x ∷ xs) ys p = commit-append now xs ys (apply_op now x p)

module _ (now n : ℕ) where
  abbrev Leaves : CacheOp → Type 0
  Leaves (upsert m row) = (m == n) ≡ false
  Leaves (close m) = (m == n) ≡ false
  Leaves (stamp m) = Unit

  leaves :
      (ops : List CacheOp) (p : Poller)
      → All Leaves ops
      → lookup n (commit now ops p).cache ≡ lookup n p.cache
  unfolding commit apply_op
  leaves [] p h = refl
  leaves (upsert m row ∷ ops) p h =
      leaves ops _ h.1 ∙ ground (arith, lookup-insert m n row p.cache, h.0)
  leaves (close m ∷ ops) p h = leaves ops _ h.1 ∙ ground (arith, lookup-delete m n p.cache, h.0)
  leaves (stamp m ∷ ops) p h = leaves ops _ h.1

  stamps-leave : (ms : List ℕ) → All Leaves (map stamp ms)
  stamps-leave [] = tt
  stamps-leave (m ∷ ms) = (tt, stamps-leave ms)

  module _ (row : CacheRow) where
    -- Whatever the cache was before, the writes leave this row under the number.
    abbrev Writes : List CacheOp → Type 0
    Writes ops = (p : Poller) → lookup n (commit now ops p).cache ≡ some row

    Writes-Leaves : (xs ys : List CacheOp) → Writes xs → All Leaves ys → Writes (xs ++ ys)
    Writes-Leaves xs ys w h p = rw (commit-append now xs ys p) (leaves ys (commit now xs p) h ∙ w p)

    Writes-upsert : (xs : List CacheOp) → Writes (xs ++ upsert n row ∷ [])
    unfolding commit apply_op
    Writes-upsert xs p =
        rw (commit-append now xs (upsert n row ∷ []) p)
          (ground (arith, lookup-insert n n row (commit now xs p).cache, (==_iff n n).1 refl))

    abbrev IfPlanned : Option Plan → Type 0
    IfPlanned none = Unit
    IfPlanned (some p) = Writes p.cache_ops

    closed-Writes :
        (repo : String) (issues : List Issue) (prs : List Pr) (rows : Cache) (p : Plan)
        → is_open issues prs n ≡ true
        → Writes p.cache_ops
        → Writes (plan_closed repo issues prs rows p).cache_ops
    unfolding plan_closed
    closed-Writes repo issues prs [] p o w = w
    closed-Writes repo issues prs ((num, r) ∷ rest) p o w =
        elim (Bool-cases (has_prefix r.state "pr:" || is_open issues prs num)) [
          | inl skip ↦ rw skip (closed-Writes repo issues prs rest p o w)
          | inr shut ↦
              let apart : (num == n) ≡ false = elim (Bool-cases (num == n)) [
                | inl same ↦ absurd (ground (arith, shut, o, rw (← (==_iff num n).0 same) at o))
                | inr other ↦ other
              ] in
              rw shut (closed-Writes repo issues prs rest _ o (Writes-Leaves _ _ w (apart, tt)))
        ]

    closes-Writes :
        (repo : String) (issues : List Issue) (prs : List Pr) (cache : Cache) (p : Plan)
        → is_open issues prs n ≡ true
        → Writes p.cache_ops
        → Writes (plan_closes repo issues prs cache p).cache_ops
    unfolding plan_closes
    closes-Writes repo issues prs cache p o w =
        elim (Bool-cases (leb gh_list_limit (length issues))) [
          | inl many ↦ rw many w
          | inr few ↦ rw few (closed-Writes repo issues prs cache p o w)
        ]

    resyncs-Writes :
        (repo : String) (t interval : ℕ) (last : List (ℕ × ℕ)) (rest : List Issue) (p : Plan)
        → Writes p.cache_ops
        → Writes (plan_resyncs repo t interval last rest p).cache_ops
    unfolding plan_resyncs
    resyncs-Writes repo t interval last [] p w = w
    resyncs-Writes repo t interval last (x ∷ rest) p w =
        elim (Bool-cases (due t interval (lookup x.number last))) [
          | inl ready ↦
              rw ready (resyncs-Writes repo t interval last rest _ (Writes-Leaves _ _ w (tt, tt)))
          | inr early ↦ rw early (resyncs-Writes repo t interval last rest p w)
        ]

module _ (to_lower : String → String) (now : ℕ) (iss : Issue) where
  abbrev row : CacheRow
  row = row_of to_lower iss

  issues-keep :
      (repo : String) (unreadable : ℕ → Bool) (cache : Cache) (rest : List Issue) (p : Plan)
      → Writes now iss.number row p.cache_ops
      → All (λ y. (y.number == iss.number) ≡ false) rest
      → IfPlanned now iss.number row (plan_issues to_lower repo unreadable cache rest p)
  unfolding plan_issues plan_issue
  issues-keep repo unreadable cache [] p w h = w
  issues-keep repo unreadable cache (y ∷ rest) p w h =
      if_ind (IfPlanned now iss.number row) (unreadable y.number) tt (
        issues-keep repo unreadable cache rest _
          (Writes-Leaves now iss.number row _ (upsert y.number (row_of to_lower y) ∷ []) w
            (h.0, tt))
          h.1)

  issues-Writes :
      (repo : String) (unreadable : ℕ → Bool) (cache : Cache) (issues : List Issue) (p : Plan)
      → Listed iss issues
      → IfPlanned now iss.number row (plan_issues to_lower repo unreadable cache issues p)
  unfolding plan_issues plan_issue
  issues-Writes repo unreadable cache [] p l = absurd l
  issues-Writes repo unreadable cache (y ∷ rest) p (inl (e, h)) = rw e (
      if_ind (IfPlanned now iss.number row) (unreadable iss.number) tt
        (issues-keep repo unreadable cache rest _ (Writes-upsert now iss.number row p.cache_ops) h))
  issues-Writes repo unreadable cache (y ∷ rest) p (inr l) =
      if_ind (IfPlanned now iss.number row) (unreadable y.number) tt
        (issues-Writes repo unreadable cache rest _ l)

  prs-keep :
      (repo : String) (unreadable : ℕ → Bool) (cache : Cache) (prs : List Pr) (p : Plan)
      → Writes now iss.number row p.cache_ops
      → All (λ q. (q.number == iss.number) ≡ false) prs
      → IfPlanned now iss.number row (plan_prs to_lower repo unreadable cache prs p)
  unfolding plan_prs plan_pr
  prs-keep repo unreadable cache [] p w h = w
  prs-keep repo unreadable cache (q ∷ prs) p w h =
      if_ind (IfPlanned now iss.number row) (unreadable q.number) tt (
        prs-keep repo unreadable cache prs _
          (Writes-Leaves now iss.number row _ (upsert q.number _ ∷ []) w (h.0, tt)) h.1)

  Listed-open :
      (issues : List Issue) (prs : List Pr)
      → Listed iss issues
      → is_open issues prs iss.number ≡ true
  unfolding is_open any
  Listed-open [] prs l = absurd l
  Listed-open (y ∷ rest) prs (inl (e, h)) =
      rw e (ground (arith, (==_iff iss.number iss.number).1 refl))
  Listed-open (y ∷ rest) prs (inr l) = ground (arith, Listed-open rest prs l)

  abbrev Synced : Poller → List ChangeEvent × Poller → Type 0
  Synced poller out = Aborts poller out ⊎ (lookup iss.number out.1.cache ≡ some row)

  finish-Synced :
      (issues : List Issue) (prs : List Pr) (p : Plan) (poller : Poller)
      → Listed iss issues
      → Writes now iss.number row p.cache_ops
      → Synced poller (finish now issues prs p poller)
  unfolding finish
  finish-Synced issues prs p poller l w =
      let closing =
        closes-Writes now iss.number row poller.repo issues prs poller.cache p
          (Listed-open issues prs l) w in
      let all =
        resyncs-Writes now iss.number row poller.repo now poller.resync_interval
          poller.last_resync_at p.resync_candidates _ closing in
      inr (
        Writes-Leaves now iss.number row _ _ all (stamps-leave now iss.number p.first_sightings)
          (record poller { backoff = 0 }))

  planned-Synced :
      (unlistable : Bool) (issues : List Issue) (prs : List Pr) (o : Option Plan) (poller : Poller)
      → Listed iss issues
      → IfPlanned now iss.number row o
      → Synced poller (planned now unlistable issues prs o poller)
  unfolding planned
  planned-Synced unlistable issues prs none poller l w = inl (still poller)
  planned-Synced unlistable issues prs (some p) poller l w =
      if_ind (Synced poller) (not (leb gh_list_limit (length issues)) && unlistable)
        (inl (still poller)) (finish-Synced issues prs p poller l w)

  after-Synced :
      (unreadable : ℕ → Bool) (unlistable : Bool) (issues : List Issue) (prs : List Pr)
      (o : Option Plan) (poller : Poller)
      → Listed iss issues
      → All (λ q. (q.number == iss.number) ≡ false) prs
      → IfPlanned now iss.number row o
      → Synced poller (after_issues to_lower now unreadable unlistable issues (listed prs) o poller)
  unfolding after_issues
  after-Synced unreadable unlistable issues prs none poller l h w = inl (still poller)
  after-Synced unreadable unlistable issues prs (some p) poller l h w =
      planned-Synced unlistable issues prs _ poller l
        (prs-keep poller.repo unreadable poller.cache prs p w h)

  -- After a cycle that commits, the cache holds each listed issue as it was listed, where no later issue
  -- and no PR of the listings has its number: no close and no resync of the same cycle undoes it.
  pub poll-Synced :
      (unreadable : ℕ → Bool) (unlistable : Bool) (issues : List Issue) (prs : List Pr)
      (poller : Poller)
      → Listed iss issues
      → All (λ q. (q.number == iss.number) ≡ false) prs
      → let out = poll to_lower now unreadable unlistable (listed issues) (listed prs) poller in
        Aborts poller out ⊎ (lookup iss.number out.1.cache ≡ some (row_of to_lower iss))
  unfolding poll
  poll-Synced unreadable unlistable issues prs poller l h =
      after-Synced unreadable unlistable issues prs _ poller l h
        (issues-Writes poller.repo unreadable poller.cache issues no_plan l)
