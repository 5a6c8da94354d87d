-- ===== src/Poller/Cycles.antt =====
-- A whole poll cycle: the reasons of its events
-- (internal/poller/poller.go, poll).
use workbuddy.Prelude.{
  ℕ, ◌<◌, String, ◌≡◌, refl, inl, inr, Bool, true, false, not, ◌&&◌, ◌||◌, Option, none, some, List,
  [], ◌∷◌, map, arith, leb, str_eq, has_prefix, length, contains, All, All-append, lookup, nat_eq,
  Bool-cases, if_ind, str_eq_iff,
}
use workbuddy.Poller.{
  Issue, Pr, EventType, issue_created, label_added, label_removed, pr_created, pr_state_changed,
  issue_closed, issue_resynced, poll_cycle_done, ChangeEvent, CacheRow, Cache, missing_from,
  diff_labels, label_event, issue_events, pr_state, pr_events, Plan, no_plan, plan_issue,
  plan_issues, plan_pr, plan_prs, gh_list_limit, is_open, plan_closed, plan_closes, due,
  plan_resyncs, Poller, listed, finish, planned, after_issues, poll,
}

module _ (to_lower : String → String) where
  module _ (now : ℕ) (issues : List Issue) (prs : List Pr) (poller : Poller) where
    -- The reason for an event, by its type.
    abbrev Reason : EventType → ChangeEvent → Type 0
    Reason issue_created ev = lookup ev.issue_num poller.cache ≡ none
    Reason label_added ev =
        (row : CacheRow) × (lookup ev.issue_num poller.cache ≡ some row)
        × (contains row.labels ev.detail ≡ false)
        × (contains ev.labels ev.detail ≡ true)
    Reason label_removed ev =
        (row : CacheRow) × (lookup ev.issue_num poller.cache ≡ some row)
        × (contains row.labels ev.detail ≡ true)
        × (contains ev.labels ev.detail ≡ false)
    Reason pr_created ev = lookup ev.issue_num poller.cache ≡ none
    Reason pr_state_changed ev =
        (row : CacheRow) × (pr : Pr) × (lookup ev.issue_num poller.cache ≡ some row)
        × (pr.number ≡ ev.issue_num)
        × (str_eq row.state (pr_state to_lower pr) ≡ false)
    Reason issue_closed ev =
        (is_open issues prs ev.issue_num ≡ false) × (length issues < gh_list_limit)
    Reason issue_resynced ev =
        due now poller.resync_interval (lookup ev.issue_num poller.last_resync_at) ≡ true
    Reason poll_cycle_done ev = Unit

    abbrev pub Justified : List ChangeEvent → Type 0
    Justified = All (λ ev. Reason ev.type ev)

    added-Justified :
        (iss : Issue) (row : CacheRow) (ls : List String)
        → lookup iss.number poller.cache ≡ some row
        → ((l : String) → contains ls l ≡ true → contains iss.labels l ≡ true)
        → Justified (map (label_event poller.repo iss label_added) (missing_from row.labels ls))
    unfolding label_event missing_from contains
    added-Justified iss row [] e h = tt
    added-Justified iss row (l ∷ ls) e h =
        let rest = added-Justified iss row ls e (λ k i. h k (ground arith)) in
        elim (Bool-cases (contains row.labels l)) [
          | inl old ↦ rw old rest
          | inr new ↦ rw new ((row, e, new, h l (ground (arith, (str_eq_iff l l).1 refl))), rest)
        ]

    removed-Justified :
        (iss : Issue) (row : CacheRow) (ls : List String)
        → lookup iss.number poller.cache ≡ some row
        → ((l : String) → contains ls l ≡ true → contains row.labels l ≡ true)
        → Justified (map (label_event poller.repo iss label_removed) (missing_from iss.labels ls))
    unfolding label_event missing_from contains
    removed-Justified iss row [] e h = tt
    removed-Justified iss row (l ∷ ls) e h =
        let rest = removed-Justified iss row ls e (λ k i. h k (ground arith)) in
        elim (Bool-cases (contains iss.labels l)) [
          | inl still ↦ rw still rest
          | inr gone ↦ rw gone ((row, e, h l (ground (arith, (str_eq_iff l l).1 refl)), gone), rest)
        ]

    issue-Justified :
        (iss : Issue) (cached : Option CacheRow)
        → lookup iss.number poller.cache ≡ cached
        → Justified (issue_events poller.repo iss cached)
    unfolding issue_events label_event diff_labels
    issue-Justified iss none e = (e, tt)
    issue-Justified iss (some row) e =
        All-append _ _ _ (added-Justified iss row iss.labels e (λ l h. h))
          (removed-Justified iss row row.labels e (λ l h. h))

    pr-Justified :
        (pr : Pr) (cached : Option CacheRow)
        → lookup pr.number poller.cache ≡ cached
        → Justified (pr_events to_lower poller.repo pr cached)
    unfolding pr_events
    pr-Justified pr none e = (e, tt)
    pr-Justified pr (some row) e = elim (Bool-cases (str_eq row.state (pr_state to_lower pr))) [
      | inl same ↦ rw same tt
      | inr moved ↦ rw moved ((row, pr, e, refl, moved), tt)
    ]

    -- What a plan that may be missing comes with.
    abbrev IfPlanned : Option Plan → Type 0
    IfPlanned none = Unit
    IfPlanned (some p) = Justified p.pending

    issues-Justified :
        (unreadable : ℕ → Bool) (rest : List Issue) (p : Plan)
        → Justified p.pending
        → IfPlanned (plan_issues to_lower poller.repo unreadable poller.cache rest p)
    unfolding plan_issues plan_issue
    issues-Justified unreadable [] p h = h
    issues-Justified unreadable (iss ∷ rest) p h = if_ind IfPlanned (unreadable iss.number) tt (
        issues-Justified unreadable rest (plan_issue to_lower poller.repo poller.cache iss p)
          (All-append _ _ _ h (issue-Justified iss (lookup iss.number poller.cache) refl)))

    prs-Justified :
        (unreadable : ℕ → Bool) (rest : List Pr) (p : Plan)
        → Justified p.pending
        → IfPlanned (plan_prs to_lower poller.repo unreadable poller.cache rest p)
    unfolding plan_prs plan_pr
    prs-Justified unreadable [] p h = h
    prs-Justified unreadable (pr ∷ rest) p h = if_ind IfPlanned (unreadable pr.number) tt (
        prs-Justified unreadable rest (plan_pr to_lower poller.repo poller.cache pr p)
          (All-append _ _ _ h (pr-Justified pr (lookup pr.number poller.cache) refl)))

    closed-Justified :
        (rows : Cache) (p : Plan)
        → length issues < gh_list_limit
        → Justified p.pending
        → Justified (plan_closed poller.repo issues prs rows p).pending
    unfolding plan_closed
    closed-Justified [] p few h = h
    closed-Justified ((num, row) ∷ rest) p few h =
        elim (Bool-cases (has_prefix row.state "pr:" || is_open issues prs num)) [
          | inl open_num ↦ rw open_num (closed-Justified rest p few h)
          | inr shut ↦
              rw shut
                (closed-Justified rest _ few (All-append _ _ _ h ((ground (arith, shut), few), tt)))
        ]

    closes-Justified :
        (p : Plan)
        → Justified p.pending
        → Justified (plan_closes poller.repo issues prs poller.cache p).pending
    unfolding plan_closes
    closes-Justified p h = elim (Bool-cases (leb gh_list_limit (length issues))) [
      | inl many ↦ rw many h
      | inr few ↦ rw few (closed-Justified poller.cache p (ground arith) h)
    ]

    resyncs-Justified :
        (rest : List Issue) (p : Plan)
        → Justified p.pending
        → Justified
            (plan_resyncs poller.repo now poller.resync_interval poller.last_resync_at rest
              p).pending
    unfolding plan_resyncs label_event
    resyncs-Justified [] p h = h
    resyncs-Justified (iss ∷ rest) p h =
        elim (Bool-cases
          (due now poller.resync_interval (lookup iss.number poller.last_resync_at))) [
            | inl ready ↦ rw ready (resyncs-Justified rest _ (All-append _ _ _ h (ready, tt)))
            | inr early ↦ rw early (resyncs-Justified rest p h)
          ]

    finish-Justified :
        (p : Plan) → Justified p.pending → Justified (finish now issues prs p poller).0
    unfolding finish
    finish-Justified p h =
        All-append _ _ _ (resyncs-Justified p.resync_candidates _ (closes-Justified p h)) (tt, tt)

    planned-Justified :
        (unlistable : Bool) (o : Option Plan)
        → IfPlanned o
        → Justified (planned now unlistable issues prs o poller).0
    unfolding planned
    planned-Justified unlistable none h = tt
    planned-Justified unlistable (some p) h =
        if_ind (λ (o : List ChangeEvent × Poller). Justified o.0)
          (not (leb gh_list_limit (length issues)) && unlistable) tt (finish-Justified p h)

  -- Every event of a cycle over two listings has its reason in the listings and in what the poller held
  -- before: a creation, in the issue or PR not being cached; a label event, in the label being on one
  -- side only; a state change, in the cached state being another; a closing, in the number being in
  -- neither listing, and the listing of issues being short of the limit of 100; a resync, in the
  -- interval since the last one being over, or there being none.
  pub poll-Justified :
      (now : ℕ) (unreadable : ℕ → Bool) (unlistable : Bool) (issues : List Issue) (prs : List Pr)
      (poller : Poller)
      → Justified now issues prs poller
          (poll to_lower now unreadable unlistable (listed issues) (listed prs) poller).0
  unfolding poll after_issues
  poll-Justified now unreadable unlistable issues prs poller =
      go (plan_issues to_lower poller.repo unreadable poller.cache issues no_plan)
        (issues-Justified now issues prs poller unreadable issues no_plan tt)
    where
      go :
          (o : Option Plan)
          → IfPlanned now issues prs poller o
          → Justified now issues prs poller
              (after_issues to_lower now unreadable unlistable issues (listed prs) o poller).0
      go none h = tt
      go (some p) h =
          planned-Justified now issues prs poller unlistable _
            (prs-Justified now issues prs poller unreadable prs p h)
