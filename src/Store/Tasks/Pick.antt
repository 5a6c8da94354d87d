-- ===== src/Store/Tasks/Pick.antt =====
-- Which task a worker is handed (internal/store/store.go, claimNextTaskOnce).
use workbuddy.Prelude.{
  ℕ, String, ◌≡◌, refl, ap, ◌⊎◌, inl, inr, Bool, true, false, Option, none, some, List, [], ◌∷◌,
  arith, str_eq, str_eq_iff, All, Some, filter_by, Bool-cases, Option-cases, trim_space,
}
use workbuddy.Store.Rows.{find_row, find_row-update_rows, find_row-sat, Once, affected_of_find}
use workbuddy.Store.Tasks.Row.{Task, has_id}
use workbuddy.Store.Tasks.Queue.{
  Outcome, ok, err, Tasks, claimable, claimed_with, first_by, earlier, newer, takeable, leased,
  take_task, next_claimable, only_blank, named_repos, replayed, lease_of, claim_next_fresh,
  claim_next_task,
}
use workbuddy.Store.Tasks.Ownership.{IsKeyed}

abbrev In : Task → Tasks → Type 0
In r = Some (λ x. x ≡ r)

first_by-In :
    (before : Task → Task → Bool) (ts : Tasks) (r : Task) → first_by before ts ≡ some r → In r ts
unfolding first_by
first_by-In before [] r e = cc
first_by-In before (t ∷ ts) r e = elim (Option-cases (first_by before ts)) [
  | inl n ↦ inl (ground arith)
  | inr (b, s) ↦ elim (Bool-cases (before t b)) [
    | inl h ↦ inl (ground arith)
    | inr h ↦ inr (first_by-In before ts r (ground arith))
  ]
]

first_by-none : (before : Task → Task → Bool) (ts : Tasks) → first_by before ts ≡ none → ts ≡ []
unfolding first_by
first_by-none before [] e = refl
first_by-none before (t ∷ ts) e = ground arith

filter_by-In :
    (p : Task → Bool) (ts : Tasks) (r : Task) → In r (filter_by p ts) → (p r ≡ true) × In r ts
unfolding filter_by
filter_by-In p [] r h = absurd h
filter_by-In p (t ∷ ts) r h = elim (Bool-cases (p t)) [
  | inl yes_t ↦ elim (rw (yes_t, filter_by) at h) [
    | inl e ↦ (ground arith, inl e)
    | inr m ↦ let (a, b) = filter_by-In p ts r m in (a, inr b)
  ]
  | inr no_t ↦ let (a, b) = filter_by-In p ts r (rw (no_t, filter_by) at h) in (a, inr b)
]

filter_by-nil : (p : Task → Bool) (ts : Tasks) → filter_by p ts ≡ [] → All (λ r. p r ≡ false) ts
unfolding filter_by
filter_by-nil p [] e = tt
filter_by-nil p (t ∷ ts) e = (ground arith, filter_by-nil p ts (ground arith))

-- The row is the only one of its id, so a search by the id finds it.
In-find_row :
    (ts : Tasks) (r : Task) → In r ts → Once (has_id r.id) ts → find_row (has_id r.id) ts ≡ some r
unfolding find_row
In-find_row [] r h k = absurd h
In-find_row (t ∷ ts) r (inl e) k =
    ground (arith, e, str_eq_iff t.id r.id, ap (λ (x : Task). x.id) e)
In-find_row (t ∷ ts) r (inr m) k = elim (Bool-cases (str_eq t.id r.id)) [
  | inl same ↦
      let found = In-find_row ts r m k.1 in
      absurd (
        ground (
          arith,
          k.0 same,
          affected_of_find (has_id r.id) (has_id r.id) ts r found
              (find_row-sat (has_id r.id) ts r found),
        ))
  | inr other ↦ rw other (In-find_row ts r m k.1)
]

-- The row that was handed out: it was on offer to the worker, and is now under the worker's lease.
pub record HandedOut (now lease : ℕ) (w token : String) (offered : Task → Bool) (u : Task)
    (ts ts' : Tasks) : Type 0 where
  pub row : Task
  pub there : find_row (has_id u.id) ts ≡ some row
  pub on_offer : offered row ≡ true
  pub now_leased : find_row (has_id u.id) ts' ≡ some (leased now w token lease row)
  pub told : record u { updated_at = now } ≡ leased now w token lease row

-- What a claim may come to.
abbrev pub Claimed :
    ℕ
    → ℕ
    → String
    → List String
    → List String
    → String
    → String
    → Tasks
    → Outcome (Option Task)
    → Tasks
    → Type 0
Claimed now lease w roles repos runtime token ts (ok (some u)) ts' =
    HandedOut now lease w token (claimable now w roles (named_repos repos) (trim_space runtime)) u
      ts ts'
    ⊎ ((ts' ≡ ts) × Some (λ r. (r ≡ u) × (claimed_with now w token r ≡ true)) ts)
Claimed now lease w roles repos runtime token ts (ok none) ts' =
    (ts' ≡ ts)
    × ((only_blank repos ≡ true)
        ⊎ All (λ r. claimable now w roles (named_repos repos) (trim_space runtime) r ≡ false) ts)
Claimed now lease w roles repos runtime token ts (err e) ts' = ⊥

Some-map : (P Q : Task → Type 0) (ts : Tasks) → ((r : Task) → P r → Q r) → Some P ts → Some Q ts
Some-map P Q [] f h = absurd h
Some-map P Q (t ∷ ts) f (inl p) = inl (f t p)
Some-map P Q (t ∷ ts) f (inr m) = inr (Some-map P Q ts f m)

module _ (now : ℕ) (w : String) (roles repos : List String) (runtime token : String) (lease : ℕ)
    (ts : Tasks) (k : IsKeyed ts) where
  abbrev offered : Task → Bool
  offered = claimable now w roles (named_repos repos) (trim_space runtime)

  claimable-takeable : (r : Task) → offered r ≡ true → takeable now r.id r ≡ true
  unfolding claimable
  claimable-takeable r h = ground (arith, (str_eq_iff r.id r.id).1 refl)

  take-Claimed :
      (o : Option Task)
      → next_claimable now w roles repos runtime ts ≡ o
      → let out = take_task now w token lease o ts in
        Claimed now lease w roles repos runtime token ts out.0 out.1
  unfolding take_task next_claimable
  take-Claimed none e = (refl, inr (filter_by-nil _ ts (first_by-none earlier _ e)))
  take-Claimed (some r) e =
      let (offer, member) = filter_by-In offered ts r (first_by-In earlier _ r e) in
      let found = In-find_row ts r member (k r.id) in
      let ready = claimable-takeable r offer in
      rw (affected_of_find (has_id r.id) (takeable now r.id) ts r found ready) (
        inl (record {
          row = r;
          there = found;
          on_offer = offer;
          now_leased = ground (
            arith,
            find_row-update_rows (has_id r.id) (takeable now r.id) (leased now w token lease) ts
                (λ x. refl),
          );
          told = refl;
        }))

module _ (now : ℕ) (w : String) (roles repos : List String) (runtime token : String) (lease : ℕ)
    (ts : Tasks) (k : IsKeyed ts) where
  fresh-Claimed :
      let out = claim_next_fresh now w roles repos runtime token lease ts in
      Claimed now lease w roles repos runtime token ts out.0 out.1
  unfolding claim_next_fresh
  fresh-Claimed = elim (Bool-cases (only_blank repos)) [
    | inl blank ↦ rw blank (refl, inl blank)
    | inr named ↦ rw named (
        take-Claimed now w roles repos runtime token lease ts k
          (next_claimable now w roles repos runtime ts) refl)
  ]

replayed-claimed :
    (now : ℕ) (w token : String) (ts : Tasks) (u : Task)
    → replayed now w token ts ≡ some u
    → Some (λ r. (r ≡ u) × (claimed_with now w token r ≡ true)) ts
unfolding replayed
replayed-claimed now w token ts u e =
    let (kept, member) =
      filter_by-In (claimed_with now w token) ts u (first_by-In newer _ u (ground arith)) in
    Some-map _ _ ts (λ r same. (same, rw same kept)) member

next-Claimed :
    (now : ℕ) (w : String) (roles repos : List String) (runtime token : String) (lease : ℕ)
    (ts : Tasks) (o : Option Task)
    → IsKeyed ts
    → replayed now w token ts ≡ o
    → let out = claim_next_task now w roles repos runtime token lease ts in
      Claimed now (lease_of lease) w roles repos runtime token ts out.0 out.1
unfolding claim_next_task
next-Claimed now w roles repos runtime token lease ts none k e =
    rw (e, claim_next_task) (fresh-Claimed now w roles repos runtime token (lease_of lease) ts k)
next-Claimed now w roles repos runtime token lease ts (some u) k e =
    rw (e, claim_next_task) (inr (refl, replayed-claimed now w token ts u e))

-- A request for work never fails: it hands out a task that was on offer to this worker and puts it
-- under the worker's lease, or gives back a task that the same worker got with the same token and
-- still holds, or answers that there is none, and then no row is on offer or all repos were blank.
pub claim_next_task-Claimed :
    (now : ℕ) (w : String) (roles repos : List String) (runtime token : String) (lease : ℕ)
    (ts : Tasks)
    → IsKeyed ts
    → let out = claim_next_task now w roles repos runtime token lease ts in
      Claimed now (lease_of lease) w roles repos runtime token ts out.0 out.1
claim_next_task-Claimed now w roles repos runtime token lease ts k =
    next-Claimed now w roles repos runtime token lease ts (replayed now w token ts) k refl
