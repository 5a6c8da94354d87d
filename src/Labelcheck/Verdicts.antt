-- ===== src/Labelcheck/Verdicts.antt =====
-- What each classification of a run means (internal/labelcheck/labelcheck.go, Classify).
use workbuddy.Prelude.{
  zero, suc, ℤ, pos, negsuc, is_zero, ap, sym, subst, Some, filter_by, String, ◌≡◌, refl, ◌≢◌, ◌⊎◌,
  inl, inr, true, false, not, ◌&&◌, Option, none, some, List, [], ◌∷◌, arith, str_eq, str_eq_iff,
  contains, All, Bool-cases,
}
use workbuddy.Labelcheck.{
  LabelState, Input, Classification, no_transition_after_success, no_transition_after_failure, ok,
  unexpected_transition, failed, Result, no_transition_classification, match_states, contains_state,
  state_named, resolve_current, classify_unfailed, classify_by, classify,
}

abbrev IsPresent : List String → LabelState → Type 0
IsPresent labels s = (s.label ≢ "") × (contains labels s.label ≡ true)

match_states-IsPresent :
    (labels : List String) (known : List LabelState)
    → All (IsPresent labels) (match_states labels known)
unfolding match_states
match_states-IsPresent labels [] = tt
match_states-IsPresent labels (s ∷ known) =
    elim (Bool-cases (not (str_eq s.label "") && contains labels s.label)) [
      | inl here ↦ rw here (
        (λ e. absurd (ground (arith, str_eq_iff s.label "")), ground arith),
        match_states-IsPresent labels known,
      )
      | inr away ↦ rw away (match_states-IsPresent labels known)
    ]

-- The states whose labels are on the issue after the run, and the state before it.
abbrev matched : Input → List LabelState
matched i = match_states i.post i.known_states

abbrev pub before : Input → LabelState
before i = resolve_current i.pre i.current i.known_states

-- Two or more states.
abbrev IsAmbiguous : List LabelState → Type 0
IsAmbiguous [] = ⊥
IsAmbiguous (s ∷ []) = ⊥
IsAmbiguous (s ∷ t ∷ states) = Unit

-- What a classification states, in terms of the model's tests, where no `failed` state is on the issue.
abbrev Decides : Input → LabelState → List LabelState → Result → Type 0
Decides i current post r =
    ((r.classification ≡ ok)
      × (post ≡ r.to ∷ [])
      × (r.to.label ≢ current.label)
      × (contains_state i.allowed_transitions r.to ≡ true))
    ⊎ ((r.classification ≡ no_transition_classification i.exit_code)
        × (((post ≡ []) × (current.label ≡ ""))
            ⊎ ((post ≡ r.to ∷ []) × (r.to.label ≡ current.label))))
    ⊎ ((r.classification ≡ unexpected_transition)
        × (((post ≡ []) × (current.label ≢ ""))
            ⊎ ((s : LabelState) × (post ≡ s ∷ [])
                × (s.label ≢ current.label)
                × (contains_state i.allowed_transitions s ≡ false))
            ⊎ IsAmbiguous post))

one-Decides :
    (i : Input) (current s : LabelState)
    → s.label ≢ ""
    → Decides i current (s ∷ []) (classify_unfailed i current (s ∷ []))
unfolding classify_unfailed
one-Decides i current s h =
    elim (Bool-cases (not (str_eq current.label "") && str_eq s.label current.label)) [
      | inl same ↦
          rw same (inr (inl (refl, inr (refl, ground (arith, str_eq_iff s.label current.label)))))
      | inr moved ↦
          let away : s.label ≢ current.label = λ e.
            absurd (
              ground
                (arith, str_eq_iff s.label current.label, str_eq_iff current.label "", h, e)) in
          elim (Bool-cases (contains_state i.allowed_transitions s)) [
            | inl allowed ↦ rw (moved, allowed) (inl (refl, refl, away, allowed))
            | inr barred ↦ rw (moved, barred) (inr (inr (refl, inr (inl (s, refl, away, barred)))))
          ]
    ]

unfailed-Decides :
    (i : Input) (current : LabelState) (post : List LabelState)
    → All (IsPresent i.post) post
    → Decides i current post (classify_unfailed i current post)
unfolding classify_unfailed
unfailed-Decides i current [] h = elim (Bool-cases (str_eq current.label "")) [
  | inl blank ↦ rw blank (inr (inl (refl, inl (refl, (str_eq_iff current.label "").0 blank))))
  | inr named ↦
      rw named
        (inr (inr (refl, inl (refl, λ e. absurd (ground (arith, str_eq_iff current.label "", e))))))
]
unfailed-Decides i current (s ∷ []) h = one-Decides i current s h.0.0
unfailed-Decides i current (s ∷ t ∷ states) h = inr (inr (refl, inr (inr tt)))

-- The states that are on the issue after the run.
abbrev pub after : Input → List LabelState
after i = filter_by (λ s. not (str_eq s.label "") && contains i.post s.label) i.known_states

match_states-filter :
    (labels : List String) (known : List LabelState)
    → match_states labels known
      ≡ filter_by (λ s. not (str_eq s.label "") && contains labels s.label) known
unfolding match_states filter_by
match_states-filter labels [] = refl
match_states-filter labels (s ∷ known) = rw (match_states-filter labels known) refl

abbrev pub IsFailed : LabelState → Type 0
IsFailed s = s.name ≡ "failed"

-- The first state with the name, or that there is none.
abbrev pub FirstFailed : List LabelState → Option LabelState → Type 0
FirstFailed [] o = o ≡ none
FirstFailed (s ∷ states) o =
    (IsFailed s × (o ≡ some s)) ⊎ ((s.name ≢ "failed") × FirstFailed states o)

state_named-FirstFailed :
    (states : List LabelState) → FirstFailed states (state_named states "failed")
unfolding state_named
state_named-FirstFailed [] = refl
state_named-FirstFailed (s ∷ states) = elim (Bool-cases (str_eq s.name "failed")) [
  | inl here ↦ rw here (inl ((str_eq_iff s.name "failed").0 here, refl))
  | inr away ↦ rw away (
      inr (
        (λ e. absurd (ground (arith, away, e, str_eq_iff s.name "failed"))),
        state_named-FirstFailed states,
      ))
]

abbrev pub IsAllowed : List LabelState → LabelState → Type 0
IsAllowed states want = Some (λ s. (s.label ≡ want.label) × (s.name ≡ want.name)) states

contains_state-IsAllowed :
    (states : List LabelState) (want : LabelState)
    → contains_state states want ≡ true
    → IsAllowed states want
unfolding contains_state
contains_state-IsAllowed [] want h = absurd (ground arith)
contains_state-IsAllowed (s ∷ states) want h =
    elim (Bool-cases (str_eq s.label want.label && str_eq s.name want.name)) [
      | inl same ↦ inl (
        ground (arith, same, str_eq_iff s.label want.label),
        ground (arith, same, str_eq_iff s.name want.name),
      )
      | inr other ↦ inr (contains_state-IsAllowed states want (ground (arith, h, other)))
    ]

contains_state-barred :
    (states : List LabelState) (want : LabelState)
    → contains_state states want ≡ false
    → IsAllowed states want
    → ⊥
unfolding contains_state
contains_state-barred [] want h a = elim a [ ]
contains_state-barred (s ∷ states) want h (inl (l, n)) =
    ground (arith, h, l, n, str_eq_iff s.label want.label, str_eq_iff s.name want.name)
contains_state-barred (s ∷ states) want h (inr a) =
    contains_state-barred states want (ground (arith, h)) a

-- Without a transition, the exit code decides between the retry path and a human.
abbrev pub ByExit : ℤ → Classification → Type 0
ByExit exit_code c =
    ((exit_code ≡ pos 0) × (c ≡ no_transition_after_success))
    ⊎ ((exit_code ≢ pos 0) × (c ≡ no_transition_after_failure))

no_transition-ByExit : (exit_code : ℤ) → ByExit exit_code (no_transition_classification exit_code)
unfolding no_transition_classification
no_transition-ByExit (pos zero) = inl (refl, refl)
no_transition-ByExit (pos (suc n)) = inr ((λ e. absurd (ground (arith, ap is_zero e))), refl)
no_transition-ByExit (negsuc n) = inr ((λ e. absurd (ground (arith, ap is_zero e))), refl)

-- What a classification states of the states on the issue after the run.
abbrev pub Verdict : Input → LabelState → List LabelState → Option LabelState → Result → Type 0
Verdict i current post (some f) r = (r.classification ≡ failed) × (r.to ≡ f)
Verdict i current post none r =
    ((r.classification ≡ ok)
      × (post ≡ r.to ∷ [])
      × (r.to.label ≢ current.label)
      × IsAllowed i.allowed_transitions r.to)
    ⊎ (ByExit i.exit_code r.classification
        × (((post ≡ []) × (current.label ≡ ""))
            ⊎ ((post ≡ r.to ∷ []) × (r.to.label ≡ current.label))))
    ⊎ ((r.classification ≡ unexpected_transition)
        × (((post ≡ []) × (current.label ≢ ""))
            ⊎ ((s : LabelState) × (post ≡ s ∷ [])
                × (s.label ≢ current.label)
                × (¬ IsAllowed i.allowed_transitions s))
            ⊎ IsAmbiguous post))

Decides-Verdict :
    (i : Input) (current : LabelState) (post : List LabelState) (r : Result)
    → Decides i current post r
    → Verdict i current post none r
Decides-Verdict i current post r (inl (c, p, d, a)) =
    inl (c, p, d, contains_state-IsAllowed i.allowed_transitions r.to a)
Decides-Verdict i current post r (inr (inl (c, h))) =
    inr (inl (subst (ByExit i.exit_code) (sym c) (no_transition-ByExit i.exit_code), h))
Decides-Verdict i current post r (inr (inr (c, inl h))) = inr (inr (c, inl h))
Decides-Verdict i current post r (inr (inr (c, inr (inl (s, p, d, b))))) =
    inr (inr (c, inr (inl (s, p, d, contains_state-barred i.allowed_transitions s b))))
Decides-Verdict i current post r (inr (inr (c, inr (inr h)))) = inr (inr (c, inr (inr h)))

-- What `Classify` answers, by the known states whose labels are on the issue after the run. If one is named
-- `failed`: failed, by the first such one. Otherwise: `ok`, if one known state is there, another one than before, and
-- it is among those that may be entered; no transition, for a human where the exit code is 0 and for a retry where it
-- is not, if the state is the one from before, or there was and is none; unexpected, if a state is lost, if several
-- are there, or if the one there may not be entered.
pub classify-Verdict :
    (i : Input)
    → (o : Option LabelState) × FirstFailed (after i) o
      × Verdict i (before i) (after i) o (classify i)
unfolding classify
classify-Verdict i = rw (← match_states-filter i.post i.known_states) (
  state_named (matched i) "failed",
  state_named-FirstFailed (matched i),
  go (state_named (matched i) "failed"),
)
  where
    go :
        (o : Option LabelState)
        → Verdict i (before i) (matched i) o (classify_by i (before i) (matched i) o)
    go (some f) = unfold classify_by in (refl, refl)
    go none =
        unfold classify_by in
        Decides-Verdict i (before i) (matched i) (classify_unfailed i (before i) (matched i))
          (unfailed-Decides i (before i) (matched i) (match_states-IsPresent i.post i.known_states))
