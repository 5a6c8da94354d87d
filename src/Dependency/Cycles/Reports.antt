-- ===== src/Dependency/Cycles/Reports.antt =====
-- A report is never taken back (internal/dependency/dependency.go, detectCycles).
use workbuddy.Prelude.{
  ℕ, ◌≡◌, ◌≢◌, refl, List, ◌++◌, [], ◌∷◌, zero, suc, arith, insert, String, nat_eq,
}
use workbuddy.Dependency.Cycles.{
  Color, white, gray, black, Graph, Search, next_of, color_in, enter, leave, report, close_cycle,
  extract_cycle_path, meet, each_next, visit,
}

abbrev pub Stays : (ℕ → Search → Search) → Type 0
Stays go = (n : ℕ) (s : Search) → (go n s).out ≡ [] → s.out ≡ []

insert-nonempty : (n : ℕ) (p : List String) (out : List (ℕ × List String)) → insert n p out ≢ []
unfolding insert
insert-nonempty n p [] h = ground (arith, h)
insert-nonempty n p ((m, q) ∷ out) h = ground (arith, h)

report-nonempty :
    (p : List String) (ns : List ℕ) (out : List (ℕ × List String))
    → report p ns out ≡ []
    → (ns ≡ []) × (out ≡ [])
unfolding report
report-nonempty p [] out h = (refl, h)
report-nonempty p (n ∷ ns) out h =
    absurd (insert-nonempty n p out (report-nonempty p ns (insert n p out) h).1)

append-nonempty : (n : ℕ) (ns : List ℕ) → ns ++ n ∷ [] ≢ []
append-nonempty n [] h = ground (arith, h)
append-nonempty n (m ∷ ns) h = ground (arith, h)

pub close_cycle-nonempty : (n : ℕ) (s : Search) → (close_cycle n s).out ≢ []
unfolding close_cycle
close_cycle-nonempty n s h =
    unfold extract_cycle_path in (append-nonempty n _ (report-nonempty _ _ s.out h).0)

pub meet-out :
    (go : ℕ → Search → Search)
    → Stays go
    → (n : ℕ) (c : Color) (s : Search) → (meet go n c s).out ≡ []
    → s.out ≡ []
unfolding meet
meet-out go stays n white s h = stays n s h
meet-out go stays n gray s h = absurd (close_cycle-nonempty n s h)
meet-out go stays n black s h = h

pub each_next-out :
    (go : ℕ → Search → Search)
    → Stays go
    → (ns : List ℕ) (s : Search) → (each_next go ns s).out ≡ []
    → s.out ≡ []
unfolding each_next
each_next-out go stays [] s h = h
each_next-out go stays (n ∷ ns) s h =
    meet-out go stays n (color_in n s) s (each_next-out go stays ns _ h)

pub visit-out : (fuel : ℕ) (g : Graph) → Stays (visit fuel g)
unfolding visit enter leave
visit-out zero g n s h = h
visit-out (suc fuel) g n s h =
    each_next-out (visit fuel g) (visit-out fuel g) (next_of g n) (enter n s) h
