-- ===== src/Dependency/Cycles.antt =====
-- internal/dependency/dependency.go: the search for cycles (detectCycles, extractCyclePath, formatCycle).
pub mod Walks
mod Steps
mod Reports
pub mod Real
mod Done
mod Fuel
pub mod Complete
use workbuddy.Prelude.{
  ℕ, zero, suc, String, Option, none, some, List, [], ◌∷◌, ◌++◌, leb, ◌==◌, if◌then◌else◌, length,
  concat, itoa, lookup, insert, nat_eq,
}

pub data Color : Type 0 where
  white gray black : Color

abbrev pub Graph : Type 0
Graph = List (ℕ × List ℕ)

-- A missing key is Go's zero value: no dependencies, and white.
unfoldable pub deps_of : Option (List ℕ) → List ℕ
deps_of none = []
deps_of (some ns) = ns

unfoldable pub color_of : Option Color → Color
color_of none = white
color_of (some c) = c

pub record Search : Type 0 where
  pub colors : List (ℕ × Color)
  pub stack : List ℕ
  pub out : List (ℕ × List String)

unfoldable pub next_of : Graph → ℕ → List ℕ
next_of g n = deps_of (lookup n g)

unfoldable pub color_in : ℕ → Search → Color
color_in n s = color_of (lookup n s.colors)

-- The stack from the first occurrence of the target on.
unfoldable pub drop_to : ℕ → List ℕ → Option (List ℕ)
drop_to target [] = none
drop_to target (n ∷ ns) =
    let rest = drop_to target ns in if n == target then some (n ∷ ns) else rest

unfoldable pub or_else : Option (List ℕ) → List ℕ → List ℕ
or_else none ns = ns
or_else (some ms) ns = ms

-- The whole stack where the target is not on it.
unfoldable pub extract_cycle_path : List ℕ → ℕ → List ℕ
extract_cycle_path stack target = or_else (drop_to target stack) stack ++ target ∷ []

unfoldable pub format_cycle : List ℕ → List String
format_cycle [] = []
format_cycle (n ∷ ns) = concat ("#" ∷ itoa n ∷ []) ∷ format_cycle ns

unfoldable pub report : List String → List ℕ → List (ℕ × List String) → List (ℕ × List String)
report path [] out = out
report path (n ∷ ns) out = report path ns (insert n path out)

unfoldable pub drop_last : List ℕ → List ℕ
drop_last [] = []
drop_last (n ∷ []) = []
drop_last (n ∷ m ∷ ns) = n ∷ drop_last (m ∷ ns)

unfoldable pub enter : ℕ → Search → Search
enter node s = record s { colors = insert node gray s.colors; stack = s.stack ++ node ∷ [] }

unfoldable pub leave : ℕ → Search → Search
leave node s = record s { colors = insert node black s.colors; stack = drop_last s.stack }

unfoldable pub close_cycle : ℕ → Search → Search
close_cycle next s =
    let path = extract_cycle_path s.stack next in
    record s { out = report (format_cycle path) path s.out }

unfoldable pub meet : (ℕ → Search → Search) → ℕ → Color → Search → Search
meet go next white s = go next s
meet go next gray s = close_cycle next s
meet go next black s = s

unfoldable pub each_next : (ℕ → Search → Search) → List ℕ → Search → Search
each_next go [] s = s
each_next go (next ∷ nexts) s = each_next go nexts (meet go next (color_in next s) s)

-- The depth of the recursion is bounded by the fuel.
unfoldable pub visit : ℕ → Graph → ℕ → Search → Search
visit zero g node s = s
visit (suc fuel) g node s = leave node (each_next (visit fuel g) (next_of g node) (enter node s))

unfoldable pub insert_int : ℕ → List ℕ → List ℕ
insert_int n [] = n ∷ []
insert_int n (m ∷ ms) = let rest = insert_int n ms in if leb n m then n ∷ m ∷ ms else m ∷ rest

-- `sort.Ints`: its result does not depend on the algorithm.
unfoldable pub sort_ints : List ℕ → List ℕ
sort_ints [] = []
sort_ints (n ∷ ns) = insert_int n (sort_ints ns)

unfoldable pub keys : Graph → List ℕ
keys [] = []
keys ((n, ns) ∷ g) = n ∷ keys g

unfoldable pub visit_white : ℕ → Graph → ℕ → Color → Search → Search
visit_white fuel g node white s = visit fuel g node s
visit_white fuel g node gray s = s
visit_white fuel g node black s = s

unfoldable pub visit_keys : ℕ → Graph → List ℕ → Search → Search
visit_keys fuel g [] s = s
visit_keys fuel g (n ∷ ns) s = visit_keys fuel g ns (visit_white fuel g n (color_in n s) s)

abbrev pub fresh_search : Search
fresh_search = record { colors = []; stack = []; out = [] }

-- One unit of fuel more than the graph has keys.
unfoldable pub detect_cycles : Graph → List (ℕ × List String)
detect_cycles g = (visit_keys (suc (length g)) g (sort_ints (keys g)) fresh_search).out
