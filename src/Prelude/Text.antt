-- ===== src/Prelude/Text.antt =====
-- Texts as Go's `strings` and `sort` packages treat them.
use Prim.Native.Nat.{ℕ, compare, Ordering}
use Prim.Native.Char.{code}
use Prim.Native.Nat.{zero, suc, ◌/◌, ◌%◌}
use Prim.Native.String.{String, ◌++◌}
use mathlib.Core.Bool.{Bool, true, false, ◌&&◌, ◌||◌}
use mathlib.Core.List.{List, [], ◌∷◌}
use workbuddy.Prelude.Tests.{ltb, leb, ◌==◌, if◌then◌else◌}

-- `unicode.IsSpace`.
unfoldable pub is_space : ℕ → Bool
is_space c =
    (leb 9 c && leb c 13)
    || c == 32
    || c == 0x85
    || c == 0xA0
    || c == 0x1680
    || (leb 0x2000 c && leb c 0x200A)
    || c == 0x2028
    || c == 0x2029
    || c == 0x202F
    || c == 0x205F
    || c == 0x3000

unfoldable pub trim_left : String → String
unfolding is_space
trim_left String.[] = String.[]
trim_left (String.◌∷◌ c s) =
    let rest = trim_left s in if is_space (code c) then rest else (String.◌∷◌ c s)

abbrev is_empty : String → Bool
is_empty String.[] = true
is_empty (String.◌∷◌ _ _) = false

unfoldable pub trim_right : String → String
unfolding is_space
trim_right String.[] = String.[]
trim_right (String.◌∷◌ c s) =
    let rest = trim_right s in
    if is_empty rest && is_space (code c) then String.[] else (String.◌∷◌ c rest)

-- `strings.TrimSpace`.
unfoldable pub trim_space : String → String
unfolding trim_left trim_right
trim_space s = trim_right (trim_left s)

-- `strings.HasPrefix s p`.
unfoldable pub has_prefix : String → String → Bool
has_prefix s String.[] = true
has_prefix String.[] (String.◌∷◌ _ _) = false
has_prefix (String.◌∷◌ c s) (String.◌∷◌ d p) = (code c == code d) && has_prefix s p

-- The order of `sort.Strings`: by code points, as UTF-8 bytes compare.
unfoldable pub str_leb : String → String → Bool
str_leb String.[] t = true
str_leb (String.◌∷◌ _ _) String.[] = false
str_leb (String.◌∷◌ c s) (String.◌∷◌ d t) =
    let rest = str_leb s t in
    elim (compare (code c) (code d)) [
      | Ordering.lt ↦ true
      | Ordering.eq ↦ rest
      | Ordering.gt ↦ false
    ]

unfoldable pub insert_sorted : String → List String → List String
unfolding str_leb
insert_sorted s [] = s ∷ []
insert_sorted s (t ∷ ts) = if str_leb s t then s ∷ t ∷ ts else t ∷ insert_sorted s ts

-- `sort.Strings`: its result does not depend on the algorithm.
unfoldable pub sort_strings : List String → List String
unfolding insert_sorted
sort_strings [] = []
sort_strings (s ∷ ss) = insert_sorted s (sort_strings ss)

-- Concatenation of the parts of a format.
unfoldable pub concat : List String → String
concat [] = String.[]
concat (s ∷ ss) = s ++ concat ss

unfoldable pub join_strings : String → List String → String
join_strings sep [] = String.[]
join_strings sep (s ∷ []) = s
join_strings sep (s ∷ t ∷ ts) = s ++ (sep ++ join_strings sep (t ∷ ts))

abbrev pub digit : ℕ → String
digit n =
    if n == 0
    then "0"
    else if n == 1
    then "1"
    else if n == 2
    then "2"
    else if n == 3
    then "3"
    else if n == 4
    then "4"
    else if n == 5
    then "5"
    else if n == 6
    then "6"
    else if n == 7
    then "7"
    else if n == 8
    then "8"
    else "9"

unfoldable pub digits : ℕ → ℕ → String
digits zero n = digit n
digits (suc fuel) n =
    let rest = digits fuel (n / 10) in if ltb n 10 then digit n else rest ++ digit (n % 10)

-- `%d`: `n` digits are enough for `n`.
unfoldable pub itoa : ℕ → String
unfolding digits
itoa n = digits n n

escape : String → String
escape String.[] = String.[]
escape (String.◌∷◌ c s) =
    let rest = escape s in
    if code c == 34
    then "\\\"" ++ rest
    else if code c == 92
    then "\\" ++ rest
    else if code c == 10
    then "\\n" ++ rest
    else if code c == 9
    then "\\t" ++ rest
    else (String.◌∷◌ c rest)

-- `%q` of a text whose characters are printable, or a tab or a line feed.
unfoldable pub quote : String → String
unfolding escape
quote s = "\"" ++ (escape s ++ "\"")
