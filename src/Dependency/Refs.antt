-- ===== src/Dependency/Refs.antt =====
-- internal/dependency/dependency.go: the references of a declaration (normalizeDependency and below,
-- ParseDeclaration). Texts are valid UTF-8, so that the first and the last byte are ASCII where the first
-- and the last character are. The entries of the block come from the YAML parser.
pub mod Normal
pub mod Printed
use Prim.Native.Char.{code}
use workbuddy.Prelude.{
  ℕ, ◌+◌, ◌-◌, ◌*◌, String, Bool, true, false, not, ◌&&◌, ◌||◌, Option, none, some, List, [], ◌∷◌,
  if◌then◌else◌, ltb, leb, ◌==◌, str_eq, str_leb, contains, concat, itoa, trim_space,
}
use workbuddy.Dependency.{
  DependencyStatus, active, unsupported_cross_repo, invalid, ParsedDependency,
}

-- `strings.ReplaceAll` of a backslash and `q` by `q`; `held` tells that a backslash is pending.
unfoldable pub unescape : (q : ℕ) → (held : Bool) → String → String
unescape q held String.[] = if held then "\\" else String.[]
unescape q held (String.◌∷◌ c s) =
    let hit = held && code c == q in
    let holds = not hit && code c == 92 in
    let rest = unescape q holds s in
    let tail = if holds then rest else String.◌∷◌ c rest in
    if held && not hit then String.◌∷◌ "\\" tail else tail

unfoldable pub last_is : ℕ → String → Bool
last_is q String.[] = false
last_is q (String.◌∷◌ c s) =
    let rest = last_is q s in if str_eq s String.[] then code c == q else rest

unfoldable pub without_last : String → String
without_last String.[] = String.[]
without_last (String.◌∷◌ c s) =
    let rest = without_last s in if str_eq s String.[] then String.[] else String.◌∷◌ c rest

unfoldable pub strip_matching_quotes : String → String
strip_matching_quotes String.[] = String.[]
strip_matching_quotes (String.◌∷◌ c s) =
    if code c == 34 && last_is 34 s
    then without_last s
    else if code c == 39 && last_is 39 s
    then without_last s
    else String.◌∷◌ c s

unfoldable pub normalize_dependency_ref : String → String
normalize_dependency_ref raw =
    trim_space (strip_matching_quotes (unescape 39 false (unescape 34 false (trim_space raw))))

unfoldable pub digits_value : ℕ → String → Option ℕ
digits_value acc String.[] = some acc
digits_value acc (String.◌∷◌ c s) =
    let rest = digits_value (acc * 10 + (code c - 48)) s in
    if leb 48 (code c) && leb (code c) 57 then rest else none

-- `[1-9][0-9]*`, up to the end.
unfoldable pub issue_number : String → Option ℕ
issue_number String.[] = none
issue_number (String.◌∷◌ c s) =
    if leb 49 (code c) && leb (code c) 57 then digits_value (code c - 48) s else none

-- `[A-Za-z0-9_.-]`.
unfoldable pub is_name_char : ℕ → Bool
is_name_char c =
    (leb 65 c && leb c 90)
    || (leb 97 c && leb c 122)
    || (leb 48 c && leb c 57)
    || c == 95
    || c == 46
    || c == 45

-- The longest prefix of such characters, and the rest.
unfoldable pub take_name : String → String × String
take_name String.[] = (String.[], String.[])
take_name (String.◌∷◌ c s) =
    let rest = take_name s in
    if is_name_char (code c) then (String.◌∷◌ c rest.0, rest.1) else (String.[], String.◌∷◌ c s)

unfoldable pub after_char : ℕ → String → Option String
after_char q String.[] = none
after_char q (String.◌∷◌ c s) = if code c == q then some s else none

unfoldable pub local_issue_ref : String → Option ℕ
local_issue_ref s = elim (after_char 35 s) [ none ↦ none | some t ↦ issue_number t ]

unfoldable pub fq_tail : (owner name : String) → Option String → Option (String × String × ℕ)
fq_tail owner name none = none
fq_tail owner name (some t) = elim (issue_number t) [
  | none ↦ none
  | some n ↦ if str_eq name "" then none else some (owner, name, n)
]

unfoldable pub fq_name : (owner : String) → Option String → Option (String × String × ℕ)
fq_name owner none = none
fq_name owner (some s) =
    let (name, t) = take_name s in
    if str_eq owner "" then none else fq_tail owner name (after_char 35 t)

-- The two marks are no characters of a name, so the longest prefixes are the expression's groups.
unfoldable pub fq_issue_ref : String → Option (String × String × ℕ)
fq_issue_ref s = let (owner, t) = take_name s in fq_name owner (after_char 47 t)

abbrev pub max_int : ℕ
max_int = 9223372036854775807

unfoldable pub refused : (raw reason : String) → ParsedDependency
refused raw reason = record {
  raw = raw;
  repo = "";
  issue_num = 0;
  status = invalid;
  normalized = "";
  parse_error_reason = reason;
}

unfoldable pub accepted : (raw repo : String) → ℕ → DependencyStatus → ParsedDependency
accepted raw repo n status = record {
  raw = raw;
  repo = repo;
  issue_num = n;
  status = status;
  normalized = if str_eq repo "" then "" else concat (repo ∷ "#" ∷ itoa n ∷ []);
  parse_error_reason = "";
}

unfoldable pub normalize_fq : (repo raw : String) → Option (String × String × ℕ) → ParsedDependency
normalize_fq repo raw none = refused raw "invalid_format"
normalize_fq repo raw (some (owner, name, n)) =
    let named = concat (owner ∷ "/" ∷ name ∷ []) in
    if ltb max_int n
    then refused raw "invalid_repo_issue"
    else accepted raw named n (if str_eq named repo then active else unsupported_cross_repo)

-- A number beyond the range of Go's int is an error of `Sscanf`.
unfoldable pub normalize_local : (repo raw : String) → String → Option ℕ → ParsedDependency
normalize_local repo raw canonical none = normalize_fq repo raw (fq_issue_ref canonical)
normalize_local repo raw canonical (some n) =
    if ltb max_int n then refused raw "invalid_issue_number" else accepted raw repo n active

unfoldable pub normalize_dependency : (repo raw : String) → ParsedDependency
normalize_dependency repo raw =
    let trimmed = trim_space raw in
    let canonical = normalize_dependency_ref trimmed in
    normalize_local repo trimmed canonical (local_issue_ref canonical)

-- The entries in the order of the declaration, one for each normalized reference.
unfoldable pub add_entries :
    (repo : String) → (seen : List String) → List String → List ParsedDependency
add_entries repo seen [] = []
add_entries repo seen (raw ∷ raws) =
    let parsed = normalize_dependency repo raw in
    let skip = not (str_eq parsed.normalized "") && contains seen parsed.normalized in
    let rest =
      add_entries repo (if str_eq parsed.normalized "" then seen else parsed.normalized ∷ seen)
        raws in
    if skip then rest else parsed ∷ rest

unfoldable pub is_before : ParsedDependency → ParsedDependency → Bool
is_before a b =
    if str_eq a.normalized b.normalized
    then str_leb a.raw b.raw
    else str_leb a.normalized b.normalized

unfoldable pub insert_dependency : ParsedDependency → List ParsedDependency → List ParsedDependency
insert_dependency d [] = d ∷ []
insert_dependency d (e ∷ es) =
    let rest = insert_dependency d es in if is_before d e then d ∷ e ∷ es else e ∷ rest

unfoldable pub sort_dependencies : List ParsedDependency → List ParsedDependency
sort_dependencies [] = []
sort_dependencies (d ∷ ds) = insert_dependency d (sort_dependencies ds)

-- `none`: no block of the body declares `depends_on`.
unfoldable pub parse_declaration : (repo : String) → Option (List String) → List ParsedDependency
parse_declaration repo none = []
parse_declaration repo (some raws) = sort_dependencies (add_entries repo [] raws)
