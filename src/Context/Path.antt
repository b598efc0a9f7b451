-- ===== src/Context/Path.antt =====
-- context/path.ts, on paths that are texts. The reasons of the errors are left out.
pub mod Laws
pub mod Trim
pub mod Split
pub mod NormalForm
mod Examples
use open_dynamic_workflow.Base.{
  ℕ, ℕ_eq, List_eq, ◌==◌, Bool, true, false, not, ◌&&◌, ◌||◌, Option, none, some, List, [], ◌∷◌,
  ◌++◌, map, Text, codes, Result, ok, err, if◌then◌else◌, ltb, leb, length,
}
use open_dynamic_workflow.Context.Operations.{ContextOperation, ContextError, context_invalid_path}

pub record NormalizedContextPath : Type 0 where
  pub raw : Text
  pub normalized : Text
  pub segments : List Text

-- What `trim` removes: white space and the ends of lines.
abbrev pub is_space : ℕ → Bool
is_space c =
    (leb 9 c && leb c 13)
    || c == 32
    || c == 160
    || c == 5760
    || (leb 8192 c && leb c 8202)
    || c == 8232
    || c == 8233
    || c == 8239
    || c == 8287
    || c == 12288
    || c == 65279

unfoldable pub trim_start : Text → Text
trim_start [] = []
trim_start (c ∷ rest) = let trimmed = trim_start rest in if is_space c then trimmed else c ∷ rest

abbrev pub is_empty : Text → Bool
is_empty [] = true
is_empty (c ∷ rest) = false

unfoldable pub trim_end : Text → Text
trim_end [] = []
trim_end (c ∷ rest) =
    let trimmed = trim_end rest in if is_empty trimmed && is_space c then [] else c ∷ trimmed

unfoldable pub trim : Text → Text
unfolding trim_start trim_end
trim t = trim_end (trim_start t)

abbrev pub dot : ℕ
dot = 46

-- A code unit before the first part.
abbrev pub extend : ℕ → List Text → List Text
extend c [] = (c ∷ []) ∷ []
extend c (part ∷ parts) = (c ∷ part) ∷ parts

-- `split(".")`
unfoldable pub split : Text → List Text
split [] = [] ∷ []
split (c ∷ rest) = let parts = split rest in if c == dot then [] ∷ parts else extend c parts

-- `join(".")`
unfoldable pub join_dots : List Text → Text
join_dots [] = []
join_dots (t ∷ []) = t
join_dots (t ∷ u ∷ rest) = t ++ dot ∷ join_dots (u ∷ rest)

abbrev pub starts_with_dot : Text → Bool
starts_with_dot [] = false
starts_with_dot (c ∷ rest) = c == dot

unfoldable pub ends_with_dot : Text → Bool
ends_with_dot [] = false
ends_with_dot (c ∷ []) = c == dot
ends_with_dot (c ∷ d ∷ rest) = ends_with_dot (d ∷ rest)

unfoldable pub includes_dots : Text → Bool
includes_dots [] = false
includes_dots (c ∷ rest) = (c == dot && starts_with_dot rest) || includes_dots rest

-- `/^\d+$/`, on what is not empty.
unfoldable pub all_digits : Text → Bool
all_digits [] = true
all_digits (c ∷ rest) = (leb 48 c && leb c 57) && all_digits rest

-- What a segment may not be, trimmed.
abbrev pub is_reserved : Text → Bool
is_reserved t = t == codes "__proto__" || t == codes "prototype" || t == codes "constructor"

abbrev pub is_refused : Text → Bool
is_refused t = is_empty t || t == codes ".." || is_reserved t || all_digits t

-- The loop over the segments: none if it throws.
unfoldable pub check_segments : List Text → Option (List Text)
check_segments [] = some []
check_segments (raw ∷ rest) = elim (check_segments rest) [
  | none ↦ none
  | some segments ↦ if is_refused (trim raw) then none else some (trim raw ∷ segments)
]

abbrev pub normalized_path : Text → Option (List Text) → Option NormalizedContextPath
normalized_path path none = none
normalized_path path (some segments) =
    some record { raw = path; normalized = join_dots segments; segments = segments }

-- The checks of the whole path.
abbrev pub is_malformed : Text → Bool
is_malformed path =
    is_empty path
    || is_empty (trim path)
    || starts_with_dot path
    || ends_with_dot path
    || includes_dots path

abbrev pub invalid_path : ContextOperation → Text → ContextError
invalid_path op path = record { code = context_invalid_path; operation = op; path = path }

unfoldable pub parse_context_path :
    ContextOperation → Text → Result ContextError NormalizedContextPath
unfolding trim ends_with_dot includes_dots check_segments split join_dots
parse_context_path op path =
    if is_malformed path
    then err (invalid_path op path)
    else elim (normalized_path path (check_segments (split path))) [
      | none ↦ err (invalid_path op path)
      | some p ↦ ok p
    ]

unfoldable pub join_context_path :
    ContextOperation → Text → Text → Result ContextError NormalizedContextPath
unfolding parse_context_path
join_context_path op prefix path =
    if is_empty prefix
    then parse_context_path op path
    else (if is_empty path
        then parse_context_path op prefix
        else parse_context_path op (prefix ++ dot ∷ path))

-- The segments of the first path begin those of the second.
unfoldable pub begins : List Text → List Text → Bool
begins [] others = true
begins (s ∷ rest) [] = false
begins (s ∷ rest) (t ∷ others) = s == t && begins rest others

unfoldable pub is_ancestor_path : Text → Text → Bool
unfolding trim split begins
is_ancestor_path ancestor path =
    if is_empty ancestor || is_empty path
    then false
    else (if leb (length (map trim (split path))) (length (map trim (split ancestor)))
        then false
        else begins (map trim (split ancestor)) (map trim (split path)))
