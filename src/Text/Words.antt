-- ===== src/Text/Words.antt =====
-- `HasPrefix`, `TrimPrefix`, `HasSuffix`, `TrimSuffix`, `Contains`, `LastIndex`, `Split` and
-- `FieldsFunc` of the package `strings`.
use code_code_platform_catal.Prelude.{
  ℕ, zero, suc, ◌-◌, ◌≡◌, refl, Bool, true, false, ◌&&◌, ◌||◌, List, [], ◌∷◌, ◌++◌, Option, none,
  some, arith, if◌then◌else◌, ◌==◌, nat_eq, leb, length, take, drop,
}
use code_code_platform_catal.Text.Base.{Text, is_empty, text_eq}

unfoldable pub has_prefix : Text → Text → Bool
has_prefix [] s = true
has_prefix (c ∷ p) [] = false
has_prefix (c ∷ p) (d ∷ s) = c == d && has_prefix p s

unfoldable pub trim_prefix : Text → Text → Text
unfolding has_prefix
trim_prefix p s = if has_prefix p s then drop (length p) s else s

unfoldable pub has_suffix : Text → Text → Bool
has_suffix p s = leb (length p) (length s) && drop (length s - length p) s == p

unfoldable pub trim_suffix : Text → Text → Text
unfolding has_suffix
trim_suffix p s = if has_suffix p s then take (length s - length p) s else s

unfoldable pub contains_text : Text → Text → Bool
unfolding has_prefix
contains_text p [] = is_empty p
contains_text p (c ∷ s) = has_prefix p (c ∷ s) || contains_text p s

-- `strings.Cut(s, sep)` for a separator of one byte.
unfoldable pub cut : ℕ → Text → Option (Text × Text)
cut b [] = none
cut b (c ∷ s) = elim (c == b) [
  | true ↦ some ([], s)
  | false ↦ elim (cut b s) [ none ↦ none | some (before, after) ↦ some (c ∷ before, after) ]
]

-- `strings.Index(s, sep)` for a separator of one byte.
unfoldable pub index : ℕ → Text → Option ℕ
index b [] = none
index b (c ∷ s) = elim (c == b) [
  | true ↦ some 0
  | false ↦ elim (index b s) [ none ↦ none | some i ↦ some (suc i) ]
]

-- `strings.Join(parts, sep)` for a separator of one byte.
unfoldable pub join : ℕ → List Text → Text
join b [] = []
join b (part ∷ []) = part
join b (part ∷ next ∷ parts) = part ++ b ∷ join b (next ∷ parts)

-- The position of the last such byte; Go's -1 is `none`.
unfoldable pub last_index : ℕ → Text → Option ℕ
last_index b [] = none
last_index b (c ∷ s) = elim (last_index b s) [
  | some i ↦ some (suc i)
  | none ↦ if c == b then some 0 else none
]

-- `strings.Split(s, sep)` for a separator that is not empty; the first number counts the bytes of a
-- separator that are still to be skipped.
unfoldable pub split_from : Text → ℕ → Text → Text → List Text
split_from sep skip cur [] = cur ∷ []
split_from sep (suc skip) cur (c ∷ s) = split_from sep skip cur s
split_from sep zero cur (c ∷ s) = elim (has_prefix sep (c ∷ s)) [
  | true ↦ cur ∷ split_from sep (length sep - 1) [] s
  | false ↦ split_from sep zero (cur ++ c ∷ []) s
]

unfoldable pub split : Text → Text → List Text
unfolding split_from has_prefix
split sep s = split_from sep 0 [] s

-- `strings.FieldsFunc(s, p)`: the runs of bytes at which `p` fails.
unfoldable pub fields_from : (ℕ → Bool) → Text → Text → List Text
fields_from p cur [] = if is_empty cur then [] else cur ∷ []
fields_from p cur (c ∷ s) = elim (p c) [
  | true ↦ (if is_empty cur then [] else cur ∷ []) ++ fields_from p [] s
  | false ↦ fields_from p (cur ++ c ∷ []) s
]

unfoldable pub fields_func : (ℕ → Bool) → Text → List Text
unfolding fields_from
fields_func p s = fields_from p [] s

pub has_prefix-append : (p s : Text) → has_prefix p (p ++ s) ≡ true
unfolding has_prefix
has_prefix-append [] s = refl
has_prefix-append (c ∷ p) s = ground (arith, has_prefix-append p s)

pub has_prefix_split : (p s : Text) → has_prefix p s ≡ true → s ≡ p ++ drop (length p) s
unfolding has_prefix
has_prefix_split [] s h = refl
has_prefix_split (c ∷ p) [] h = ground arith
has_prefix_split (c ∷ p) (d ∷ s) h = ground (arith, has_prefix_split p s)
