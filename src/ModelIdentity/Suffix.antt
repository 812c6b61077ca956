-- ===== src/ModelIdentity/Suffix.antt =====
-- The release suffixes of modelidentity/identity.go: dates ("-2024-08-06", "-20240806"), calendar
-- months ("-08-2024", "-2024-08") and four-digit releases ("-0125"). Go's `(base, suffix, ok)` is an
-- `Option`; a slice `s[:n]` is `take`, `s[n:]` is `drop`, and every index is guarded by a length.
pub mod Cuts
pub mod Dates
use code_code_platform_catal.Prelude.{
  ℕ, ◌+◌, ◌-◌, Bool, true, false, not, ◌&&◌, ◌||◌, List, [], ◌∷◌, Option, none, some, if◌then◌else◌,
  ◌==◌, nat_eq, ltb, leb, length, take, drop, get_or, Ordering,
}
use code_code_platform_catal.Text.{
  Text, codes, dash, is_digit, is_empty, compare_text, trim_space, last_index,
}

unfoldable pub all_digit_bytes : Text → Bool
all_digit_bytes [] = true
all_digit_bytes (c ∷ s) = is_digit c && all_digit_bytes s

unfoldable pub all_digits : Text → Bool
unfolding all_digit_bytes
all_digits value = if is_empty value then false else all_digit_bytes value

abbrev at_most : Ordering → Bool
at_most Ordering.gt = false
at_most _ = true

-- `value >= low && value <= high` on strings.
unfoldable pub between : Text → Text → Text → Bool
between low high value = at_most (compare_text low value) && at_most (compare_text value high)

unfoldable pub is_valid_month_parts : Text → Text → Bool
is_valid_month_parts year month =
    length year == 4
    && length month == 2
    && all_digits year
    && all_digits month
    && between (codes "01") (codes "12") month

unfoldable pub is_valid_date_parts : Text → Text → Text → Bool
is_valid_date_parts year month day =
    length year == 4
    && length month == 2
    && length day == 2
    && all_digits year
    && all_digits month
    && all_digits day
    && between (codes "01") (codes "12") month
    && between (codes "01") (codes "31") day

-- The byte `n` places before the end.
abbrev pub from_end : ℕ → Text → ℕ
from_end n s = get_or s (length s - n) 0

abbrev pub last : ℕ → Text → Text
last n s = drop (length s - n) s

-- The year, month and day that the three functions below also return are used by no caller.
unfoldable pub trailing_month_year_suffix : Text → Bool
trailing_month_year_suffix value =
    if ltb (length value) 8 || not (from_end 8 value == dash)
    then false
    else (let suffix = last 7 value in
        if not (get_or suffix 2 0 == dash)
        then false
        else is_valid_month_parts (drop 3 suffix) (take 2 suffix))

unfoldable pub trailing_year_month_suffix : Text → Bool
trailing_year_month_suffix value =
    if ltb (length value) 8 || not (from_end 8 value == dash)
    then false
    else (let suffix = last 7 value in
        if not (get_or suffix 4 0 == dash)
        then false
        else is_valid_month_parts (take 4 suffix) (drop 5 suffix))

-- `trailingDateParts` is called with 10 digits and dashes, or with 8 digits and none.
unfoldable pub trailing_date_parts : Text → Bool → Bool
trailing_date_parts value true =
    if ltb (length value) 11 || not (from_end 11 value == dash)
    then false
    else (let date = last 10 value in
        if not (get_or date 4 0 == dash) || not (get_or date 7 0 == dash)
        then false
        else is_valid_date_parts (take 4 date) (take 2 (drop 5 date)) (take 2 (drop 8 date)))
trailing_date_parts value false =
    if ltb (length value) 9 || not (from_end 9 value == dash)
    then false
    else (let date = last 8 value in
        is_valid_date_parts (take 4 date) (take 2 (drop 4 date)) (take 2 (drop 6 date)))

-- The text before the hyphen and the `n` bytes behind it.
abbrev pub cut_at : ℕ → Text → Text × Text
cut_at n s = (trim_space (take (length s - (n + 1)) s), last n s)

unfoldable pub cut_precise_date_suffix : Text → Option (Text × Text)
cut_precise_date_suffix model_id =
    let s = trim_space model_id in
    if ltb 11 (length s) && trailing_date_parts s true
    then some (cut_at 10 s)
    else if ltb 9 (length s) && trailing_date_parts s false
    then some (cut_at 8 s)
    else none

unfoldable pub cut_calendar_release_suffix : Text → Option (Text × Text)
cut_calendar_release_suffix model_id =
    let s = trim_space model_id in
    if ltb 8 (length s) && trailing_month_year_suffix s
    then some (cut_at 7 s)
    else if ltb 8 (length s) && trailing_year_month_suffix s
    then some (cut_at 7 s)
    else none

-- The rest of `CutReleaseSuffix`, given the last hyphen.
unfoldable pub cut_release_at : Text → Option ℕ → Option (Text × Text)
cut_release_at s none = none
cut_release_at s (some last_dash) =
    if leb last_dash 0 || last_dash == length s - 1
    then none
    else (let suffix = drop (last_dash + 1) s in
        if not (length suffix == 4) || not (all_digits suffix)
        then none
        else some (trim_space (take last_dash s), suffix))

unfoldable pub cut_release_suffix : Text → Option (Text × Text)
cut_release_suffix model_id =
    let s = trim_space model_id in
    if leb (length s) 5 then none else cut_release_at s (last_index dash s)

-- `ok && strings.TrimSpace(base) != ""`.
unfoldable pub has_base : Option (Text × Text) → Bool
has_base none = false
has_base (some (base, _)) = not (is_empty (trim_space base))

unfoldable pub has_snapshot_release_suffix : Text → Bool
has_snapshot_release_suffix model_id =
    has_base (cut_precise_date_suffix model_id)
    || has_base (cut_calendar_release_suffix model_id)
    || has_base (cut_release_suffix model_id)
