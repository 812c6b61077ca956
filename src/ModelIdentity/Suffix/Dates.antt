-- ===== src/ModelIdentity/Suffix/Dates.antt =====
-- modelidentity/identity.go: the cut of a dashed date.
use code_code_platform_catal.Prelude.{
  ℕ, ◌+◌, ◌-◌, ◌<◌, ◌≤◌, ◌≡◌, refl, ap, Bool, true, false, [], ◌∷◌, ◌++◌, some, nat_eq, ltb, length,
  take, get_or, length-append, take-append_left, drop-append_left, arith,
}
use Prim.Native.Nat.{◌*◌}
use code_code_platform_catal.Text.{
  Text, dash, is_digit, is_space, compare_text, trim_space, trim_of_clean, StartsClean, EndsClean,
}
use code_code_platform_catal.ModelIdentity.Suffix.{
  all_digits, between, is_valid_date_parts, from_end, last, trailing_date_parts,
  cut_precise_date_suffix,
}

abbrev pub IsDigit : ℕ → Type 0
IsDigit c = (b'0' ≤ c) × (c ≤ b'9')

-- The number that two digits spell.
abbrev pub two_digits : ℕ → ℕ → ℕ
two_digits a b = 10 * (a - b'0') + (b - b'0')

pub between_month :
    (a b : ℕ)
    → IsDigit a
    → IsDigit b
    → 1 ≤ two_digits a b
    → two_digits a b ≤ 12
    → between (b'0' ∷ b'1' ∷ []) (b'1' ∷ b'2' ∷ []) (a ∷ b ∷ []) ≡ true
unfolding between compare_text
between_month a b da db h k = ground arith

between_day :
    (a b : ℕ)
    → IsDigit a
    → IsDigit b
    → 1 ≤ two_digits a b
    → two_digits a b ≤ 31
    → between (b'0' ∷ b'1' ∷ []) (b'3' ∷ b'1' ∷ []) (a ∷ b ∷ []) ≡ true
unfolding between compare_text
between_day a b da db h k = ground arith

pub is_digit_of : (c : ℕ) → IsDigit c → is_digit c ≡ true
unfolding is_digit
is_digit_of c h = ground arith

-- The bytes of a date.
pub record Date : Type 0 where
  pub y1 : ℕ
  pub y2 : ℕ
  pub y3 : ℕ
  pub y4 : ℕ
  pub m1 : ℕ
  pub m2 : ℕ
  pub d1 : ℕ
  pub d2 : ℕ

pub record IsDate (d : Date) : Type 0 where
  pub y1 : IsDigit d.y1
  pub y2 : IsDigit d.y2
  pub y3 : IsDigit d.y3
  pub y4 : IsDigit d.y4
  pub m1 : IsDigit d.m1
  pub m2 : IsDigit d.m2
  pub d1 : IsDigit d.d1
  pub d2 : IsDigit d.d2
  pub month_ge : 1 ≤ two_digits d.m1 d.m2
  pub month_le : two_digits d.m1 d.m2 ≤ 12
  pub day_ge : 1 ≤ two_digits d.d1 d.d2
  pub day_le : two_digits d.d1 d.d2 ≤ 31

-- "YYYY-MM-DD" and "YYYYMMDD".
abbrev pub dashed : Date → Text
dashed d = d.y1 ∷ d.y2 ∷ d.y3 ∷ d.y4 ∷ dash ∷ d.m1 ∷ d.m2 ∷ dash ∷ d.d1 ∷ d.d2 ∷ []

abbrev pub compact : Date → Text
compact d = d.y1 ∷ d.y2 ∷ d.y3 ∷ d.y4 ∷ d.m1 ∷ d.m2 ∷ d.d1 ∷ d.d2 ∷ []

valid_parts :
    (d : Date)
    → IsDate d
    → is_valid_date_parts (d.y1 ∷ d.y2 ∷ d.y3 ∷ d.y4 ∷ []) (d.m1 ∷ d.m2 ∷ []) (d.d1 ∷ d.d2 ∷ [])
      ≡ true
unfolding is_valid_date_parts all_digits
valid_parts d h =
    rw
      (
        is_digit_of d.y1 h.y1,
        is_digit_of d.y2 h.y2,
        is_digit_of d.y3 h.y3,
        is_digit_of d.y4 h.y4,
        is_digit_of d.m1 h.m1,
        is_digit_of d.m2 h.m2,
        is_digit_of d.d1 h.d1,
        is_digit_of d.d2 h.d2,
        between_month d.m1 d.m2 h.m1 h.m2 h.month_ge h.month_le,
        between_day d.d1 d.d2 h.d1 h.d2 h.day_ge h.day_le,
      )
      refl

-- Slices of a text that ends in a known tail.
module _ (stem tail : Text) where
  length_behind : length (stem ++ tail) - length tail ≡ length stem
  length_behind = omega (arith, length-append stem tail)

  pub last_of_append : last (length tail) (stem ++ tail) ≡ tail
  last_of_append = rw length_behind (drop-append_left stem tail)

  pub take_of_append : take (length (stem ++ tail) - length tail) (stem ++ tail) ≡ stem
  take_of_append = rw length_behind (take-append_left stem tail)

get_or-append : (stem tail : Text) (c : ℕ) → get_or (stem ++ c ∷ tail) (length stem) 0 ≡ c
get_or-append [] tail c = refl
get_or-append (x ∷ stem) tail c = get_or-append stem tail c

pub from_end_of_append :
    (stem tail : Text) (c : ℕ) → from_end (length (c ∷ tail)) (stem ++ c ∷ tail) ≡ c
from_end_of_append stem tail c = rw (length_behind stem (c ∷ tail)) (get_or-append stem tail c)

append-cons : (stem tail : Text) (c : ℕ) → stem ++ c ∷ tail ≡ (stem ++ c ∷ []) ++ tail
append-cons [] tail c = refl
append-cons (x ∷ stem) tail c = ap (λ t. x ∷ t) (append-cons stem tail c)

pub last_behind_byte : (stem tail : Text) (c : ℕ) → last (length tail) (stem ++ c ∷ tail) ≡ tail
last_behind_byte stem tail c = rw append-cons (last_of_append (stem ++ c ∷ []) tail)

pub StartsClean-append :
    (p : ℕ → Bool) (s t : Text) → 0 < length s → StartsClean p s → StartsClean p (s ++ t)
StartsClean-append p [] t h k = absurd (omega arith)
StartsClean-append p (c ∷ s) t h k = k

pub EndsClean-append :
    (p : ℕ → Bool) (s : Text) (c : ℕ) (t : Text) → EndsClean p (c ∷ t) → EndsClean p (s ++ c ∷ t)
EndsClean-append p [] c t h = h
EndsClean-append p (d ∷ []) c t h = h
EndsClean-append p (d ∷ e ∷ s) c t h = EndsClean-append p (e ∷ s) c t h

-- A text with no white space at its ends, not empty.
pub record IsStem (s : Text) : Type 0 where
  pub starts : StartsClean is_space s
  pub ends : EndsClean is_space s
  pub pos : 0 < length s

pub trim_stem :
    (s t : Text)
    → IsStem s
    → EndsClean is_space (dash ∷ t)
    → trim_space (s ++ dash ∷ t) ≡ s ++ dash ∷ t
trim_stem s t h e =
    trim_of_clean is_space (s ++ dash ∷ t) (StartsClean-append is_space s (dash ∷ t) h.pos h.starts)
      (EndsClean-append is_space s dash t e)

pub digit_not_space : (c : ℕ) → IsDigit c → is_space c ≡ false
unfolding is_space
digit_not_space c h = ground arith

module _ (stem : Text) (d : Date) (valid : IsDate d) where
  dashed_is_found : trailing_date_parts (stem ++ dash ∷ dashed d) true ≡ true
  unfolding trailing_date_parts
  dashed_is_found =
      let v = stem ++ dash ∷ dashed d in
      let short : ltb (length v) 11 ≡ false =
        ground (arith, length-append stem (dash ∷ dashed d)) in
      rw (short, from_end_of_append stem (dashed d) dash, last_behind_byte stem (dashed d) dash)
        (valid_parts d valid)

  module _ (is_stem : IsStem stem) where
    -- A model ID that ends in "-YYYY-MM-DD", with a month and a day in range, is cut into the text
    -- before the hyphen and the date.
    pub cut_precise_date_suffix-append :
        cut_precise_date_suffix (stem ++ dash ∷ dashed d) ≡ some (stem, dashed d)
    unfolding cut_precise_date_suffix
    cut_precise_date_suffix-append =
        let v = stem ++ dash ∷ dashed d in
        let long : ltb 11 (length v) ≡ true =
          ground (arith, length-append stem (dash ∷ dashed d), is_stem.pos) in
        rw (
          trim_stem stem (dashed d) is_stem (digit_not_space d.d2 valid.d2),
          long,
          dashed_is_found,
          take_of_append stem (dash ∷ dashed d),
          last_behind_byte stem (dashed d) dash,
          trim_of_clean is_space stem is_stem.starts is_stem.ends,
        )
