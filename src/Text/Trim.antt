-- ===== src/Text/Trim.antt =====
-- `strings.TrimLeft`, `TrimRight`, `Trim` and `TrimSpace`.
use code_code_platform_catal.Prelude.{
  ℕ, ◌≡◌, refl, Bool, true, false, ◌&&◌, [], ◌∷◌, if◌then◌else◌, Bool-cases, inl, inr, All,
}
use code_code_platform_catal.Text.Base.{Text, is_empty, is_space}

-- The parameter is the membership test of the cutset.
module _ (p : ℕ → Bool) where
  unfoldable pub trim_left : Text → Text
  trim_left [] = []
  trim_left (c ∷ s) = let rest = trim_left s in if p c then rest else c ∷ s

  unfoldable pub trim_right : Text → Text
  trim_right [] = []
  trim_right (c ∷ s) = let rest = trim_right s in if is_empty rest && p c then [] else c ∷ rest

  unfoldable pub trim : Text → Text
  unfolding trim_left trim_right
  trim s = trim_right (trim_left s)

  -- The first byte, if there is one, is outside the cutset.
  abbrev pub StartsClean : Text → Type 0
  StartsClean [] = Unit
  StartsClean (c ∷ s) = p c ≡ false

  -- So is the last one.
  abbrev pub EndsClean : Text → Type 0
  EndsClean [] = Unit
  EndsClean (c ∷ []) = p c ≡ false
  EndsClean (c ∷ d ∷ s) = EndsClean (d ∷ s)

  pub trim_left-StartsClean : (s : Text) → StartsClean (trim_left s)
  unfolding trim_left
  trim_left-StartsClean [] = tt
  trim_left-StartsClean (c ∷ s) = elim (Bool-cases (p c)) [
    | inl cut ↦ rw cut (trim_left-StartsClean s)
    | inr kept ↦ rw kept kept
  ]

  EndsClean-cons : (c : ℕ) (s : Text) → EndsClean s → s ≡ [] → p c ≡ false → EndsClean (c ∷ s)
  EndsClean-cons c s h e k = rw e k

  pub trim_right-EndsClean : (s : Text) → EndsClean (trim_right s)
  unfolding trim_right
  trim_right-EndsClean [] = tt
  trim_right-EndsClean (c ∷ s) = go (trim_right s) (trim_right-EndsClean s) (p c) refl
    where
      go :
          (rest : Text)
          → EndsClean rest
          → (b : Bool) → p c ≡ b
          → EndsClean (if is_empty rest && p c then [] else c ∷ rest)
      go [] h true e = rw e tt
      go [] h false e = rw e e
      go (d ∷ rest) h b e = h

  pub trim_right-StartsClean : (s : Text) → StartsClean s → StartsClean (trim_right s)
  unfolding trim_right
  trim_right-StartsClean [] h = tt
  trim_right-StartsClean (c ∷ s) h = rw h (go (is_empty (trim_right s)))
    where
      go : (b : Bool) → StartsClean (if b && false then [] else c ∷ trim_right s)
      go true = h
      go false = h

  pub trim_left_of_StartsClean : (s : Text) → StartsClean s → trim_left s ≡ s
  unfolding trim_left
  trim_left_of_StartsClean [] h = refl
  trim_left_of_StartsClean (c ∷ s) h = rw h

  pub trim_right_of_EndsClean : (s : Text) → EndsClean s → trim_right s ≡ s
  unfolding trim_right
  trim_right_of_EndsClean [] h = refl
  trim_right_of_EndsClean (c ∷ []) h = rw h
  trim_right_of_EndsClean (c ∷ d ∷ s) h = rw (trim_right_of_EndsClean (d ∷ s) h)

  pub trim-StartsClean : (s : Text) → StartsClean (trim s)
  unfolding trim
  trim-StartsClean s = trim_right-StartsClean (trim_left s) (trim_left-StartsClean s)

  pub trim-EndsClean : (s : Text) → EndsClean (trim s)
  unfolding trim
  trim-EndsClean s = trim_right-EndsClean (trim_left s)

  -- A text that begins and ends outside the cutset is left alone.
  pub trim_of_clean : (s : Text) → StartsClean s → EndsClean s → trim s ≡ s
  unfolding trim
  trim_of_clean s h k = rw (trim_left_of_StartsClean s h) (trim_right_of_EndsClean s k)

  pub trim_idem : (s : Text) → trim (trim s) ≡ trim s
  trim_idem s = trim_of_clean (trim s) (trim-StartsClean s) (trim-EndsClean s)

-- What holds of every byte of a text holds of every byte of the trimmed text.
module _ (p : ℕ → Bool) (P : ℕ → Type 0) where
  trim_left-All : (s : Text) → All P s → All P (trim_left p s)
  unfolding trim_left
  trim_left-All [] h = tt
  trim_left-All (c ∷ s) h = elim (Bool-cases (p c)) [
    | inl cut ↦ rw cut (trim_left-All s h.1)
    | inr kept ↦ rw kept h
  ]

  pub trim_right-All : (s : Text) → All P s → All P (trim_right p s)
  unfolding trim_right
  trim_right-All [] h = tt
  trim_right-All (c ∷ s) h = elim (Bool-cases (is_empty (trim_right p s) && p c)) [
    | inl cut ↦ rw cut tt
    | inr kept ↦ rw kept (h.0, trim_right-All s h.1)
  ]

  pub trim-All : (s : Text) → All P s → All P (trim p s)
  unfolding trim
  trim-All s h = trim_right-All (trim_left p s) (trim_left-All s h)

-- `strings.TrimSpace`.
abbrev pub trim_space : Text → Text
trim_space = trim is_space
