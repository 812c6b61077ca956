-- ===== src/ModelIdentity/Suffix/Cuts.antt =====
-- modelidentity/identity.go: where a cut stands.
use code_code_platform_catal.Prelude.{
  ℕ, zero, suc, ◌+◌, ◌-◌, ◌<◌, ◌≡◌, refl, sym, ◌∙◌, ap, true, false, not, ◌&&◌, [], ◌∷◌, ◌++◌,
  Option, some, ◌==◌, nat_eq, ltb, length, take, drop, get_or, take-append-drop, length-take, arith,
  Bool-cases, Option-cases, some_eq, inl, inr,
}
use mathlib.Core.Path.{subst}
use code_code_platform_catal.Text.{Text, dash, trim_space, last_index}
use code_code_platform_catal.ModelIdentity.Suffix.{
  from_end, trailing_date_parts, cut_at, cut_precise_date_suffix,
}

-- `base` and `suffix` are cut from `s`.
pub record IsCut (s base suffix : Text) : Type 0 where
  pub stem : Text
  pub whole : trim_space s ≡ stem ++ dash ∷ suffix
  pub trimmed : base ≡ trim_space stem
  pub stem_pos : 0 < length stem

drop-get_or : (s : Text) (i : ℕ) → i < length s → drop i s ≡ get_or s i 0 ∷ drop (suc i) s
drop-get_or [] i h = absurd (omega arith)
drop-get_or (c ∷ s) zero h = refl
drop-get_or (c ∷ s) (suc i) h = drop-get_or s i (omega arith)

-- A hyphen at a position splits the text there.
split_at_dash :
    (s : Text) (i : ℕ) → i < length s → get_or s i 0 ≡ dash → s ≡ take i s ++ dash ∷ drop (suc i) s
split_at_dash s i h e =
    sym (take-append-drop i s) ∙ ap (λ t. take i s ++ t) (rw (drop-get_or s i h) (rw e refl))

IsCut-of_eq :
    (s : Text) (b f : Text) {base suffix : Text}
    → IsCut s b f
    → ◌≡◌ {A = Option (Text × Text)} (some (b, f)) (some (base, suffix))
    → IsCut s base suffix
IsCut-of_eq s b f cut e = subst (λ (p : Text × Text). IsCut s p.0 p.1) (some_eq e) cut

cut_at-IsCut :
    (n : ℕ) (s : Text)
    → n + 1 < length (trim_space s)
    → from_end (n + 1) (trim_space s) ≡ dash
    → IsCut s (cut_at n (trim_space s)).0 (cut_at n (trim_space s)).1
cut_at-IsCut n s h e =
    let v = trim_space s in
    let at : suc (length v - (n + 1)) ≡ length v - n = omega arith in
    record {
      stem = take (length v - (n + 1)) v;
      whole = rw (← at) (split_at_dash v (length v - (n + 1)) (omega arith) e);
      trimmed = refl;
      stem_pos = omega (arith, length-take (length v - (n + 1)) v);
    }

byte_test : (a b : ℕ) → not (a == b) ≡ false → a ≡ b
byte_test a b h = ground arith

date_dash : (s : Text) → trailing_date_parts s true ≡ true → from_end 11 s ≡ dash
unfolding trailing_date_parts
date_dash s h = elim (Bool-cases (not (from_end 11 s == dash))) [
  | inl other ↦ ground arith
  | inr same ↦ byte_test _ _ same
]

compact_dash : (s : Text) → trailing_date_parts s false ≡ true → from_end 9 s ≡ dash
unfolding trailing_date_parts
compact_dash s h = elim (Bool-cases (not (from_end 9 s == dash))) [
  | inl other ↦ ground arith
  | inr same ↦ byte_test _ _ same
]

last_index-get_or :
    (b : ℕ) (s : Text) (i : ℕ) → last_index b s ≡ some i → (i < length s) × (get_or s i 0 ≡ b)
unfolding last_index
last_index-get_or b [] i h = ground arith
last_index-get_or b (c ∷ s) zero h = elim (Option-cases (last_index b s)) [
  | inl none_later ↦ ground (arith, none_later)
  | inr (j, later) ↦ ground (arith, later)
]
last_index-get_or b (c ∷ s) (suc i) h = elim (Option-cases (last_index b s)) [
  | inl none_later ↦ ground (arith, none_later)
  | inr (j, later) ↦ ground (arith, later, last_index-get_or b s i)
]

-- A date that is cut stands at the end of the trimmed model ID, behind a hyphen and a stem that is
-- not empty; the base is the trimmed stem.
pub cut_precise_date_suffix-IsCut :
    (s base suffix : Text) → cut_precise_date_suffix s ≡ some (base, suffix) → IsCut s base suffix
unfolding cut_precise_date_suffix
cut_precise_date_suffix-IsCut s base suffix h =
    let v = trim_space s in
    elim (Bool-cases (ltb 11 (length v) && trailing_date_parts v true)) [
      | inl dashed ↦
          IsCut-of_eq s _ _ (cut_at-IsCut 10 s (ground arith) (date_dash v (ground arith)))
            (rw dashed at h)
      | inr other ↦ elim (Bool-cases (ltb 9 (length v) && trailing_date_parts v false)) [
        | inl compact ↦
            IsCut-of_eq s _ _ (cut_at-IsCut 8 s (ground arith) (compact_dash v (ground arith)))
              (rw (other, compact) at h)
        | inr neither ↦ absurd (cc (rw (other, neither) at h))
      ]
    ]
