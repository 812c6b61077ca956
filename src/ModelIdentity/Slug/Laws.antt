-- ===== src/ModelIdentity/Slug/Laws.antt =====
-- modelidentity/identity.go: the results of `NormalizedVendorSlug`.
use code_code_platform_catal.Prelude.{
  ℕ, ◌≡◌, ◌≢◌, refl, Bool, false, ◌&&◌, [], ◌∷◌, map, arith, ◌==◌, nat_eq, All, All-map, All-of,
  Bool-cases, inl, inr,
}
use code_code_platform_catal.Text.{
  Text, dash, is_space, is_upper, lower_byte, to_lower, contains_text, StartsClean, EndsClean, trim,
  trim_space, trim-All, trim-StartsClean, trim-EndsClean,
}
use code_code_platform_catal.ModelIdentity.Slug.{
  is_dash, double_dash, vendor_separator, to_dash, normalized_vendor_slug,
}
use code_code_platform_catal.ModelIdentity.Slug.Collapse.{squeeze, squeeze-single, collapse-squeeze}

pub squeeze-All : (P : ℕ → Type 0) (s : Text) → All P s → All P (squeeze s)
unfolding squeeze
squeeze-All P [] h = tt
squeeze-All P (c ∷ []) h = h
squeeze-All P (c ∷ d ∷ s) h = elim (Bool-cases (c == dash && d == dash)) [
  | inl run ↦ rw run (squeeze-All P (d ∷ s) h.1)
  | inr other ↦ rw other (h.0, squeeze-All P (d ∷ s) h.1)
]

pub squeeze-StartsClean : (s : Text) → StartsClean is_dash s → StartsClean is_dash (squeeze s)
unfolding squeeze
squeeze-StartsClean [] h = tt
squeeze-StartsClean (c ∷ []) h = h
squeeze-StartsClean (c ∷ d ∷ s) h = ground arith

EndsClean-cons : (c : ℕ) (s : Text) → s ≢ [] → EndsClean is_dash s → EndsClean is_dash (c ∷ s)
EndsClean-cons c [] n h = absurd (n refl)
EndsClean-cons c (d ∷ s) n h = h

squeeze-ne-nil : (c : ℕ) (s : Text) → squeeze (c ∷ s) ≢ []
unfolding squeeze
squeeze-ne-nil c [] = ground arith
squeeze-ne-nil c (d ∷ s) = ground (arith, squeeze-ne-nil d s)

pub squeeze-EndsClean : (s : Text) → EndsClean is_dash s → EndsClean is_dash (squeeze s)
unfolding squeeze
squeeze-EndsClean [] h = tt
squeeze-EndsClean (c ∷ []) h = h
squeeze-EndsClean (c ∷ d ∷ s) h =
    let rest = squeeze-EndsClean (d ∷ s) h in
    elim (Bool-cases (c == dash && d == dash)) [
      | inl run ↦ rw run rest
      | inr other ↦ rw other (EndsClean-cons c (squeeze (d ∷ s)) (squeeze-ne-nil d s) rest)
    ]

-- No capital, and no byte that the replacer removes.
abbrev pub IsSlugByte : (ℕ → Bool) → ℕ → Type 0
IsSlugByte separator c = (is_upper c ≡ false) × (separator c ≡ false)

pub record IsSlug (separator : ℕ → Bool) (s : Text) : Type 0 where
  pub bytes : All (IsSlugByte separator) s
  pub starts : StartsClean is_dash s
  pub ends : EndsClean is_dash s
  pub single : contains_text double_dash s ≡ false

abbrev pub IsVendorSlug : Text → Type 0
IsVendorSlug = IsSlug vendor_separator

pub lower_byte-is_upper : (c : ℕ) → is_upper (lower_byte c) ≡ false
unfolding is_upper lower_byte
lower_byte-is_upper c = ground arith

IsSlugByte-to_dash :
    (p : ℕ → Bool) → p dash ≡ false → (c : ℕ) → is_upper c ≡ false → IsSlugByte p (to_dash p c)
unfolding is_upper
IsSlugByte-to_dash p k c h = elim (Bool-cases (p c)) [
  | inl cut ↦ rw cut (refl, k)
  | inr kept ↦ rw kept (h, kept)
]

pub to_lower-All : (s : Text) → All (λ c. is_upper c ≡ false) (to_lower s)
to_lower-All s =
    All-map {P = λ _. Unit} _ lower_byte s (λ c _. lower_byte-is_upper c) (All-of (λ _. tt) s)

-- The bytes after white space is trimmed, capitals lowered and separators replaced.
pub replaced-All :
    (p : ℕ → Bool)
    → p dash ≡ false
    → (raw : Text) → All (IsSlugByte p) (map (to_dash p) (trim_space (to_lower raw)))
replaced-All p k raw =
    All-map (IsSlugByte p) (to_dash p) (trim_space (to_lower raw)) (IsSlugByte-to_dash p k)
      (trim-All is_space _ (to_lower raw) (to_lower-All raw))

-- Every result of `NormalizedVendorSlug` is a slug: it has no capital and none of "_", " ", "." and
-- "/", it neither begins nor ends with a hyphen, and no two hyphens stand side by side.
pub normalized_vendor_slug-IsVendorSlug : (raw : Text) → IsVendorSlug (normalized_vendor_slug raw)
unfolding normalized_vendor_slug vendor_separator
normalized_vendor_slug-IsVendorSlug raw =
    let replaced = map (to_dash vendor_separator) (trim_space (to_lower raw)) in
    rw collapse-squeeze (record {
      bytes =
          squeeze-All _ _ (trim-All is_dash _ replaced (replaced-All vendor_separator refl raw));
      starts = squeeze-StartsClean _ (trim-StartsClean is_dash replaced);
      ends = squeeze-EndsClean _ (trim-EndsClean is_dash replaced);
      single = squeeze-single (trim is_dash replaced);
    })
