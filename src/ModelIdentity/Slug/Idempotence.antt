-- ===== src/ModelIdentity/Slug/Idempotence.antt =====
-- modelidentity/identity.go: `NormalizedVendorSlug` of its own results.
use code_code_platform_catal.Prelude.{
  ℕ, ◌≡◌, refl, ◌∙◌, Bool, false, ◌&&◌, [], ◌∷◌, map, drop, arith, nat_eq, leb, All, All-map,
  All-weaken, ap,
}
use code_code_platform_catal.Text.{
  Text, dash, is_space, is_upper, lower_byte, to_lower, contains_text, StartsClean, EndsClean, trim,
  trim_space, trim-All, trim_of_clean,
}
use code_code_platform_catal.ModelIdentity.Slug.{
  is_dash, double_dash, vendor_separator, to_dash, collapse, normalized_vendor_slug,
}
use code_code_platform_catal.ModelIdentity.Slug.Collapse.{squeeze_of_single, collapse-squeeze}
use code_code_platform_catal.ModelIdentity.Slug.Laws.{
  IsSlug, IsVendorSlug, squeeze-All, normalized_vendor_slug-IsVendorSlug,
}

-- "\t", "\n", "\v", "\f" and "\r": white space that the replacer does not turn into a hyphen.
unfoldable pub is_control_space : ℕ → Bool
is_control_space c = leb 9 c && leb c 13

abbrev pub HasNoSpace : Text → Type 0
HasNoSpace = All (λ c. is_space c ≡ false)

abbrev pub HasNoControlSpace : Text → Type 0
HasNoControlSpace = All (λ c. is_control_space c ≡ false)

pub map_fixed : (f : ℕ → ℕ) (s : Text) → All (λ c. f c ≡ c) s → map f s ≡ s
map_fixed f [] h = refl
map_fixed f (c ∷ s) (e, h) = λ i. e i ∷ map_fixed f s h i

pub HasNoSpace-StartsClean : (s : Text) → HasNoSpace s → StartsClean is_space s
HasNoSpace-StartsClean [] h = tt
HasNoSpace-StartsClean (c ∷ s) h = h.0

pub HasNoSpace-EndsClean : (s : Text) → HasNoSpace s → EndsClean is_space s
HasNoSpace-EndsClean [] h = tt
HasNoSpace-EndsClean (c ∷ []) h = h.0
HasNoSpace-EndsClean (c ∷ d ∷ s) h = HasNoSpace-EndsClean (d ∷ s) h.1

pub trim_space_fixed : (s : Text) → HasNoSpace s → trim_space s ≡ s
trim_space_fixed s h =
    trim_of_clean is_space s (HasNoSpace-StartsClean s h) (HasNoSpace-EndsClean s h)

pub lower_byte_fixed : (c : ℕ) → is_upper c ≡ false → lower_byte c ≡ c
unfolding lower_byte
lower_byte_fixed c h = rw h

to_dash_fixed : (p : ℕ → Bool) (c : ℕ) → p c ≡ false → to_dash p c ≡ c
to_dash_fixed p c h = rw h

module _ {p : ℕ → Bool} {s : Text} (slug : IsSlug p s) where
  pub to_lower_of_slug : to_lower s ≡ s
  to_lower_of_slug =
      map_fixed lower_byte s (All-weaken s (λ c h. lower_byte_fixed c h.0) slug.bytes)

  pub map-to_dash_of_slug : map (to_dash p) s ≡ s
  map-to_dash_of_slug = map_fixed _ s (All-weaken s (λ c h. to_dash_fixed p c h.1) slug.bytes)

  pub collapse-trim_of_slug : collapse (trim is_dash s) ≡ s
  collapse-trim_of_slug =
      rw (trim_of_clean is_dash s slug.starts slug.ends)
        (collapse-squeeze s ∙ squeeze_of_single s slug.single)

module _ {s : Text} (slug : IsVendorSlug s) where
  -- A slug with no white space is its own slug.
  pub normalized_vendor_slug_fixed : HasNoSpace s → normalized_vendor_slug s ≡ s
  unfolding normalized_vendor_slug
  normalized_vendor_slug_fixed h =
      rw (to_lower_of_slug slug, trim_space_fixed s h, map-to_dash_of_slug slug)
        (collapse-trim_of_slug slug)

pub not_space-to_dash :
    (c : ℕ) → is_control_space c ≡ false → is_space (to_dash vendor_separator c) ≡ false
unfolding is_control_space is_space vendor_separator
not_space-to_dash c h = ground arith

pub not_control-lower_byte :
    (c : ℕ) → is_control_space c ≡ false → is_control_space (lower_byte c) ≡ false
unfolding is_control_space lower_byte is_upper
not_control-lower_byte c h = ground arith

pub normalized_vendor_slug-HasNoSpace :
    (raw : Text) → HasNoControlSpace raw → HasNoSpace (normalized_vendor_slug raw)
unfolding normalized_vendor_slug
normalized_vendor_slug-HasNoSpace raw h =
    let lowered =
      trim-All is_space _ (to_lower raw) (All-map _ lower_byte raw not_control-lower_byte h) in
    let replaced =
      All-map _ (to_dash vendor_separator) (trim_space (to_lower raw)) not_space-to_dash lowered in
    rw collapse-squeeze (squeeze-All _ _ (trim-All is_dash _ _ replaced))

-- `NormalizedVendorSlug` is idempotent on every text whose only white space is the blank.
pub normalized_vendor_slug_idem :
    (raw : Text)
    → HasNoControlSpace raw
    → normalized_vendor_slug (normalized_vendor_slug raw) ≡ normalized_vendor_slug raw
normalized_vendor_slug_idem raw h =
    normalized_vendor_slug_fixed (normalized_vendor_slug-IsVendorSlug raw)
      (normalized_vendor_slug-HasNoSpace raw h)

module _ (c : ℕ) (s : Text) (slug : IsVendorSlug (c ∷ s)) (plain : HasNoSpace (c ∷ s)) where
  trim-dash_tab : trim is_dash (dash ∷ 9 ∷ c ∷ s) ≡ 9 ∷ c ∷ s
  unfolding trim
  trim-dash_tab = trim_of_clean is_dash (9 ∷ c ∷ s) refl slug.ends

  tab_single : contains_text double_dash (9 ∷ c ∷ s) ≡ false
  unfolding contains_text
  tab_single = slug.single

  to_lower_tab : to_lower (dash ∷ 9 ∷ c ∷ s) ≡ dash ∷ 9 ∷ c ∷ s
  unfolding lower_byte
  to_lower_tab = λ i. dash ∷ 9 ∷ to_lower_of_slug slug i

  map-dash_tab : map (to_dash vendor_separator) (dash ∷ 9 ∷ c ∷ s) ≡ dash ∷ 9 ∷ c ∷ s
  unfolding vendor_separator
  map-dash_tab = λ i. dash ∷ 9 ∷ map-to_dash_of_slug slug i

  trim_space-dash_tab : trim_space (dash ∷ 9 ∷ c ∷ s) ≡ dash ∷ 9 ∷ c ∷ s
  unfolding is_space
  trim_space-dash_tab =
      trim_of_clean is_space (dash ∷ 9 ∷ c ∷ s) refl (HasNoSpace-EndsClean (c ∷ s) plain)

  trim_space_tab : trim_space (9 ∷ c ∷ s) ≡ c ∷ s
  unfolding is_space trim
  trim_space_tab = trim_space_fixed (c ∷ s) plain

  slug_dash_tab : normalized_vendor_slug (dash ∷ 9 ∷ c ∷ s) ≡ 9 ∷ c ∷ s
  unfolding normalized_vendor_slug
  slug_dash_tab =
      ap (λ t. collapse (trim is_dash (map (to_dash vendor_separator) (trim_space t)))) to_lower_tab
      ∙ ap (λ t. collapse (trim is_dash (map (to_dash vendor_separator) t))) trim_space-dash_tab
      ∙ ap (λ t. collapse (trim is_dash t)) map-dash_tab
      ∙ ap collapse trim-dash_tab
      ∙ collapse-squeeze (9 ∷ c ∷ s)
      ∙ squeeze_of_single (9 ∷ c ∷ s) tab_single

  slug_tab : normalized_vendor_slug (9 ∷ c ∷ s) ≡ c ∷ s
  unfolding normalized_vendor_slug
  slug_tab =
      ap (λ t. collapse (trim is_dash (map (to_dash vendor_separator) (trim_space t))))
        (ap (drop 1) to_lower_tab)
      ∙ ap (λ t. collapse (trim is_dash (map (to_dash vendor_separator) t))) trim_space_tab
      ∙ ap (λ t. collapse (trim is_dash t)) (map-to_dash_of_slug slug)
      ∙ collapse-trim_of_slug slug

  -- A text of "-", a tab and a slug without white space keeps the tab, which stood behind a hyphen
  -- when white space was trimmed; a second `NormalizedVendorSlug` removes it.
  pub normalized_vendor_slug_twice :
      (normalized_vendor_slug (dash ∷ 9 ∷ c ∷ s) ≡ 9 ∷ c ∷ s)
      × (normalized_vendor_slug (9 ∷ c ∷ s) ≡ c ∷ s)
  normalized_vendor_slug_twice = (slug_dash_tab, slug_tab)
