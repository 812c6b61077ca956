-- ===== src/ModelIdentity/Slug/External.antt =====
-- modelidentity/identity.go: the results of `NormalizeExternalModelSlug`.
use code_code_platform_catal.Prelude.{
  ℕ, ◌≡◌, ◌⊎◌, refl, false, ◌&&◌, [], ◌∷◌, ◌++◌, map, arith, nat_eq, Bool-cases, inl, inr,
}
use mathlib.Core.Path.{subst}
use code_code_platform_catal.Text.{
  Text, codes, to_lower, contains_text, is_empty, trim, trim_left, trim_right, trim_space, trim-All,
  trim-StartsClean, trim-EndsClean, has_prefix, trim_prefix, has_prefix_split,
}
use code_code_platform_catal.ModelIdentity.Slug.{
  is_dash, double_dash, model_separator, to_dash, collapse, rewrite_qwen,
  normalize_external_model_slug,
}
use code_code_platform_catal.ModelIdentity.Slug.Collapse.{squeeze, squeeze-single, collapse-squeeze}
use code_code_platform_catal.ModelIdentity.Slug.Laws.{IsSlug, squeeze-All, replaced-All}

single-trim_left :
    (s : Text)
    → contains_text double_dash s ≡ false
    → contains_text double_dash (trim_left is_dash s) ≡ false
unfolding trim_left contains_text
single-trim_left [] h = refl
single-trim_left (c ∷ s) h = ground (arith, single-trim_left s)

trim_right-cons :
    (d : ℕ) (s : Text)
    → (trim_right is_dash (d ∷ s) ≡ []) ⊎ (trim_right is_dash (d ∷ s) ≡ d ∷ trim_right is_dash s)
unfolding trim_right
trim_right-cons d s = elim (Bool-cases (is_empty (trim_right is_dash s) && is_dash d)) [
  | inl cut ↦ inl (rw cut)
  | inr kept ↦ inr (rw kept)
]

single-trim_right :
    (s : Text)
    → contains_text double_dash s ≡ false
    → contains_text double_dash (trim_right is_dash s) ≡ false
unfolding contains_text
single-trim_right [] h = unfold trim_right in refl
single-trim_right (c ∷ []) h = unfold trim_right in ground arith
single-trim_right (c ∷ d ∷ s) h =
    let ih = single-trim_right (d ∷ s) (ground arith) in
    elim (trim_right-cons c (d ∷ s)) [
      | inl gone ↦ rw gone refl
      | inr kept ↦ elim (trim_right-cons d s) [
        | inl bare ↦ rw (kept, bare) (ground arith)
        | inr more ↦ rw (kept, more) (ground (arith, rw more at ih))
      ]
    ]

abbrev pub IsModelSlug : Text → Type 0
IsModelSlug = IsSlug model_separator

-- The text that the `switch` is given is a slug.
trimmed-IsModelSlug :
    (raw : Text)
    → IsModelSlug
        (trim is_dash (collapse (map (to_dash model_separator) (trim_space (to_lower raw)))))
unfolding model_separator
trimmed-IsModelSlug raw =
    let replaced = map (to_dash model_separator) (trim_space (to_lower raw)) in
    rw collapse-squeeze (record {
      bytes = trim-All is_dash _ _ (squeeze-All _ replaced (replaced-All model_separator refl raw));
      starts = trim-StartsClean is_dash (squeeze replaced);
      ends = trim-EndsClean is_dash (squeeze replaced);
      single = unfold trim in single-trim_right _ (single-trim_left _ (squeeze-single replaced));
    })

abbrev pub qwen_dash : Text
qwen_dash = codes "qwen-3-"

abbrev pub qwen_dot : Text
qwen_dot = codes "qwen-3."

abbrev pub IsRewritten : Text → Type 0
IsRewritten s = IsModelSlug s × (has_prefix qwen_dash s ≡ false) × (has_prefix qwen_dot s ≡ false)

qwen_dash-IsRewritten :
    (rest : Text) → IsModelSlug (qwen_dash ++ rest) → IsRewritten (codes "qwen3-" ++ rest)
unfolding contains_text has_prefix
qwen_dash-IsRewritten rest slug =
    let b = slug.bytes in
    (
      record {
        bytes = (b.0, (b.1.0, (b.1.1.0, (b.1.1.1.0, (b.1.1.1.1.1.0, b.1.1.1.1.1.1)))));
        starts = refl;
        ends = slug.ends;
        single = slug.single;
      },
      refl,
      refl,
    )

qwen_dot-IsRewritten :
    (rest : Text) → IsModelSlug (qwen_dot ++ rest) → IsRewritten (codes "qwen3." ++ rest)
unfolding contains_text has_prefix
qwen_dot-IsRewritten rest slug =
    let b = slug.bytes in
    (
      record {
        bytes = (b.0, (b.1.0, (b.1.1.0, (b.1.1.1.0, (b.1.1.1.1.1.0, b.1.1.1.1.1.1)))));
        starts = refl;
        ends = slug.ends;
        single = slug.single;
      },
      refl,
      refl,
    )

-- The `switch` keeps slugs, and its result has neither of the prefixes that it looks for.
rewrite_qwen-IsRewritten : (s : Text) → IsModelSlug s → IsRewritten (rewrite_qwen s)
unfolding rewrite_qwen trim_prefix
rewrite_qwen-IsRewritten s slug = elim (Bool-cases (has_prefix qwen_dash s)) [
  | inl found ↦
      rw found
        (qwen_dash-IsRewritten _ (subst IsModelSlug (has_prefix_split qwen_dash s found) slug))
  | inr other ↦ elim (Bool-cases (has_prefix qwen_dot s)) [
    | inl found ↦
        rw (other, found)
          (qwen_dot-IsRewritten _ (subst IsModelSlug (has_prefix_split qwen_dot s found) slug))
    | inr neither ↦ rw (other, neither) (slug, other, neither)
  ]
]

-- Every result of `NormalizeExternalModelSlug` is a slug: no capital and none of "_", " " and "/",
-- no hyphen at either end, no two hyphens side by side; and it does not begin with "qwen-3-" or
-- "qwen-3.".
pub normalize_external_model_slug-IsRewritten :
    (raw : Text)
    → IsModelSlug (normalize_external_model_slug raw)
      × (has_prefix qwen_dash (normalize_external_model_slug raw) ≡ false)
      × (has_prefix qwen_dot (normalize_external_model_slug raw) ≡ false)
unfolding normalize_external_model_slug
normalize_external_model_slug-IsRewritten raw = rewrite_qwen-IsRewritten _ (trimmed-IsModelSlug raw)
