-- ===== src/ModelIdentity/Slug/ExternalSpaces.antt =====
-- modelidentity/identity.go: white space in the results of `NormalizeExternalModelSlug`.
use code_code_platform_catal.Prelude.{
  ℕ, ◌≡◌, refl, false, ◌++◌, arith, All-map, Bool-cases, inl, inr, nat_eq,
}
use mathlib.Core.Path.{subst}
use code_code_platform_catal.Text.{
  Text, codes, is_space, lower_byte, to_lower, trim_space, trim-All, has_prefix, trim_prefix,
  has_prefix_split,
}
use code_code_platform_catal.ModelIdentity.Slug.{
  is_dash, model_separator, to_dash, rewrite_qwen, normalize_external_model_slug,
}
use code_code_platform_catal.ModelIdentity.Slug.Collapse.{collapse-squeeze}
use code_code_platform_catal.ModelIdentity.Slug.Laws.{squeeze-All}
use code_code_platform_catal.ModelIdentity.Slug.Idempotence.{
  HasNoSpace, HasNoControlSpace, is_control_space, not_control-lower_byte,
}
use code_code_platform_catal.ModelIdentity.Slug.External.{qwen_dash, qwen_dot}

not_space-to_dash :
    (c : ℕ) → is_control_space c ≡ false → is_space (to_dash model_separator c) ≡ false
unfolding is_control_space is_space model_separator
not_space-to_dash c h = ground arith

after_dash : (rest : Text) → HasNoSpace (qwen_dash ++ rest) → HasNoSpace (codes "qwen3-" ++ rest)
unfolding is_space
after_dash rest h = (refl, (refl, (refl, (refl, (refl, h.1.1.1.1.1.1)))))

after_dot : (rest : Text) → HasNoSpace (qwen_dot ++ rest) → HasNoSpace (codes "qwen3." ++ rest)
unfolding is_space
after_dot rest h = (refl, (refl, (refl, (refl, (refl, h.1.1.1.1.1.1)))))

rewrite_qwen-HasNoSpace : (s : Text) → HasNoSpace s → HasNoSpace (rewrite_qwen s)
unfolding rewrite_qwen trim_prefix
rewrite_qwen-HasNoSpace s h = elim (Bool-cases (has_prefix qwen_dash s)) [
  | inl found ↦ rw found (after_dash _ (subst HasNoSpace (has_prefix_split qwen_dash s found) h))
  | inr other ↦ elim (Bool-cases (has_prefix qwen_dot s)) [
    | inl found ↦
        rw (other, found) (after_dot _ (subst HasNoSpace (has_prefix_split qwen_dot s found) h))
    | inr neither ↦ rw (other, neither) h
  ]
]

pub normalize_external_model_slug-HasNoSpace :
    (raw : Text) → HasNoControlSpace raw → HasNoSpace (normalize_external_model_slug raw)
unfolding normalize_external_model_slug
normalize_external_model_slug-HasNoSpace raw h =
    let lowered =
      trim-All is_space _ (to_lower raw) (All-map _ lower_byte raw not_control-lower_byte h) in
    let replaced =
      All-map _ (to_dash model_separator) (trim_space (to_lower raw)) not_space-to_dash lowered in
    rw collapse-squeeze
      (rewrite_qwen-HasNoSpace _ (trim-All is_dash _ _ (squeeze-All _ _ replaced)))
