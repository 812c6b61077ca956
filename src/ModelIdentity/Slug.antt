-- ===== src/ModelIdentity/Slug.antt =====
-- `NormalizedVendorSlug` and `NormalizeExternalModelSlug` of modelidentity/identity.go. A
-- `strings.NewReplacer` whose old and new strings are single bytes is a map over the bytes.
pub mod Collapse
pub mod Laws
pub mod Idempotence
pub mod External
pub mod ExternalSpaces
use Prim.Native.Nat.{ℕ}
use code_code_platform_catal.Prelude.{
  Bool, ◌||◌, ◌++◌, map, ◌==◌, nat_eq, length, if◌then◌else◌, zero, suc, true, false, [], ◌∷◌, ◌&&◌,
}
use code_code_platform_catal.Text.{
  Text, codes, dash, to_lower, trim, trim_space, has_prefix, trim_prefix, contains_text,
}

abbrev pub is_dash : ℕ → Bool
is_dash c = c == dash

-- The bytes that the replacer of `NormalizedVendorSlug` turns into a hyphen.
unfoldable pub vendor_separator : ℕ → Bool
vendor_separator c = c == b'_' || c == 32 || c == b'.' || c == b'/'

-- Those of `NormalizeExternalModelSlug`, which keeps the dot.
unfoldable pub model_separator : ℕ → Bool
model_separator c = c == b'_' || c == 32 || c == b'/'

abbrev pub to_dash : (ℕ → Bool) → ℕ → ℕ
to_dash p c = if p c then dash else c

-- `strings.ReplaceAll(s, "--", "-")`: one pass from the left.
unfoldable pub replace_dashes : Text → Text
replace_dashes [] = []
replace_dashes (c ∷ []) = c ∷ []
replace_dashes (c ∷ d ∷ s) = elim (c == dash && d == dash) [
  | true ↦ dash ∷ replace_dashes s
  | false ↦ c ∷ replace_dashes (d ∷ s)
]

abbrev pub double_dash : Text
double_dash = codes "--"

-- `for strings.Contains(raw, "--") { raw = strings.ReplaceAll(raw, "--", "-") }`. Each round makes
-- the text shorter, so its length is enough fuel.
unfoldable pub collapse_dashes : ℕ → Text → Text
collapse_dashes zero s = s
collapse_dashes (suc fuel) s = elim (contains_text double_dash s) [
  | true ↦ collapse_dashes fuel (replace_dashes s)
  | false ↦ s
]

abbrev pub collapse : Text → Text
collapse s = collapse_dashes (length s) s

unfoldable pub normalized_vendor_slug : Text → Text
normalized_vendor_slug raw =
    let lowered = trim_space (to_lower raw) in
    let replaced = map (to_dash vendor_separator) lowered in collapse (trim is_dash replaced)

-- The `switch` at the end of `NormalizeExternalModelSlug`.
unfoldable pub rewrite_qwen : Text → Text
rewrite_qwen raw =
    if has_prefix (codes "qwen-3-") raw
    then codes "qwen3-" ++ trim_prefix (codes "qwen-3-") raw
    else if has_prefix (codes "qwen-3.") raw
    then codes "qwen3." ++ trim_prefix (codes "qwen-3.") raw
    else raw

unfoldable pub normalize_external_model_slug : Text → Text
normalize_external_model_slug raw =
    let lowered = trim_space (to_lower raw) in
    let replaced = map (to_dash model_separator) lowered in
    rewrite_qwen (trim is_dash (collapse replaced))
