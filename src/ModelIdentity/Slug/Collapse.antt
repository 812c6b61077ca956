-- ===== src/ModelIdentity/Slug/Collapse.antt =====
-- modelidentity/identity.go: the loop that collapses runs of hyphens.
use code_code_platform_catal.Prelude.{
  ℕ, zero, suc, ◌≤◌, ◌<◌, ◌≡◌, refl, sym, ◌∙◌, true, false, ◌&&◌, [], ◌∷◌, arith, if◌then◌else◌,
  ◌==◌, nat_eq, length, Bool-cases, inl, inr,
}
use code_code_platform_catal.Text.{Text, dash, contains_text}
use code_code_platform_catal.ModelIdentity.Slug.{
  replace_dashes, double_dash, collapse_dashes, collapse,
}

-- Every run of hyphens becomes one hyphen.
unfoldable pub squeeze : Text → Text
squeeze [] = []
squeeze (c ∷ []) = c ∷ []
squeeze (c ∷ d ∷ s) =
    let rest = squeeze (d ∷ s) in if c == dash && d == dash then rest else c ∷ rest

squeeze-replace_dashes : (c : ℕ) (s : Text) → squeeze (c ∷ replace_dashes s) ≡ squeeze (c ∷ s)
unfolding squeeze replace_dashes
squeeze-replace_dashes c [] = refl
squeeze-replace_dashes c (d ∷ []) = refl
squeeze-replace_dashes c (d ∷ e ∷ s) =
    ground (arith, squeeze-replace_dashes dash s, squeeze-replace_dashes d (e ∷ s))

squeeze_one_pass : (s : Text) → squeeze (replace_dashes s) ≡ squeeze s
unfolding squeeze replace_dashes
squeeze_one_pass [] = refl
squeeze_one_pass (c ∷ []) = refl
squeeze_one_pass (c ∷ d ∷ s) =
    ground (arith, squeeze-replace_dashes dash s, squeeze-replace_dashes c (d ∷ s))

pub squeeze_of_single : (s : Text) → contains_text double_dash s ≡ false → squeeze s ≡ s
unfolding squeeze contains_text
squeeze_of_single [] h = refl
squeeze_of_single (c ∷ []) h = refl
squeeze_of_single (c ∷ d ∷ s) h = ground (arith, squeeze_of_single (d ∷ s))

length-replace_dashes : (s : Text) → length (replace_dashes s) ≤ length s
unfolding replace_dashes
length-replace_dashes [] = omega arith
length-replace_dashes (c ∷ []) = omega arith
length-replace_dashes (c ∷ d ∷ s) =
    ground (arith, length-replace_dashes s, length-replace_dashes (d ∷ s))

replace_dashes_shortens :
    (s : Text) → contains_text double_dash s ≡ true → length (replace_dashes s) < length s
unfolding replace_dashes contains_text
replace_dashes_shortens [] h = ground arith
replace_dashes_shortens (c ∷ []) h = ground arith
replace_dashes_shortens (c ∷ d ∷ s) h =
    ground (arith, length-replace_dashes s, replace_dashes_shortens (d ∷ s))

-- With fuel for the length the loop of ReplaceAll passes ends, and gives the text with every run of
-- hyphens squeezed to one.
pub collapse_dashes-eq-squeeze :
    (fuel : ℕ) (s : Text) → length s ≤ fuel → collapse_dashes fuel s ≡ squeeze s
unfolding collapse_dashes
collapse_dashes-eq-squeeze zero [] h = unfold squeeze in refl
collapse_dashes-eq-squeeze zero (c ∷ s) h = absurd (omega arith)
collapse_dashes-eq-squeeze (suc fuel) s h = elim (Bool-cases (contains_text double_dash s)) [
  | inl more ↦
      rw (more, collapse_dashes)
        (collapse_dashes-eq-squeeze fuel (replace_dashes s)
            (omega (arith, replace_dashes_shortens s more))
          ∙ squeeze_one_pass s)
  | inr done ↦ rw (done, collapse_dashes) (sym (squeeze_of_single s done))
]

pub collapse-squeeze : (s : Text) → collapse s ≡ squeeze s
collapse-squeeze s = collapse_dashes-eq-squeeze (length s) s (omega arith)

-- No two hyphens stand side by side.
pub squeeze-single : (s : Text) → contains_text double_dash (squeeze s) ≡ false
unfolding squeeze contains_text
squeeze-single [] = refl
squeeze-single (c ∷ []) = ground arith
squeeze-single (c ∷ d ∷ []) = ground arith
squeeze-single (c ∷ d ∷ e ∷ s) = ground (arith, squeeze-single (d ∷ e ∷ s))
