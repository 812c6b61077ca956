-- ===== src/Models/Pricing/Laws.antt =====
-- source_model_badges.go: the merge of pricing.
use code_code_platform_catal.Prelude.{
  ℕ, ◌≡◌, refl, sym, ap, ◌∙◌, false, ◌&&◌, Option, none, some, nat_eq, inl, inr, Bool-cases, arith,
}
use code_code_platform_catal.Text.{Text, is_empty, trim_space, trim_idem, is_space}
use code_code_platform_catal.Models.Types.{PricingSummary}
use code_code_platform_catal.Models.Pricing.{
  trimmed_pricing, is_blank_pricing, normalize_pricing_summary, clone_pricing_summary, fill_empty,
  fill_pricing, fill_price_type, merge_normalized, merge_pricing_summary,
}

fill_empty_assoc : (a b c : Text) → fill_empty (fill_empty a b) c ≡ fill_empty a (fill_empty b c)
unfolding fill_empty
fill_empty_assoc a b c = ground arith

is_empty-fill_empty : (a b : Text) → is_empty (fill_empty a b) ≡ (is_empty a && is_empty b)
unfolding fill_empty
is_empty-fill_empty a b = ground arith

fill_price_type_assoc :
    (a b c : ℕ) → fill_price_type (fill_price_type a b) c ≡ fill_price_type a (fill_price_type b c)
unfolding fill_price_type
fill_price_type_assoc a b c = ground arith

fill_pricing_assoc :
    (a b c : PricingSummary) → fill_pricing (fill_pricing a b) c ≡ fill_pricing a (fill_pricing b c)
unfolding fill_pricing
fill_pricing_assoc a b c = simp (fill_empty_assoc, fill_price_type_assoc)

trim_space_idem : (s : Text) → trim_space (trim_space s) ≡ trim_space s
trim_space_idem s = trim_idem is_space s

trim_space-fill_empty :
    (a b : Text)
    → trim_space (fill_empty (trim_space a) (trim_space b))
      ≡ fill_empty (trim_space a) (trim_space b)
unfolding fill_empty
trim_space-fill_empty a b = elim (Bool-cases (is_empty (trim_space a))) [
  | inl e ↦ rw e (trim_space_idem b)
  | inr e ↦ rw e (trim_space_idem a)
]

trimmed_pricing_idem :
    (p : PricingSummary) → trimmed_pricing (trimmed_pricing p) ≡ trimmed_pricing p
unfolding trimmed_pricing
trimmed_pricing_idem p = simp (trim_space_idem)

trimmed_pricing-fill_pricing :
    (p f : PricingSummary)
    → trimmed_pricing (fill_pricing (trimmed_pricing p) (trimmed_pricing f))
      ≡ fill_pricing (trimmed_pricing p) (trimmed_pricing f)
unfolding trimmed_pricing fill_pricing
trimmed_pricing-fill_pricing p f = simp (trim_space-fill_empty)

fill_pricing-is_blank :
    (p f : PricingSummary)
    → is_blank_pricing p ≡ false
    → is_blank_pricing (fill_pricing p f) ≡ false
unfolding is_blank_pricing fill_pricing
fill_pricing-is_blank p f h = ground (
  arith,
  h,
  is_empty-fill_empty p.input f.input,
  is_empty-fill_empty p.output f.output,
  is_empty-fill_empty p.cache_read_input f.cache_read_input,
  is_empty-fill_empty p.cache_write_input f.cache_write_input,
  is_empty-fill_empty p.reasoning f.reasoning,
  is_empty-fill_empty p.image_input f.image_input,
  is_empty-fill_empty p.audio_input f.audio_input,
  is_empty-fill_empty p.audio_output f.audio_output,
  is_empty-fill_empty p.request f.request,
)

-- A given pricing is trimmed and has an amount.
abbrev pub IsNormalPricing : Option PricingSummary → Type 0
IsNormalPricing none = Unit
IsNormalPricing (some p) = (trimmed_pricing p ≡ p) × (is_blank_pricing p ≡ false)

pub normalize_pricing_summary-IsNormalPricing :
    (pricing : Option PricingSummary) → IsNormalPricing (normalize_pricing_summary pricing)
unfolding normalize_pricing_summary
normalize_pricing_summary-IsNormalPricing none = tt
normalize_pricing_summary-IsNormalPricing (some p) =
    elim (Bool-cases (is_blank_pricing (trimmed_pricing p))) [
      | inl e ↦ rw e tt
      | inr e ↦ rw e (trimmed_pricing_idem p, e)
    ]

pub normalize_pricing_summary_of_normal :
    (pricing : Option PricingSummary)
    → IsNormalPricing pricing
    → normalize_pricing_summary pricing ≡ pricing
unfolding normalize_pricing_summary
normalize_pricing_summary_of_normal none _ = refl
normalize_pricing_summary_of_normal (some p) (t, b) = rw (t, b) refl

-- Filling a normal pricing from a normal one.
fill_optional : Option PricingSummary → Option PricingSummary → Option PricingSummary
fill_optional none fallback = fallback
fill_optional (some p) none = some p
fill_optional (some p) (some f) = some (fill_pricing p f)

fill_optional_assoc :
    (a b c : Option PricingSummary)
    → fill_optional (fill_optional a b) c ≡ fill_optional a (fill_optional b c)
unfolding fill_optional
fill_optional_assoc none b c = refl
fill_optional_assoc (some a) none c = refl
fill_optional_assoc (some a) (some b) none = refl
fill_optional_assoc (some a) (some b) (some c) = ap some (fill_pricing_assoc a b c)

fill_pricing-IsNormal :
    (p f : PricingSummary)
    → IsNormalPricing (some p)
    → IsNormalPricing (some f)
    → IsNormalPricing (some (fill_pricing p f))
fill_pricing-IsNormal p f (tp, bp) (tf, _) =
    (rw (tp, tf) at (trimmed_pricing-fill_pricing p f), fill_pricing-is_blank p f bp)

fill_optional-IsNormal :
    (a b : Option PricingSummary)
    → IsNormalPricing a
    → IsNormalPricing b
    → IsNormalPricing (fill_optional a b)
unfolding fill_optional
fill_optional-IsNormal none b ha hb = hb
fill_optional-IsNormal (some p) none ha hb = ha
fill_optional-IsNormal (some p) (some f) ha hb = fill_pricing-IsNormal p f ha hb

merge_normalized-fill_optional :
    (a b : Option PricingSummary)
    → IsNormalPricing a
    → IsNormalPricing b
    → merge_normalized a b ≡ fill_optional a b
unfolding merge_normalized fill_optional clone_pricing_summary
merge_normalized-fill_optional none b ha hb = normalize_pricing_summary_of_normal b hb
merge_normalized-fill_optional (some p) none ha hb = refl
merge_normalized-fill_optional (some p) (some f) ha hb =
    normalize_pricing_summary_of_normal (some (fill_pricing p f)) (fill_pricing-IsNormal p f ha hb)

merge_pricing_summary-fill_optional :
    (a b : Option PricingSummary)
    → merge_pricing_summary a b
      ≡ fill_optional (normalize_pricing_summary a) (normalize_pricing_summary b)
unfolding merge_pricing_summary clone_pricing_summary
merge_pricing_summary-fill_optional a b =
    merge_normalized-fill_optional (normalize_pricing_summary a) (normalize_pricing_summary b)
      (normalize_pricing_summary-IsNormalPricing a) (normalize_pricing_summary-IsNormalPricing b)

normalize-merge_pricing_summary :
    (a b : Option PricingSummary)
    → normalize_pricing_summary (merge_pricing_summary a b)
      ≡ fill_optional (normalize_pricing_summary a) (normalize_pricing_summary b)
normalize-merge_pricing_summary a b = rw (merge_pricing_summary-fill_optional a b) (
    normalize_pricing_summary_of_normal _ (
      fill_optional-IsNormal _ _ (normalize_pricing_summary-IsNormalPricing a)
        (normalize_pricing_summary-IsNormalPricing b)))

-- Merging the pricing of three sources, in order of preference, does not depend on which two are
-- merged first.
pub merge_pricing_summary_assoc :
    (a b c : Option PricingSummary)
    → merge_pricing_summary (merge_pricing_summary a b) c
      ≡ merge_pricing_summary a (merge_pricing_summary b c)
merge_pricing_summary_assoc a b c =
    let na = normalize_pricing_summary a in
    let nb = normalize_pricing_summary b in
    let nc = normalize_pricing_summary c in
    merge_pricing_summary-fill_optional (merge_pricing_summary a b) c
    ∙ ap (λ x. fill_optional x nc) (normalize-merge_pricing_summary a b)
    ∙ fill_optional_assoc na nb nc
    ∙ ap (λ x. fill_optional na x) (sym (normalize-merge_pricing_summary b c))
    ∙ sym (merge_pricing_summary-fill_optional a (merge_pricing_summary b c))

pub merge_pricing_summary-IsNormalPricing :
    (a b : Option PricingSummary) → IsNormalPricing (merge_pricing_summary a b)
merge_pricing_summary-IsNormalPricing a b = rw (merge_pricing_summary-fill_optional a b) (
    fill_optional-IsNormal _ _ (normalize_pricing_summary-IsNormalPricing a)
      (normalize_pricing_summary-IsNormalPricing b))
