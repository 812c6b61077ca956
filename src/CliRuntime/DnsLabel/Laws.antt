-- ===== src/CliRuntime/DnsLabel/Laws.antt =====
-- cliruntime/image_build_job_helpers.go: the shape of the labels.
use code_code_platform_catal.Prelude.{
  ℕ, ◌≤◌, ◌≡◌, refl, Bool, true, false, Bool-cases, inl, inr, [], ◌∷◌, map, arith, All, All-map,
  All-of, length, take, take-All, length-take, ltb,
}
use code_code_platform_catal.Text.{
  Text, is_empty, is_lower, is_digit, to_lower, trim_space, trim, trim_right, StartsClean,
  EndsClean, trim_right-All, trim-All, trim_right-EndsClean, trim-StartsClean, trim-EndsClean,
  trim_right-StartsClean,
}
use code_code_platform_catal.CliRuntime.DnsLabel.{
  is_hyphen, is_label_byte, label_byte, shorten, dns_label,
}

-- From 1 to 40 lower-case letters, digits and hyphens, of which the first and the last is no hyphen.
pub record IsLabel (s : Text) : Type 0 where
  pub bytes : All (λ c. is_label_byte c ≡ true) s
  pub starts : StartsClean is_hyphen s
  pub ends : EndsClean is_hyphen s
  pub not_empty : 1 ≤ length s
  pub bounded : length s ≤ 40

label_byte-is_label_byte : (c : ℕ) → is_label_byte (label_byte c) ≡ true
unfolding label_byte
label_byte-is_label_byte c = elim (Bool-cases (is_label_byte c)) [
  | inl e ↦ rw (e, e) refl
  | inr e ↦ rw e (unfold is_label_byte is_lower is_digit in refl)
]

length-trim_right : (p : ℕ → Bool) (s : Text) → length (trim_right p s) ≤ length s
unfolding trim_right
length-trim_right p [] = omega arith
length-trim_right p (c ∷ s) = ground (arith, length-trim_right p s)

trim_right_not_empty :
    (p : ℕ → Bool) (c : ℕ) (s : Text) → p c ≡ false → 1 ≤ length (trim_right p (c ∷ s))
unfolding trim_right
trim_right_not_empty p c s h = ground (arith, h)

shorten-IsLabel :
    (s : Text)
    → All (λ c. is_label_byte c ≡ true) s
    → StartsClean is_hyphen s
    → EndsClean is_hyphen s
    → is_empty s ≡ false
    → IsLabel (shorten s)
unfolding shorten
shorten-IsLabel [] bytes starts ends some_byte = ground arith
shorten-IsLabel (c ∷ s) bytes starts ends some_byte = elim (Bool-cases (ltb 40 (length (c ∷ s)))) [
  | inl long ↦ rw long (record {
    bytes = trim_right-All is_hyphen _ (take 40 (c ∷ s)) (take-All _ 40 (c ∷ s) bytes);
    starts = trim_right-StartsClean is_hyphen (take 40 (c ∷ s)) starts;
    ends = trim_right-EndsClean is_hyphen (take 40 (c ∷ s));
    not_empty = trim_right_not_empty is_hyphen c (take 39 s) starts;
    bounded = omega (arith, length-trim_right is_hyphen (take 40 (c ∷ s)), length-take 40 (c ∷ s));
  })
  | inr short ↦ rw short (record {
    bytes = bytes;
    starts = starts;
    ends = ends;
    not_empty = omega arith;
    bounded = ground (arith, short);
  })
]

-- For every text the label has from 1 to 40 bytes, which are lower-case letters, digits and hyphens,
-- and neither starts nor ends with a hyphen.
pub dns_label-IsLabel : (value : Text) → IsLabel (dns_label value)
unfolding dns_label
dns_label-IsLabel value =
    elim (Bool-cases (is_empty (trim is_hyphen (map label_byte (to_lower (trim_space value)))))) [
      | inl blank ↦ rw blank (
          unfold is_hyphen is_label_byte is_lower is_digit in
          record {
            bytes = (refl, (refl, (refl, (refl, (refl, (refl, (refl, tt)))))));
            starts = refl;
            ends = refl;
            not_empty = omega arith;
            bounded = omega arith;
          })
      | inr named ↦ rw named (
          shorten-IsLabel _
            (trim-All is_hyphen _ _ (
              All-map {P = λ _. Unit} _ label_byte _ (λ c _. label_byte-is_label_byte c)
                (All-of (λ _. tt) (to_lower (trim_space value)))))
            (trim-StartsClean is_hyphen _) (trim-EndsClean is_hyphen _) named)
    ]
