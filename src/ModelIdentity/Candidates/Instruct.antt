-- ===== src/ModelIdentity/Candidates/Instruct.antt =====
-- modelidentity/identity.go: the identity of "<stem>-instruct-MM-YYYY".
use code_code_platform_catal.Prelude.{
  ℕ, ◌+◌, ◌-◌, ◌≤◌, ◌<◌, ◌≡◌, ◌≢◌, refl, ap, ◌∙◌, true, false, List, [], ◌∷◌, ◌++◌, Option, none,
  some, ◌==◌, nat_eq, ltb, leb, contains, push_distinct, contains-push_distinct, arith, Bool-cases,
  inl, inr, eq_iff, eq_self, length, length-append, get_or, suc, append_assoc,
}
use code_code_platform_catal.Text.{
  Text, codes, dash, text_eq, is_empty, trim_space, trim_of_clean, trim_suffix, is_space,
}
use code_code_platform_catal.ModelIdentity.Slug.{normalize_external_model_slug}
use code_code_platform_catal.ModelIdentity.Suffix.{
  cut_precise_date_suffix, cut_calendar_release_suffix, from_end, is_valid_month_parts, all_digits,
  trailing_date_parts, trailing_month_year_suffix, has_snapshot_release_suffix, has_base,
}
use code_code_platform_catal.ModelIdentity.Suffix.Dates.{
  IsDigit, two_digits, between_month, is_digit_of, IsStem, trim_stem, digit_not_space,
  last_of_append, take_of_append, last_behind_byte, from_end_of_append, StartsClean-append,
  EndsClean-append,
}
use code_code_platform_catal.ModelIdentity.Candidates.{
  ModelAlias, AliasKinds, append_base, append_bases, external_model_candidates, has_channel_token,
  normalize_external_model_identity,
}
use code_code_platform_catal.ModelIdentity.Candidates.Laws.{aliases_of_other}
use code_code_platform_catal.ModelIdentity.Candidates.Snapshot.{
  HasHead, push_distinct-HasHead, append_bases-HasHead, stem_not_empty, candidate_of_stem,
  pick_first,
}

-- The bytes of "MM-YYYY".
pub record Month : Type 0 where
  pub m1 : ℕ
  pub m2 : ℕ
  pub y1 : ℕ
  pub y2 : ℕ
  pub y3 : ℕ
  pub y4 : ℕ

pub record IsMonth (m : Month) : Type 0 where
  pub m1 : IsDigit m.m1
  pub m2 : IsDigit m.m2
  pub y1 : IsDigit m.y1
  pub y2 : IsDigit m.y2
  pub y3 : IsDigit m.y3
  pub y4 : IsDigit m.y4
  pub month_ge : 1 ≤ two_digits m.m1 m.m2
  pub month_le : two_digits m.m1 m.m2 ≤ 12

abbrev pub month_year : Month → Text
month_year m = m.m1 ∷ m.m2 ∷ dash ∷ m.y1 ∷ m.y2 ∷ m.y3 ∷ m.y4 ∷ []

abbrev pub instruct : Text
instruct = codes "-instruct"

month_parts :
    (m : Month)
    → IsMonth m
    → is_valid_month_parts (m.y1 ∷ m.y2 ∷ m.y3 ∷ m.y4 ∷ []) (m.m1 ∷ m.m2 ∷ []) ≡ true
unfolding is_valid_month_parts all_digits
month_parts m h =
    rw
      (
        is_digit_of m.y1 h.y1,
        is_digit_of m.y2 h.y2,
        is_digit_of m.y3 h.y3,
        is_digit_of m.y4 h.y4,
        is_digit_of m.m1 h.m1,
        is_digit_of m.m2 h.m2,
        between_month m.m1 m.m2 h.m1 h.m2 h.month_ge h.month_le,
      )
      refl

get_or-append_right : (s t : Text) (k : ℕ) → get_or (s ++ t) (length s + k) 0 ≡ get_or t k 0
get_or-append_right [] t k = ap (λ i. get_or t i 0) (omega arith)
get_or-append_right (c ∷ s) t k =
    let e : suc (length s) + k ≡ suc (length s + k) = omega arith in
    rw e (get_or-append_right s t k)

-- The byte `n` places before the end of a text, in its tail.
from_end-append :
    (s t : Text) (n : ℕ) → n ≤ length t → from_end n (s ++ t) ≡ get_or t (length t - n) 0
from_end-append s t n h =
    let e : length (s ++ t) - n ≡ length s + (length t - n) = omega (arith, length-append s t) in
    rw e (get_or-append_right s t (length t - n))

contains-push_distinct_mono :
    (o : Option Text) (out : List Text) (a : Text)
    → contains out a ≡ true
    → contains (push_distinct o out) a ≡ true
contains-push_distinct_mono none out a h = unfold push_distinct in h
contains-push_distinct_mono (some v) out a h = rw (contains-push_distinct v out a, h)

contains-append_bases_mono :
    (o : Option (Text × Text)) (out : List Text) (a : Text)
    → contains out a ≡ true
    → contains (append_bases out o) a ≡ true
unfolding append_bases
contains-append_bases_mono none out a h = h
contains-append_bases_mono (some (base, _)) out a h =
    contains-push_distinct_mono _ _ a (contains-push_distinct_mono _ out a h)

module _ (stem : Text) (is_stem : IsStem stem) where
  instruct-IsStem : IsStem (stem ++ instruct)
  unfolding is_space
  instruct-IsStem = record {
    starts = StartsClean-append is_space stem instruct is_stem.pos is_stem.starts;
    ends = EndsClean-append is_space stem dash (codes "instruct") refl;
    pos = omega (arith, length-append stem instruct, is_stem.pos);
  }

  trim_instruct : trim_suffix instruct (stem ++ instruct) ≡ stem
  unfolding trim_suffix
  trim_instruct =
      let long : leb 9 (length (stem ++ instruct)) ≡ true =
        ground (arith, length-append stem instruct) in
      rw (long, last_of_append stem instruct, eq_self instruct) (take_of_append stem instruct)

dash_behind_not_empty : (s t : Text) → is_empty (s ++ dash ∷ t) ≡ false
dash_behind_not_empty [] t = refl
dash_behind_not_empty (c ∷ s) t = refl

module _ (stem : Text) (is_stem : IsStem stem) (m : Month) (valid : IsMonth m) where
  byte_11 : from_end 11 ((stem ++ instruct) ++ dash ∷ month_year m) ≡ b'u'
  byte_11 =
      ap (from_end 11) (append_assoc stem instruct (dash ∷ month_year m))
      ∙ from_end-append stem (instruct ++ dash ∷ month_year m) 11 (omega arith)

  byte_9 : from_end 9 ((stem ++ instruct) ++ dash ∷ month_year m) ≡ b't'
  byte_9 =
      ap (from_end 9) (append_assoc stem instruct (dash ∷ month_year m))
      ∙ from_end-append stem (instruct ++ dash ∷ month_year m) 9 (omega arith)

  whole_trimmed :
      trim_space ((stem ++ instruct) ++ dash ∷ month_year m)
      ≡ (stem ++ instruct) ++ dash ∷ month_year m
  whole_trimmed =
      trim_stem (stem ++ instruct) (month_year m) (instruct-IsStem stem is_stem)
        (digit_not_space m.y4 valid.y4)

  no_precise_date : cut_precise_date_suffix ((stem ++ instruct) ++ dash ∷ month_year m) ≡ none
  unfolding cut_precise_date_suffix trailing_date_parts
  no_precise_date = rw (whole_trimmed, byte_11, byte_9) (ground arith)

  month_is_found : trailing_month_year_suffix ((stem ++ instruct) ++ dash ∷ month_year m) ≡ true
  unfolding trailing_month_year_suffix
  month_is_found =
      let short : ltb (length ((stem ++ instruct) ++ dash ∷ month_year m)) 8 ≡ false =
        ground (arith, length-append (stem ++ instruct) (dash ∷ month_year m)) in
      rw
        (
          short,
          from_end_of_append (stem ++ instruct) (month_year m) dash,
          last_behind_byte (stem ++ instruct) (month_year m) dash,
        )
        (month_parts m valid)

  month_cut :
      cut_calendar_release_suffix ((stem ++ instruct) ++ dash ∷ month_year m)
      ≡ some (stem ++ instruct, month_year m)
  unfolding cut_calendar_release_suffix
  month_cut =
      let base = instruct-IsStem stem is_stem in
      let long : ltb 8 (length ((stem ++ instruct) ++ dash ∷ month_year m)) ≡ true =
        ground (arith, length-append (stem ++ instruct) (dash ∷ month_year m), base.pos) in
      rw (
        whole_trimmed,
        long,
        month_is_found,
        take_of_append (stem ++ instruct) (dash ∷ month_year m),
        last_behind_byte (stem ++ instruct) (month_year m) dash,
        trim_of_clean is_space (stem ++ instruct) base.starts base.ends,
      )

  -- What the calendar cut adds to the empty list.
  bases : append_bases [] (some (stem ++ instruct, month_year m)) ≡ (stem ++ instruct) ∷ stem ∷ []
  unfolding append_bases push_distinct contains
  bases =
      let differ : (stem ++ instruct == stem) ≡ false =
        (elim (Bool-cases (stem ++ instruct == stem)) [
          | inl same ↦ absurd (
              omega (
                arith,
                ap length ((eq_iff (stem ++ instruct) stem).0 same),
                length-append stem instruct,
              ))
          | inr other ↦ other
        ]) in
      rw (
        candidate_of_stem (stem ++ instruct) (instruct-IsStem stem is_stem),
        trim_instruct stem is_stem,
        candidate_of_stem stem is_stem,
        differ,
      )

  candidates_of_instruct :
      HasHead
        (stem ++ instruct)
        (external_model_candidates ((stem ++ instruct) ++ dash ∷ month_year m))
      × (contains (external_model_candidates ((stem ++ instruct) ++ dash ∷ month_year m)) stem
          ≡ true)
  unfolding external_model_candidates append_base
  candidates_of_instruct =
      rw (no_precise_date, month_cut, bases)
        (
          push_distinct-HasHead _ _ _ (append_bases-HasHead _ _ _ (stem ∷ [], refl)),
          contains-push_distinct_mono _ _ stem (
              contains-append_bases_mono _ ((stem ++ instruct) ∷ stem ∷ []) stem
                (unfold contains in ground (arith, eq_self stem))),
        )

  instruct_snapshot : has_snapshot_release_suffix ((stem ++ instruct) ++ dash ∷ month_year m) ≡ true
  unfolding has_snapshot_release_suffix has_base
  instruct_snapshot =
      let base = instruct-IsStem stem is_stem in
      rw (
        no_precise_date,
        month_cut,
        trim_of_clean is_space (stem ++ instruct) base.starts base.ends,
        stem_not_empty (stem ++ instruct) base,
      )

  -- A model ID whose slug is "<stem>-instruct-MM-YYYY", with no channel token, is identified as
  -- "<stem>-instruct", although the shorter "<stem>" is among the candidates too.
  pub normalize_external_model_identity-instruct :
      (kinds : AliasKinds) (raw : Text)
      → normalize_external_model_slug raw ≡ (stem ++ instruct) ++ dash ∷ month_year m
      → has_channel_token ((stem ++ instruct) ++ dash ∷ month_year m) ≡ false
      → (normalize_external_model_identity kinds raw
          ≡ some (
            stem ++ instruct,
            record { kind = kinds.snapshot; value = (stem ++ instruct) ++ dash ∷ month_year m }
                ∷ [],
          ))
        × (contains (external_model_candidates (normalize_external_model_slug raw)) stem ≡ true)
        × (length stem < length (stem ++ instruct))
  unfolding normalize_external_model_identity
  normalize_external_model_identity-instruct kinds raw slug no_channel =
      let base = instruct-IsStem stem is_stem in
      let whole = (stem ++ instruct) ++ dash ∷ month_year m in
      let differ : stem ++ instruct ≢ (stem ++ instruct) ++ dash ∷ month_year m = (λ e.
        absurd
          (omega (arith, ap length e, length-append (stem ++ instruct) (dash ∷ month_year m)))) in
      let filled = dash_behind_not_empty (stem ++ instruct) (month_year m) in
      let picked =
        pick_first kinds whole (stem ++ instruct) _ candidates_of_instruct.0 differ
        ∙ ap (λ (a : List ModelAlias). (stem ++ instruct, a))
            (aliases_of_other kinds (stem ++ instruct) whole
              (trim_of_clean is_space (stem ++ instruct) base.starts base.ends)
              (stem_not_empty (stem ++ instruct) base) whole_trimmed filled differ) in
      (
        rw (slug, filled, no_channel, picked, instruct_snapshot) refl,
        rw slug candidates_of_instruct.1,
        omega (arith, length-append stem instruct),
      )
