-- ===== src/Tests/Identity.antt =====
-- The laws of slugs, suffixes and identities at concrete model IDs.
use code_code_platform_catal.Prelude.{
  ℕ, ◌≡◌, ◌≢◌, ◌<◌, ◌⊎◌, refl, true, false, ◌++◌, List, [], ◌∷◌, some, arith, ◌==◌, length,
  contains, if◌then◌else◌, IsDistinct,
}
use code_code_platform_catal.Text.{
  Text, text_eq, codes, dash, has_prefix, is_empty, trim_space, is_space,
}
use code_code_platform_catal.ModelIdentity.Slug.{
  normalized_vendor_slug, normalize_external_model_slug, collapse_dashes,
}
use code_code_platform_catal.ModelIdentity.Slug.Collapse.{squeeze, collapse_dashes-eq-squeeze}
use code_code_platform_catal.ModelIdentity.Slug.Laws.{
  IsVendorSlug, normalized_vendor_slug-IsVendorSlug,
}
use code_code_platform_catal.ModelIdentity.Slug.Idempotence.{
  HasNoControlSpace, HasNoSpace, normalized_vendor_slug_idem, normalized_vendor_slug_twice,
}
use code_code_platform_catal.ModelIdentity.Slug.External.{
  IsModelSlug, qwen_dash, qwen_dot, normalize_external_model_slug-IsRewritten,
}
use code_code_platform_catal.ModelIdentity.Suffix.{
  all_digits, cut_precise_date_suffix, cut_calendar_release_suffix, cut_release_suffix,
  has_snapshot_release_suffix,
}
use code_code_platform_catal.ModelIdentity.Suffix.Cuts.{IsCut, cut_precise_date_suffix-IsCut}
use code_code_platform_catal.ModelIdentity.Suffix.Dates.{
  Date, IsDate, IsStem, dashed, cut_precise_date_suffix-append,
}
use code_code_platform_catal.ModelIdentity.Candidates.{
  ModelAlias, AliasKinds, has_channel_token, external_model_candidates,
  normalize_external_model_identity,
}
use code_code_platform_catal.ModelIdentity.Candidates.Laws.{
  external_model_candidates-IsCandidateList, normalize_external_model_identity_sound,
}
use code_code_platform_catal.ModelIdentity.Candidates.Snapshot.{
  normalize_external_model_identity-dated,
}
use code_code_platform_catal.ModelIdentity.Candidates.Instruct.{
  Month, IsMonth, month_year, instruct, normalize_external_model_identity-instruct,
}

normalized_vendor_slug-IsVendorSlug_example :
    IsVendorSlug (normalized_vendor_slug (codes " Open_AI "))
normalized_vendor_slug-IsVendorSlug_example =
    normalized_vendor_slug-IsVendorSlug (codes " Open_AI ")

vendor_plain : HasNoControlSpace (codes "Z.ai")
unfolding code_code_platform_catal.ModelIdentity.Slug.Idempotence.is_control_space
vendor_plain = (refl, (refl, (refl, (refl, tt))))

normalized_vendor_slug_idem_example :
    normalized_vendor_slug (normalized_vendor_slug (codes "Z.ai"))
    ≡ normalized_vendor_slug (codes "Z.ai")
normalized_vendor_slug_idem_example = normalized_vendor_slug_idem (codes "Z.ai") vendor_plain

slug_a : IsVendorSlug (codes "a")
unfolding normalized_vendor_slug collapse_dashes code_code_platform_catal.Text.trim is_space
    code_code_platform_catal.Text.lower_byte
    code_code_platform_catal.ModelIdentity.Slug.vendor_separator
    code_code_platform_catal.Text.contains_text
slug_a = normalized_vendor_slug-IsVendorSlug (codes "a")

plain_a : HasNoSpace (codes "a")
unfolding is_space
plain_a = (refl, tt)

normalized_vendor_slug_twice_example :
    (normalized_vendor_slug (dash ∷ 9 ∷ codes "a") ≡ 9 ∷ codes "a")
    × (normalized_vendor_slug (9 ∷ codes "a") ≡ codes "a")
normalized_vendor_slug_twice_example = normalized_vendor_slug_twice b'a' [] slug_a plain_a

collapse_dashes-eq-squeeze_example : collapse_dashes 6 (codes "a---b") ≡ squeeze (codes "a---b")
collapse_dashes-eq-squeeze_example = collapse_dashes-eq-squeeze 6 (codes "a---b") (omega arith)

normalize_external_model_slug-IsRewritten_example :
    IsModelSlug (normalize_external_model_slug (codes "Qwen-3-8B"))
    × (has_prefix qwen_dash (normalize_external_model_slug (codes "Qwen-3-8B")) ≡ false)
    × (has_prefix qwen_dot (normalize_external_model_slug (codes "Qwen-3-8B")) ≡ false)
normalize_external_model_slug-IsRewritten_example =
    normalize_external_model_slug-IsRewritten (codes "Qwen-3-8B")

precise_cut :
    cut_precise_date_suffix (codes "gpt-4o-2024-05-13") ≡ some (codes "gpt-4o", codes "2024-05-13")
unfolding cut_precise_date_suffix code_code_platform_catal.Text.trim is_space
    code_code_platform_catal.ModelIdentity.Suffix.trailing_date_parts
    code_code_platform_catal.ModelIdentity.Suffix.is_valid_date_parts all_digits
    code_code_platform_catal.Text.is_digit code_code_platform_catal.ModelIdentity.Suffix.between
    code_code_platform_catal.Text.compare_text
precise_cut = refl

cut_precise_date_suffix-IsCut_example :
    IsCut (codes "gpt-4o-2024-05-13") (codes "gpt-4o") (codes "2024-05-13")
cut_precise_date_suffix-IsCut_example =
    cut_precise_date_suffix-IsCut (codes "gpt-4o-2024-05-13") (codes "gpt-4o") (codes "2024-05-13")
      precise_cut

abbrev may_13 : Date
may_13 = record {
  y1 = b'2';
  y2 = b'0';
  y3 = b'2';
  y4 = b'4';
  m1 = b'0';
  m2 = b'5';
  d1 = b'1';
  d2 = b'3';
}

may_13-IsDate : IsDate may_13
may_13-IsDate = record {
  y1 = omega arith;
  y2 = omega arith;
  y3 = omega arith;
  y4 = omega arith;
  m1 = omega arith;
  m2 = omega arith;
  d1 = omega arith;
  d2 = omega arith;
  month_ge = omega arith;
  month_le = omega arith;
  day_ge = omega arith;
  day_le = omega arith;
}

gpt-IsStem : IsStem (codes "gpt")
unfolding is_space
gpt-IsStem = record { starts = refl; ends = refl; pos = omega arith }

cut_precise_date_suffix-append_example :
    cut_precise_date_suffix (codes "gpt" ++ dash ∷ dashed may_13)
    ≡ some (codes "gpt", dashed may_13)
cut_precise_date_suffix-append_example =
    cut_precise_date_suffix-append (codes "gpt") may_13 may_13-IsDate gpt-IsStem

external_model_candidates-IsCandidateList_example :
    IsDistinct (external_model_candidates (codes "gpt-4-0613"))
    × ((c : Text)
        → contains (external_model_candidates (codes "gpt-4-0613")) c ≡ true
        → (trim_space c ≡ c) × (is_empty c ≡ false))
    × (is_empty (trim_space (codes "gpt-4-0613")) ≡ false
        → contains
            (external_model_candidates (codes "gpt-4-0613"))
            (trim_space (codes "gpt-4-0613"))
          ≡ true)
external_model_candidates-IsCandidateList_example =
    external_model_candidates-IsCandidateList (codes "gpt-4-0613")

abbrev kinds : AliasKinds
kinds = record { stable = 1; snapshot = 2 }

abbrev glm_alias : List ModelAlias
glm_alias = record { kind = 2; value = codes "g-0613" } ∷ []

glm_plain : HasNoControlSpace (codes "G-0613")
unfolding code_code_platform_catal.ModelIdentity.Slug.Idempotence.is_control_space
glm_plain = (refl, (refl, (refl, (refl, (refl, (refl, tt))))))

glm_identity :
    normalize_external_model_identity kinds (codes "G-0613") ≡ some (codes "g", glm_alias)
unfolding normalize_external_model_identity normalize_external_model_slug
    code_code_platform_catal.ModelIdentity.Slug.rewrite_qwen has_prefix
    code_code_platform_catal.Text.trim collapse_dashes is_space
    code_code_platform_catal.Text.lower_byte code_code_platform_catal.Text.contains_text
    code_code_platform_catal.ModelIdentity.Slug.model_separator has_channel_token
    code_code_platform_catal.ModelIdentity.Candidates.any_token
    code_code_platform_catal.Text.fields_func
    code_code_platform_catal.ModelIdentity.Candidates.split_model_token
    code_code_platform_catal.ModelIdentity.Candidates.is_channel_token
    code_code_platform_catal.Prelude.list_beq
    code_code_platform_catal.ModelIdentity.Candidates.pick_candidate
    code_code_platform_catal.ModelIdentity.Candidates.append_base
    code_code_platform_catal.ModelIdentity.Candidates.append_bases
    code_code_platform_catal.ModelIdentity.Candidates.build_external_aliases
    code_code_platform_catal.ModelIdentity.Candidates.candidate external_model_candidates
    code_code_platform_catal.ModelIdentity.Slug.replace_dashes
    code_code_platform_catal.ModelIdentity.Suffix.all_digit_bytes all_digits
    code_code_platform_catal.ModelIdentity.Suffix.between cut_calendar_release_suffix
    cut_precise_date_suffix code_code_platform_catal.ModelIdentity.Suffix.cut_release_at
    cut_release_suffix code_code_platform_catal.ModelIdentity.Suffix.has_base
    has_snapshot_release_suffix code_code_platform_catal.ModelIdentity.Suffix.is_valid_date_parts
    code_code_platform_catal.ModelIdentity.Suffix.is_valid_month_parts
    code_code_platform_catal.ModelIdentity.Suffix.trailing_date_parts
    code_code_platform_catal.ModelIdentity.Suffix.trailing_month_year_suffix
    code_code_platform_catal.ModelIdentity.Suffix.trailing_year_month_suffix contains
    code_code_platform_catal.Prelude.push_distinct code_code_platform_catal.Text.is_digit
    code_code_platform_catal.Text.is_upper code_code_platform_catal.Text.compare_text
    code_code_platform_catal.Text.trim_left code_code_platform_catal.Text.trim_right
    code_code_platform_catal.Text.fields_from code_code_platform_catal.Text.has_suffix
    code_code_platform_catal.Text.last_index code_code_platform_catal.Text.trim_prefix
    code_code_platform_catal.Text.trim_suffix
glm_identity = refl

normalize_external_model_identity_sound_example :
    (is_empty (codes "g") ≡ false)
    × (has_channel_token (normalize_external_model_slug (codes "G-0613")) ≡ false)
    × ((codes "g" ≡ normalize_external_model_slug (codes "G-0613")) × (glm_alias ≡ [])
        ⊎ (contains
              (external_model_candidates (normalize_external_model_slug (codes "G-0613")))
              (codes "g")
            ≡ true)
          × (codes "g" ≢ normalize_external_model_slug (codes "G-0613"))
          × (glm_alias
              ≡ record {
                kind =
                    if has_snapshot_release_suffix (normalize_external_model_slug (codes "G-0613"))
                    then kinds.snapshot
                    else kinds.stable;
                value = normalize_external_model_slug (codes "G-0613");
              }
                ∷ []))
normalize_external_model_identity_sound_example =
    normalize_external_model_identity_sound kinds (codes "G-0613") (codes "g") glm_alias glm_plain
      glm_identity

dated_slug :
    normalize_external_model_slug (codes "GPT-2024-05-13") ≡ codes "gpt" ++ dash ∷ dashed may_13
unfolding normalize_external_model_slug code_code_platform_catal.ModelIdentity.Slug.rewrite_qwen
    has_prefix code_code_platform_catal.Text.trim collapse_dashes is_space
    code_code_platform_catal.Text.lower_byte code_code_platform_catal.Text.contains_text
    code_code_platform_catal.ModelIdentity.Slug.model_separator
dated_slug = refl

dated_no_channel : has_channel_token (codes "gpt" ++ dash ∷ dashed may_13) ≡ false
unfolding has_channel_token code_code_platform_catal.ModelIdentity.Candidates.any_token
    code_code_platform_catal.Text.fields_func code_code_platform_catal.Text.trim is_space
    code_code_platform_catal.ModelIdentity.Candidates.split_model_token
    code_code_platform_catal.Text.lower_byte
    code_code_platform_catal.ModelIdentity.Candidates.is_channel_token
    code_code_platform_catal.Prelude.list_beq
dated_no_channel = refl

normalize_external_model_identity-dated_example :
    normalize_external_model_identity kinds (codes "GPT-2024-05-13")
    ≡ some (
      codes "gpt",
      record { kind = kinds.snapshot; value = codes "gpt" ++ dash ∷ dashed may_13 } ∷ [],
    )
normalize_external_model_identity-dated_example =
    normalize_external_model_identity-dated (codes "gpt") may_13 may_13-IsDate gpt-IsStem kinds
      (codes "GPT-2024-05-13") dated_slug dated_no_channel

abbrev august : Month
august = record { m1 = b'0'; m2 = b'8'; y1 = b'2'; y2 = b'0'; y3 = b'2'; y4 = b'4' }

august-IsMonth : IsMonth august
august-IsMonth = record {
  m1 = omega arith;
  m2 = omega arith;
  y1 = omega arith;
  y2 = omega arith;
  y3 = omega arith;
  y4 = omega arith;
  month_ge = omega arith;
  month_le = omega arith;
}

instruct_slug :
    normalize_external_model_slug (codes "gpt-instruct-08-2024")
    ≡ (codes "gpt" ++ instruct) ++ dash ∷ month_year august
unfolding normalize_external_model_slug code_code_platform_catal.ModelIdentity.Slug.rewrite_qwen
    has_prefix code_code_platform_catal.Text.trim collapse_dashes is_space
    code_code_platform_catal.Text.lower_byte code_code_platform_catal.Text.contains_text
    code_code_platform_catal.ModelIdentity.Slug.model_separator
instruct_slug = refl

instruct_no_channel :
    has_channel_token ((codes "gpt" ++ instruct) ++ dash ∷ month_year august) ≡ false
unfolding has_channel_token code_code_platform_catal.ModelIdentity.Candidates.any_token
    code_code_platform_catal.Text.fields_func code_code_platform_catal.Text.trim is_space
    code_code_platform_catal.ModelIdentity.Candidates.split_model_token
    code_code_platform_catal.Text.lower_byte
    code_code_platform_catal.ModelIdentity.Candidates.is_channel_token
    code_code_platform_catal.Prelude.list_beq
instruct_no_channel = refl

normalize_external_model_identity-instruct_example :
    (normalize_external_model_identity kinds (codes "gpt-instruct-08-2024")
      ≡ some (
        codes "gpt" ++ instruct,
        record {
          kind = kinds.snapshot;
          value = (codes "gpt" ++ instruct) ++ dash ∷ month_year august;
        }
            ∷ [],
      ))
    × (contains
          (external_model_candidates (normalize_external_model_slug (codes "gpt-instruct-08-2024")))
          (codes "gpt")
        ≡ true)
    × (length (codes "gpt") < length (codes "gpt" ++ instruct))
normalize_external_model_identity-instruct_example =
    normalize_external_model_identity-instruct (codes "gpt") gpt-IsStem august august-IsMonth kinds
      (codes "gpt-instruct-08-2024") instruct_slug instruct_no_channel
