-- ===== src/ModelIdentity/Candidates/Snapshot.antt =====
-- modelidentity/identity.go: the identity of a dated model ID.
use code_code_platform_catal.Prelude.{
  ◌≡◌, ◌≢◌, refl, ap, ◌∙◌, true, false, List, [], ◌∷◌, ◌++◌, Option, none, some, ◌==◌, nat_eq,
  contains, push_distinct, arith, Bool-cases, inl, inr, eq_iff, length, length-append,
}
use code_code_platform_catal.Text.{Text, dash, text_eq, is_empty, trim_of_clean, is_space}
use code_code_platform_catal.ModelIdentity.Slug.{normalize_external_model_slug}
use code_code_platform_catal.ModelIdentity.Suffix.{has_snapshot_release_suffix, has_base}
use code_code_platform_catal.ModelIdentity.Suffix.Dates.{
  Date, IsDate, IsStem, dashed, trim_stem, digit_not_space, cut_precise_date_suffix-append,
}
use code_code_platform_catal.ModelIdentity.Candidates.{
  ModelAlias, AliasKinds, candidate, append_base, append_bases, external_model_candidates,
  build_external_aliases, pick_candidate, has_channel_token, normalize_external_model_identity,
}
use code_code_platform_catal.ModelIdentity.Candidates.Laws.{aliases_of_other}

-- Later candidates stand behind the first one.
abbrev pub HasHead : Text → List Text → Type 0
HasHead c out = (rest : List Text) × (out ≡ c ∷ rest)

pub push_distinct-HasHead :
    (c : Text) (o : Option Text) (out : List Text) → HasHead c out → HasHead c (push_distinct o out)
unfolding push_distinct
push_distinct-HasHead c none out h = h
push_distinct-HasHead c (some v) out (rest, e) = elim (Bool-cases (contains out v)) [
  | inl old ↦ rw old (rest, e)
  | inr new ↦ rw new (rest ++ v ∷ [], ap (λ t. t ++ v ∷ []) e)
]

pub append_bases-HasHead :
    (c : Text) (o : Option (Text × Text)) (out : List Text)
    → HasHead c out
    → HasHead c (append_bases out o)
unfolding append_bases
append_bases-HasHead c none out h = h
append_bases-HasHead c (some (base, _)) out h =
    push_distinct-HasHead c _ _ (push_distinct-HasHead c _ out h)

pub stem_not_empty : (s : Text) → IsStem s → is_empty s ≡ false
stem_not_empty [] h = absurd (omega (arith, h.pos))
stem_not_empty (c ∷ s) h = refl

pub candidate_of_stem : (s : Text) → IsStem s → candidate s ≡ some s
unfolding candidate
candidate_of_stem s h = rw (trim_of_clean is_space s h.starts h.ends, stem_not_empty s h)

pub pick_first :
    (kinds : AliasKinds) (raw c : Text) (cs : List Text)
    → HasHead c cs
    → c ≢ raw
    → pick_candidate kinds raw cs ≡ (c, build_external_aliases kinds c raw)
unfolding pick_candidate
pick_first kinds raw c cs (rest, e) n = elim (Bool-cases (c == raw)) [
  | inl same ↦ absurd (n ((eq_iff c raw).0 same))
  | inr other ↦ rw e (rw other refl)
]

module _ (stem : Text) (d : Date) (valid : IsDate d) (is_stem : IsStem stem) where
  pub first_candidate : HasHead stem (external_model_candidates (stem ++ dash ∷ dashed d))
  unfolding external_model_candidates append_base push_distinct contains
  first_candidate = push_distinct-HasHead stem _ _ (
      append_bases-HasHead stem _ _ (
        append_bases-HasHead stem _ _ (
          rw (cut_precise_date_suffix-append stem d valid is_stem, candidate_of_stem stem is_stem)
            ([], refl))))

  has_snapshot : has_snapshot_release_suffix (stem ++ dash ∷ dashed d) ≡ true
  unfolding has_snapshot_release_suffix has_base
  has_snapshot =
      rw
        (
          cut_precise_date_suffix-append stem d valid is_stem,
          trim_of_clean is_space stem is_stem.starts is_stem.ends,
          stem_not_empty stem is_stem,
        )
        refl

  stem_differs : stem ≢ stem ++ dash ∷ dashed d
  stem_differs e = absurd (omega (arith, ap length e, length-append stem (dash ∷ dashed d)))

  not_empty-append : is_empty (stem ++ dash ∷ dashed d) ≡ false
  not_empty-append = append_not_empty stem
    where
      append_not_empty : (s : Text) → is_empty (s ++ dash ∷ dashed d) ≡ false
      append_not_empty [] = refl
      append_not_empty (c ∷ s) = refl

  -- A model ID whose slug is a stem, a hyphen and a date "YYYY-MM-DD", and has no channel token,
  -- is identified as the stem, with the dated slug as its snapshot alias.
  pub normalize_external_model_identity-dated :
      (kinds : AliasKinds) (raw : Text)
      → normalize_external_model_slug raw ≡ stem ++ dash ∷ dashed d
      → has_channel_token (stem ++ dash ∷ dashed d) ≡ false
      → normalize_external_model_identity kinds raw
        ≡ some (stem, record { kind = kinds.snapshot; value = stem ++ dash ∷ dashed d } ∷ [])
  unfolding normalize_external_model_identity
  normalize_external_model_identity-dated kinds raw slug no_channel =
      let whole = trim_stem stem (dashed d) is_stem (digit_not_space d.d2 valid.d2) in
      let picked =
        pick_first kinds (stem ++ dash ∷ dashed d) stem _ first_candidate stem_differs
        ∙ ap (λ (a : List ModelAlias). (stem, a))
            (aliases_of_other kinds stem (stem ++ dash ∷ dashed d)
              (trim_of_clean is_space stem is_stem.starts is_stem.ends)
              (stem_not_empty stem is_stem) whole not_empty-append stem_differs) in
      rw (slug, not_empty-append, no_channel, picked, has_snapshot) refl
