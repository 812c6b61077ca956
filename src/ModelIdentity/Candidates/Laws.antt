-- ===== src/ModelIdentity/Candidates/Laws.antt =====
-- modelidentity/identity.go: the candidates of a model ID and its identity.
use code_code_platform_catal.Prelude.{
  ◌≡◌, ◌≢◌, ◌⊎◌, refl, sym, ap, ◌∙◌, true, false, ◌||◌, List, [], ◌∷◌, Option, none, some,
  if◌then◌else◌, ◌==◌, nat_eq, contains, push_distinct, IsDistinct, push_distinct-IsDistinct,
  contains-push_distinct, arith, Bool-cases, inl, inr, eq_iff, eq_self, some_eq,
}
use code_code_platform_catal.Text.{Text, text_eq, is_empty, trim_space, trim_idem, is_space}
use code_code_platform_catal.ModelIdentity.Slug.{normalize_external_model_slug}
use code_code_platform_catal.ModelIdentity.Slug.Idempotence.{HasNoControlSpace, trim_space_fixed}
use code_code_platform_catal.ModelIdentity.Slug.ExternalSpaces.{
  normalize_external_model_slug-HasNoSpace,
}
use code_code_platform_catal.ModelIdentity.Suffix.{
  cut_precise_date_suffix, cut_calendar_release_suffix, cut_release_suffix,
  has_snapshot_release_suffix,
}
use code_code_platform_catal.ModelIdentity.Candidates.{
  ModelAlias, AliasKinds, candidate, append_candidate, append_base, append_bases,
  external_model_candidates, build_external_aliases, pick_candidate, has_channel_token,
  normalize_external_model_identity,
}

-- Distinct, and each trimmed and not empty.
abbrev pub IsCandidateList : List Text → Type 0
IsCandidateList out =
    IsDistinct out
    × ((c : Text) → contains out c ≡ true → (trim_space c ≡ c) × (is_empty c ≡ false))

module _ (out : List Text) (c : Text) (h : IsCandidateList out)
    (kept : is_empty (trim_space c) ≡ false) where
  pushed_is_trimmed :
      (x : Text)
      → (contains out x || trim_space c == x) ≡ true
      → (trim_space x ≡ x) × (is_empty x ≡ false)
  pushed_is_trimmed x m = elim (Bool-cases (contains out x)) [
    | inl old ↦ h.1 x old
    | inr new ↦
        let same : trim_space c ≡ x = (eq_iff (trim_space c) x).0 (rw new at m) in
        rw (← same) (trim_idem is_space c, kept)
  ]

append_candidate-IsCandidateList :
    (out : List Text) (c : Text) → IsCandidateList out → IsCandidateList (append_candidate out c)
unfolding candidate
append_candidate-IsCandidateList out c h = elim (Bool-cases (is_empty (trim_space c))) [
  | inl blank ↦ rw blank (unfold push_distinct in h)
  | inr kept ↦ rw kept (
    push_distinct-IsDistinct (some (trim_space c)) out h.0,
    λ x m. pushed_is_trimmed out c h kept x (rw contains-push_distinct at m),
  )
]

append_base-IsCandidateList :
    (out : List Text) (o : Option (Text × Text))
    → IsCandidateList out
    → IsCandidateList (append_base out o)
unfolding append_base
append_base-IsCandidateList out none h = h
append_base-IsCandidateList out (some (base, _)) h = append_candidate-IsCandidateList out base h

append_bases-IsCandidateList :
    (out : List Text) (o : Option (Text × Text))
    → IsCandidateList out
    → IsCandidateList (append_bases out o)
unfolding append_bases
append_bases-IsCandidateList out none h = h
append_bases-IsCandidateList out (some (base, _)) h =
    append_candidate-IsCandidateList _ _ (append_candidate-IsCandidateList out base h)

nil-IsCandidateList : IsCandidateList []
unfolding contains
nil-IsCandidateList = (tt, λ c m. absurd (cc m))

contains-append_candidate :
    (out : List Text) (c : Text)
    → is_empty (trim_space c) ≡ false
    → contains (append_candidate out c) (trim_space c) ≡ true
unfolding candidate
contains-append_candidate out c kept = rw kept (
    ground
      (arith, contains-push_distinct (trim_space c) out (trim_space c), eq_self (trim_space c)))

-- The candidates of a model ID are distinct, each is trimmed and not empty, and the trimmed model ID
-- is one of them unless it is empty.
pub external_model_candidates-IsCandidateList :
    (raw : Text)
    → IsDistinct (external_model_candidates raw)
      × ((c : Text)
          → contains (external_model_candidates raw) c ≡ true
          → (trim_space c ≡ c) × (is_empty c ≡ false))
      × (is_empty (trim_space raw) ≡ false
          → contains (external_model_candidates raw) (trim_space raw) ≡ true)
unfolding external_model_candidates
external_model_candidates-IsCandidateList raw =
    let dated = append_base-IsCandidateList [] (cut_precise_date_suffix raw) nil-IsCandidateList in
    let calendar = append_bases-IsCandidateList _ (cut_calendar_release_suffix raw) dated in
    let released = append_bases-IsCandidateList _ (cut_release_suffix raw) calendar in
    let all = append_candidate-IsCandidateList _ raw released in
    (all.0, all.1, contains-append_candidate _ raw)

-- What the loop picks: the first candidate that differs from the slug, or the slug.
pick_candidate-cases :
    (kinds : AliasKinds) (raw : Text) (cs : List Text)
    → (pick_candidate kinds raw cs ≡ (raw, []))
      ⊎ ((c : Text) × (pick_candidate kinds raw cs ≡ (c, build_external_aliases kinds c raw))
          × (contains cs c ≡ true)
          × (c ≢ raw))
unfolding pick_candidate contains
pick_candidate-cases kinds raw [] = inl refl
pick_candidate-cases kinds raw (c ∷ cs) = elim (Bool-cases (c == raw)) [
  | inl same ↦ elim (pick_candidate-cases kinds raw cs) [
    | inl none_left ↦ inl (rw same none_left)
    | inr (d, picked, listed, other) ↦ inr (d, rw same picked, ground (arith, listed), other)
  ]
  | inr other ↦
      inr (c, rw other, ground (arith, eq_self c), λ e. absurd (cc ((eq_iff c raw).1 e, other)))
]

pub aliases_of_other :
    (kinds : AliasKinds) (c raw : Text)
    → trim_space c ≡ c
    → is_empty c ≡ false
    → trim_space raw ≡ raw
    → is_empty raw ≡ false
    → c ≢ raw
    → build_external_aliases kinds c raw
      ≡ record {
        kind = if has_snapshot_release_suffix raw then kinds.snapshot else kinds.stable;
        value = raw;
      }
        ∷ []
unfolding build_external_aliases
aliases_of_other kinds c raw tc ec tr er n =
    let differ : (c == raw) ≡ false = (elim (Bool-cases (c == raw)) [
      | inl same ↦ absurd (n ((eq_iff c raw).0 same))
      | inr other ↦ other
    ]) in
    rw (tc, tr, ec, er, differ)

-- An identity that is found is never empty, and its slug has no channel token. It is the slug
-- itself, with no alias; or it is one of the slug's other candidates, and then the slug is its one
-- alias, a snapshot exactly when it ends in a date, a month or a release. The raw ID has no white
-- space but blanks.
pub normalize_external_model_identity_sound :
    (kinds : AliasKinds) (raw id : Text) (aliases : List ModelAlias)
    → HasNoControlSpace raw
    → normalize_external_model_identity kinds raw ≡ some (id, aliases)
    → (is_empty id ≡ false)
      × (has_channel_token (normalize_external_model_slug raw) ≡ false)
      × ((id ≡ normalize_external_model_slug raw) × (aliases ≡ [])
          ⊎ (contains (external_model_candidates (normalize_external_model_slug raw)) id ≡ true)
            × (id ≢ normalize_external_model_slug raw)
            × (aliases
                ≡ record {
                  kind =
                      if has_snapshot_release_suffix (normalize_external_model_slug raw)
                      then kinds.snapshot
                      else kinds.stable;
                  value = normalize_external_model_slug raw;
                }
                  ∷ []))
unfolding normalize_external_model_identity
normalize_external_model_identity_sound kinds raw id aliases plain h =
    let slug = normalize_external_model_slug raw in
    elim (Bool-cases (is_empty slug || has_channel_token slug)) [
      | inl refused ↦ absurd (cc (rw refused at h))
      | inr accepted ↦
          let picked = some_eq (rw accepted at h) in
          let trimmed =
            trim_space_fixed slug (normalize_external_model_slug-HasNoSpace raw plain) in
          elim (pick_candidate-cases kinds slug (external_model_candidates slug)) [
            | inl own ↦
                let same = sym own ∙ picked in
                let same_id = ap (λ (p : Text × List ModelAlias). p.0) same in
                (
                  rw (← same_id) (ground arith),
                  ground arith,
                  inl (sym same_id, sym (ap (λ (p : Text × List ModelAlias). p.1) same)),
                )
            | inr (c, found, listed, other) ↦
                let same = sym found ∙ picked in
                let same_id = ap (λ (p : Text × List ModelAlias). p.0) same in
                let (t, e) = (external_model_candidates-IsCandidateList slug).1 c listed in
                (
                  rw (← same_id) e,
                  ground arith,
                  inr (
                    rw same_id at listed,
                    λ x. other (same_id ∙ x),
                    sym (ap (λ (p : Text × List ModelAlias). p.1) same)
                        ∙ aliases_of_other kinds c slug t e trimmed (ground arith) other,
                  ),
                )
          ]
    ]
