-- ===== src/ModelIdentity/Candidates.antt =====
-- The candidates and the identity of an external model, in modelidentity/identity.go.
pub mod Laws
pub mod Snapshot
pub mod Instruct
use code_code_platform_catal.Prelude.{
  ℕ, Bool, true, false, ◌||◌, List, [], ◌∷◌, Option, none, some, if◌then◌else◌, ◌==◌, nat_eq,
  contains, push_distinct, collect_distinct,
}
use code_code_platform_catal.Text.{
  Text, codes, text_eq, is_empty, to_lower, trim_space, trim_suffix, fields_func,
}
use code_code_platform_catal.ModelIdentity.Slug.{normalize_external_model_slug}
use code_code_platform_catal.ModelIdentity.Suffix.{
  cut_precise_date_suffix, cut_calendar_release_suffix, cut_release_suffix,
  has_snapshot_release_suffix,
}

-- `modelv1.ModelAlias`; the kind is the number of a value of the enum `modelv1.AliasKind`.
pub record ModelAlias : Type 0 where
  pub kind : ℕ
  pub value : Text

-- The two kinds that the program names; their numbers are the contract's.
pub record AliasKinds : Type 0 where
  pub stable : ℕ
  pub snapshot : ℕ

unfoldable pub split_model_token : ℕ → Bool
split_model_token c =
    c == b'-'
    || c == b'_'
    || c == b'.'
    || c == b'/'
    || c == b':'
    || c == 32
    || c == b'('
    || c == b')'

unfoldable pub is_channel_token : Text → Bool
is_channel_token token =
    token == codes "preview" || token == codes "latest" || token == codes "experimental"

unfoldable pub any_token : (Text → Bool) → List Text → Bool
any_token p [] = false
any_token p (token ∷ tokens) = p token || any_token p tokens

unfoldable pub has_channel_token : Text → Bool
has_channel_token value =
    any_token is_channel_token (fields_func split_model_token (to_lower (trim_space value)))

-- A token as `HasModelToken` puts it into its set.
abbrev known_token : Text → Option Text
known_token token = let t = trim_space (to_lower token) in if is_empty t then none else some t

unfoldable pub has_model_token : Text → List Text → Bool
has_model_token value [] = false
has_model_token value (token ∷ tokens) =
    any_token (contains (collect_distinct known_token (token ∷ tokens)))
      (fields_func split_model_token (to_lower (trim_space value)))

unfoldable pub build_external_aliases : AliasKinds → Text → Text → List ModelAlias
build_external_aliases kinds model_id raw =
    let m = trim_space model_id in
    let r = trim_space raw in
    if is_empty m || is_empty r || m == r
    then []
    else record {
      kind = if has_snapshot_release_suffix r then kinds.snapshot else kinds.stable;
      value = r;
    }
      ∷ []

-- The closure `appendCandidate`.
unfoldable pub candidate : Text → Option Text
candidate c = let t = trim_space c in if is_empty t then none else some t

abbrev pub append_candidate : List Text → Text → List Text
append_candidate out c = push_distinct (candidate c) out

unfoldable pub append_base : List Text → Option (Text × Text) → List Text
append_base out none = out
append_base out (some (base, _)) = append_candidate out base

unfoldable pub append_bases : List Text → Option (Text × Text) → List Text
append_bases out none = out
append_bases out (some (base, _)) =
    append_candidate (append_candidate out base) (trim_suffix (codes "-instruct") base)

unfoldable pub external_model_candidates : Text → List Text
external_model_candidates raw =
    let dated = append_base [] (cut_precise_date_suffix raw) in
    let calendar = append_bases dated (cut_calendar_release_suffix raw) in
    let released = append_bases calendar (cut_release_suffix raw) in append_candidate released raw

-- The loop over the candidates.
unfoldable pub pick_candidate : AliasKinds → Text → List Text → Text × List ModelAlias
pick_candidate kinds raw [] = (raw, [])
pick_candidate kinds raw (c ∷ cs) =
    let rest = pick_candidate kinds raw cs in
    if c == raw then rest else (c, build_external_aliases kinds c raw)

unfoldable pub normalize_external_model_identity :
    AliasKinds → Text → Option (Text × List ModelAlias)
normalize_external_model_identity kinds raw =
    let slug = normalize_external_model_slug raw in
    if is_empty slug || has_channel_token slug
    then none
    else some (pick_candidate kinds slug (external_model_candidates slug))
