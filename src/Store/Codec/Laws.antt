-- ===== src/Store/Codec/Laws.antt =====
-- The normalized observations of store/codec.go.
use code_code_platform_catal.Prelude.{
  ◌≡◌, refl, true, false, List, [], ◌∷◌, Option, none, some, arith, inl, inr, map, Bool-cases,
  eq_self, eq_iff, nat_eq, contains, IsDistinct,
}
use code_code_platform_catal.Text.{Text, text_eq, is_empty}
use code_code_platform_catal.Models.Registry.{RegistrySource, normalize_registry_model_source}
use code_code_platform_catal.Store.Codec.{
  observation_key, keep_observations, normalize_registry_observations,
}

not_seen :
    (seen : List Text) (observations : List (Option RegistrySource)) (k : Text)
    → contains seen k ≡ true
    → contains (map observation_key (keep_observations seen observations)) k ≡ false
unfolding keep_observations contains
not_seen seen [] k h = refl
not_seen seen (none ∷ observations) k h = not_seen seen observations k h
not_seen seen (some o ∷ observations) k h =
    let n = normalize_registry_model_source o in
    elim (Bool-cases (is_empty n.source_id)) [
      | inl blank ↦ rw (blank, keep_observations) (not_seen seen observations k h)
      | inr named ↦ elim (Bool-cases (contains seen (observation_key n))) [
        | inl old ↦ rw (named, old, keep_observations) (not_seen seen observations k h)
        | inr new ↦
            rw (named, new, keep_observations)
              (ground (
                arith,
                h,
                new,
                eq_iff (observation_key n) k,
                not_seen (observation_key n ∷ seen) observations k,
              ))
      ]
    ]

keep_observations-IsDistinct :
    (seen : List Text) (observations : List (Option RegistrySource))
    → IsDistinct (map observation_key (keep_observations seen observations))
unfolding keep_observations
keep_observations-IsDistinct seen [] = tt
keep_observations-IsDistinct seen (none ∷ observations) =
    keep_observations-IsDistinct seen observations
keep_observations-IsDistinct seen (some o ∷ observations) =
    let n = normalize_registry_model_source o in
    elim (Bool-cases (is_empty n.source_id)) [
      | inl blank ↦ rw (blank, keep_observations) (keep_observations-IsDistinct seen observations)
      | inr named ↦ elim (Bool-cases (contains seen (observation_key n))) [
        | inl old ↦
            rw (named, old, keep_observations) (keep_observations-IsDistinct seen observations)
        | inr new ↦
            rw (named, new, keep_observations)
              (
                not_seen (observation_key n ∷ seen) observations (observation_key n)
                    (unfold contains in ground (arith, eq_self (observation_key n))),
                keep_observations-IsDistinct (observation_key n ∷ seen) observations,
              )
      ]
    ]

-- No two observations that are stored for an entry have the same source, model and directness.
pub normalize_registry_observations-IsDistinct :
    (observations : List (Option RegistrySource))
    → IsDistinct (map observation_key (normalize_registry_observations observations))
unfolding normalize_registry_observations
normalize_registry_observations-IsDistinct observations =
    keep_observations-IsDistinct [] observations
