-- ===== src/Store/Registry/Refused.antt =====
-- models/store/store_write.go and migration 13 of platform/state/migrations.go: an observation
-- without a source model ID.
use code_code_platform_catal.Prelude.{
  ◌≡◌, refl, Bool, true, false, List, [], ◌∷◌, map, Option, none, some, arith, inl, inr, Bool-cases,
  Any, All, ◌>>=◌, contains, ℕ, if◌then◌else◌,
}
use code_code_platform_catal.Text.{Text, is_empty, text_eq}
use code_code_platform_catal.Models.Definition.{SurfaceIdentity, identity_from_definition}
use code_code_platform_catal.Models.Registry.{
  RegistryEntry, RegistrySource, normalize_registry_model_source,
}
use code_code_platform_catal.Store.Codec.{
  normalize_registry_observations, keep_observations, observation_key,
}
use code_code_platform_catal.Store.Tables.{RowKey, EntryRow, ObservationRow, Tables, delete_at}
use code_code_platform_catal.Store.Write.{
  at, replace_aliases, Context, observation_row, insert_observation, insert_observations,
  replace_observations,
}
use code_code_platform_catal.Store.Registry.{
  next_generation, entry_row, write_entry, upsert_references, upsert_entry, upsert_transaction,
  upsert_managed_definition,
}

abbrev pub IsNamed : RegistrySource → Type 0
IsNamed o = is_empty o.source_id ≡ false

keep_observations-IsNamed :
    (seen : List Text) (os : List (Option RegistrySource)) → All IsNamed (keep_observations seen os)
unfolding keep_observations
keep_observations-IsNamed seen [] = tt
keep_observations-IsNamed seen (none ∷ os) = keep_observations-IsNamed seen os
keep_observations-IsNamed seen (some o ∷ os) =
    let normalized = normalize_registry_model_source o in
    elim (Bool-cases (is_empty normalized.source_id)) [
      | inl blank ↦ rw (blank, keep_observations) (keep_observations-IsNamed seen os)
      | inr named ↦ elim (Bool-cases (contains seen (observation_key normalized))) [
        | inl again ↦ rw (named, again, keep_observations) (keep_observations-IsNamed seen os)
        | inr new ↦
            rw (named, new, keep_observations)
              (named, keep_observations-IsNamed (observation_key normalized ∷ seen) os)
      ]
    ]

-- The source model ID is empty.
abbrev pub HasNoModel : RegistrySource → Type 0
HasNoModel o = is_empty o.source_model_id ≡ true

bind-none :
    {A B : Type 0} (o : Option A) (f : A → Option B) → ((a : A) → f a ≡ none) → (o >>= f) ≡ none
bind-none none f h = refl
bind-none (some a) f h = h a

bind-if : {A : Type 0} (b : Bool) (o : Option A) → o ≡ none → (if b then o else none) ≡ none
bind-if true o h = h
bind-if false o h = refl

module _ (context : Context Tables) where
  observation_row-null :
      (k : RowKey) (o : RegistrySource) → HasNoModel o → observation_row context k o ≡ none
  unfolding observation_row
  observation_row-null k o h = ground (arith, h)

  insert_observations-null :
      (entries : List EntryRow) (k : RowKey) (os : List RegistrySource) (rows : List ObservationRow)
      → All IsNamed os
      → Any HasNoModel os
      → insert_observations context entries k os rows ≡ none
  unfolding insert_observations
  insert_observations-null entries k [] rows named h = absurd h
  insert_observations-null entries k (o ∷ os) rows (named, all) (inl empty) =
      rw (named, observation_row-null k o empty, insert_observations) refl
  insert_observations-null entries k (o ∷ os) rows (named, all) (inr later) =
      rw (named, insert_observations)
        (bind-none (observation_row context k o) _ (λ row.
          bind-none (insert_observation context entries row rows) _
            (λ inserted. insert_observations-null entries k os inserted all later)))

  upsert_references-null :
      (i : SurfaceIdentity) (e : RegistryEntry) (g : ℕ × Text) (rows : List EntryRow) (s : Tables)
      → Any HasNoModel (normalize_registry_observations (map some e.sources))
      → upsert_references context i e g rows s ≡ none
  unfolding upsert_references replace_observations normalize_registry_observations
  upsert_references-null i e (g, m) rows s h =
      bind-none (replace_aliases context rows (at context i) e.definition s.aliases) _ (λ aliases.
        rw
          (insert_observations-null rows (at context i)
            (normalize_registry_observations (map some e.sources))
            (delete_at (λ row. row.at) (at context i) s.observations)
            (keep_observations-IsNamed [] (map some e.sources)) h)
          refl)

  upsert_entry-null :
      (i : SurfaceIdentity) (e : RegistryEntry) (g : ℕ × Text) (s : Tables)
      → Any HasNoModel (normalize_registry_observations (map some e.sources))
      → upsert_entry context i e g s ≡ none
  unfolding upsert_entry
  upsert_entry-null i e (g, m) s h = bind-none (entry_row context (at context i) e g) _ (λ row.
      bind-none (write_entry m row s.entries) _
        (λ rows. upsert_references-null i e (g, m) rows s h))

  -- Whatever the tables hold, UpsertManagedDefinition fails on an entry one of whose normalized
  -- observations has no source model ID.
  pub upsert_managed_definition-null :
      (e : RegistryEntry) (s : Tables)
      → Any HasNoModel (normalize_registry_observations (map some e.sources))
      → upsert_managed_definition context (some e) s ≡ none
  unfolding upsert_managed_definition upsert_transaction upsert_entry
  upsert_managed_definition-null e s h = bind-none (identity_from_definition e.definition) _ (λ i.
      bind-if (context.answers s) (upsert_transaction context i e s) (
        bind-none (next_generation context (at context i) s.entries) _
          (λ g. upsert_entry-null i e g s h)))
