-- ===== src/Store/Registry/Observations.antt =====
-- models/store/store_write.go and codec.go: the rows that are inserted for observations.
use code_code_platform_catal.Prelude.{
  ◌≡◌, refl, sym, ap, ◌∙◌, false, List, [], ◌∷◌, ◌++◌, Option, none, some, some_eq, nat_eq, arith,
  inl, inr, Bool-cases, bind-some, ◌>>=◌, All, contains, append-nil, append_assoc,
}
use code_code_platform_catal.Text.{Text, text_eq, is_empty}
use code_code_platform_catal.Models.Registry.{RegistrySource, normalize_registry_model_source}
use code_code_platform_catal.Store.Codec.{
  registry_model_source_kind_to_db_string, observation_key, keep_observations,
}
use code_code_platform_catal.Store.Json.{
  encode_model_definition, encode_string_slice, encode_pricing,
}
use code_code_platform_catal.Store.Tables.{RowKey, row_key_eq, EntryRow, ObservationRow, Tables}
use code_code_platform_catal.Store.Write.{
  Context, observation_row, insert_observation, insert_observations,
}

-- The columns of the row of an observation.
pub record IsObservationRow (context : Context Tables) (k : RowKey) (o : RegistrySource)
    (row : ObservationRow) : Type 0 where
  pub at : row.at ≡ k
  pub source_id : row.source_id ≡ o.source_id
  pub is_direct : row.is_direct ≡ o.is_direct
  pub kind : row.kind ≡ registry_model_source_kind_to_db_string context.kinds o.kind
  pub source_model_id : row.source_model_id ≡ o.source_model_id
  pub definition :
      (encode_model_definition context.json o.definition >>= context.to_jsonb) ≡ some row.definition
  pub badges : (encode_string_slice context.json o.badges >>= context.to_jsonb) ≡ some row.badges
  pub pricing : (encode_pricing context.json o.pricing >>= context.to_jsonb) ≡ some row.pricing

-- One row for each observation, in their order.
abbrev pub AreObservationRows :
    Context Tables → RowKey → List RegistrySource → List ObservationRow → Type 0
AreObservationRows context k [] [] = Unit
AreObservationRows context k [] (row ∷ rows) = ⊥
AreObservationRows context k (o ∷ observations) [] = ⊥
AreObservationRows context k (o ∷ observations) (row ∷ rows) =
    IsObservationRow context k o row × AreObservationRows context k observations rows

pub keep_observations-named :
    (seen : List Text) (observations : List (Option RegistrySource))
    → All
        (λ (o : RegistrySource). is_empty o.source_id ≡ false)
        (keep_observations seen observations)
unfolding keep_observations
keep_observations-named seen [] = tt
keep_observations-named seen (none ∷ observations) = keep_observations-named seen observations
keep_observations-named seen (some o ∷ observations) =
    let n = normalize_registry_model_source o in
    elim (Bool-cases (is_empty n.source_id)) [
      | inl blank ↦ rw (blank, keep_observations) (keep_observations-named seen observations)
      | inr named ↦ elim (Bool-cases (contains seen (observation_key n))) [
        | inl old ↦ rw (named, old, keep_observations) (keep_observations-named seen observations)
        | inr new ↦
            rw (named, new, keep_observations)
              (named, keep_observations-named (observation_key n ∷ seen) observations)
      ]
    ]

module _ (context : Context Tables) where
  observation_row-IsObservationRow :
      (k : RowKey) (o : RegistrySource) (row : ObservationRow)
      → observation_row context k o ≡ some row
      → IsObservationRow context k o row
  unfolding observation_row
  observation_row-IsObservationRow k o row h = record {
    at = ground (arith, h);
    source_id = ground (arith, h);
    is_direct = ground (arith, h);
    kind = ground (arith, h);
    source_model_id = ground (arith, h);
    definition = ground (arith, h);
    badges = ground (arith, h);
    pricing = ground (arith, h);
  }

  insert_observation-append :
      (entries : List EntryRow) (row : ObservationRow) (rows out : List ObservationRow)
      → insert_observation context entries row rows ≡ some out
      → out ≡ rows ++ row ∷ []
  unfolding insert_observation
  insert_observation-append entries row rows out h = ground (arith, h)

  insert_observations-step :
      (entries : List EntryRow) (k : RowKey) (o : RegistrySource)
      → (observations : List RegistrySource) (rows : List ObservationRow)
      → is_empty o.source_id ≡ false
      → insert_observations context entries k (o ∷ observations) rows ≡ (
          observation_row context k o >>= (λ row.
            insert_observation context entries row rows
            >>= insert_observations context entries k observations))
  unfolding insert_observations
  insert_observations-step entries k o observations rows n = rw (n, insert_observations) refl

  pub insert_observations-append :
      (entries : List EntryRow) (k : RowKey) (observations : List RegistrySource)
      → (rows out : List ObservationRow)
      → All (λ (o : RegistrySource). is_empty o.source_id ≡ false) observations
      → insert_observations context entries k observations rows ≡ some out
      → (added : List ObservationRow) × (out ≡ rows ++ added)
        × AreObservationRows context k observations added
  unfolding insert_observations
  insert_observations-append entries k [] rows out named h =
      ([], sym (some_eq h) ∙ sym (append-nil rows), tt)
  insert_observations-append entries k (o ∷ observations) rows out (n, named) h =
      let (row, made, h1) =
        bind-some (observation_row context k o)
          (λ row.
            insert_observation context entries row rows
            >>= insert_observations context entries k observations)
          out (sym (insert_observations-step entries k o observations rows n) ∙ h) in
      let (next, inserted, h2) =
        bind-some (insert_observation context entries row rows)
          (insert_observations context entries k observations) out h1 in
      let (added, appended, are) =
        insert_observations-append entries k observations next out named h2 in
      (
        row ∷ added,
        appended
            ∙ ap (λ l. l ++ added) (insert_observation-append entries row rows next inserted)
            ∙ append_assoc rows (row ∷ []) added,
        (observation_row-IsObservationRow k o row made, are),
      )

  pub AreObservationRows-at :
      (k : RowKey) (observations : List RegistrySource) (rows : List ObservationRow)
      → AreObservationRows context k observations rows
      → All (λ (row : ObservationRow). row.at ≡ k) rows
  AreObservationRows-at k [] [] h = tt
  AreObservationRows-at k [] (row ∷ rows) h = absurd h
  AreObservationRows-at k (o ∷ observations) [] h = absurd h
  AreObservationRows-at k (o ∷ observations) (row ∷ rows) (is, h) =
      (is.at, AreObservationRows-at k observations rows h)
