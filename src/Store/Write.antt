-- ===== src/Store/Write.antt =====
-- models/store/store_write.go: the statements of a transaction that replace the aliases and the
-- observations of an entry and enqueue its event. A failing statement is `none`.
use code_code_platform_catal.Prelude.{
  ℕ, Ordering, Bool, true, false, not, ◌&&◌, List, [], ◌∷◌, ◌++◌, Option, none, some, if◌then◌else◌,
  ◌==◌, ◌>>=◌,
}
use code_code_platform_catal.Text.{Text, codes, text_eq, is_empty, trim_space}
use code_code_platform_catal.ModelIdentity.Candidates.{ModelAlias}
use code_code_platform_catal.Models.Types.{ModelVersion}
use code_code_platform_catal.Models.Definition.{SurfaceIdentity, identity_from_definition}
use code_code_platform_catal.Models.Registry.{RegistrySource}
use code_code_platform_catal.Events.Subjects.{DomainEvent}
use code_code_platform_catal.Events.Outbox.{Row, enqueue}
use code_code_platform_catal.Store.Codec.{
  KindNumbers, registry_model_source_kind_to_db_string, normalize_registry_observations,
  normalize_model_definition_aliases,
}
use code_code_platform_catal.Store.Json.{
  Json, encode_model_definition, encode_string_slice, encode_pricing,
}
use code_code_platform_catal.Store.Tables.{
  RowKey, EntryRow, AliasRow, ObservationRow, is_storable, delete_at, has_entry, has_alias_row,
  has_observation_row,
}

-- The contract's enum of mutations.
pub data DomainMutation : Type 0 where
  mutation_created : DomainMutation
  mutation_deleted : DomainMutation
  mutation_updated : DomainMutation

-- `CatalogEvent` of a model definition; a nil clone is a nil definition.
pub record CatalogEvent : Type 0 where
  pub mutation : DomainMutation
  pub catalog_id : Text
  pub definition : Option ModelVersion

-- What the registry is built with, and what the libraries, the database and the clock give: a text
-- as `jsonb` keeps it, the name of an alias kind, the order of texts, whether all statements of a transaction reach the
-- database, and the next identifier and time of an event. `outbox` is nil or its producer.
pub record Context (S : Type 0) : Type 0 where
  pub namespace : Text
  pub outbox : Option Text
  pub json : Json
  pub kinds : KindNumbers
  pub to_jsonb : Text → Option Text
  pub alias_kind_name : ℕ → Text
  pub marshal_event : DomainEvent CatalogEvent → Option Text
  pub collate : Text → Text → Ordering
  pub answers : S → Bool
  pub fresh : List Row → Text
  pub now : List Row → ℕ

module _ {S : Type 0} (context : Context S) where
  unfoldable pub at : SurfaceIdentity → RowKey
  at identity = record {
    namespace = context.namespace;
    vendor_id = identity.vendor_id;
    model_id = identity.model_id;
  }

  abbrev pub alias_row : RowKey → ModelAlias → AliasRow
  alias_row k alias = record {
    at = k;
    alias_kind = context.alias_kind_name alias.kind;
    alias_value = alias.value;
  }

  -- One `insert`: the texts, the foreign key and the primary key.
  unfoldable pub insert_alias : List EntryRow → AliasRow → List AliasRow → Option (List AliasRow)
  insert_alias entries row rows =
      if is_storable row.alias_kind
        && is_storable row.alias_value
        && has_entry row.at entries
        && not (has_alias_row row rows)
      then some (rows ++ row ∷ [])
      else none

  unfoldable pub insert_aliases :
      List EntryRow → RowKey → List ModelAlias → List AliasRow → Option (List AliasRow)
  insert_aliases entries k [] rows = some rows
  insert_aliases entries k (alias ∷ aliases) rows =
      insert_alias entries (alias_row k alias) rows >>= insert_aliases entries k aliases

  unfoldable pub replace_aliases :
      List EntryRow → RowKey → Option ModelVersion → List AliasRow → Option (List AliasRow)
  replace_aliases entries k definition rows =
      insert_aliases entries k (normalize_model_definition_aliases definition)
        (delete_at (λ row. row.at) k rows)

  -- The row of an observation: `nullif($7, '')` is no value for a column that is not null.
  unfoldable pub observation_row : RowKey → RegistrySource → Option ObservationRow
  observation_row k observation = do
    definition_json ← encode_model_definition context.json observation.definition
    badges_json ← encode_string_slice context.json observation.badges
    pricing_json ← encode_pricing context.json observation.pricing
    definition ← context.to_jsonb definition_json
    badges ← context.to_jsonb badges_json
    pricing ← context.to_jsonb pricing_json
    if is_empty observation.source_model_id
        then none
        else some (record {
          at = k;
          source_id = observation.source_id;
          is_direct = observation.is_direct;
          kind = registry_model_source_kind_to_db_string context.kinds observation.kind;
          source_model_id = observation.source_model_id;
          definition = definition;
          badges = badges;
          pricing = pricing;
        })

  unfoldable pub insert_observation :
      List EntryRow → ObservationRow → List ObservationRow → Option (List ObservationRow)
  insert_observation entries row rows =
      if is_storable row.source_id
        && is_storable row.source_model_id
        && has_entry row.at entries
        && not (has_observation_row row rows)
      then some (rows ++ row ∷ [])
      else none

  unfoldable pub insert_observations :
      List EntryRow
      → RowKey
      → List RegistrySource
      → List ObservationRow
      → Option (List ObservationRow)
  insert_observations entries k [] rows = some rows
  insert_observations entries k (observation ∷ observations) rows =
      elim (is_empty observation.source_id) [
        | true ↦ insert_observations entries k observations rows
        | false ↦ do
          row ← observation_row k observation
          inserted ← insert_observation entries row rows
          insert_observations entries k observations inserted
      ]

  unfoldable pub replace_observations :
      List EntryRow
      → RowKey
      → List (Option RegistrySource)
      → List ObservationRow
      → Option (List ObservationRow)
  replace_observations entries k observations rows =
      insert_observations entries k (normalize_registry_observations observations)
        (delete_at (λ row. row.at) k rows)

  unfoldable pub model_definition_domain_mutation : Text → DomainMutation
  model_definition_domain_mutation mutation =
      if trim_space mutation == codes "created"
      then mutation_created
      else if trim_space mutation == codes "deleted"
      then mutation_deleted
      else mutation_updated

  unfoldable pub catalog_id : SurfaceIdentity → Text
  catalog_id identity = identity.vendor_id ++ (b'/' ∷ identity.model_id)

  unfoldable pub definition_event :
      SurfaceIdentity → Option ModelVersion → Text → ℕ → DomainEvent CatalogEvent
  definition_event identity definition mutation generation = record {
    event_id = [];
    event_type = mutation;
    aggregate_type = codes "catalog";
    aggregate_id = catalog_id identity;
    aggregate_version = generation;
    occurred_at = none;
    producer = [];
    payload = record {
      mutation = model_definition_domain_mutation mutation;
      catalog_id = catalog_id identity;
      definition = definition;
    };
  }

  unfoldable pub enqueue_model_definition_event :
      Option ModelVersion → Text → ℕ → List Row → Option (List Row)
  enqueue_model_definition_event definition mutation generation rows = elim context.outbox [
    | none ↦ some rows
    | some producer ↦ do
      identity ← identity_from_definition definition
      enqueue context.marshal_event (context.fresh rows) (context.now rows) producer
          (some (definition_event identity definition mutation generation)) rows
  ]
