-- ===== src/Store/Registry.antt =====
-- models/store/store.go: the registry over its tables. Each operation is one transaction, which
-- leaves the tables as they were when it fails.
pub mod Rows
pub mod Others
pub mod Observations
pub mod References
pub mod Upsert
pub mod Deleted
pub mod Laws
pub mod Enqueued
pub mod Committed
pub mod Refused
use code_code_platform_catal.Prelude.{
  ℕ, Bool, true, false, not, ◌&&◌, ◌||◌, List, [], ◌∷◌, ◌++◌, map, Option, none, some,
  if◌then◌else◌, ◌==◌, ◌+◌, sort_by, ◌>>=◌, Ordering,
}
use Prim.Native.Nat.{◌%◌, ◌^◌}
use code_code_platform_catal.Text.{Text, codes, text_eq, is_empty, trim_space, compare_text}
use code_code_platform_catal.Models.Types.{ModelVersion}
use code_code_platform_catal.Models.Definition.{
  SurfaceIdentity, new_surface_identity, identity_from_definition,
}
use code_code_platform_catal.Models.Registry.{RegistryEntry}
use code_code_platform_catal.Events.Outbox.{Row}
use code_code_platform_catal.Sync.Apply.{
  StoredDefinition, Deletion, deleted, failed, DefinitionSyncStore,
}
use code_code_platform_catal.Store.Json.{
  decode_model_definition, encode_model_definition, encode_string_slice, encode_pricing,
}
use code_code_platform_catal.Store.Tables.{
  RowKey, row_key_eq, EntryRow, Tables, is_storable_key, find_entry, has_entry, delete_at,
}
use code_code_platform_catal.Store.Write.{
  Context, at, replace_aliases, replace_observations, enqueue_model_definition_event,
}

-- The outcomes of `getDefinitionForUpdate`.
pub data Found : Type 0 where
  no_rows : Found
  broken : Found
  found : ModelVersion → ℕ → Found

-- `order by vendor_id, model_id`.
unfoldable pub compare_entry : (Text → Text → Ordering) → EntryRow → EntryRow → Ordering
compare_entry collate left right = elim (collate left.at.vendor_id right.at.vendor_id) [
  | Ordering.lt ↦ Ordering.lt
  | Ordering.eq ↦ collate left.at.model_id right.at.model_id
  | Ordering.gt ↦ Ordering.gt
]

unfoldable pub rows_of : Text → List EntryRow → List EntryRow
rows_of namespace [] = []
rows_of namespace (row ∷ rows) =
    let rest = rows_of namespace rows in if row.at.namespace == namespace then row ∷ rest else rest

unfoldable pub update_entry : EntryRow → List EntryRow → List EntryRow
update_entry row [] = []
update_entry row (r ∷ rows) = (if r.at == row.at then row else r) ∷ update_entry row rows

-- The `insert` of a created entry and the `update` of another one.
unfoldable pub write_entry : Text → EntryRow → List EntryRow → Option (List EntryRow)
write_entry mutation row rows =
    if mutation == codes "created"
    then if is_storable_key row.at && not (has_entry row.at rows)
      then some (rows ++ row ∷ [])
      else none
    else some (update_entry row rows)

module _ (context : Context Tables) where
  unfoldable pub stored_definition : EntryRow → Option StoredDefinition
  stored_definition row = do
    definition ← decode_model_definition context.json row.definition
    identity ← new_surface_identity row.at.vendor_id row.at.model_id
    some (record { identity = identity; definition = some definition })

  unfoldable pub stored_definitions : List EntryRow → Option (List StoredDefinition)
  stored_definitions [] = some []
  stored_definitions (row ∷ rows) =
      let rest = stored_definitions rows in do d ← stored_definition row; ds ← rest; some (d ∷ ds)

  unfoldable pub list_managed_definitions : Tables → Option (List StoredDefinition)
  list_managed_definitions tables =
      if context.answers tables
      then stored_definitions
          (sort_by (compare_entry context.collate) (rows_of context.namespace tables.entries))
      else none

  unfoldable pub get_definition_for_update : RowKey → List EntryRow → Found
  get_definition_for_update k rows =
      if is_storable_key k
      then elim (find_entry k rows) [
        | none ↦ no_rows
        | some row ↦ elim (decode_model_definition context.json row.definition) [
          | none ↦ broken
          | some definition ↦ found definition row.generation
        ]
      ]
      else broken

  -- The generation is the bit pattern of an int64.
  unfoldable pub next_generation : RowKey → List EntryRow → Option (ℕ × Text)
  next_generation k rows = elim (get_definition_for_update k rows) [
    | no_rows ↦ some (1, codes "created")
    | broken ↦ none
    | found _ generation ↦ some ((generation + 1) % 2 ^ 64, codes "updated")
  ]

  -- The row of the entry, and whether it is created.
  unfoldable pub entry_row : RowKey → RegistryEntry → ℕ → Option EntryRow
  entry_row k entry generation = do
    definition_json ← encode_model_definition context.json entry.definition
    badges_json ← encode_string_slice context.json entry.badges
    pricing_json ← encode_pricing context.json entry.pricing
    definition ← context.to_jsonb definition_json
    badges ← context.to_jsonb badges_json
    pricing ← context.to_jsonb pricing_json
    some (record {
      at = k;
      definition = definition;
      badges = badges;
      pricing = pricing;
      generation = generation;
    })

  -- What the transaction does once the entry is written.
  unfoldable pub upsert_references :
      SurfaceIdentity → RegistryEntry → ℕ × Text → List EntryRow → Tables → Option Tables
  upsert_references identity entry (generation, mutation) entries tables = do
    aliases ← replace_aliases context entries (at context identity) entry.definition tables.aliases
    observations ←
        replace_observations context entries (at context identity) (map some entry.sources)
          tables.observations
    outbox ←
        enqueue_model_definition_event context entry.definition mutation generation tables.outbox
    some (record {
      entries = entries;
      aliases = aliases;
      observations = observations;
      outbox = outbox;
    })

  unfoldable pub upsert_entry : SurfaceIdentity → RegistryEntry → ℕ × Text → Tables → Option Tables
  upsert_entry identity entry (generation, mutation) tables = do
    row ← entry_row (at context identity) entry generation
    entries ← write_entry mutation row tables.entries
    upsert_references identity entry (generation, mutation) entries tables

  unfoldable pub upsert_transaction : SurfaceIdentity → RegistryEntry → Tables → Option Tables
  upsert_transaction identity entry tables = do
    generated ← next_generation (at context identity) tables.entries
    upsert_entry identity entry generated tables

  unfoldable pub upsert_managed_definition : Option RegistryEntry → Tables → Option Tables
  upsert_managed_definition none tables = none
  upsert_managed_definition (some entry) tables = do
    identity ← identity_from_definition entry.definition
    if context.answers tables then upsert_transaction identity entry tables else none

  -- The two `delete` statements; the foreign key takes the aliases along.
  unfoldable pub without_entry : RowKey → List Row → Tables → Tables
  without_entry k outbox tables = record {
    entries = delete_at (λ row. row.at) k tables.entries;
    aliases = delete_at (λ row. row.at) k tables.aliases;
    observations = delete_at (λ row. row.at) k tables.observations;
    outbox = outbox;
  }

  unfoldable pub delete_found : RowKey → ModelVersion → ℕ → Tables → Deletion Tables
  delete_found k definition generation tables =
      elim (enqueue_model_definition_event context (some definition) (codes "deleted") generation
        tables.outbox) [ none ↦ failed | some outbox ↦ deleted (without_entry k outbox tables) ]

  unfoldable pub delete_transaction : SurfaceIdentity → Tables → Deletion Tables
  delete_transaction identity tables =
      elim (get_definition_for_update (at context identity) tables.entries) [
        | no_rows ↦ deleted tables
        | broken ↦ failed
        | found definition generation ↦
            delete_found (at context identity) definition generation tables
      ]

  -- An identity with a blank part is no error.
  unfoldable pub delete_managed_definition : SurfaceIdentity → Tables → Deletion Tables
  delete_managed_definition identity tables =
      if is_empty (trim_space identity.vendor_id) || is_empty (trim_space identity.model_id)
      then deleted tables
      else if context.answers tables
      then delete_transaction identity tables
      else failed

  -- `DefinitionSyncStore` of the package `models/sync`.
  abbrev pub definition_sync_store : DefinitionSyncStore Tables
  definition_sync_store = record {
    list_managed_definitions = list_managed_definitions;
    upsert_managed_definition = upsert_managed_definition;
    delete_managed_definition = delete_managed_definition;
  }
