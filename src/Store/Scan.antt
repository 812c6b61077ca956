-- ===== src/Store/Scan.antt =====
-- models/store/postgres_management.go: the rows of an entry and of its observations read back.
use Prim.Native.Nat.{Ordering}
use code_code_platform_catal.Prelude.{
  ◌||◌, List, [], ◌∷◌, Option, none, some, if◌then◌else◌, ◌==◌, sort_by, keep, ◌>>=◌,
}
use code_code_platform_catal.Text.{Text, text_eq, is_empty, trim_space}
use code_code_platform_catal.Models.Definition.{SurfaceIdentity, new_surface_identity}
use code_code_platform_catal.Models.Registry.{
  RegistryEntry, RegistrySource, normalize_registry_model_source,
}
use code_code_platform_catal.Store.Codec.{registry_model_source_kind_from_db_string}
use code_code_platform_catal.Store.Json.{
  decode_model_definition, decode_string_slice, decode_pricing,
}
use code_code_platform_catal.Store.Tables.{
  RowKey, row_key_eq, EntryRow, ObservationRow, Tables, is_storable_key, find_entry,
}
use code_code_platform_catal.Store.Write.{Context, at}

-- The outcomes of `getRegistryEntry`.
pub data EntryLookup : Type 0 where
  required : EntryLookup
  not_stored : EntryLookup
  unreadable : EntryLookup
  entry : RegistryEntry → EntryLookup

module _ (context : Context Tables) where
  unfoldable pub scan_registry_entry_base : EntryRow → Option (SurfaceIdentity × RegistryEntry)
  scan_registry_entry_base row = do
    identity ← new_surface_identity row.at.vendor_id row.at.model_id
    definition ← decode_model_definition context.json row.definition
    badges ← decode_string_slice context.json row.badges
    pricing ← decode_pricing context.json row.pricing
    some (
      identity,
      record { definition = some definition; badges = badges; pricing = pricing; sources = [] },
    )

  unfoldable pub scan_source : ObservationRow → Option RegistrySource
  scan_source row = do
    definition ← decode_model_definition context.json row.definition
    badges ← decode_string_slice context.json row.badges
    pricing ← decode_pricing context.json row.pricing
    some (
        normalize_registry_model_source (record {
          source_id = row.source_id;
          kind = registry_model_source_kind_from_db_string context.kinds row.kind;
          is_direct = row.is_direct;
          source_model_id = row.source_model_id;
          definition = some definition;
          badges = badges;
          pricing = pricing;
        }))

  unfoldable pub scan_sources : List ObservationRow → Option (List RegistrySource)
  scan_sources [] = some []
  scan_sources (row ∷ rows) =
      let rest = scan_sources rows in
      do source ← scan_source row; sources ← rest; some (source ∷ sources)

  -- `is_direct desc, source_id, source_model_id`.
  unfoldable pub compare_observation : ObservationRow → ObservationRow → Ordering
  compare_observation left right =
      let by_source : Ordering = elim (context.collate left.source_id right.source_id) [
        | Ordering.lt ↦ Ordering.lt
        | Ordering.eq ↦ context.collate left.source_model_id right.source_model_id
        | Ordering.gt ↦ Ordering.gt
      ] in
      if left.is_direct
      then if right.is_direct then by_source else Ordering.lt
      else if right.is_direct
      then Ordering.gt
      else by_source

  unfoldable pub list_entry_sources : RowKey → List ObservationRow → Option (List RegistrySource)
  list_entry_sources k rows =
      if is_storable_key k
      then scan_sources (sort_by compare_observation (keep (λ row. row.at == k) rows))
      else none

  unfoldable pub scan_registry_entry : Tables → EntryRow → Option RegistryEntry
  scan_registry_entry tables row = do
    (identity, base) ← scan_registry_entry_base row
    sources ← list_entry_sources (at context identity) tables.observations
    some (record base { sources = sources })

  unfoldable pub entry_lookup : Option RegistryEntry → EntryLookup
  entry_lookup none = unreadable
  entry_lookup (some found) = entry found

  unfoldable pub get_registry_entry : Text → Text → Tables → EntryLookup
  get_registry_entry vendor model tables =
      let vendor_id = trim_space vendor in
      let model_id = trim_space model in
      let k = at context (record { vendor_id = vendor_id; model_id = model_id }) in
      if is_empty vendor_id || is_empty model_id
      then required
      else if context.answers tables
      then if is_storable_key k
        then elim (find_entry k tables.entries) [
          | none ↦ not_stored
          | some row ↦ entry_lookup (scan_registry_entry tables row)
        ]
        else unreadable
      else unreadable
