-- ===== src/Tests/Registry.antt =====
-- The registry at a concrete context: an entry of generation 4 is written again, and one with an
-- observation without a source model ID is refused.
use code_code_platform_catal.Prelude.{
  ℕ, ◌≡◌, refl, Bool, true, false, List, [], ◌∷◌, ◌++◌, map, Option, none, some, inl, inr, Any,
}
use code_code_platform_catal.Text.{Text, codes, compare_text}
use code_code_platform_catal.Models.Types.{ModelVersion}
use code_code_platform_catal.Models.Definition.{SurfaceIdentity}
use code_code_platform_catal.Models.Registry.{RegistrySource, RegistryEntry}
use code_code_platform_catal.Store.Json.{Json}
use code_code_platform_catal.Store.Tables.{RowKey, EntryRow, Tables}
use code_code_platform_catal.Store.Write.{Context, at, catalog_id}
use code_code_platform_catal.Store.Registry.{upsert_managed_definition}
use code_code_platform_catal.Store.Registry.Laws.{IsRegistry, definition_sync_store-IsRegistry}
use code_code_platform_catal.Store.Registry.Committed.{
  IsCommitted, upsert_managed_definition-IsCommitted,
}
use code_code_platform_catal.Store.Registry.Refused.{HasNoModel, upsert_managed_definition-null}

abbrev pub definition : ModelVersion
definition = record {
  vendor_id = codes "o";
  model_id = codes "x ";
  display_name = codes "X";
  primary_shape = 0;
  supported_shapes = [];
  capabilities = [];
  input_modalities = [];
  output_modalities = [];
  context_spec = none;
  aliases = some (record { kind = 1; value = codes " x-1 " }) ∷ none ∷ [];
}

abbrev pub plain : Json
plain = record {
  marshal_definition = λ d. some (d.vendor_id ++ 34 ∷ d.model_id);
  unmarshal_definition = λ raw. some definition;
  marshal_strings = λ values. some (codes "[]");
  unmarshal_strings = λ raw. some [];
  marshal_pricing = λ pricing. some (codes "{}");
  unmarshal_pricing = λ raw. none;
}

abbrev pub context : Context Tables
context = record {
  namespace = codes "code";
  outbox = some (codes "models");
  json = plain;
  kinds = record { discovered = 1; preset = 2 };
  to_jsonb = λ raw. some raw;
  alias_kind_name = λ kind. codes "ALIAS";
  marshal_event = λ event. some event.aggregate_id;
  collate = compare_text;
  answers = λ tables. true;
  fresh = λ rows. codes "id";
  now = λ rows. 7;
}

abbrev identity : SurfaceIdentity
identity = record { vendor_id = codes "o"; model_id = codes "x" }

abbrev columns : RowKey
columns = record { namespace = codes "code"; vendor_id = codes "o"; model_id = codes "x" }

abbrev tables : Tables
tables = record {
  entries =
      record {
        at = columns;
        definition = codes "{}";
        badges = codes "[]";
        pricing = codes "null";
        generation = 4;
      }
      ∷ [];
  aliases = record { at = columns; alias_kind = codes "ALIAS"; alias_value = codes "old" } ∷ [];
  observations = [];
  outbox = [];
}

abbrev observation : Text → RegistrySource
observation model_id = record {
  source_id = codes "hub";
  kind = 1;
  is_direct = true;
  source_model_id = model_id;
  definition = none;
  badges = [];
  pricing = none;
}

abbrev entry : Text → RegistryEntry
entry model_id = record {
  definition = some definition;
  badges = [];
  pricing = none;
  sources = observation model_id ∷ [];
}

abbrev stored : Tables
stored = record {
  entries =
      record {
        at = columns;
        definition = codes "o\"x ";
        badges = codes "[]";
        pricing = codes "null";
        generation = 5;
      }
      ∷ [];
  aliases = record { at = columns; alias_kind = codes "ALIAS"; alias_value = codes "x-1" } ∷ [];
  observations =
      record {
        at = columns;
        source_id = codes "hub";
        is_direct = true;
        kind = codes "discovered";
        source_model_id = codes "y";
        definition = codes "null";
        badges = codes "[]";
        pricing = codes "null";
      }
      ∷ [];
  outbox =
      record {
        event_id = codes "id";
        subject = codes "platform.domain.catalog.updated";
        payload = codes "o/x";
        aggregate_type = codes "catalog";
        aggregate_id = codes "o/x";
        aggregate_version = 5;
        created_at = 7;
        published_at = none;
        attempts = 0;
        last_error = [];
      }
      ∷ [];
}

definition_sync_store-IsRegistry_example : IsRegistry context
definition_sync_store-IsRegistry_example = definition_sync_store-IsRegistry context

upsert_result : upsert_managed_definition context (some (entry (codes "y"))) tables ≡ some stored
unfolding upsert_managed_definition
    code_code_platform_catal.Models.Definition.identity_from_definition
    code_code_platform_catal.Models.Definition.new_surface_identity
    code_code_platform_catal.Text.trim code_code_platform_catal.Text.is_space
    code_code_platform_catal.Store.Registry.upsert_transaction
    code_code_platform_catal.Store.Registry.next_generation
    code_code_platform_catal.Store.Registry.get_definition_for_update
    code_code_platform_catal.Store.Tables.is_storable_key
    code_code_platform_catal.Store.Tables.is_storable code_code_platform_catal.Prelude.contains at
    code_code_platform_catal.Store.Tables.find_entry
    code_code_platform_catal.Store.Tables.same_row_key code_code_platform_catal.Prelude.list_beq
    code_code_platform_catal.Store.Json.decode_model_definition
    code_code_platform_catal.Store.Registry.upsert_entry
    code_code_platform_catal.Store.Registry.entry_row code_code_platform_catal.Events.Outbox.enqueue
    code_code_platform_catal.Events.Outbox.has_event
    code_code_platform_catal.Events.Outbox.insert_row
    code_code_platform_catal.Events.Outbox.normalize_event
    code_code_platform_catal.Events.Outbox.row_of
    code_code_platform_catal.Events.Subjects.changed_if_blank
    code_code_platform_catal.Events.Subjects.subject_byte
    code_code_platform_catal.Events.Subjects.subject_for
    code_code_platform_catal.Events.Subjects.subject_prefix
    code_code_platform_catal.Events.Subjects.subject_token
    code_code_platform_catal.ModelIdentity.Slug.collapse_dashes
    code_code_platform_catal.ModelIdentity.Slug.normalized_vendor_slug
    code_code_platform_catal.ModelIdentity.Slug.replace_dashes
    code_code_platform_catal.ModelIdentity.Slug.vendor_separator
    code_code_platform_catal.Models.Badges.normalize_definition_source_badge
    code_code_platform_catal.Models.Badges.normalize_definition_source_badges
    code_code_platform_catal.Models.Badges.source_badges
    code_code_platform_catal.Models.Collected.bool_key
    code_code_platform_catal.Models.Definition.alias_beq
    code_code_platform_catal.Models.Definition.merged_alias
    code_code_platform_catal.Models.Pricing.is_blank_pricing
    code_code_platform_catal.Models.Pricing.normalize_pricing_summary
    code_code_platform_catal.Models.Pricing.trimmed_pricing
    code_code_platform_catal.Models.Registry.normalize_registry_model_source
    code_code_platform_catal.Prelude.collect_distinct code_code_platform_catal.Prelude.collect_from
    code_code_platform_catal.Prelude.push_distinct code_code_platform_catal.Prelude.insert_by
    code_code_platform_catal.Prelude.sort_by code_code_platform_catal.Store.Codec.keep_observations
    code_code_platform_catal.Store.Codec.normalize_model_definition_aliases
    code_code_platform_catal.Store.Codec.normalize_registry_observations
    code_code_platform_catal.Store.Codec.observation_key
    code_code_platform_catal.Store.Codec.registry_model_source_kind_to_db_string
    code_code_platform_catal.Store.Json.encode_model_definition
    code_code_platform_catal.Store.Json.encode_pricing
    code_code_platform_catal.Store.Json.encode_string_slice
    code_code_platform_catal.Store.Registry.update_entry
    code_code_platform_catal.Store.Registry.upsert_references
    code_code_platform_catal.Store.Registry.write_entry
    code_code_platform_catal.Store.Tables.delete_at
    code_code_platform_catal.Store.Tables.has_alias_row
    code_code_platform_catal.Store.Tables.has_entry
    code_code_platform_catal.Store.Tables.has_observation_row
    code_code_platform_catal.Store.Tables.same_alias_row
    code_code_platform_catal.Store.Tables.same_observation_row catalog_id
    code_code_platform_catal.Store.Write.definition_event
    code_code_platform_catal.Store.Write.enqueue_model_definition_event
    code_code_platform_catal.Store.Write.insert_alias
    code_code_platform_catal.Store.Write.insert_aliases
    code_code_platform_catal.Store.Write.insert_observation
    code_code_platform_catal.Store.Write.insert_observations
    code_code_platform_catal.Store.Write.model_definition_domain_mutation
    code_code_platform_catal.Store.Write.observation_row
    code_code_platform_catal.Store.Write.replace_aliases
    code_code_platform_catal.Store.Write.replace_observations code_code_platform_catal.Text.is_upper
    code_code_platform_catal.Text.lower_byte code_code_platform_catal.Text.compare_text
    code_code_platform_catal.Text.trim_left code_code_platform_catal.Text.trim_right
    code_code_platform_catal.Text.contains_text code_code_platform_catal.Text.has_prefix
upsert_result = refl

upsert_managed_definition-IsCommitted_example :
    IsCommitted context identity (entry (codes "y")) tables stored
unfolding code_code_platform_catal.Models.Definition.identity_from_definition
    code_code_platform_catal.Models.Definition.new_surface_identity
    code_code_platform_catal.Text.trim code_code_platform_catal.Text.is_space
    code_code_platform_catal.Events.Outbox.has_event
upsert_managed_definition-IsCommitted_example =
    upsert_managed_definition-IsCommitted context (entry (codes "y")) identity (codes "models")
      tables stored refl refl refl upsert_result

has_no_model : Any HasNoModel (
    code_code_platform_catal.Store.Codec.normalize_registry_observations
      (map some (entry (codes " ")).sources))
unfolding code_code_platform_catal.Store.Codec.normalize_registry_observations
    code_code_platform_catal.Store.Codec.keep_observations
    code_code_platform_catal.Models.Registry.normalize_registry_model_source
    code_code_platform_catal.ModelIdentity.Slug.normalized_vendor_slug
    code_code_platform_catal.ModelIdentity.Slug.collapse_dashes code_code_platform_catal.Text.trim
    code_code_platform_catal.Text.is_space code_code_platform_catal.Text.lower_byte
    code_code_platform_catal.ModelIdentity.Slug.vendor_separator
    code_code_platform_catal.Text.contains_text code_code_platform_catal.Prelude.contains
has_no_model = inl refl

upsert_managed_definition-null_example :
    upsert_managed_definition context (some (entry (codes " "))) tables ≡ none
upsert_managed_definition-null_example =
    upsert_managed_definition-null context (entry (codes " ")) tables has_no_model
