-- ===== src/Store/Registry/Committed.antt =====
-- models/store/store.go: `UpsertManagedDefinition` when it returns without an error.
use code_code_platform_catal.Prelude.{
  ◌≡◌, sym, ◌∙◌, true, false, not, List, [], ◌∷◌, ◌++◌, Option, none, some, ◌==◌, ◌+◌, ℕ, eq_self,
  arith, map, ◌>>=◌,
}
use Prim.Native.Nat.{◌%◌, ◌^◌}
use code_code_platform_catal.Text.{Text, codes, text_eq}
use code_code_platform_catal.Models.Definition.{SurfaceIdentity, identity_from_definition}
use code_code_platform_catal.Models.Registry.{RegistryEntry}
use code_code_platform_catal.Events.Subjects.{DomainEvent}
use code_code_platform_catal.Events.Outbox.{Row, has_event}
use code_code_platform_catal.Store.Codec.{
  normalize_registry_observations, normalize_model_definition_aliases,
}
use code_code_platform_catal.Store.Json.{
  encode_model_definition, encode_string_slice, encode_pricing,
}
use code_code_platform_catal.Store.Tables.{
  RowKey, row_key_eq, EntryRow, Tables, find_entry, has_entry,
}
use code_code_platform_catal.Store.Write.{CatalogEvent, Context, at, alias_row, catalog_id}
use code_code_platform_catal.Store.Registry.{
  get_definition_for_update, next_generation, write_entry, update_entry, upsert_managed_definition,
}
use code_code_platform_catal.Store.Registry.Enqueued.{
  mutation_of, next_generation-mutation, enqueue-pending,
}
use code_code_platform_catal.Store.Registry.Others.{rows_at, IsSameBut}
use code_code_platform_catal.Store.Registry.Observations.{AreObservationRows}
use code_code_platform_catal.Store.Registry.References.{
  replace_aliases-own, replace_observations-own,
}
use code_code_platform_catal.Store.Registry.Upsert.{
  IsUpserted, upsert_transaction-IsUpserted, upserted-IsSameBut, next_generation-created,
}

-- The generation of an entry that is written where this one was.
abbrev pub following : Option EntryRow → ℕ
following none = 1
following (some row) = (row.generation + 1) % 2 ^ 64

-- The columns of the entry, its aliases and its observations, and the event in the outbox, from the
-- tables as they were and the entry that was written. `message` is what was encoded in the event.
pub record IsCommitted (context : Context Tables) (i : SurfaceIdentity) (e : RegistryEntry)
    (s t : Tables) : Type 0 where
  pub entry : EntryRow
  pub event : Row
  pub message : DomainEvent CatalogEvent
  pub stored : find_entry (at context i) t.entries ≡ some entry
  pub definition :
      (encode_model_definition context.json e.definition >>= context.to_jsonb)
      ≡ some entry.definition
  pub badges : (encode_string_slice context.json e.badges >>= context.to_jsonb) ≡ some entry.badges
  pub pricing : (encode_pricing context.json e.pricing >>= context.to_jsonb) ≡ some entry.pricing
  pub generation : entry.generation ≡ following (find_entry (at context i) s.entries)
  pub aliases :
      rows_at (λ row. row.at) (at context i) t.aliases
      ≡ map (alias_row context (at context i)) (normalize_model_definition_aliases e.definition)
  pub observations :
      AreObservationRows context
        (at context i)
        (normalize_registry_observations (map some e.sources))
        (rows_at (λ row. row.at) (at context i) t.observations)
  pub others : IsSameBut (at context i) s t
  pub enqueued : t.outbox ≡ s.outbox ++ event ∷ []
  pub version : event.aggregate_version ≡ entry.generation
  pub aggregate : event.aggregate_id ≡ catalog_id context i
  pub pending : event.published_at ≡ none
  pub payload : context.marshal_event message ≡ some event.payload
  pub message_definition : message.payload.definition ≡ e.definition
  pub message_mutation :
      message.payload.mutation ≡ mutation_of (find_entry (at context i) s.entries)

find_entry-append :
    (row : EntryRow) (rows : List EntryRow)
    → has_entry row.at rows ≡ false
    → find_entry row.at (rows ++ row ∷ []) ≡ some row
unfolding has_entry find_entry
find_entry-append row [] h = ground (arith, eq_self row.at)
find_entry-append row (r ∷ rows) h = ground (arith, h, find_entry-append row rows)

find_entry-update_entry :
    (row : EntryRow) (rows : List EntryRow)
    → has_entry row.at rows ≡ true
    → find_entry row.at (update_entry row rows) ≡ some row
unfolding has_entry find_entry update_entry
find_entry-update_entry row [] h = ground (arith, h)
find_entry-update_entry row (r ∷ rows) h =
    ground (arith, h, eq_self row.at, find_entry-update_entry row rows)

find_entry-write_entry :
    (row : EntryRow) (m : Text) (rows written : List EntryRow)
    → (m == codes "created") ≡ not (has_entry row.at rows)
    → write_entry m row rows ≡ some written
    → find_entry row.at written ≡ some row
unfolding write_entry
find_entry-write_entry row m rows written created h =
    ground (arith, created, h, find_entry-append row rows, find_entry-update_entry row rows)

module _ (context : Context Tables) where
  next_generation-following :
      (k : RowKey) (rows : List EntryRow) (g : ℕ) (m : Text)
      → next_generation context k rows ≡ some (g, m)
      → g ≡ following (find_entry k rows)
  unfolding next_generation get_definition_for_update
  next_generation-following k rows g m h = ground (arith, h)

  -- When UpsertManagedDefinition with an outbox returns without an error, and the new event's id is
  -- not in the outbox yet: the row at its identity has the encodings of the definition, the badges
  -- and the pricing, and the generation 1 or the one after the row that was there; the aliases and
  -- the observations at the identity are those of the entry, normalized; no row at another key
  -- differs; and exactly one event was added to the outbox, which is pending, has the generation as
  -- its version and the identity as its aggregate, and encodes the definition and whether it was
  -- created or updated.
  pub upsert_managed_definition-IsCommitted :
      (e : RegistryEntry) (i : SurfaceIdentity) (producer : Text) (s t : Tables)
      → identity_from_definition e.definition ≡ some i
      → context.outbox ≡ some producer
      → has_event (context.fresh s.outbox) s.outbox ≡ false
      → upsert_managed_definition context (some e) s ≡ some t
      → IsCommitted context i e s t
  unfolding upsert_managed_definition
  upsert_managed_definition-IsCommitted e i producer s t named has fresh h =
      let u : IsUpserted context i e s t =
        upsert_transaction-IsUpserted context i e s t (ground (arith, h, named)) in
      let (
        event,
        enqueued,
        version,
        aggregate,
        pending,
        (message, payload, of_definition, of_mutation),
      ) =
        enqueue-pending context i e.definition u.mutation u.generation s.outbox t.outbox producer
          has named fresh u.enqueued in
      let created : (u.mutation == codes "created") ≡ not (has_entry u.row.at s.entries) =
        rw (← u.row_at) (
          next_generation-created context (at context i) s.entries u.generation u.mutation
            u.generated) in
      record {
        entry = u.row;
        event = event;
        message = message;
        stored =
            rw u.row_at
              (find_entry-write_entry u.row u.mutation s.entries t.entries created u.written);
        generation =
            sym u.row_generation
            ∙ next_generation-following (at context i) s.entries u.generation u.mutation
                u.generated;
        enqueued = enqueued;
        version = version ∙ u.row_generation;
        aggregate = aggregate;
        pending = pending;
        definition = u.definition;
        badges = u.badges;
        pricing = u.pricing;
        aliases =
            replace_aliases-own context t.entries (at context i) e.definition s.aliases t.aliases
              u.aliases;
        observations =
            replace_observations-own context t.entries (at context i) (map some e.sources)
              s.observations t.observations u.observations;
        others = upserted-IsSameBut context i e s t u;
        payload = payload;
        message_definition = of_definition;
        message_mutation =
            of_mutation
            ∙ next_generation-mutation context (at context i) s.entries u.generation u.mutation
                u.generated;
      }
