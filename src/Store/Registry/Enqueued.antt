-- ===== src/Store/Registry/Enqueued.antt =====
-- models/store/store_write.go: the event of an entry that is written.
use code_code_platform_catal.Prelude.{
  ◌≡◌, refl, sym, ap, ◌∙◌, true, false, not, List, [], ◌∷◌, ◌++◌, Option, none, some, ◌==◌, ◌+◌, ℕ,
  eq_self, arith, inl, inr, Option-cases, map, ◌>>=◌,
}
use code_code_platform_catal.Text.{
  Text, codes, text_eq, is_empty, trim, trim_left, trim_right, trim_space,
}
use code_code_platform_catal.Models.Types.{ModelVersion}
use code_code_platform_catal.Models.Definition.{SurfaceIdentity, identity_from_definition}
use code_code_platform_catal.Events.Subjects.{DomainEvent}
use code_code_platform_catal.Events.Outbox.{
  Row, has_event, insert_row, row_of, normalize_event, enqueue,
}
use code_code_platform_catal.Store.Tables.{RowKey, row_key_eq, EntryRow, Tables, find_entry}
use code_code_platform_catal.Store.Write.{
  DomainMutation, mutation_created, mutation_updated, CatalogEvent, Context,
  model_definition_domain_mutation, catalog_id, definition_event, enqueue_model_definition_event,
}
use code_code_platform_catal.Store.Registry.{get_definition_for_update, next_generation}

-- The mutation that an event tells of.
abbrev pub mutation_of : Option EntryRow → DomainMutation
mutation_of none = mutation_created
mutation_of (some row) = mutation_updated

insert_row-new :
    (row : Row) (rows : List Row)
    → has_event row.event_id rows ≡ false
    → insert_row row rows ≡ rows ++ row ∷ []
unfolding insert_row
insert_row-new row rows h = ground (arith, h)

row_of-event_id :
    {P : Type 0} (marshal : DomainEvent P → Option Text) (fresh : Text) (now : ℕ) (producer : Text)
    → (event : DomainEvent P) (payload : Text) → event.event_id ≡ []
    → (row_of marshal fresh now producer
        (normalize_event fresh now producer event)
        payload).event_id
      ≡ fresh
unfolding row_of normalize_event trim trim_left trim_right
row_of-event_id marshal fresh now producer event payload unnamed =
    ground (arith, ap (λ t. is_empty (trim_space t)) unnamed)

-- An event without an id is enqueued under the fresh one.
enqueue-fresh :
    {P : Type 0} (marshal : DomainEvent P → Option Text) (fresh : Text) (now : ℕ) (producer : Text)
    → (event : DomainEvent P) (rows out : List Row) → event.event_id ≡ []
    → has_event fresh rows ≡ false
    → enqueue marshal fresh now producer (some event) rows ≡ some out
    → (payload : Text) × (marshal (normalize_event fresh now producer event) ≡ some payload)
      × (out
          ≡ rows
            ++ row_of marshal fresh now producer (normalize_event fresh now producer event) payload
              ∷ [])
unfolding enqueue
enqueue-fresh marshal fresh now producer event rows out unnamed new h =
    let normalized = normalize_event fresh now producer event in
    elim (Option-cases (marshal normalized)) [
      | inl garbled ↦ absurd (ground (arith, h, garbled))
      | inr (payload, marshalled) ↦
          let done : insert_row (row_of marshal fresh now producer normalized payload) rows ≡ out =
            ground (arith, h, marshalled) in
          (
            payload,
            marshalled,
            sym done
                ∙ insert_row-new (row_of marshal fresh now producer normalized payload) rows (
                    ap (λ id. has_event id rows)
                      (row_of-event_id marshal fresh now producer event payload unnamed)
                    ∙ new),
          )
    ]

module _ (context : Context Tables) where
  created_mutation : model_definition_domain_mutation context (codes "created") ≡ mutation_created
  unfolding model_definition_domain_mutation trim code_code_platform_catal.Prelude.list_beq
      code_code_platform_catal.Text.is_space
  created_mutation = refl

  updated_mutation : model_definition_domain_mutation context (codes "updated") ≡ mutation_updated
  unfolding model_definition_domain_mutation trim code_code_platform_catal.Prelude.list_beq
      code_code_platform_catal.Text.is_space
  updated_mutation = refl

  pub next_generation-mutation :
      (k : RowKey) (rows : List EntryRow) (g : ℕ) (m : Text)
      → next_generation context k rows ≡ some (g, m)
      → model_definition_domain_mutation context m ≡ mutation_of (find_entry k rows)
  unfolding next_generation get_definition_for_update
  next_generation-mutation k rows g m h = ground (arith, h, created_mutation, updated_mutation)

  pub enqueue-pending :
      (i : SurfaceIdentity) (d : Option ModelVersion) (m : Text) (g : ℕ) (rows out : List Row)
      → (producer : Text) → context.outbox ≡ some producer
      → identity_from_definition d ≡ some i
      → has_event (context.fresh rows) rows ≡ false
      → enqueue_model_definition_event context d m g rows ≡ some out
      → (event : Row) × (out ≡ rows ++ event ∷ [])
        × (event.aggregate_version ≡ g)
        × (event.aggregate_id ≡ catalog_id context i)
        × (event.published_at ≡ none)
        × ((message : DomainEvent CatalogEvent) × (context.marshal_event message
              ≡ some event.payload)
            × (message.payload.definition ≡ d)
            × (message.payload.mutation ≡ model_definition_domain_mutation context m))
  unfolding enqueue_model_definition_event definition_event catalog_id
      model_definition_domain_mutation
  enqueue-pending i d m g rows out producer has named fresh h =
      let event = definition_event context i d m g in
      let (payload, marshalled, done) =
        enqueue-fresh context.marshal_event (context.fresh rows) (context.now rows) producer event
          rows out refl fresh (rw (has, named) at h) in
      (
        row_of context.marshal_event (context.fresh rows) (context.now rows) producer
            (normalize_event (context.fresh rows) (context.now rows) producer event) payload,
        done,
        unfold row_of normalize_event in refl,
        unfold row_of normalize_event in refl,
        unfold row_of in refl,
        (
          normalize_event (context.fresh rows) (context.now rows) producer event,
          marshalled ∙ unfold row_of in refl,
          unfold normalize_event in refl,
          unfold normalize_event in refl,
        ),
      )
