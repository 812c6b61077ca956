-- ===== src/Store/Registry/Deleted.antt =====
-- models/store/store.go: `DeleteManagedDefinition`, statement by statement.
use code_code_platform_catal.Prelude.{
  ◌≡◌, ◌⊎◌, refl, ap, true, false, List, [], none, Option, some, nat_eq, arith, inl, inr,
  Bool-cases, Option-cases, ℕ,
}
use code_code_platform_catal.Text.{codes, text_eq, is_empty}
use code_code_platform_catal.Models.Types.{ModelVersion}
use code_code_platform_catal.Models.Definition.{SurfaceIdentity, identity_from_definition}
use code_code_platform_catal.Models.Definition.Identity.{identity_from_definition-IsIdentity}
use code_code_platform_catal.Events.Outbox.{Row}
use code_code_platform_catal.Sync.Apply.{deleted}
use code_code_platform_catal.Store.Json.{decode_model_definition}
use code_code_platform_catal.Store.Tables.{
  RowKey, row_key_eq, EntryRow, Tables, is_storable_key, find_entry, has_entry,
}
use code_code_platform_catal.Store.Write.{Context, at, enqueue_model_definition_event}
use code_code_platform_catal.Store.Registry.{
  no_rows, broken, found, get_definition_for_update, delete_found, without_entry,
  delete_transaction, delete_managed_definition,
}
use code_code_platform_catal.Store.Registry.Others.{
  rows_at, rows_at-delete_at, rows_at-delete_at_other, IsSameBut, IsSameBut-refl,
  find_entry-delete_at, find_entry-delete_at_other,
}

-- The rows at the key are gone, and no others.
pub record IsDeleted (k : RowKey) (s t : Tables) : Type 0 where
  pub others : IsSameBut k s t
  pub entry : find_entry k t.entries ≡ none
  pub aliases : has_entry k s.entries ≡ true → rows_at (λ row. row.at) k t.aliases ≡ []
  pub observations : has_entry k s.entries ≡ true → rows_at (λ row. row.at) k t.observations ≡ []

pub deleted_eq : {A : Type 0} {a b : A} → deleted a ≡ deleted b → a ≡ b
deleted_eq h = ground (arith, h)

module _ (context : Context Tables) where
  -- What getDefinitionForUpdate may find.
  pub get_definition_for_update-cases :
      (k : RowKey) (rows : List EntryRow)
      → (get_definition_for_update context k rows ≡ broken)
        ⊎ ((is_storable_key k ≡ true)
            × (has_entry k rows ≡ false)
            × (get_definition_for_update context k rows ≡ no_rows))
        ⊎ ((is_storable_key k ≡ true)
            × (d : ModelVersion) × (g : ℕ) × (get_definition_for_update context k rows ≡ found d g))
  unfolding get_definition_for_update has_entry
  get_definition_for_update-cases k rows = elim (Bool-cases (is_storable_key k)) [
    | inr refused ↦ inl (rw refused refl)
    | inl storable ↦ elim (Option-cases (find_entry k rows)) [
      | inl missing ↦ inr (inl (storable, ground (arith, missing), rw (storable, missing) refl))
      | inr (row, there) ↦
          elim (Option-cases (decode_model_definition context.json row.definition)) [
            | inl garbled ↦ inl (rw (storable, there, garbled) refl)
            | inr (d, decoded) ↦
                inr (inr (storable, d, row.generation, rw (storable, there, decoded) refl))
          ]
    ]
  ]

  has_entry-none :
      (k : RowKey) (rows : List EntryRow) → has_entry k rows ≡ false → find_entry k rows ≡ none
  unfolding has_entry
  has_entry-none k rows h = ground (arith, h)

  without_entry-IsDeleted :
      (k : RowKey) (s : Tables) (outbox : List Row)
      → has_entry k s.entries ≡ true
      → IsDeleted k s (without_entry context k outbox s)
  unfolding without_entry
  without_entry-IsDeleted k s outbox there = record {
    others = record {
      entries = λ j other. find_entry-delete_at_other j k s.entries other;
      aliases = λ j other. rows_at-delete_at_other (λ row. row.at) j k s.aliases other;
      observations = λ j other. rows_at-delete_at_other (λ row. row.at) j k s.observations other;
    };
    entry = find_entry-delete_at k s.entries;
    aliases = λ _. rows_at-delete_at (λ row. row.at) k s.aliases;
    observations = λ _. rows_at-delete_at (λ row. row.at) k s.observations;
  }

  delete_found-IsDeleted :
      (k : RowKey) (d : ModelVersion) (g : ℕ) (s t : Tables)
      → has_entry k s.entries ≡ true
      → delete_found context k d g s ≡ deleted t
      → IsDeleted k s t
  unfolding delete_found
  delete_found-IsDeleted k d g s t there h =
      elim (Option-cases
        (enqueue_model_definition_event context (some d) (codes "deleted") g s.outbox)) [
          | inl fails ↦ absurd (ground (arith, h, fails))
          | inr (outbox, enqueued) ↦
              let done : without_entry context k outbox s ≡ t =
                deleted_eq (ground (arith, h, enqueued)) in
              rw (← done) (without_entry-IsDeleted k s outbox there)
        ]

  get_definition_for_update-there :
      (k : RowKey) (rows : List EntryRow) (d : ModelVersion) (g : ℕ)
      → get_definition_for_update context k rows ≡ found d g
      → has_entry k rows ≡ true
  unfolding get_definition_for_update has_entry
  get_definition_for_update-there k rows d g h = ground (arith, h)

  delete_transaction-IsDeleted :
      (i : SurfaceIdentity) (s t : Tables)
      → delete_transaction context i s ≡ deleted t
      → IsDeleted (at context i) s t
  unfolding delete_transaction
  delete_transaction-IsDeleted i s t h =
      elim (get_definition_for_update-cases (at context i) s.entries) [
        | inl fails ↦ absurd (ground (arith, h, fails))
        | inr (inl (storable, missing, none_there)) ↦
            let same : s ≡ t = deleted_eq (ground (arith, h, none_there)) in
            rw (← same) (record {
              others = IsSameBut-refl (at context i) s;
              entry = has_entry-none (at context i) s.entries missing;
              aliases = λ there. absurd (ground (arith, missing, there));
              observations = λ there. absurd (ground (arith, missing, there));
            })
        | inr (inr (storable, d, g, there)) ↦
            delete_found-IsDeleted (at context i) d g s t
              (get_definition_for_update-there (at context i) s.entries d g there)
              (ground (arith, h, there))
      ]

  pub delete-IsDeleted :
      (d : Option ModelVersion) (i : SurfaceIdentity) (s t : Tables)
      → identity_from_definition d ≡ some i
      → delete_managed_definition context i s ≡ deleted t
      → IsDeleted (at context i) s t
  unfolding delete_managed_definition
  delete-IsDeleted d i s t named h =
      let parts = identity_from_definition-IsIdentity d i named in
      delete_transaction-IsDeleted i s t (
        ground (
          arith,
          h,
          ap is_empty parts.vendor.0,
          ap is_empty parts.model.0,
          parts.vendor.1,
          parts.model.1,
        ))
