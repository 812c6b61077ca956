-- ===== src/Store/Registry/Laws.antt =====
-- models/store/store.go: the registry as the store of sync/apply.go.
use code_code_platform_catal.Prelude.{
  ◌≡◌, sym, ap, ◌∙◌, true, false, not, ◌&&◌, Option, some, ◌==◌, eq_iff, nat_eq, arith, inl, inr,
  Bool-cases, ℕ,
}
use code_code_platform_catal.Text.{Text, text_eq, is_empty}
use code_code_platform_catal.Models.Types.{ModelVersion}
use code_code_platform_catal.Models.Definition.{SurfaceIdentity, identity_from_definition, key}
use code_code_platform_catal.Models.Definition.Identity.{identity_from_definition-IsIdentity}
use code_code_platform_catal.Models.Registry.{RegistryEntry}
use code_code_platform_catal.Sync.Apply.{deleted, not_found}
use code_code_platform_catal.Sync.Apply.Laws.{IsStore}
use code_code_platform_catal.Store.Tables.{
  RowKey, row_key_eq, Tables, is_storable_key, has_entry, delete_at,
}
use code_code_platform_catal.Store.Write.{Context, at}
use code_code_platform_catal.Store.Registry.{
  delete_found, without_entry, delete_transaction, delete_managed_definition, definition_sync_store,
  upsert_managed_definition,
}
use code_code_platform_catal.Store.Registry.Rows.{
  joined, holds_row, holds_row-find_entry, holds_row-delete_at,
}
use code_code_platform_catal.Store.Registry.Upsert.{
  holds, joined-at, upsert_holds, upsert_transaction-IsUpserted, upserted-IsSameBut,
}
use code_code_platform_catal.Store.Registry.Deleted.{
  IsDeleted, deleted_eq, get_definition_for_update-cases, delete-IsDeleted,
}
use code_code_platform_catal.Store.Registry.Others.{IsSameBut}

-- A store of definitions by identity, whose writes change the rows of one identity.
pub record IsRegistry (context : Context Tables) : Type 0 where
  pub store : IsStore (definition_sync_store context) (holds context)
  pub upserts :
      (e : RegistryEntry) (i : SurfaceIdentity) (s t : Tables)
      → identity_from_definition e.definition ≡ some i
      → (definition_sync_store context).upsert_managed_definition (some e) s ≡ some t
      → IsSameBut (at context i) s t
  pub deletes :
      (d : Option ModelVersion) (i : SurfaceIdentity) (s t : Tables)
      → identity_from_definition d ≡ some i
      → (definition_sync_store context).delete_managed_definition i s ≡ deleted t
      → IsDeleted (at context i) s t

module _ (context : Context Tables) where
  delete_found-entries :
      (k : RowKey) (d : ModelVersion) (g : ℕ) (s t : Tables)
      → delete_found context k d g s ≡ deleted t
      → delete_at (λ row. row.at) k s.entries ≡ t.entries
  unfolding delete_found without_entry
  delete_found-entries k d g s t h = ground (arith, h)

  absent-holds :
      (i : SurfaceIdentity) (s : Tables) (k : Text)
      → is_storable_key (at context i) ≡ true
      → has_entry (at context i) s.entries ≡ false
      → holds context s k ≡ (holds context s k && not (joined (at context i) == k))
  unfolding holds_row at
  absent-holds i s k storable missing = elim (Bool-cases (joined (at context i) == k)) [
    | inr other ↦ ground (arith, other)
    | inl same ↦
        ap (holds context s) (sym ((eq_iff (joined (at context i)) k).0 same))
        ∙ holds_row-find_entry (at context i) s.entries storable
        ∙ missing
        ∙ ground (arith, same)
  ]

  delete_transaction-holds :
      (i : SurfaceIdentity) (s t : Tables)
      → delete_transaction context i s ≡ deleted t
      → (k : Text) → holds context t k ≡ (holds context s k && not (joined (at context i) == k))
  unfolding delete_transaction
  delete_transaction-holds i s t h k =
      elim (get_definition_for_update-cases context (at context i) s.entries) [
        | inl fails ↦ absurd (ground (arith, h, fails))
        | inr (inl (storable, missing, none_there)) ↦
            let same : s ≡ t = deleted_eq (ground (arith, h, none_there)) in
            rw (← same) (absent-holds i s k storable missing)
        | inr (inr (storable, d, g, there)) ↦
            let gone = delete_found-entries (at context i) d g s t (ground (arith, h, there)) in
            ap (λ rows. holds_row context.namespace rows k) (sym gone)
            ∙ unfold at in holds_row-delete_at (at context i) k s.entries storable
      ]

  delete_holds :
      (d : Option ModelVersion) (i : SurfaceIdentity) (s t : Tables)
      → identity_from_definition d ≡ some i
      → delete_managed_definition context i s ≡ deleted t
      → (k : Text) → holds context t k ≡ (holds context s k && not (key i == k))
  unfolding delete_managed_definition
  delete_holds d i s t named h k =
      let parts = identity_from_definition-IsIdentity d i named in
      let done : delete_transaction context i s ≡ deleted t = ground (
        arith,
        h,
        ap is_empty parts.vendor.0,
        ap is_empty parts.model.0,
        parts.vendor.1,
        parts.model.1,
      ) in
      rw (joined-at context d i named) at (delete_transaction-holds i s t done k)

  delete_some :
      (i : SurfaceIdentity) (s : Tables) → delete_managed_definition context i s ≡ not_found → ⊥
  unfolding delete_managed_definition delete_transaction delete_found
  delete_some i s h = ground (arith, h)

  upsert-IsSameBut :
      (e : RegistryEntry) (i : SurfaceIdentity) (s t : Tables)
      → identity_from_definition e.definition ≡ some i
      → upsert_managed_definition context (some e) s ≡ some t
      → IsSameBut (at context i) s t
  unfolding upsert_managed_definition
  upsert-IsSameBut e i s t named h =
      upserted-IsSameBut context i e s t
        (upsert_transaction-IsUpserted context i e s t (ground (arith, h, named)))

  -- Whatever the database holds and whichever transactions fail: UpsertManagedDefinition and
  -- DeleteManagedDefinition keep one entry by the identity of its definition. After either of them
  -- each other identity has the same row of the entry, the same aliases and the same observations as
  -- before; and after a deletion the identity has no entry, and no aliases and observations if it
  -- had an entry.
  pub definition_sync_store-IsRegistry : IsRegistry context
  definition_sync_store-IsRegistry = record {
    store = record {
      holds-upsert = upsert_holds context;
      holds-delete = delete_holds;
      holds-not_found = λ _ i s _ h. absurd (delete_some i s h);
    };
    upserts = upsert-IsSameBut;
    deletes = delete-IsDeleted context;
  }
