-- ===== src/Sync/Apply.antt =====
-- sync/apply.go: a snapshot is applied to the store, first the upserts, then the deletions.
pub mod Laws
pub mod Outcome
use code_code_platform_catal.Prelude.{
  Bool, true, false, not, ◌&&◌, ◌||◌, ◌≡◌, List, [], ◌∷◌, Option, none, some, if◌then◌else◌, ◌==◌,
  get, keys, contains, sort_by,
}
use code_code_platform_catal.Text.{Text, text_eq, compare_text}
use code_code_platform_catal.Models.Types.{ModelVersion, CollectedEntry}
use code_code_platform_catal.Models.Definition.{SurfaceIdentity, identity_from_definition, key}
use code_code_platform_catal.Models.Registry.{RegistryEntry, new_model_registry_entry}
use code_code_platform_catal.Sync.Snapshot.{CollectedSnapshot}

-- `models.StoredDefinition`.
pub record StoredDefinition : Type 0 where
  pub identity : SurfaceIdentity
  pub definition : Option ModelVersion

-- The outcomes of a deletion.
pub data Deletion (S : Type 0) : Type 0 where
  deleted : S → Deletion S
  not_found : Deletion S
  failed : Deletion S

-- `models.DefinitionSyncStore` over the states of a store; a listing or an upsert that fails is
-- `none` and leaves the store as it was.
pub record DefinitionSyncStore (S : Type 0) : Type 0 where
  pub list_managed_definitions : S → Option (List StoredDefinition)
  pub upsert_managed_definition : Option RegistryEntry → S → Option S
  pub delete_managed_definition : SurfaceIdentity → S → Deletion S

unfoldable pub should_keep_managed_definition : Text → CollectedSnapshot → Bool
should_keep_managed_definition vendor_id snapshot =
    contains snapshot.managed_vendor_ids vendor_id
    && not (contains snapshot.collected_vendor_ids vendor_id)

-- The first loop: no two listed definitions have one identity, and each has an identity.
unfoldable pub check_identities : List Text → List StoredDefinition → Bool
check_identities seen [] = true
check_identities seen (d ∷ ds) = elim d.definition [
  | none ↦ check_identities seen ds
  | some definition ↦ elim (identity_from_definition (some definition)) [
    | none ↦ false
    | some identity ↦
        let rest = check_identities (key identity ∷ seen) ds in
        if contains seen (key identity) then false else rest
  ]
]

-- A stored definition with this identity is neither collected nor kept.
unfoldable pub is_dropped : CollectedSnapshot → SurfaceIdentity → Bool
is_dropped snapshot identity =
    not (contains (keys snapshot.definitions) (key identity))
    && not (should_keep_managed_definition identity.vendor_id snapshot)

module _ {S : Type 0} (store : DefinitionSyncStore S) (snapshot : CollectedSnapshot) where
  -- The second loop. The result is the state of the store, and whether no error was returned.
  unfoldable pub apply_upserts : List Text → S → S × Bool
  apply_upserts [] s = (s, true)
  apply_upserts (k ∷ ks) s = elim (get snapshot.definitions k) [
    | none ↦ (s, false)
    | some candidate ↦ elim (identity_from_definition candidate.definition) [
      | none ↦ (s, false)
      | some identity ↦
          elim (store.upsert_managed_definition (new_model_registry_entry (some candidate)) s) [
            | none ↦ (s, false)
            | some t ↦ apply_upserts ks t
          ]
    ]
  ]

  -- The third loop.
  unfoldable pub apply_deletions : List StoredDefinition → S → S × Bool
  apply_deletions [] s = (s, true)
  apply_deletions (d ∷ ds) s = elim (identity_from_definition d.definition) [
    | none ↦ (s, false)
    | some identity ↦ elim (is_dropped snapshot identity) [
      | false ↦ apply_deletions ds s
      | true ↦ elim (store.delete_managed_definition identity s) [
        | deleted t ↦ apply_deletions ds t
        | not_found ↦ apply_deletions ds s
        | failed ↦ (s, false)
      ]
    ]
  ]

  unfoldable pub after_upserts : List StoredDefinition → S × Bool → S × Bool
  after_upserts ds (s, ok) = elim ok [ true ↦ apply_deletions ds s | false ↦ (s, false) ]

  unfoldable pub sync : S → S × Bool
  sync s = elim (store.list_managed_definitions s) [
    | none ↦ (s, false)
    | some ds ↦ elim (check_identities [] ds) [
      | false ↦ (s, false)
      | true ↦ after_upserts ds (apply_upserts (sort_by compare_text (keys snapshot.definitions)) s)
    ]
  ]
