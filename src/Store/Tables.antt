-- ===== src/Store/Tables.antt =====
-- The tables of platform/state/migrations.go that models/store/store.go and store_write.go write,
-- with their constraints.
use code_code_platform_catal.Prelude.{
  ℕ, Bool, true, false, not, ◌&&◌, ◌||◌, ◌≡◌, ◌↔◌, List, [], ◌∷◌, Option, none, some, arith,
  if◌then◌else◌, ◌==◌, Eq, eq_iff, nat_eq, contains,
}
use code_code_platform_catal.Text.{Text, text_eq}
use code_code_platform_catal.Events.Outbox.{Row}

-- The columns that the three tables share.
pub record RowKey : Type 0 where
  pub namespace : Text
  pub vendor_id : Text
  pub model_id : Text

unfoldable pub same_row_key : RowKey → RowKey → Bool
same_row_key a b =
    a.namespace == b.namespace && a.vendor_id == b.vendor_id && a.model_id == b.model_id

pub same_row_key_iff : (a b : RowKey) → (same_row_key a b ≡ true) ↔ (a ≡ b)
unfolding same_row_key
same_row_key_iff a b = ground (
  arith,
  eq_iff a.namespace b.namespace,
  eq_iff a.vendor_id b.vendor_id,
  eq_iff a.model_id b.model_id,
)

instance abbrev pub row_key_eq : Eq RowKey
row_key_eq = record { same = same_row_key; same_iff = same_row_key_iff }

-- `platform_model_registry_entries`.
pub record EntryRow : Type 0 where
  pub at : RowKey
  pub definition : Text
  pub badges : Text
  pub pricing : Text
  pub generation : ℕ

-- `platform_model_registry_aliases`.
pub record AliasRow : Type 0 where
  pub at : RowKey
  pub alias_kind : Text
  pub alias_value : Text

-- `platform_model_registry_observations`.
pub record ObservationRow : Type 0 where
  pub at : RowKey
  pub source_id : Text
  pub is_direct : Bool
  pub kind : Text
  pub source_model_id : Text
  pub definition : Text
  pub badges : Text
  pub pricing : Text

pub record Tables : Type 0 where
  pub entries : List EntryRow
  pub aliases : List AliasRow
  pub observations : List ObservationRow
  pub outbox : List Row

-- A text column holds no zero byte.
unfoldable pub is_storable : Text → Bool
is_storable text = not (contains text 0)

unfoldable pub is_storable_key : RowKey → Bool
is_storable_key at = is_storable at.namespace && is_storable at.vendor_id && is_storable at.model_id

unfoldable pub find_entry : RowKey → List EntryRow → Option EntryRow
find_entry at [] = none
find_entry at (row ∷ rows) = if row.at == at then some row else find_entry at rows

-- The `delete` statements, and the `on delete cascade` of the foreign keys.
module _ {R : Type 0} (at_of : R → RowKey) where
  unfoldable pub delete_at : RowKey → List R → List R
  delete_at at [] = []
  delete_at at (row ∷ rows) =
      let rest = delete_at at rows in if at_of row == at then rest else row ∷ rest

-- The foreign key of the two other tables.
unfoldable pub has_entry : RowKey → List EntryRow → Bool
has_entry at rows = elim (find_entry at rows) [ none ↦ false | some _ ↦ true ]

unfoldable pub same_alias_row : AliasRow → AliasRow → Bool
same_alias_row a b = a.at == b.at && a.alias_kind == b.alias_kind && a.alias_value == b.alias_value

unfoldable pub has_alias_row : AliasRow → List AliasRow → Bool
has_alias_row row [] = false
has_alias_row row (r ∷ rows) = same_alias_row r row || has_alias_row row rows

-- The primary key of migration 13.
unfoldable pub same_observation_row : ObservationRow → ObservationRow → Bool
same_observation_row a b =
    a.at == b.at
    && a.source_id == b.source_id
    && a.source_model_id == b.source_model_id
    && (if a.is_direct then b.is_direct else not b.is_direct)

unfoldable pub has_observation_row : ObservationRow → List ObservationRow → Bool
has_observation_row row [] = false
has_observation_row row (r ∷ rows) = same_observation_row r row || has_observation_row row rows
