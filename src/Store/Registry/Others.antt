-- ===== src/Store/Registry/Others.antt =====
-- models/store/store.go and store_write.go: the rows of the three tables at one key and at the
-- others, after the statements of a transaction.
use code_code_platform_catal.Prelude.{
  ◌≡◌, refl, false, List, [], ◌∷◌, ◌++◌, none, some, ◌==◌, eq_iff, nat_eq, arith, if◌then◌else◌,
}
use code_code_platform_catal.Text.{Text, text_eq}
use code_code_platform_catal.Store.Tables.{
  RowKey, row_key_eq, EntryRow, Tables, find_entry, delete_at,
}
use code_code_platform_catal.Store.Registry.{update_entry, write_entry}

module _ {R : Type 0} (at_of : R → RowKey) where
  -- The rows at one key, in their order.
  unfoldable pub rows_at : RowKey → List R → List R
  rows_at k [] = []
  rows_at k (row ∷ rows) = let rest = rows_at k rows in if at_of row == k then row ∷ rest else rest

  pub rows_at-append :
      (k : RowKey) (rows more : List R)
      → rows_at k (rows ++ more) ≡ rows_at k rows ++ rows_at k more
  unfolding rows_at
  rows_at-append k [] more = refl
  rows_at-append k (row ∷ rows) more = ground (arith, rows_at-append k rows more)

  pub rows_at-delete_at : (k : RowKey) (rows : List R) → rows_at k (delete_at at_of k rows) ≡ []
  unfolding rows_at delete_at
  rows_at-delete_at k [] = refl
  rows_at-delete_at k (row ∷ rows) = ground (arith, rows_at-delete_at k rows)

  pub rows_at-delete_at_other :
      (j k : RowKey) (rows : List R)
      → (j == k) ≡ false
      → rows_at j (delete_at at_of k rows) ≡ rows_at j rows
  unfolding rows_at delete_at
  rows_at-delete_at_other j k [] other = refl
  rows_at-delete_at_other j k (row ∷ rows) other = ground (
    arith,
    other,
    rows_at-delete_at_other j k rows other,
    eq_iff (at_of row) k,
    eq_iff (at_of row) j,
    eq_iff j k,
  )

-- The tables differ at one key only.
pub record IsSameBut (k : RowKey) (s t : Tables) : Type 0 where
  pub entries : (j : RowKey) → (j == k) ≡ false → find_entry j t.entries ≡ find_entry j s.entries
  pub aliases :
      (j : RowKey)
      → (j == k) ≡ false
      → rows_at (λ row. row.at) j t.aliases ≡ rows_at (λ row. row.at) j s.aliases
  pub observations :
      (j : RowKey)
      → (j == k) ≡ false
      → rows_at (λ row. row.at) j t.observations ≡ rows_at (λ row. row.at) j s.observations

pub IsSameBut-refl : (k : RowKey) (s : Tables) → IsSameBut k s s
IsSameBut-refl k s = record {
  entries = λ j other. refl;
  aliases = λ j other. refl;
  observations = λ j other. refl;
}

find_entry-append_other :
    (j : RowKey) (row : EntryRow) (rows : List EntryRow)
    → (j == row.at) ≡ false
    → find_entry j (rows ++ row ∷ []) ≡ find_entry j rows
unfolding find_entry
find_entry-append_other j row [] other = ground (arith, other, eq_iff row.at j, eq_iff j row.at)
find_entry-append_other j row (r ∷ rows) other =
    ground (arith, find_entry-append_other j row rows other)

find_entry-update_entry_other :
    (j : RowKey) (row : EntryRow) (rows : List EntryRow)
    → (j == row.at) ≡ false
    → find_entry j (update_entry row rows) ≡ find_entry j rows
unfolding find_entry update_entry
find_entry-update_entry_other j row [] other = refl
find_entry-update_entry_other j row (r ∷ rows) other = ground (
  arith,
  other,
  find_entry-update_entry_other j row rows other,
  eq_iff r.at row.at,
  eq_iff row.at j,
  eq_iff j row.at,
)

pub find_entry-write_entry_other :
    (j : RowKey) (row : EntryRow) (m : Text) (rows written : List EntryRow)
    → (j == row.at) ≡ false
    → write_entry m row rows ≡ some written
    → find_entry j written ≡ find_entry j rows
unfolding write_entry
find_entry-write_entry_other j row m rows written other h = ground (
  arith,
  h,
  find_entry-append_other j row rows other,
  find_entry-update_entry_other j row rows other,
)

pub find_entry-delete_at :
    (k : RowKey) (rows : List EntryRow) → find_entry k (delete_at (λ row. row.at) k rows) ≡ none
unfolding find_entry delete_at
find_entry-delete_at k [] = refl
find_entry-delete_at k (row ∷ rows) = ground (arith, find_entry-delete_at k rows)

pub find_entry-delete_at_other :
    (j k : RowKey) (rows : List EntryRow)
    → (j == k) ≡ false
    → find_entry j (delete_at (λ row. row.at) k rows) ≡ find_entry j rows
unfolding find_entry delete_at
find_entry-delete_at_other j k [] other = refl
find_entry-delete_at_other j k (row ∷ rows) other = ground (
  arith,
  other,
  find_entry-delete_at_other j k rows other,
  eq_iff row.at k,
  eq_iff row.at j,
  eq_iff j k,
)
