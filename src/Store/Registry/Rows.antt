-- ===== src/Store/Registry/Rows.antt =====
-- models/store/store.go: the keys of the rows of the entries, before and after a statement.
use code_code_platform_catal.Prelude.{
  ◌≡◌, refl, sym, ap, ◌∙◌, Bool, true, false, not, ◌&&◌, ◌||◌, List, [], ◌∷◌, ◌++◌, some, ◌==◌,
  eq_iff, eq_self, nat_eq, contains, arith, inl, inr, Bool-cases, ℕ,
}
use code_code_platform_catal.Text.{Text, codes, text_eq}
use code_code_platform_catal.Store.Tables.{
  RowKey, row_key_eq, EntryRow, is_storable, is_storable_key, find_entry, has_entry, delete_at,
}
use code_code_platform_catal.Store.Write.{at}
use code_code_platform_catal.Store.Registry.{update_entry, write_entry}

-- The key of the definition that a row holds.
abbrev pub joined : RowKey → Text
joined k = k.vendor_id ++ 0 ∷ k.model_id

-- A row of the namespace whose columns are joined to this key.
unfoldable pub row_holds : Text → Text → RowKey → Bool
row_holds namespace k at = at.namespace == namespace && is_storable_key at && joined at == k

unfoldable pub holds_row : Text → List EntryRow → Text → Bool
holds_row namespace [] k = false
holds_row namespace (row ∷ rows) k = row_holds namespace k row.at || holds_row namespace rows k

cons_eq : {a b : ℕ} {s t : Text} → a ∷ s ≡ b ∷ t → (a ≡ b) × (s ≡ t)
cons_eq h = (ground (arith, h), ground (arith, h))

storable-cons : (c : ℕ) (v : Text) → is_storable (c ∷ v) ≡ true → is_storable v ≡ true
unfolding is_storable contains
storable-cons c v h = ground (arith, h)

storable_head : (c : ℕ) (v : Text) → is_storable (c ∷ v) ≡ true → c ≡ 0 → ⊥
unfolding is_storable contains
storable_head c v h e = ground (arith, h, e)

-- Texts without the separator are told apart.
joined_eq :
    (v w m n : Text)
    → is_storable v ≡ true
    → is_storable w ≡ true
    → v ++ 0 ∷ m ≡ w ++ 0 ∷ n
    → (v ≡ w) × (m ≡ n)
joined_eq [] [] m n a b e = (refl, (cons_eq e).1)
joined_eq [] (d ∷ w) m n a b e = absurd (storable_head d w b (sym (cons_eq e).0))
joined_eq (c ∷ v) [] m n a b e = absurd (storable_head c v a (cons_eq e).0)
joined_eq (c ∷ v) (d ∷ w) m n a b e =
    let (same, rest) = cons_eq e in
    let (vs, ms) = joined_eq v w m n (storable-cons c v a) (storable-cons d w b) rest in
    (ap (λ (p : ℕ × Text). p.0 ∷ p.1) (cc (same, vs)), ms)

true_ext : (a b : Bool) → (a ≡ true → b ≡ true) → (b ≡ true → a ≡ true) → a ≡ b
true_ext true b f g = sym (f refl)
true_ext false true f g = g refl
true_ext false false f g = refl

row_holds-at :
    (k row : RowKey)
    → is_storable_key k ≡ true
    → row_holds k.namespace (joined k) row ≡ true
    → row ≡ k
unfolding row_holds is_storable_key
row_holds-at k row h e =
    let (same_vendor, same_model) =
      joined_eq row.vendor_id k.vendor_id row.model_id k.model_id (ground (arith, e))
        (ground (arith, h)) ((eq_iff (joined row) (joined k)).0 (ground (arith, e))) in
    let same_namespace : row.namespace ≡ k.namespace =
      (eq_iff row.namespace k.namespace).0 (ground (arith, e)) in
    cc (same_vendor, same_model, same_namespace)

row_holds_self : (k : RowKey) → is_storable_key k ≡ true → row_holds k.namespace (joined k) k ≡ true
unfolding row_holds
row_holds_self k h = ground (arith, h, eq_self k.namespace, eq_self (joined k))

-- A row of the namespace holds the key of an identity only at the identity's own columns.
row_holds-key :
    (k row : RowKey) → is_storable_key k ≡ true → row_holds k.namespace (joined k) row ≡ (row == k)
row_holds-key k row h =
    true_ext (row_holds k.namespace (joined k) row) (row == k)
      (λ e. (eq_iff row k).1 (row_holds-at k row h e))
      (λ e. ap (row_holds k.namespace (joined k)) ((eq_iff row k).0 e) ∙ row_holds_self k h)

-- What a row at these columns holds.
row_holds_iff :
    (k : RowKey) (j : Text) → is_storable_key k ≡ true → row_holds k.namespace j k ≡ (joined k == j)
unfolding row_holds
row_holds_iff k j h = ground (arith, h, eq_self k.namespace)

holds_row-append :
    (namespace : Text) (rows more : List EntryRow) (k : Text)
    → holds_row namespace (rows ++ more) k
      ≡ (holds_row namespace rows k || holds_row namespace more k)
unfolding holds_row
holds_row-append namespace [] more k = refl
holds_row-append namespace (row ∷ rows) more k =
    ground (arith, holds_row-append namespace rows more k)

row_holds_other :
    (k row : RowKey) (j : Text)
    → is_storable_key k ≡ true
    → (row == k) ≡ false
    → (joined k == j) ≡ true
    → row_holds k.namespace j row ≡ false
row_holds_other k row j h other same =
    ap (λ t. row_holds k.namespace t row) (sym ((eq_iff (joined k) j).0 same))
    ∙ row_holds-key k row h
    ∙ other

-- Only rows at other columns hold the keys of others.
pub holds_row-delete_at :
    (k : RowKey) (j : Text) (rows : List EntryRow)
    → is_storable_key k ≡ true
    → holds_row k.namespace (delete_at (λ row. row.at) k rows) j
      ≡ (holds_row k.namespace rows j && not (joined k == j))
unfolding holds_row delete_at
holds_row-delete_at k j [] h = refl
holds_row-delete_at k j (row ∷ rows) h = elim (Bool-cases (row.at == k)) [
  | inl here ↦ ground (
    arith,
    here,
    ap (row_holds k.namespace j) ((eq_iff row.at k).0 here),
    row_holds_iff k j h,
    holds_row-delete_at k j rows h,
  )
  | inr other ↦
      ground (arith, other, row_holds_other k row.at j h other, holds_row-delete_at k j rows h)
]

holds_row-update_entry :
    (namespace j : Text) (row : EntryRow) (rows : List EntryRow)
    → holds_row namespace (update_entry row rows) j ≡ holds_row namespace rows j
unfolding holds_row update_entry
holds_row-update_entry namespace j row [] = refl
holds_row-update_entry namespace j row (r ∷ rows) =
    ground (arith, holds_row-update_entry namespace j row rows, eq_iff r.at row.at)

-- Whether there is a row at the columns of an identity.
pub holds_row-find_entry :
    (k : RowKey) (rows : List EntryRow)
    → is_storable_key k ≡ true
    → holds_row k.namespace rows (joined k) ≡ has_entry k rows
unfolding holds_row has_entry find_entry
holds_row-find_entry k [] h = refl
holds_row-find_entry k (row ∷ rows) h =
    ground (arith, row_holds-key k row.at h, holds_row-find_entry k rows h)

true_or : (a b : Bool) → (a ≡ true → b ≡ true) → b ≡ (a || b)
true_or true b f = f refl
true_or false b f = refl

single :
    (row : EntryRow) (j : Text)
    → holds_row row.at.namespace (row ∷ []) j ≡ row_holds row.at.namespace j row.at
unfolding holds_row
single row j = ground arith

-- An entry that is written is held, and so are the others.
pub holds_row-write_entry :
    (row : EntryRow) (m j : Text) (rows written : List EntryRow)
    → is_storable_key row.at ≡ true
    → (m == codes "created") ≡ not (has_entry row.at rows)
    → write_entry m row rows ≡ some written
    → holds_row row.at.namespace written j
      ≡ ((joined row.at == j) || holds_row row.at.namespace rows j)
unfolding write_entry
holds_row-write_entry row m j rows written storable created h =
    elim (Bool-cases (m == codes "created")) [
      | inl new ↦
          let done : rows ++ row ∷ [] ≡ written = ground (arith, h, new, storable, created) in
          rw (← done) (
            ground (
              arith,
              holds_row-append row.at.namespace rows (row ∷ []) j,
              row_holds_iff row.at j storable,
              single row j,
            ))
      | inr old ↦
          let done : update_entry row rows ≡ written = ground (arith, h, old) in
          let there : (joined row.at == j) ≡ true → holds_row row.at.namespace rows j ≡ true =
            λ same.
              ap (holds_row row.at.namespace rows) (sym ((eq_iff (joined row.at) j).0 same))
              ∙ holds_row-find_entry row.at rows storable
              ∙ ground (arith, old, created) in
          rw (← done) (
            holds_row-update_entry row.at.namespace j row rows
            ∙ true_or (joined row.at == j) (holds_row row.at.namespace rows j) there)
    ]
