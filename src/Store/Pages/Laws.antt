-- ===== src/Store/Pages/Laws.antt =====
-- models/store/page_size.go: the bounds of a page size.
use code_code_platform_catal.Prelude.{
  ℕ, ◌≡◌, ◌≤◌, refl, ◌||◌, List, [], ◌∷◌, ◌++◌, arith, inl, inr, Bool-cases, ◌==◌, eq_iff,
}
use code_code_platform_catal.Text.{Text, text_eq}
use code_code_platform_catal.Store.Pages.{
  normalize_page_size, ModelRef, ref_key, has_ref_key, append_unique_model_refs, scan_refs,
}

-- A page has between 1 and 100 rows.
pub normalize_page_size-bounds :
    (page_size : ℕ) → (1 ≤ normalize_page_size page_size) × (normalize_page_size page_size ≤ 100)
unfolding normalize_page_size
normalize_page_size-bounds page_size = (ground arith, ground arith)

has_ref_key-append :
    (k : Text) (xs ys : List ModelRef)
    → has_ref_key k (xs ++ ys) ≡ (has_ref_key k xs || has_ref_key k ys)
unfolding has_ref_key
has_ref_key-append k [] ys = refl
has_ref_key-append k (x ∷ xs) ys = ground (arith, has_ref_key-append k xs ys)

has_ref_key-append_unique :
    (k : Text) (refs : List ModelRef) (row : ModelRef)
    → has_ref_key k (append_unique_model_refs refs row) ≡ (has_ref_key k refs || ref_key row == k)
unfolding append_unique_model_refs has_ref_key
has_ref_key-append_unique k refs row = elim (Bool-cases (has_ref_key (ref_key row) refs)) [
  | inl old ↦ rw old (ground (arith, old, eq_iff (ref_key row) k))
  | inr new ↦ rw new (ground (arith, has_ref_key-append k refs (row ∷ [])))
]

has_ref_key-scan :
    (k : Text) (refs rows : List ModelRef)
    → has_ref_key k (scan_refs refs rows) ≡ (has_ref_key k refs || has_ref_key k rows)
unfolding scan_refs has_ref_key
has_ref_key-scan k refs [] = ground arith
has_ref_key-scan k refs (row ∷ rows) = ground (
  arith,
  has_ref_key-scan k (append_unique_model_refs refs row) rows,
  has_ref_key-append_unique k refs row,
)
