-- ===== src/Events/Outbox/Batch.antt =====
-- domainevents/outbox.go: the rows that a batch is selected from, by their number and their ids.
use Prim.Native.Nat.{Ordering}
use code_code_platform_catal.Prelude.{
  ℕ, zero, suc, ◌≡◌, refl, ap, ◌∙◌, Bool, false, ◌||◌, ◌&&◌, not, List, [], ◌∷◌, arith, inl, inr,
  Bool-cases, ◌==◌, eq_iff, contains, IsDistinct, take, sort_by, insert_by, length,
}
use code_code_platform_catal.Text.{Text, text_eq}
use code_code_platform_catal.Events.Outbox.{
  Row, pending_rows, is_pending, compare_row, batch_limit, next_rows, ids,
}

pub length-insert_by :
    (row : Row) (rows : List Row) → length (insert_by compare_row row rows) ≡ suc (length rows)
unfolding insert_by
length-insert_by row [] = refl
length-insert_by row (r ∷ rows) = ground (arith, length-insert_by row rows)

pub length-sort_by : (rows : List Row) → length (sort_by compare_row rows) ≡ length rows
unfolding sort_by
length-sort_by [] = refl
length-sort_by (row ∷ rows) =
    length-insert_by row (sort_by compare_row rows) ∙ ap suc (length-sort_by rows)

contains-insert_by :
    (row : Row) (rows : List Row) (j : Text)
    → contains (ids (insert_by compare_row row rows)) j
      ≡ (row.event_id == j || contains (ids rows) j)
unfolding insert_by contains
contains-insert_by row [] j = refl
contains-insert_by row (r ∷ rows) j = ground (arith, contains-insert_by row rows j)

insert_by-IsDistinct :
    (row : Row) (rows : List Row)
    → contains (ids rows) row.event_id ≡ false
    → IsDistinct (ids rows)
    → IsDistinct (ids (insert_by compare_row row rows))
unfolding insert_by contains
insert_by-IsDistinct row [] new d = (refl, tt)
insert_by-IsDistinct row (r ∷ rows) new (fresh, d) =
    place (insert_by-IsDistinct row rows (ground (arith, new)) d) (compare_row row r) refl
  where
    place :
        IsDistinct (ids (insert_by compare_row row rows))
        → (o : Ordering) → compare_row row r ≡ o
        → IsDistinct (ids (insert_by compare_row row (r ∷ rows)))
    place rest Ordering.lt e = rw (e, insert_by) (new, (fresh, d))
    place rest Ordering.eq e = rw (e, insert_by) (new, (fresh, d))
    place rest Ordering.gt e =
        rw (e, insert_by)
          (
            contains-insert_by row rows r.event_id
                ∙ ground (
                  arith,
                  new,
                  fresh,
                  eq_iff r.event_id row.event_id,
                  eq_iff row.event_id r.event_id,
                ),
            rest,
          )

contains-sort_by :
    (rows : List Row) (j : Text)
    → contains (ids (sort_by compare_row rows)) j ≡ contains (ids rows) j
unfolding sort_by contains
contains-sort_by [] j = refl
contains-sort_by (row ∷ rows) j =
    contains-insert_by row (sort_by compare_row rows) j
    ∙ ap (λ b. row.event_id == j || b) (contains-sort_by rows j)

sort_by-IsDistinct :
    (rows : List Row) → IsDistinct (ids rows) → IsDistinct (ids (sort_by compare_row rows))
unfolding sort_by
sort_by-IsDistinct [] d = tt
sort_by-IsDistinct (row ∷ rows) (fresh, d) =
    insert_by-IsDistinct row (sort_by compare_row rows) (contains-sort_by rows row.event_id ∙ fresh)
      (sort_by-IsDistinct rows d)

not_contains-take :
    (n : ℕ) (rows : List Row) (j : Text)
    → contains (ids rows) j ≡ false
    → contains (ids (take n rows)) j ≡ false
unfolding contains
not_contains-take zero rows j h = refl
not_contains-take (suc n) [] j h = refl
not_contains-take (suc n) (row ∷ rows) j h = ground (arith, h, not_contains-take n rows j)

take-IsDistinct : (n : ℕ) (rows : List Row) → IsDistinct (ids rows) → IsDistinct (ids (take n rows))
take-IsDistinct zero rows d = tt
take-IsDistinct (suc n) [] d = tt
take-IsDistinct (suc n) (row ∷ rows) (fresh, d) =
    (not_contains-take n rows row.event_id fresh, take-IsDistinct n rows d)

module _ (locked : Text → Bool) where
  not_contains-pending_rows :
      (rows : List Row) (j : Text)
      → contains (ids rows) j ≡ false
      → contains (ids (pending_rows locked rows)) j ≡ false
  unfolding contains pending_rows
  not_contains-pending_rows [] j h = refl
  not_contains-pending_rows (row ∷ rows) j h = ground (arith, h, not_contains-pending_rows rows j)

  pending_rows-IsDistinct :
      (rows : List Row) → IsDistinct (ids rows) → IsDistinct (ids (pending_rows locked rows))
  unfolding pending_rows
  pending_rows-IsDistinct [] d = tt
  pending_rows-IsDistinct (row ∷ rows) (fresh, d) =
      elim (Bool-cases (is_pending row && not (locked row.event_id))) [
        | inl kept ↦
            rw kept
              (not_contains-pending_rows rows row.event_id fresh, pending_rows-IsDistinct rows d)
        | inr other ↦ rw other (pending_rows-IsDistinct rows d)
      ]

  pub next_rows-IsDistinct :
      (batch_size : ℕ) (rows : List Row)
      → IsDistinct (ids rows)
      → IsDistinct (ids (next_rows locked batch_size rows))
  unfolding next_rows
  next_rows-IsDistinct batch_size rows d =
      take-IsDistinct (batch_limit batch_size) _
        (sort_by-IsDistinct (pending_rows locked rows) (pending_rows-IsDistinct rows d))
