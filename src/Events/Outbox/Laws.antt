-- ===== src/Events/Outbox/Laws.antt =====
-- domainevents/outbox.go: the status of an event, and the statements that change it.
use mathlib.Core.Path.{subst}
use code_code_platform_catal.Prelude.{
  ℕ, ◌≡◌, refl, sym, ap, ◌∙◌, Bool, true, false, ◌||◌, ◌&&◌, not, ◌++◌, List, [], ◌∷◌, Option, none,
  some, arith, inl, inr, Bool-cases, if◌then◌else◌, ◌==◌, eq_iff, eq_self, All, All-append,
  All-weaken, All-zip, contains, IsDistinct, IsDistinct-concat, sort_by-All, take-All,
}
use code_code_platform_catal.Text.{Text, text_eq, is_empty, trim_space}
use code_code_platform_catal.Events.Outbox.{
  Row, OutboxRecord, has_event, insert_row, is_pending, pending_rows, compare_row, next_rows,
  batch_limit, ids, record_of, count_attempts, update_row, mark, published, failed_with,
  mark_published, mark_failed,
}

-- What is to be published for the id, and when it was.
unfoldable pub status : Text → List Row → Option (OutboxRecord × Option ℕ)
status j [] = none
status j (row ∷ rows) =
    if row.event_id == j then some (record_of row, row.published_at) else status j rows

abbrev pub published_status :
    ℕ → Option (OutboxRecord × Option ℕ) → Option (OutboxRecord × Option ℕ)
published_status now none = none
published_status now (some (message, at)) = some (message, some now)

-- The ids are different, and none is blank or has white space around it.
abbrev pub IsId : Text → Type 0
IsId id = (trim_space id ≡ id) × (is_empty id ≡ false)

pub record IsOutbox (rows : List Row) : Type 0 where
  pub distinct : IsDistinct (ids rows)
  pub named : All (λ row. IsId row.event_id) rows

pub status-count_attempts :
    (claimed : List Text) (j : Text) (rows : List Row)
    → status j (count_attempts claimed rows) ≡ status j rows
unfolding status count_attempts
status-count_attempts claimed j [] = refl
status-count_attempts claimed j (row ∷ rows) = ground (arith, status-count_attempts claimed j rows)

pub status-update_published :
    (now : ℕ) (id j : Text) (rows : List Row)
    → status j (update_row id (published now) rows)
      ≡ (if id == j then published_status now (status j rows) else status j rows)
unfolding status update_row
status-update_published now id j [] = ground arith
status-update_published now id j (row ∷ rows) = ground (
  arith,
  status-update_published now id j rows,
  eq_iff row.event_id id,
  eq_iff row.event_id j,
  eq_iff id j,
)

status-update_failed :
    (message id j : Text) (rows : List Row)
    → status j (update_row id (failed_with message) rows) ≡ status j rows
unfolding status update_row
status-update_failed message id j [] = refl
status-update_failed message id j (row ∷ rows) =
    ground (arith, status-update_failed message id j rows)

pub status-mark_failed :
    (message id j : Text) (rows : List Row) → status j (mark_failed message id rows) ≡ status j rows
unfolding mark_failed mark
status-mark_failed message id j rows = elim (Bool-cases (is_empty (trim_space id))) [
  | inl e ↦ rw e refl
  | inr e ↦ rw e (status-update_failed message (trim_space id) j rows)
]

pub status-mark_published :
    (now : ℕ) (id j : Text) (rows : List Row)
    → IsId id
    → status j (mark_published now id rows)
      ≡ (if id == j then published_status now (status j rows) else status j rows)
unfolding mark_published mark
status-mark_published now id j rows (trimmed, named) =
    rw (trimmed, named) (status-update_published now id j rows)

-- A new row shows where there was none with its id.
abbrev pub or_row : Row → Text → Option (OutboxRecord × Option ℕ) → Option (OutboxRecord × Option ℕ)
or_row row j (some s) = some s
or_row row j none = if row.event_id == j then some (record_of row, row.published_at) else none

status_known :
    (row : Row) (j : Text) (rows : List Row)
    → has_event row.event_id rows ≡ true
    → status j rows ≡ or_row row j (status j rows)
unfolding has_event status
status_known row j [] h = ground arith
status_known row j (r ∷ rows) h = ground (
  arith,
  eq_iff r.event_id row.event_id,
  eq_iff r.event_id j,
  eq_iff row.event_id j,
  status_known row j rows,
)

status-append :
    (row : Row) (j : Text) (rows : List Row)
    → status j (rows ++ row ∷ []) ≡ or_row row j (status j rows)
unfolding status
status-append row j [] = ground arith
status-append row j (r ∷ rows) = ground (arith, status-append row j rows)

pub status-insert_row :
    (row : Row) (j : Text) (rows : List Row)
    → status j (insert_row row rows) ≡ or_row row j (status j rows)
unfolding insert_row
status-insert_row row j rows = elim (Bool-cases (has_event row.event_id rows)) [
  | inl old ↦ rw old (status_known row j rows old)
  | inr new ↦ rw new (status-append row j rows)
]

ids-count_attempts :
    (claimed : List Text) (rows : List Row) → ids (count_attempts claimed rows) ≡ ids rows
unfolding count_attempts
ids-count_attempts claimed [] = refl
ids-count_attempts claimed (row ∷ rows) = ground (arith, ids-count_attempts claimed rows)

module _ (f : Row → Row) (keeps : (row : Row) → (f row).event_id ≡ row.event_id) where
  ids-update_row : (id : Text) (rows : List Row) → ids (update_row id f rows) ≡ ids rows
  unfolding update_row
  ids-update_row id [] = refl
  ids-update_row id (row ∷ rows) = ground (arith, ids-update_row id rows, keeps row)

  All-update_row :
      (P : Text → Type 0) (id : Text) (rows : List Row)
      → All (λ row. P row.event_id) rows
      → All (λ row. P row.event_id) (update_row id f rows)
  unfolding update_row
  All-update_row P id [] h = tt
  All-update_row P id (row ∷ rows) (p, h) = elim (Bool-cases (row.event_id == id)) [
    | inl e ↦ rw e (subst P (sym (keeps row)) p, All-update_row P id rows h)
    | inr e ↦ rw e (p, All-update_row P id rows h)
  ]

  update_row-IsOutbox :
      (id : Text) (rows : List Row) → IsOutbox rows → IsOutbox (update_row id f rows)
  update_row-IsOutbox id rows h = record {
    distinct = subst IsDistinct (sym (ids-update_row id rows)) h.distinct;
    named = All-update_row IsId id rows h.named;
  }

  mark-IsOutbox : (id : Text) (rows : List Row) → IsOutbox rows → IsOutbox (mark id f rows)
  unfolding mark
  mark-IsOutbox id rows h = elim (Bool-cases (is_empty (trim_space id))) [
    | inl e ↦ rw e h
    | inr e ↦ rw e (update_row-IsOutbox (trim_space id) rows h)
  ]

pub mark_published-IsOutbox :
    (now : ℕ) (id : Text) (rows : List Row) → IsOutbox rows → IsOutbox (mark_published now id rows)
unfolding mark_published
mark_published-IsOutbox now id rows h = mark-IsOutbox (published now) (λ row. refl) id rows h

pub mark_failed-IsOutbox :
    (message id : Text) (rows : List Row) → IsOutbox rows → IsOutbox (mark_failed message id rows)
unfolding mark_failed
mark_failed-IsOutbox message id rows h = mark-IsOutbox (failed_with message) (λ row. refl) id rows h

All-count_attempts :
    (P : Text → Type 0) (claimed : List Text) (rows : List Row)
    → All (λ row. P row.event_id) rows
    → All (λ row. P row.event_id) (count_attempts claimed rows)
unfolding count_attempts
All-count_attempts P claimed [] h = tt
All-count_attempts P claimed (row ∷ rows) (p, h) =
    elim (Bool-cases (contains claimed row.event_id)) [
      | inl e ↦ rw e (p, All-count_attempts P claimed rows h)
      | inr e ↦ rw e (p, All-count_attempts P claimed rows h)
    ]

pub count_attempts-IsOutbox :
    (claimed : List Text) (rows : List Row) → IsOutbox rows → IsOutbox (count_attempts claimed rows)
count_attempts-IsOutbox claimed rows h = record {
  distinct = subst IsDistinct (sym (ids-count_attempts claimed rows)) h.distinct;
  named = All-count_attempts IsId claimed rows h.named;
}

has_event-contains : (id : Text) (rows : List Row) → has_event id rows ≡ contains (ids rows) id
unfolding has_event contains
has_event-contains id [] = refl
has_event-contains id (row ∷ rows) = ap (λ b. row.event_id == id || b) (has_event-contains id rows)

ids-append : (row : Row) (rows : List Row) → ids (rows ++ row ∷ []) ≡ ids rows ++ row.event_id ∷ []
ids-append row [] = refl
ids-append row (r ∷ rows) = ap (λ l. r.event_id ∷ l) (ids-append row rows)

pub insert_row-IsOutbox :
    (row : Row) (rows : List Row)
    → IsId row.event_id
    → IsOutbox rows
    → IsOutbox (insert_row row rows)
unfolding insert_row
insert_row-IsOutbox row rows named h = elim (Bool-cases (has_event row.event_id rows)) [
  | inl old ↦ rw old h
  | inr new ↦ rw new (record {
    distinct = subst IsDistinct (sym (ids-append row rows)) (
        IsDistinct-concat (ids rows) row.event_id h.distinct
          (sym (has_event-contains row.event_id rows) ∙ new));
    named = All-append _ rows (row ∷ []) h.named (named, tt);
  })
]

-- Every row is found by its id.
pub others :
    (id : Text) (rows : List Row)
    → contains (ids rows) id ≡ false
    → All (λ row. (id == row.event_id) ≡ false) rows
unfolding contains
others id [] h = tt
others id (row ∷ rows) h =
    (ground (arith, eq_iff id row.event_id, eq_iff row.event_id id), others id rows (ground arith))

abbrev pub Shows : List Row → Row → Type 0
Shows rows row = status row.event_id rows ≡ some (record_of row, row.published_at)

pub rows-Shows : (rows : List Row) → IsDistinct (ids rows) → All (Shows rows) rows
unfolding status
rows-Shows [] d = tt
rows-Shows (row ∷ rows) (fresh, d) = (
  ground (arith, eq_self row.event_id),
  All-weaken rows (λ r p. ground (arith, p.0, p.1))
      (All-zip _ _ rows (rows-Shows rows d) (others row.event_id rows fresh)),
)

-- What a claim selects is pending.
abbrev pub IsClaimed : List Row → Row → Type 0
IsClaimed rows row = (status row.event_id rows ≡ some (record_of row, none)) × IsId row.event_id

pending_rows-IsClaimed :
    (locked : Text → Bool) (all rows : List Row)
    → All (λ row. Shows all row × IsId row.event_id) rows
    → All (IsClaimed all) (pending_rows locked rows)
unfolding pending_rows
pending_rows-IsClaimed locked all [] h = tt
pending_rows-IsClaimed locked all (row ∷ rows) ((shown, named), h) =
    elim (Bool-cases (is_pending row && not (locked row.event_id))) [
      | inl e ↦ rw e ((ground (arith, shown, e), named), pending_rows-IsClaimed locked all rows h)
      | inr e ↦ rw e (pending_rows-IsClaimed locked all rows h)
    ]

pub next_rows-IsClaimed :
    (locked : Text → Bool) (batch_size : ℕ) (rows : List Row)
    → IsOutbox rows
    → All (IsClaimed rows) (next_rows locked batch_size rows)
unfolding next_rows
next_rows-IsClaimed locked batch_size rows h = take-All _ (batch_limit batch_size) _ (
    sort_by-All compare_row _ _ (
      pending_rows-IsClaimed locked rows rows
        (All-zip _ _ rows (rows-Shows rows h.distinct) h.named)))
