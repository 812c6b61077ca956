-- ===== src/Events/Outbox.antt =====
-- domainevents/outbox.go. The table is the list of its rows in the order of their insertion; its
-- primary key is the event's id. `proto.Marshal`, the clock and the identifiers of `nuid` are
-- parameters; a failing statement is `none`.
pub mod Laws
pub mod Batch
use Prim.Native.Nat.{Ordering, compare}
use code_code_platform_catal.Prelude.{
  ℕ, zero, suc, ◌+◌, Bool, true, false, ◌||◌, ◌&&◌, not, ◌++◌, List, [], ◌∷◌, map, Option, none,
  some, if◌then◌else◌, ◌==◌, nat_eq, contains, sort_by, take,
}
use code_code_platform_catal.Text.{Text, codes, text_eq, is_empty, trim_space, compare_text}
use code_code_platform_catal.Events.Subjects.{DomainEvent, subject_for}

-- A row of `platform_domain_outbox`.
pub record Row : Type 0 where
  pub event_id : Text
  pub subject : Text
  pub payload : Text
  pub aggregate_type : Text
  pub aggregate_id : Text
  pub aggregate_version : ℕ
  pub created_at : ℕ
  pub published_at : Option ℕ
  pub attempts : ℕ
  pub last_error : Text

-- `Record`.
pub record OutboxRecord : Type 0 where
  pub event_id : Text
  pub subject : Text
  pub payload : Text

-- The producer that `NewOutbox` settles on.
unfoldable pub producer_of : Text → Text
producer_of producer = let p = trim_space producer in if is_empty p then codes "platform-k8s" else p

module _ {P : Type 0} (fresh : Text) (now : ℕ) (producer : Text) where
  unfoldable pub normalize_event : DomainEvent P → DomainEvent P
  normalize_event event = record event {
    event_id = if is_empty (trim_space event.event_id) then fresh else event.event_id;
    occurred_at = elim event.occurred_at [ none ↦ some now | some at ↦ some at ];
    producer = if is_empty (trim_space event.producer) then producer else event.producer;
  }

-- The primary key: `on conflict (event_id) do nothing`.
unfoldable pub has_event : Text → List Row → Bool
has_event id [] = false
has_event id (row ∷ rows) = row.event_id == id || has_event id rows

unfoldable pub insert_row : Row → List Row → List Row
insert_row row rows = if has_event row.event_id rows then rows else rows ++ row ∷ []

module _ {P : Type 0} (marshal : DomainEvent P → Option Text) (fresh : Text) (now : ℕ)
    (producer : Text) where
  unfoldable pub row_of : DomainEvent P → Text → Row
  row_of event payload = record {
    event_id = event.event_id;
    subject = subject_for (some event);
    payload = payload;
    aggregate_type = event.aggregate_type;
    aggregate_id = event.aggregate_id;
    aggregate_version = event.aggregate_version;
    created_at = now;
    published_at = none;
    attempts = 0;
    last_error = [];
  }

  -- A nil event and one that cannot be marshalled are errors.
  unfoldable pub enqueue : Option (DomainEvent P) → List Row → Option (List Row)
  unfolding normalize_event
  enqueue none rows = none
  enqueue (some event) rows =
      let normalized = normalize_event fresh now producer event in
      elim (marshal normalized) [
        | none ↦ none
        | some payload ↦ some (insert_row (row_of normalized payload) rows)
      ]

abbrev pub is_pending : Row → Bool
is_pending row = elim row.published_at [ none ↦ true | some _ ↦ false ]

-- `where published_at is null … for update skip locked`.
unfoldable pub pending_rows : (Text → Bool) → List Row → List Row
pending_rows locked [] = []
pending_rows locked (row ∷ rows) =
    let rest = pending_rows locked rows in
    if is_pending row && not (locked row.event_id) then row ∷ rest else rest

-- `order by created_at, event_id`.
unfoldable pub compare_row : Row → Row → Ordering
compare_row left right = elim (compare left.created_at right.created_at) [
  | Ordering.lt ↦ Ordering.lt
  | Ordering.eq ↦ compare_text left.event_id right.event_id
  | Ordering.gt ↦ Ordering.gt
]

-- The batch size 0 stands for all that are not positive.
unfoldable pub batch_limit : ℕ → ℕ
batch_limit batch_size = if batch_size == 0 then 32 else batch_size

-- The rows that the query `next` selects.
unfoldable pub next_rows : (Text → Bool) → ℕ → List Row → List Row
next_rows locked batch_size rows =
    take (batch_limit batch_size) (sort_by compare_row (pending_rows locked rows))

abbrev pub ids : List Row → List Text
ids [] = []
ids (row ∷ rows) = row.event_id ∷ ids rows

abbrev pub record_of : Row → OutboxRecord
record_of row = record { event_id = row.event_id; subject = row.subject; payload = row.payload }

-- `set attempts = outbox.attempts + 1` for the selected ids.
unfoldable pub count_attempts : List Text → List Row → List Row
count_attempts claimed [] = []
count_attempts claimed (row ∷ rows) =
    (if contains claimed row.event_id then record row { attempts = row.attempts + 1 } else row)
    ∷ count_attempts claimed rows

-- `returning` gives the updated rows, here in the order of the selection.
unfoldable pub claim : (Text → Bool) → ℕ → List Row → List OutboxRecord × List Row
claim locked batch_size rows =
    let next = next_rows locked batch_size rows in
    (map record_of next, count_attempts (ids next) rows)

-- `update … where event_id = $1`.
unfoldable pub update_row : Text → (Row → Row) → List Row → List Row
update_row id f [] = []
update_row id f (row ∷ rows) = (if row.event_id == id then f row else row) ∷ update_row id f rows

unfoldable pub mark : Text → (Row → Row) → List Row → List Row
mark event_id f rows =
    let id = trim_space event_id in if is_empty id then rows else update_row id f rows

abbrev pub published : ℕ → Row → Row
published now row = record row { published_at = some now; last_error = [] }

abbrev pub failed_with : Text → Row → Row
failed_with message row = record row { last_error = trim_space message }

unfoldable pub mark_published : ℕ → Text → List Row → List Row
mark_published now event_id rows = mark event_id (published now) rows

unfoldable pub mark_failed : Text → Text → List Row → List Row
mark_failed message event_id rows = mark event_id (failed_with message) rows
