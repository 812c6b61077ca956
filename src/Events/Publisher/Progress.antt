-- ===== src/Events/Publisher/Progress.antt =====
-- domainevents/publisher.go: runs of `PublishPending` in which nothing fails.

use Prim.Native.Nat.{zero, suc, min, ◌*◌}
use code_code_platform_catal.Prelude.{
  ℕ, ◌+◌, ◌≤◌, ◌<◌, ◌≡◌, refl, ap, ◌∙◌, Bool, true, false, List, [], ◌∷◌, map, Option, none, some,
  arith, inl, inr, Bool-cases, Option-cases, if◌then◌else◌, ◌==◌, nat_eq, All, All-weaken, sort_by,
  length, length-take, IsDistinct, contains, All-zip,
}
use code_code_platform_catal.Text.{Text, text_eq, trim_space}
use code_code_platform_catal.Events.Outbox.{
  Row, OutboxRecord, is_pending, pending_rows, compare_row, batch_limit, next_rows, claim, ids,
  record_of, count_attempts, update_row, mark, published, mark_published,
}
use code_code_platform_catal.Events.Outbox.Laws.{
  status, IsId, status-count_attempts, status-mark_published, others, IsClaimed,
  next_rows-IsClaimed,
}
use code_code_platform_catal.Events.Outbox.Batch.{length-sort_by, next_rows-IsDistinct}
use code_code_platform_catal.Events.Publisher.{
  Run, Publication, with_rows, accepted, publish_records, publish_claimed, publish_pending,
}
use code_code_platform_catal.Events.Publisher.Laws.{InStream, IsSound, Grows-refl, Grows-trans}
use code_code_platform_catal.Events.Publisher.Reach.{Good, publish_pending-Good}

-- How many events wait.
unfoldable pub pending : List Row → ℕ
pending [] = 0
pending (row ∷ rows) = (if is_pending row then 1 else 0) + pending rows

-- The size of a full batch: the batch size that is asked for, and 32 for none.
abbrev pub full_batch : ℕ → ℕ
full_batch zero = 32
full_batch (suc n) = suc n

batch_limit-eq-full_batch : (batch_size : ℕ) → batch_limit batch_size ≡ full_batch batch_size
unfolding batch_limit
batch_limit-eq-full_batch zero = refl
batch_limit-eq-full_batch (suc n) = ground arith

-- A run in which nothing fails and no other publisher holds a row.
pub record IsCalm (run : Run) : Type 0 where
  pub unlocked : (id : Text) → run.locked id ≡ false
  pub claims : run.claims ≡ true
  pub connects : run.connects ≡ true
  pub accepts : (m : OutboxRecord) → run.refusal m ≡ none
  pub marks : (id : Text) → run.marks_published id ≡ true

pending-count_attempts :
    (claimed : List Text) (rows : List Row) → pending (count_attempts claimed rows) ≡ pending rows
unfolding pending count_attempts
pending-count_attempts claimed [] = refl
pending-count_attempts claimed (row ∷ rows) = ground (arith, pending-count_attempts claimed rows)

pending-update_row :
    (now : ℕ) (id : Text) (rows : List Row)
    → pending (update_row id (published now) rows) ≤ pending rows
unfolding pending update_row
pending-update_row now id [] = omega arith
pending-update_row now id (row ∷ rows) = ground (arith, pending-update_row now id rows)

pending-update_row-lt :
    (now : ℕ) (id : Text) (rows : List Row) (m : OutboxRecord)
    → status id rows ≡ some (m, none)
    → pending (update_row id (published now) rows) < pending rows
unfolding pending update_row status
pending-update_row-lt now id [] m h = absurd (ground (arith, h))
pending-update_row-lt now id (row ∷ rows) m h =
    ground (arith, pending-update_row now id rows, pending-update_row-lt now id rows m)

pending-mark_published :
    (now : ℕ) (id : Text) (rows : List Row) → pending (mark_published now id rows) ≤ pending rows
unfolding mark_published mark
pending-mark_published now id rows = ground (arith, pending-update_row now (trim_space id) rows)

pending-mark_published-lt :
    (now : ℕ) (id : Text) (rows : List Row) (m : OutboxRecord)
    → IsId id
    → status id rows ≡ some (m, none)
    → pending (mark_published now id rows) < pending rows
unfolding mark_published mark
pending-mark_published-lt now id rows m (trimmed, named) h =
    rw (trimmed, named) (pending-update_row-lt now id rows m h)

module _ (run : Run) (calm : IsCalm run) where
  publish_records-step :
      (m : OutboxRecord) (messages : List OutboxRecord) (s : Publication)
      → publish_records run (m ∷ messages) s
        ≡ publish_records run messages
            (with_rows (accepted s m) (mark_published run.now m.event_id s.rows))
  unfolding publish_records
  publish_records-step m messages s =
      rw (calm.accepts m, calm.marks m.event_id, publish_records) refl

  -- A row is marked, and the rows behind it in the batch still wait.
  marked-IsClaimed :
      (row : Row) (next rows : List Row)
      → IsId row.event_id
      → contains (ids next) row.event_id ≡ false
      → All (IsClaimed rows) next
      → All (IsClaimed (mark_published run.now row.event_id rows)) next
  marked-IsClaimed row next rows id fresh is =
      All-weaken next
        (λ r p.
          (status-mark_published run.now row.event_id r.event_id rows id ∙ rw p.1 p.0.0, p.0.1))
        (All-zip _ _ next is (others row.event_id next fresh))

  pending-publish_records :
      (next : List Row) (s : Publication)
      → IsDistinct (ids next)
      → All (IsClaimed s.rows) next
      → pending (publish_records run (map record_of next) s).0.rows + length next ≤ pending s.rows
  pending-publish_records [] s d is = unfold publish_records in omega arith
  pending-publish_records (row ∷ next) s (fresh, d) (is, rest) =
      let rows : List Row = mark_published run.now row.event_id s.rows in
      omega (
        arith,
        ap (λ (r : Publication × Bool). pending r.0.rows)
            (publish_records-step (record_of row) (map record_of next) s),
        pending-publish_records next (with_rows (accepted s (record_of row)) rows) d
            (marked-IsClaimed row next s.rows is.1 fresh rest),
        pending-mark_published-lt run.now row.event_id s.rows (record_of row) is.1 is.0,
      )

  publish_claimed-connected :
      (m : OutboxRecord) (messages : List OutboxRecord) (rows : List Row) (s : Publication)
      → publish_claimed run (m ∷ messages, rows) s
        ≡ publish_records run (m ∷ messages) (with_rows s rows)
  unfolding publish_claimed
  publish_claimed-connected m messages rows s =
      ap
        (λ b.
          if b
          then publish_records run (m ∷ messages) (with_rows s rows)
          else (with_rows s rows, false))
        calm.connects

  publish_pending-claimed :
      (batch_size : ℕ) (s : Publication)
      → publish_pending run batch_size s
        ≡ publish_claimed run
            (
              map record_of (next_rows run.locked batch_size s.rows),
              count_attempts (ids (next_rows run.locked batch_size s.rows)) s.rows,
            )
            s
  unfolding publish_pending claim
  publish_pending-claimed batch_size s =
      ap (λ b. if b then publish_claimed run (claim run.locked batch_size s.rows) s else (s, false))
        calm.claims

  pending-publish_claimed :
      (next rows : List Row) (s : Publication)
      → IsDistinct (ids next)
      → All (IsClaimed rows) next
      → pending (publish_claimed run (map record_of next, rows) s).0.rows + length next
        ≤ pending rows
  pending-publish_claimed [] rows s d is = unfold publish_claimed in omega arith
  pending-publish_claimed (row ∷ next) rows s d is = omega (
    arith,
    ap (λ (r : Publication × Bool). pending r.0.rows)
        (publish_claimed-connected (record_of row) (map record_of next) rows s),
    pending-publish_records (row ∷ next) (with_rows s rows) d is,
  )

  length-pending_rows : (rows : List Row) → length (pending_rows run.locked rows) ≡ pending rows
  unfolding pending_rows pending
  length-pending_rows [] = refl
  length-pending_rows (row ∷ rows) =
      ground (arith, calm.unlocked row.event_id, length-pending_rows rows)

-- How many rows a batch has, when nothing is locked.
length-next_rows :
    (run : Run) (calm : IsCalm run) (batch_size : ℕ) (rows : List Row)
    → length (next_rows run.locked batch_size rows) ≡ min (full_batch batch_size) (pending rows)
unfolding next_rows
length-next_rows run calm batch_size rows =
    length-take (batch_limit batch_size) (sort_by compare_row (pending_rows run.locked rows))
    ∙ rw (batch_limit-eq-full_batch batch_size) (
        ap (min (full_batch batch_size))
          (length-sort_by (pending_rows run.locked rows) ∙ length-pending_rows run calm rows))

module _ (batch_size : ℕ) where
  -- A calm run publishes a whole batch, or all that waits.
  pending-publish_pending :
      (run : Run) (s : Publication)
      → IsCalm run
      → IsSound s
      → pending (publish_pending run batch_size s).0.rows
          + min (full_batch batch_size) (pending s.rows)
        ≤ pending s.rows
  pending-publish_pending run s calm h =
      let next : List Row = next_rows run.locked batch_size s.rows in
      omega (
        arith,
        ap (λ (r : Publication × Bool). pending r.0.rows)
            (publish_pending-claimed run calm batch_size s),
        pending-publish_claimed run calm next (count_attempts (ids next) s.rows) s
            (next_rows-IsDistinct run.locked batch_size s.rows h.outbox.distinct)
            (All-weaken next (λ row p. (status-count_attempts _ row.event_id s.rows ∙ p.0, p.1))
              (next_rows-IsClaimed run.locked batch_size s.rows h.outbox)),
        length-next_rows run calm batch_size s.rows,
        pending-count_attempts (ids next) s.rows,
      )

  unfoldable pub publish_runs : List Run → Publication → Publication
  publish_runs [] s = s
  publish_runs (run ∷ runs) s = publish_runs runs (publish_pending run batch_size s).0

  none_pending :
      (rows : List Row) (j : Text) (m : OutboxRecord) (p : Option ℕ)
      → pending rows ≡ 0
      → status j rows ≡ some (m, p)
      → (at : ℕ) × (status j rows ≡ some (m, some at))
  unfolding pending status
  none_pending [] j m p e h = absurd (ground (arith, h))
  none_pending (row ∷ rows) j m p e h = elim (Bool-cases (row.event_id == j)) [
    | inl same ↦ elim (Option-cases row.published_at) [
      | inl waits ↦ absurd (ground (arith, e, waits))
      | inr (at, set) ↦ (at, ground (arith, h, same, set))
    ]
    | inr other ↦
        let (at, f) = none_pending rows j m p (ground arith) (ground (arith, h, other)) in
        (at, ground (arith, f, other))
  ]

  none_pending_runs :
      (runs : List Run) (s : Publication)
      → IsSound s
      → All IsCalm runs
      → pending s.rows ≤ length runs * full_batch batch_size
      → Good s (publish_runs runs s) × (pending (publish_runs runs s).rows ≡ 0)
  unfolding publish_runs
  none_pending_runs [] s h calm bound = ((Grows-refl s, h), omega arith)
  none_pending_runs (run ∷ runs) s h (calm, rest) bound =
      let t : Publication = (publish_pending run batch_size s).0 in
      let (g, sound) = publish_pending-Good run batch_size s h in
      let fewer : pending t.rows ≤ length runs * full_batch batch_size =
        omega (arith, pending-publish_pending run s calm h) in
      let ((g', sound'), gone) = none_pending_runs runs t sound rest fewer in
      ((Grows-trans g g', sound'), gone)

  -- From any state that a history leads to, runs in which nothing fails and no other publisher holds
  -- a row bring the message of every event of the outbox to the stream, if the events that wait are
  -- no more than the runs can publish with a full batch each. A full batch has the batch size, and 32
  -- events for the batch size 0.
  pub publish_runs_all :
      (runs : List Run) (s : Publication)
      → IsSound s
      → All IsCalm runs
      → pending s.rows ≤ length runs * full_batch batch_size
      → (j : Text) (m : OutboxRecord) (p : Option ℕ) → status j s.rows ≡ some (m, p)
      → InStream (publish_runs runs s).stream m
  publish_runs_all runs s h calm bound j m p e =
      let ((g, sound), gone) = none_pending_runs runs s h calm bound in
      let (q, f, _) = g.kept j m p e in
      let (at, f') = none_pending (publish_runs runs s).rows j m q gone f in sound.sent j m at f'
