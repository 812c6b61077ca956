-- ===== src/Events/Publisher/Reach.antt =====
-- domainevents: the histories of the outbox and its publishers.
use mathlib.Core.Path.{subst}
use code_code_platform_catal.Prelude.{
  ℕ, ◌≡◌, refl, ap, ◌∙◌, true, false, List, [], ◌∷◌, map, Option, none, some, some_eq, arith, inl,
  inr, Bool-cases, Option-cases, if◌then◌else◌, All, All-map,
}
use code_code_platform_catal.Text.{Text, text_eq}
use code_code_platform_catal.Events.Subjects.{DomainEvent}
use code_code_platform_catal.Events.Outbox.{
  Row, OutboxRecord, normalize_event, row_of, insert_row, enqueue, ids, record_of, next_rows, claim,
  count_attempts,
}
use code_code_platform_catal.Events.Outbox.Laws.{
  status, IsId, status-count_attempts, status-mark_failed, or_row, status-insert_row,
  mark_failed-IsOutbox, count_attempts-IsOutbox, insert_row-IsOutbox, next_rows-IsClaimed,
}
use code_code_platform_catal.Events.Publisher.{
  Run, Publication, with_rows, refuse, publish_records, publish_claimed, publish_pending,
}
use code_code_platform_catal.Events.Publisher.Laws.{
  IsSound, Grows, Grows-refl, Grows-trans, same-Grows, same-IsSound, IsMessage, grown-IsMessage,
  sent_and_marked, marked-Grows, marked-IsSound, accepted-Grows, accepted-IsSound,
}

abbrev pub Good : Publication → Publication → Type 0
Good s t = Grows s t × IsSound t

Good-trans : {s t u : Publication} → Grows s t → Good t u → Good s u
Good-trans g (h, sound) = (Grows-trans g h, sound)

module _ (run : Run) where
  refuse-Good :
      (m : OutboxRecord) (reason : Text) (s : Publication)
      → IsSound s
      → Good s (refuse run m reason s)
  unfolding refuse
  refuse-Good m reason s h = elim (Bool-cases (run.marks_failed m.event_id)) [
    | inl e ↦ rw e (
      same-Grows s _ (λ j. status-mark_failed reason m.event_id j s.rows),
      same-IsSound s _ (mark_failed-IsOutbox reason m.event_id s.rows h.outbox)
          (λ j. status-mark_failed reason m.event_id j s.rows) h,
    )
    | inr e ↦ rw e (Grows-refl s, h)
  ]

  publish_records-Good :
      (messages : List OutboxRecord) (s : Publication)
      → IsSound s
      → All (IsMessage s.rows) messages
      → Good s (publish_records run messages s).0
  unfolding publish_records
  publish_records-Good [] s h is = (Grows-refl s, h)
  publish_records-Good (m ∷ messages) s h (is, rest) = elim (Option-cases (run.refusal m)) [
    | inr (reason, e) ↦
        let (g, sound) = refuse-Good m reason s h in
        rw (e, publish_records)
          (Good-trans g (
            publish_records-Good messages (refuse run m reason s) sound
              (grown-IsMessage s (refuse run m reason s) messages g rest)))
    | inl e ↦ elim (Bool-cases (run.marks_published m.event_id)) [
      | inr unmarked ↦
          rw (e, unmarked, publish_records) (accepted-Grows s m, accepted-IsSound s m h)
      | inl marked ↦
          let g = marked-Grows run.now m s is in
          rw (e, marked, publish_records)
            (Good-trans g (
              publish_records-Good messages (sent_and_marked run.now m s)
                (marked-IsSound run.now m s is h)
                (grown-IsMessage s (sent_and_marked run.now m s) messages g rest)))
    ]
  ]

  publish_claimed-Good :
      (messages : List OutboxRecord) (rows : List Row) (s : Publication)
      → Good s (with_rows s rows)
      → All (IsMessage rows) messages
      → Good s (publish_claimed run (messages, rows) s).0
  unfolding publish_claimed
  publish_claimed-Good [] rows s good is = good
  publish_claimed-Good (m ∷ messages) rows s (g, h) is =
      elim run.connects
        as (λ b.
          Good s
            (if b
              then publish_records run (m ∷ messages) (with_rows s rows)
              else (with_rows s rows, false)).0) [
                | true ↦ Good-trans g (publish_records-Good (m ∷ messages) (with_rows s rows) h is)
                | false ↦ (g, h)
              ]

  pub publish_pending-Good :
      (batch_size : ℕ) (s : Publication) → IsSound s → Good s (publish_pending run batch_size s).0
  unfolding publish_pending claim
  publish_pending-Good batch_size s h =
      elim run.claims
        as (λ b.
          Good s
            (if b
              then publish_claimed run (claim run.locked batch_size s.rows) s
              else (s, false)).0) [
                | false ↦ (Grows-refl s, h)
                | true ↦
                    (publish_claimed-Good (map record_of next) (count_attempts (ids next) s.rows) s
                      (
                        same-Grows s _ unchanged,
                        same-IsSound s _ (count_attempts-IsOutbox (ids next) s.rows h.outbox)
                            unchanged h,
                      )
                      (All-map
                        {P = λ row.
                          (status row.event_id s.rows ≡ some (record_of row, none))
                          × IsId row.event_id}
                        _ record_of next (λ row p. ((none, unchanged row.event_id ∙ p.0), p.1))
                        (next_rows-IsClaimed run.locked batch_size s.rows h.outbox)))
              ]
    where
      next : List Row
      next = next_rows run.locked batch_size s.rows

      unchanged : (j : Text) → status j (count_attempts (ids next) s.rows) ≡ status j s.rows
      unchanged j = status-count_attempts (ids next) j s.rows

insert_row-Good :
    (row : Row) (s : Publication)
    → row.published_at ≡ none
    → IsId row.event_id
    → IsSound s
    → Good s (with_rows s (insert_row row s.rows))
insert_row-Good row s new named h = (
  record {
    kept = λ j m p e. (p, status-insert_row row j s.rows ∙ ap (or_row row j) e, λ x. x);
    streamed = λ m x. x;
  },
  record {
    outbox = insert_row-IsOutbox row s.rows named h.outbox;
    sent = λ j m at e. elim (Option-cases (status j s.rows)) [
      | inl missing ↦ ground (arith, e, status-insert_row row j s.rows, missing, new)
      | inr (shown, e') ↦ h.sent j m at (ground (arith, e, status-insert_row row j s.rows, e'))
    ];
  },
)

module _ {P : Type 0} (marshal : DomainEvent P → Option Text) (producer : Text) where
  -- One step of the system. The id of an event, given or fresh, has no white space around it.
  pub data Step : Publication → Publication → Type 0 where
    enqueues :
        {s : Publication} {rows : List Row} (fresh : Text) (now : ℕ) (event : DomainEvent P)
        → IsId (normalize_event fresh now producer event).event_id
        → enqueue marshal fresh now producer (some event) s.rows ≡ some rows
        → Step s (with_rows s rows)
    publishes :
        {s t : Publication} (run : Run) (batch_size : ℕ)
        → (publish_pending run batch_size s).0 ≡ t
        → Step s t

  pub data Reach (s : Publication) : Publication → Type 0 where
    here : Reach s s
    next : {t u : Publication} → Reach s t → Step t u → Reach s u

  enqueue-Good :
      (fresh : Text) (now : ℕ) (event : DomainEvent P) (s : Publication) (rows : List Row)
      → IsId (normalize_event fresh now producer event).event_id
      → enqueue marshal fresh now producer (some event) s.rows ≡ some rows
      → IsSound s
      → Good s (with_rows s rows)
  unfolding enqueue row_of
  enqueue-Good fresh now event s rows named e h =
      elim (Option-cases (marshal (normalize_event fresh now producer event))) [
        | inl failure ↦ absurd (ground (arith, e, failure))
        | inr (payload, given) ↦
            subst (λ l. Good s (with_rows s l)) (some_eq (ground (arith, e, given)))
              (insert_row-Good
                (row_of marshal fresh now producer (normalize_event fresh now producer event)
                  payload)
                s refl named h)
      ]

  Step-Good : {s t : Publication} → Step s t → IsSound s → Good s t
  Step-Good {s} (enqueues {rows = rows} fresh now event named e) h =
      enqueue-Good fresh now event s rows named e h
  Step-Good {s} (publishes run batch_size e) h =
      subst (Good s) e (publish_pending-Good run batch_size s h)

  -- In every history of enqueued events, whose ids have no white space around them, and of published
  -- batches, with any failures of the database and of the stream: what is marked as published is in
  -- the stream, no event leaves the outbox or changes its subject or payload, none is unmarked, and
  -- the stream keeps its messages.
  pub Reach-IsSound : {s t : Publication} → Reach s t → IsSound s → Grows s t × IsSound t
  Reach-IsSound {s} here h = (Grows-refl s, h)
  Reach-IsSound (next r st) h =
      let (g, sound) = Reach-IsSound r h in
      let (g', sound') = Step-Good st sound in (Grows-trans g g', sound')
