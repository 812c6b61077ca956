-- ===== src/Events/Publisher/Padded.antt =====
-- domainevents/publisher.go and outbox.go: an event whose id has white space around it.
use code_code_platform_catal.Prelude.{
  ℕ, ◌≡◌, ◌≢◌, refl, sym, ap, ◌∙◌, true, false, List, [], ◌∷◌, map, none, some, inl, inr,
  Bool-cases, Option-cases, if◌then◌else◌, ◌==◌, eq_iff,
}
use code_code_platform_catal.Text.{Text, text_eq, is_empty, is_space, trim_space, trim_idem}
use code_code_platform_catal.Events.Outbox.{
  Row, OutboxRecord, mark, mark_published, claim, next_rows, ids, record_of, count_attempts,
}
use code_code_platform_catal.Events.Outbox.Laws.{
  status, status-update_published, status-mark_failed, status-count_attempts,
}
use code_code_platform_catal.Events.Publisher.{
  Run, Publication, with_rows, accepted, refuse, publish_records, publish_claimed, publish_pending,
}

module _ (j : Text) (padded : trim_space j ≢ j) where
  status-mark_published_padded :
      (now : ℕ) (id : Text) (rows : List Row)
      → status j (mark_published now id rows) ≡ status j rows
  unfolding mark_published mark
  status-mark_published_padded now id rows = elim (Bool-cases (is_empty (trim_space id))) [
    | inl blank ↦ rw blank refl
    | inr named ↦ elim (Bool-cases (trim_space id == j)) [
      | inl same ↦
          let it : trim_space id ≡ j = (eq_iff (trim_space id) j).0 same in
          absurd (padded (ap trim_space (sym it) ∙ trim_idem is_space id ∙ it))
      | inr other ↦ rw named (status-update_published now (trim_space id) j rows ∙ (rw other refl))
    ]
  ]

  module _ (run : Run) where
    status-refuse :
        (m : OutboxRecord) (reason : Text) (s : Publication)
        → status j (refuse run m reason s).rows ≡ status j s.rows
    unfolding refuse
    status-refuse m reason s = elim (Bool-cases (run.marks_failed m.event_id)) [
      | inl e ↦ rw e (status-mark_failed reason m.event_id j s.rows)
      | inr e ↦ rw e refl
    ]

    status-publish_records :
        (messages : List OutboxRecord) (s : Publication)
        → status j (publish_records run messages s).0.rows ≡ status j s.rows
    unfolding publish_records
    status-publish_records [] s = refl
    status-publish_records (m ∷ messages) s = elim (Option-cases (run.refusal m)) [
      | inr (reason, e) ↦
          rw (e, publish_records)
            (status-publish_records messages (refuse run m reason s) ∙ status-refuse m reason s)
      | inl e ↦ elim (Bool-cases (run.marks_published m.event_id)) [
        | inr unmarked ↦ rw (e, unmarked, publish_records) refl
        | inl marked ↦
            rw (e, marked, publish_records)
              (status-publish_records messages
                  (with_rows (accepted s m) (mark_published run.now m.event_id s.rows))
                ∙ status-mark_published_padded run.now m.event_id s.rows)
      ]
    ]

    status-publish_claimed :
        (messages : List OutboxRecord) (rows : List Row) (s : Publication)
        → status j (publish_claimed run (messages, rows) s).0.rows ≡ status j rows
    unfolding publish_claimed
    status-publish_claimed [] rows s = refl
    status-publish_claimed (m ∷ messages) rows s =
        elim run.connects
          as (λ b.
            status j
              (if b
                then publish_records run (m ∷ messages) (with_rows s rows)
                else (with_rows s rows, false)).0.rows
            ≡ status j rows) [
              | true ↦ status-publish_records (m ∷ messages) (with_rows s rows)
              | false ↦ refl
            ]

    -- No run, whatever succeeds in it, marks an event as published whose id has white space around
    -- it. The event stays among those that wait.
    pub publish_pending-padded :
        (batch_size : ℕ) (s : Publication) (m : OutboxRecord)
        → status j s.rows ≡ some (m, none)
        → status j (publish_pending run batch_size s).0.rows ≡ some (m, none)
    unfolding publish_pending claim
    publish_pending-padded batch_size s m e =
        elim run.claims
          as (λ b.
            status j
              (if b
                then publish_claimed run (claim run.locked batch_size s.rows) s
                else (s, false)).0.rows
            ≡ some (m, none)) [
              | true ↦
                  status-publish_claimed (map record_of (next_rows run.locked batch_size s.rows))
                    (count_attempts (ids (next_rows run.locked batch_size s.rows)) s.rows) s
                  ∙ status-count_attempts (ids (next_rows run.locked batch_size s.rows)) j s.rows
                  ∙ e
              | false ↦ e
            ]
