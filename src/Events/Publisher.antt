-- ===== src/Events/Publisher.antt =====
-- domainevents/publisher.go: `PublishPending`, over the outbox and the messages that the stream has
-- accepted. Which calls of the stream and of the database succeed is a parameter.
pub mod Laws
pub mod Reach
pub mod Progress
pub mod Padded
use code_code_platform_catal.Prelude.{
  ℕ, zero, suc, Bool, true, false, ◌++◌, List, [], ◌∷◌, Option, none, some, if◌then◌else◌,
}
use code_code_platform_catal.Text.{Text}
use code_code_platform_catal.Events.Outbox.{Row, OutboxRecord, claim, mark_published, mark_failed}

-- One run of `PublishPending`: the rows that other publishers have locked, whether the batch can be
-- claimed and the stream be reached, the error of a message that is not accepted, and whether a
-- message can be marked as published and as failed.
pub record Run : Type 0 where
  pub now : ℕ
  pub locked : Text → Bool
  pub claims : Bool
  pub connects : Bool
  pub refusal : OutboxRecord → Option Text
  pub marks_published : Text → Bool
  pub marks_failed : Text → Bool

pub record Publication : Type 0 where
  pub rows : List Row
  pub stream : List OutboxRecord

abbrev pub with_rows : Publication → List Row → Publication
with_rows s rows = record { rows = rows; stream = s.stream }

abbrev pub accepted : Publication → OutboxRecord → Publication
accepted s message = record { rows = s.rows; stream = s.stream ++ message ∷ [] }

module _ (run : Run) where
  -- The error of `MarkFailed` is dropped.
  unfoldable pub refuse : OutboxRecord → Text → Publication → Publication
  refuse message reason s =
      if run.marks_failed message.event_id
      then with_rows s (mark_failed reason message.event_id s.rows)
      else s

  -- The loop over the records. The result is the state, and whether no error was returned.
  unfoldable pub publish_records : List OutboxRecord → Publication → Publication × Bool
  publish_records [] s = (s, true)
  publish_records (message ∷ messages) s = elim (run.refusal message) [
    | some reason ↦ publish_records messages (refuse message reason s)
    | none ↦ elim (run.marks_published message.event_id) [
      | false ↦ (accepted s message, false)
      | true ↦
          publish_records messages
            (with_rows (accepted s message) (mark_published run.now message.event_id s.rows))
    ]
  ]

  unfoldable pub publish_claimed : List OutboxRecord × List Row → Publication → Publication × Bool
  publish_claimed ([], rows) s = (with_rows s rows, true)
  publish_claimed (message ∷ messages, rows) s =
      if run.connects
      then publish_records (message ∷ messages) (with_rows s rows)
      else (with_rows s rows, false)

  unfoldable pub publish_pending : ℕ → Publication → Publication × Bool
  publish_pending batch_size s =
      if run.claims then publish_claimed (claim run.locked batch_size s.rows) s else (s, false)
