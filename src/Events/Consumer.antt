-- ===== src/Events/Consumer.antt =====
-- domainevents/consumer.go: `handle`. The table `platform_domain_consumer_events` is the list of the
-- ids that the consumer has processed. `proto.Unmarshal`, the handler and the failures of the
-- database are parameters.
pub mod Laws
use code_code_platform_catal.Prelude.{
  Bool, true, false, List, [], ◌∷◌, ◌++◌, Option, none, some, if◌then◌else◌, contains,
}
use code_code_platform_catal.Text.{Text, text_eq}
use code_code_platform_catal.Events.Subjects.{DomainEvent}

-- What the stream is told of a message: not to deliver it again, to deliver it again, and that it
-- was processed.
pub data Reply : Type 0 where
  term : Reply
  nak : Reply
  ack : Reply

-- One delivery: whether the lookup of the event, the handler and the insertion succeed.
pub record Delivery : Type 0 where
  pub looks_up : Bool
  pub handles : Bool
  pub inserts : Bool

-- The processed ids, and the events for which the handler has succeeded.
pub record Handled (P : Type 0) : Type 0 where
  pub processed : List Text
  pub handled_events : List (DomainEvent P)

-- `insert … on conflict do nothing`.
unfoldable pub mark_processed : {P : Type 0} → Text → Handled P → Handled P
mark_processed id s =
    if contains s.processed id then s else record s { processed = id ∷ s.processed }

module _ {P : Type 0} (unmarshal : Text → Option (DomainEvent P)) (run : Delivery) where
  unfoldable pub after_handler : Text → Handled P → Handled P × Reply
  after_handler id s = if run.inserts then (mark_processed id s, ack) else (s, nak)

  unfoldable pub handle_event : DomainEvent P → Handled P → Handled P × Reply
  handle_event event s =
      if run.looks_up
      then if contains s.processed event.event_id
        then (s, ack)
        else if run.handles
        then after_handler event.event_id (record s { handled_events = event ∷ s.handled_events })
        else (s, nak)
      else (s, nak)

  unfoldable pub handle : Text → Handled P → Handled P × Reply
  handle message s = elim (unmarshal message) [
    | none ↦ (s, term)
    | some event ↦ handle_event event s
  ]
