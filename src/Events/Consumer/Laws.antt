-- ===== src/Events/Consumer/Laws.antt =====
-- domainevents/consumer.go: redelivered events.
use mathlib.Core.Path.{subst}
use code_code_platform_catal.Prelude.{
  ◌≡◌, refl, sym, true, false, List, [], ◌∷◌, Option, some, arith, inl, inr, Bool-cases,
  Option-cases, if◌then◌else◌, contains, ◌==◌, eq_iff, Any,
}
use code_code_platform_catal.Text.{Text, text_eq}
use code_code_platform_catal.Events.Subjects.{DomainEvent}
use code_code_platform_catal.Events.Consumer.{
  Reply, nak, ack, Delivery, Handled, mark_processed, after_handler, handle_event, handle,
}

module _ {P : Type 0} where
  abbrev pub WasHandled : Handled P → Text → Type 0
  WasHandled s id = Any (λ (e : DomainEvent P). e.event_id ≡ id) s.handled_events

  -- The handler has succeeded for every processed id.
  abbrev pub IsHandled : Handled P → Type 0
  IsHandled s = (id : Text) → contains s.processed id ≡ true → WasHandled s id

  mark_processed-contains :
      (id j : Text) (s : Handled P)
      → contains (mark_processed id s).processed j
        ≡ (if id == j then true else contains s.processed j)
  unfolding mark_processed contains
  mark_processed-contains id j s = ground (arith, eq_iff id j)

  mark_processed-handled :
      (id : Text) (s : Handled P) → (mark_processed id s).handled_events ≡ s.handled_events
  unfolding mark_processed
  mark_processed-handled id s = ground arith

module _ {P : Type 0} (unmarshal : Text → Option (DomainEvent P)) where
  abbrev handled_now : DomainEvent P → Handled P → Handled P
  handled_now event s = record s { handled_events = event ∷ s.handled_events }

  -- The outcomes of an event: it is acknowledged as processed, refused, handled and not marked, or
  -- handled, marked and acknowledged.
  handle_event_cases :
      (Q : Handled P × Reply → Type 0) (run : Delivery) (event : DomainEvent P) (s : Handled P)
      → (contains s.processed event.event_id ≡ true → Q (s, ack))
      → Q (s, nak)
      → (contains s.processed event.event_id ≡ false → Q (handled_now event s, nak))
      → (contains s.processed event.event_id ≡ false
          → Q (mark_processed event.event_id (handled_now event s), ack))
      → Q (handle_event unmarshal run event s)
  unfolding handle_event after_handler
  handle_event_cases Q run event s old refused unmarked marked = elim (Bool-cases run.looks_up) [
    | inr e ↦ rw e refused
    | inl e ↦ elim (Bool-cases (contains s.processed event.event_id)) [
      | inl seen ↦ rw (e, seen) (old seen)
      | inr new ↦ elim (Bool-cases run.handles) [
        | inr f ↦ rw (e, new, f) refused
        | inl f ↦ elim (Bool-cases run.inserts) [
          | inl g ↦ rw (e, new, f, g) (marked new)
          | inr g ↦ rw (e, new, f, g) (unmarked new)
        ]
      ]
    ]
  ]

  -- A delivery keeps what was processed and what was handled.
  pub record Follows (s t : Handled P) : Type 0 where
    pub processed : (id : Text) → contains s.processed id ≡ true → contains t.processed id ≡ true
    pub handled : (id : Text) → WasHandled s id → WasHandled t id
    pub invariant : IsHandled s → IsHandled t

  Follows-refl : (s : Handled P) → Follows s s
  Follows-refl s = record { processed = λ id h. h; handled = λ id h. h; invariant = λ h. h }

  handled_now-Follows : (event : DomainEvent P) (s : Handled P) → Follows s (handled_now event s)
  handled_now-Follows event s = record {
    processed = λ id h. h;
    handled = λ id h. inr h;
    invariant = λ h id k. inr (h id k);
  }

  marked-Follows :
      (event : DomainEvent P) (s : Handled P)
      → Follows s (mark_processed event.event_id (handled_now event s))
  marked-Follows event s = record {
    processed =
        λ id h. ground (arith, h, mark_processed-contains event.event_id id (handled_now event s));
    handled = λ id h.
        subst (λ l. Any (λ (e : DomainEvent P). e.event_id ≡ id) l)
          (sym (mark_processed-handled event.event_id (handled_now event s))) (inr h);
    invariant = λ h id k.
        subst (λ l. Any (λ (e : DomainEvent P). e.event_id ≡ id) l)
          (sym (mark_processed-handled event.event_id (handled_now event s)))
          (elim (Bool-cases (event.event_id == id)) [
            | inl same ↦ inl ((eq_iff event.event_id id).0 same)
            | inr other ↦ inr (
                h id (
                  ground (
                    arith,
                    k,
                    other,
                    mark_processed-contains event.event_id id (handled_now event s),
                  )))
          ]);
  }

  handle-Follows :
      (run : Delivery) (message : Text) (s : Handled P)
      → Follows s (handle unmarshal run message s).0
  unfolding handle
  handle-Follows run message s = elim (Option-cases (unmarshal message)) [
    | inl e ↦ rw (e, handle) (Follows-refl s)
    | inr (event, e) ↦
        rw (e, handle)
          (handle_event_cases (λ r. Follows s r.0) run event s (λ _. Follows-refl s)
            (Follows-refl s) (λ _. handled_now-Follows event s) (λ _. marked-Follows event s))
  ]

  -- What the consumer has after a list of deliveries.
  unfoldable pub deliver : List (Text × Delivery) → Handled P → Handled P
  deliver [] s = s
  deliver ((message, run) ∷ deliveries) s = deliver deliveries (handle unmarshal run message s).0

  deliver-Follows :
      (deliveries : List (Text × Delivery)) (s : Handled P)
      → ((id : Text)
          → contains s.processed id ≡ true
          → contains (deliver deliveries s).processed id ≡ true)
        × (IsHandled s → IsHandled (deliver deliveries s))
  unfolding deliver
  deliver-Follows [] s = (λ id h. h, λ h. h)
  deliver-Follows ((message, run) ∷ deliveries) s =
      let first = handle-Follows run message s in
      let (kept, invariant) = deliver-Follows deliveries (handle unmarshal run message s).0 in
      (λ id h. kept id (first.processed id h), λ h. invariant (first.invariant h))

  acked-processed :
      (run : Delivery) (message : Text) (event : DomainEvent P) (s : Handled P)
      → unmarshal message ≡ some event
      → (handle unmarshal run message s).1 ≡ ack
      → contains (handle unmarshal run message s).0.processed event.event_id ≡ true
  unfolding handle
  acked-processed run message event s e =
      rw (e, handle)
        (handle_event_cases (λ r. r.1 ≡ ack → contains r.0.processed event.event_id ≡ true) run
          event s (λ seen _. seen) (λ h. ground (arith, h)) (λ _ h. ground (arith, h))
          (λ _ _. ground (
            arith,
            mark_processed-contains event.event_id event.event_id (handled_now event s),
            eq_iff event.event_id event.event_id,
          )))

  processed-handle :
      (run : Delivery) (message : Text) (event : DomainEvent P) (s : Handled P)
      → unmarshal message ≡ some event
      → contains s.processed event.event_id ≡ true
      → (handle unmarshal run message s).0 ≡ s
  unfolding handle
  processed-handle run message event s e seen =
      rw (e, handle)
        (handle_event_cases (λ r. r.0 ≡ s) run event s (λ _. refl) refl
          (λ new. absurd (ground (arith, seen, new))) (λ new. absurd (ground (arith, seen, new))))

  empty-IsHandled : IsHandled {P = P} (record { processed = []; handled_events = [] })
  unfolding contains
  empty-IsHandled id h = absurd (ground (arith, h))

  -- When a message is acknowledged, after any deliveries, the handler has succeeded for an event with
  -- its id; and after any further deliveries the message changes nothing when it is delivered again,
  -- so that the handler does not succeed for it once more.
  pub handle_acked :
      (before : List (Text × Delivery)) (run : Delivery) (message : Text) (event : DomainEvent P)
      → unmarshal message ≡ some event
      → let empty : Handled P = record { processed = []; handled_events = [] } in
        let (after, reply) = handle unmarshal run message (deliver before empty) in
        reply ≡ ack
        → WasHandled after event.event_id
          × ((later : List (Text × Delivery)) (again : Delivery)
              → (handle unmarshal again message (deliver later after)).0 ≡ deliver later after)
  handle_acked before run message event e acked =
      let empty : Handled P = record { processed = []; handled_events = [] } in
      let s : Handled P = deliver before empty in
      let invariant : IsHandled s = (deliver-Follows before empty).1 empty-IsHandled in
      let seen = acked-processed run message event s e acked in
      (
        (handle-Follows run message s).invariant invariant event.event_id seen,
        λ later again.
            processed-handle again message event (deliver later (handle unmarshal run message s).0)
              e ((deliver-Follows later (handle unmarshal run message s).0).0 event.event_id seen),
      )
