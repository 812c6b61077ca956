-- ===== src/Events/Publisher/Laws.antt =====
-- domainevents/publisher.go: what one run of `PublishPending` does to the outbox and the stream.
use mathlib.Core.Path.{subst}
use code_code_platform_catal.Prelude.{
  ℕ, ◌≡◌, refl, sym, ap, ◌∙◌, Bool, true, false, List, [], ◌∷◌, ◌++◌, Option, none, some, arith,
  inl, inr, Bool-cases, if◌then◌else◌, ◌==◌, eq_iff, All, Any, All-weaken,
}
use code_code_platform_catal.Text.{Text, text_eq}
use code_code_platform_catal.Events.Outbox.{Row, OutboxRecord, mark_published}
use code_code_platform_catal.Events.Outbox.Laws.{
  status, IsId, IsOutbox, status-mark_published, mark_published-IsOutbox,
}
use code_code_platform_catal.Events.Publisher.{Publication, with_rows, accepted}

abbrev pub InStream : List OutboxRecord → OutboxRecord → Type 0
InStream stream message = Any (λ m. m ≡ message) stream

abbrev pub is_set : Option ℕ → Bool
is_set none = false
is_set (some at) = true

-- The rows are in order, and what is marked as published is in the stream.
pub record IsSound (s : Publication) : Type 0 where
  pub outbox : IsOutbox s.rows
  pub sent :
      (j : Text) (message : OutboxRecord) (at : ℕ)
      → status j s.rows ≡ some (message, some at)
      → InStream s.stream message

-- Every row is still there with its subject and its payload, and stays published; the stream keeps
-- its messages.
pub record Grows (s t : Publication) : Type 0 where
  pub kept :
      (j : Text) (message : OutboxRecord) (p : Option ℕ)
      → status j s.rows ≡ some (message, p)
      → (q : Option ℕ) × (status j t.rows ≡ some (message, q)) × (is_set p ≡ true → is_set q ≡ true)
  pub streamed : (message : OutboxRecord) → InStream s.stream message → InStream t.stream message

Any-append_left :
    (xs ys : List OutboxRecord) (m : OutboxRecord) → InStream xs m → InStream (xs ++ ys) m
Any-append_left [] ys m h = elim h [ ]
Any-append_left (x ∷ xs) ys m (inl e) = inl e
Any-append_left (x ∷ xs) ys m (inr h) = inr (Any-append_left xs ys m h)

Any-last : (xs : List OutboxRecord) (m : OutboxRecord) → InStream (xs ++ m ∷ []) m
Any-last [] m = inl refl
Any-last (x ∷ xs) m = inr (Any-last xs m)

pub Grows-refl : (s : Publication) → Grows s s
Grows-refl s = record { kept = λ j m p e. (p, e, λ h. h); streamed = λ m h. h }

pub Grows-trans : {s t u : Publication} → Grows s t → Grows t u → Grows s u
Grows-trans g h = record {
  kept = λ j m p e.
      let (q, f, k) = g.kept j m p e in let (r, f', k') = h.kept j m q f in (r, f', λ x. k' (k x));
  streamed = λ m x. h.streamed m (g.streamed m x);
}

-- Rows that show the same statuses are as good.
pub same-Grows :
    (s : Publication) (rows : List Row)
    → ((j : Text) → status j rows ≡ status j s.rows)
    → Grows s (with_rows s rows)
same-Grows s rows same = record { kept = λ j m p e. (p, same j ∙ e, λ h. h); streamed = λ m h. h }

pub same-IsSound :
    (s : Publication) (rows : List Row)
    → IsOutbox rows
    → ((j : Text) → status j rows ≡ status j s.rows)
    → IsSound s
    → IsSound (with_rows s rows)
same-IsSound s rows outbox same h = record {
  outbox = outbox;
  sent = λ j m t e. h.sent j m t (sym (same j) ∙ e);
}

-- A message of a batch is what the table has under its id.
abbrev pub IsMessage : List Row → OutboxRecord → Type 0
IsMessage rows message =
    ((p : Option ℕ) × (status message.event_id rows ≡ some (message, p))) × IsId message.event_id

pub grown-IsMessage :
    (s t : Publication) (messages : List OutboxRecord)
    → Grows s t
    → All (IsMessage s.rows) messages
    → All (IsMessage t.rows) messages
grown-IsMessage s t messages g =
    All-weaken messages
      λ m ((p, e), named). let (q, f, _) = g.kept m.event_id m p e in ((q, f), named)

abbrev pub sent_and_marked : ℕ → OutboxRecord → Publication → Publication
sent_and_marked now m s = with_rows (accepted s m) (mark_published now m.event_id s.rows)

module _ (now : ℕ) (m : OutboxRecord) (s : Publication) (is : IsMessage s.rows m) where
  status_marked :
      (j : Text)
      → status j (mark_published now m.event_id s.rows)
        ≡ (if m.event_id == j then some (m, some now) else status j s.rows)
  status_marked j = elim (Bool-cases (m.event_id == j)) [
    | inl same ↦
        let there : status j s.rows ≡ some (m, is.0.0) =
          ap (λ k. status k s.rows) (sym ((eq_iff m.event_id j).0 same)) ∙ is.0.1 in
        status-mark_published now m.event_id j s.rows is.1 ∙ (rw (same, there) refl)
    | inr other ↦ status-mark_published now m.event_id j s.rows is.1 ∙ (rw other refl)
  ]

  pub marked-Grows : Grows s (sent_and_marked now m s)
  marked-Grows = record {
    kept = λ j x p e. elim (Bool-cases (m.event_id == j)) [
      | inl same ↦ (
        some now,
        ground (
          arith,
          e,
          status_marked j,
          same,
          is.0.1,
          ap (λ k. status k s.rows) ((eq_iff m.event_id j).0 same),
        ),
        λ h. refl,
      )
      | inr other ↦ (p, ground (arith, e, status_marked j, other), λ h. h)
    ];
    streamed = λ x h. Any-append_left s.stream (m ∷ []) x h;
  }

  pub marked-IsSound : IsSound s → IsSound (sent_and_marked now m s)
  marked-IsSound h = record {
    outbox = mark_published-IsOutbox now m.event_id s.rows h.outbox;
    sent = λ j x at e. elim (Bool-cases (m.event_id == j)) [
      | inl same ↦
          let it : m ≡ x = ground (arith, e, status_marked j, same) in
          subst (InStream (s.stream ++ m ∷ [])) it (Any-last s.stream m)
      | inr other ↦
          Any-append_left s.stream (m ∷ []) x
            (h.sent j x at (ground (arith, e, status_marked j, other)))
    ];
  }

pub accepted-Grows : (s : Publication) (m : OutboxRecord) → Grows s (accepted s m)
accepted-Grows s m = record {
  kept = λ j x p e. (p, e, λ h. h);
  streamed = λ x h. Any-append_left s.stream (m ∷ []) x h;
}

pub accepted-IsSound : (s : Publication) (m : OutboxRecord) → IsSound s → IsSound (accepted s m)
accepted-IsSound s m h = record {
  outbox = h.outbox;
  sent = λ j x at e. Any-append_left s.stream (m ∷ []) x (h.sent j x at e);
}
