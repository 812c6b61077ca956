-- ===== src/Tests/Events.antt =====
-- An outbox with two events, published by one run, and a consumer that gets one of them twice.
use code_code_platform_catal.Prelude.{
  ℕ, ◌≡◌, ◌≢◌, refl, Bool, true, false, List, [], ◌∷◌, ◌++◌, Option, none, some, arith,
  if◌then◌else◌, ◌==◌, eq_self, contains,
}
use code_code_platform_catal.Text.{Text, text_eq, codes, trim_space}
use code_code_platform_catal.Events.Subjects.{DomainEvent}
use code_code_platform_catal.Events.Outbox.{Row, OutboxRecord}
use code_code_platform_catal.Events.Outbox.Laws.{status}
use code_code_platform_catal.Events.Publisher.{Run, Publication, with_rows, publish_pending}
use code_code_platform_catal.Events.Publisher.Laws.{InStream, IsSound, Grows}
use code_code_platform_catal.Events.Publisher.Reach.{publishes, here, next, Reach-IsSound}
use code_code_platform_catal.Events.Publisher.Progress.{IsCalm, publish_runs, publish_runs_all}
use code_code_platform_catal.Events.Publisher.Padded.{publish_pending-padded}
use code_code_platform_catal.Events.Consumer.{Delivery, Handled, handle}
use code_code_platform_catal.Events.Consumer.Laws.{WasHandled, deliver, handle_acked}

abbrev event : Text → DomainEvent Bool
event id = record {
  event_id = id;
  event_type = codes "Created";
  aggregate_type = codes "catalog.model";
  aggregate_id = codes "openai/gpt";
  aggregate_version = 1;
  occurred_at = none;
  producer = [];
  payload = true;
}

abbrev row : Text → ℕ → Row
row id at = record {
  event_id = id;
  subject = codes "platform.domain.catalog.created";
  payload = codes "{}";
  aggregate_type = codes "catalog";
  aggregate_id = codes "openai/gpt";
  aggregate_version = 1;
  created_at = at;
  published_at = none;
  attempts = 0;
  last_error = [];
}

abbrev message : Text → OutboxRecord
message id = record {
  event_id = id;
  subject = codes "platform.domain.catalog.created";
  payload = codes "{}";
}

abbrev two : Publication
two = record { rows = row (codes "b") 2 ∷ row (codes "a") 1 ∷ []; stream = [] }

two-IsSound : IsSound two
unfolding contains status code_code_platform_catal.Prelude.list_beq
    code_code_platform_catal.Text.trim code_code_platform_catal.Text.is_space
two-IsSound = record {
  outbox = record { distinct = (refl, (refl, tt)); named = ((refl, refl), ((refl, refl), tt)) };
  sent = λ j m at e. absurd (ground (arith, e));
}

abbrev calm : Run
calm = record {
  now = 9;
  locked = λ _. false;
  claims = true;
  connects = true;
  refusal = λ _. none;
  marks_published = λ _. true;
  marks_failed = λ _. true;
}

calm-IsCalm : IsCalm calm
calm-IsCalm = record {
  unlocked = λ _. refl;
  claims = refl;
  connects = refl;
  accepts = λ _. refl;
  marks = λ _. refl;
}

publish_runs_all_example : InStream (publish_runs 2 (calm ∷ []) two).stream (message (codes "b"))
unfolding code_code_platform_catal.Events.Publisher.Progress.pending status
    code_code_platform_catal.Prelude.list_beq
publish_runs_all_example =
    publish_runs_all 2 (calm ∷ []) two two-IsSound (calm-IsCalm, tt) (omega arith) (codes "b")
      (message (codes "b")) none refl

-- The stream refuses "a".
abbrev broken : Run
broken = record calm {
  refusal = λ m. if m.event_id == codes "a" then some (codes "timeout") else none;
}

Reach-IsSound_example :
    Grows two (publish_pending broken 0 two).0 × IsSound (publish_pending broken 0 two).0
Reach-IsSound_example =
    Reach-IsSound {P = Bool} (λ e. some (codes "{}")) (codes "platform-k8s")
      (next here (publishes broken 0 refl)) two-IsSound

abbrev padded : Publication
padded = record { rows = row (codes " c") 1 ∷ []; stream = [] }

c_is_padded : trim_space (codes " c") ≢ codes " c"
unfolding code_code_platform_catal.Text.trim code_code_platform_catal.Text.is_space
c_is_padded e = absurd (ground (arith, e))

publish_pending-padded_example :
    status (codes " c") (publish_pending calm 0 padded).0.rows ≡ some (message (codes " c"), none)
unfolding status code_code_platform_catal.Prelude.list_beq
publish_pending-padded_example =
    publish_pending-padded (codes " c") c_is_padded calm 0 padded (message (codes " c")) refl

abbrev works : Delivery
works = record { looks_up = true; handles = true; inserts = true }

abbrev unmarshal : Text → Option (DomainEvent Bool)
unmarshal payload = if payload == codes "{}" then some (event (codes "a")) else none

abbrev started : Handled Bool
started = record { processed = []; handled_events = [] }

handle_acked_example :
    WasHandled (handle unmarshal works (codes "{}") started).0 (codes "a")
    × ((later : List (Text × Delivery)) (again : Delivery)
        → (handle unmarshal again
            (codes "{}")
            (deliver unmarshal later (handle unmarshal works (codes "{}") started).0)).0
          ≡ deliver unmarshal later (handle unmarshal works (codes "{}") started).0)
unfolding code_code_platform_catal.Prelude.list_beq handle
    code_code_platform_catal.Events.Consumer.handle_event code_code_platform_catal.Prelude.contains
    deliver code_code_platform_catal.Events.Consumer.after_handler
handle_acked_example = handle_acked unmarshal [] works (codes "{}") (event (codes "a")) refl refl
