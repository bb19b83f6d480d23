-- ===== src/Streaming/Tests.antt =====
-- Tests of the outbox, and the theorem about it at a concrete input.
use scam2marke.Prelude.{
  ℕ, ◌≡◌, refl, String, str_eq, false, List, [], ◌∷◌, Option, none, some, map, if◌then◌else◌,
}
use scam2marke.Prelude.Dict.{contains}
use scam2marke.Events.{CanonicalEvent, EventType, closed_payload}
use scam2marke.Streaming.Outbox.{
  OutboxStatus, EventOutboxModel, OutboxMessage, World, due_rows, dispatch_batch,
}

abbrev event : CanonicalEvent
event = record {
  event_id = "e";
  event_type = EventType.campaign_closed;
  schema_version = 1;
  source = "campaign";
  source_event_id = "c";
  asset_id = some "BTC";
  event_time = 5;
  partition_key = "BTC";
  replay = record { is_replay = false; replay_session_id = none };
  trace = record { correlation_id = "t"; causation_id = none };
  payload = closed_payload "c" "idle";
}

abbrev row : String → OutboxStatus → ℕ → ℕ → EventOutboxModel
row id status attempts created_at = record {
  outbox_id = id;
  topic = "campaigns.events.v1";
  envelope = event;
  status = status;
  attempts = attempts;
  created_at = created_at;
  claimed_at = none;
  published_at = none;
  last_error = none;
}

-- Two rows to publish, one that was published, one that has used its attempts, a claim that is
-- stale, and one that is not.
abbrev table : List EventOutboxModel
table =
    row "b" OutboxStatus.failed 3 20
    ∷ row "a" OutboxStatus.pending 0 10
    ∷ row "c" OutboxStatus.published 1 5
    ∷ row "d" OutboxStatus.failed 10 1
    ∷ record (row "e" OutboxStatus.processing 2 30) { claimed_at = some 5 }
    ∷ record (row "f" OutboxStatus.processing 1 40) { claimed_at = some 400_000_000 }
    ∷ []

abbrev world : World
world = record { table = table; sent = [] }

-- The publisher raises on the message "b".
abbrev answer : OutboxMessage → Option String
answer m = if str_eq m.outbox_id "b" then some "down" else none

due : map (λ r. r.outbox_id) (due_rows 400_000_100 (λ id. false) 10 table) ≡ "a" ∷ "b" ∷ "e" ∷ []
unfolding due_rows
due = refl

dispatched :
    map (λ r. r.status) (dispatch_batch answer 400_000_100 (λ id. false) 10 world).1.table
    ≡ OutboxStatus.failed ∷ OutboxStatus.published ∷ OutboxStatus.published ∷ OutboxStatus.failed
      ∷ OutboxStatus.published ∷ OutboxStatus.processing ∷ []
unfolding dispatch_batch contains
dispatched = refl
