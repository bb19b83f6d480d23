-- ===== src/Streaming/Worker.antt =====
-- src/scam2market/workers/stream_worker.py, the loop of `run` with `EventConsumer.batches` and
-- `SqlWorkerCheckpointRepository`: a batch is processed, and then for each of its partitions the
-- state is saved and the offset committed. The broker is Kafka's; the engine is an interface.
use scam2marke.Prelude.{
  ℕ, ◌+◌, ◌≡◌, String, str_eq, Bool, ◌&&◌, ◌||◌, List, [], ◌∷◌, Option, none, some, ltb, leb, ◌==◌,
  max, or_else, sorted, take, if◌then◌else◌,
}
use scam2marke.Prelude.Dict.{Dict, string_eq, nat_eq, pair_eq, lookup, insert}
use scam2marke.Prelude.Text.{str_leb}
use scam2marke.Features.Sources.{◌>>=◌}

-- (topic, partition)
abbrev pub Partition : Type 0
Partition = String × ℕ

pub record ConsumedEvent (Event : Type 0) : Type 0 where
  pub event : Event
  pub topic : String
  pub partition : ℕ
  pub offset : ℕ

abbrev pub source_of : {Event : Type 0} → ConsumedEvent Event → Partition
source_of r = (r.topic, r.partition)

-- The service that the worker drives, with `export_state`, `restore_state` and the digest of the
-- exported state. `IsReached` holds of the states that the service comes to, and `Covers s e` where
-- the state has taken the event in. A `none` is an
-- exception, which ends the worker.
pub record StreamEngine (Event State Json : Type 0) : Type 1 where
  pub initial : State
  pub event_time : Event → ℕ
  pub process : Event → State → Option State
  pub export_state : State → Json
  pub restore_state : Json → Option State
  pub checksum : Json → String
  pub Covers : State → Event → Type 0
  pub IsReached : State → Type 0
  pub starts : IsReached initial
  pub stays : (e : Event) (s t : State) → IsReached s → process e s ≡ some t → IsReached t
  pub restores : (s : State) → IsReached s → restore_state (export_state s) ≡ some s
  pub takes : (e : Event) (s t : State) → IsReached s → process e s ≡ some t → Covers t e
  pub keeps :
      (d e : Event) (s t : State) → IsReached s → process e s ≡ some t → Covers s d → Covers t d

-- A row of `worker_checkpoints`.
pub record WorkerCheckpoint (Json : Type 0) : Type 0 where
  pub last_durable_offset : ℕ
  pub state_json : Json
  pub state_checksum : String

-- What outlives the worker: the rows with the key that was written last, and the broker's offsets.
pub record Durable (Json : Type 0) : Type 0 where
  pub rows : Dict Partition (WorkerCheckpoint Json)
  pub updated : Option Partition
  pub committed : Dict Partition ℕ

abbrev pub committed_at : {Json : Type 0} → Durable Json → Partition → ℕ
committed_at d p = or_else (lookup p d.committed) 0

module _ {Event State Json : Type 0} (engine : StreamEngine Event State Json) where
  -- The comparison of `(event.event_time, topic, partition, offset)`.
  abbrev pub delivery_leb : ConsumedEvent Event → ConsumedEvent Event → Bool
  delivery_leb a b =
      let s = engine.event_time a.event in
      let t = engine.event_time b.event in
      ltb s t
      || (s == t
          && (if str_eq a.topic b.topic
              then ltb a.partition b.partition
                || (a.partition == b.partition && leb a.offset b.offset)
              else str_leb a.topic b.topic))

  -- `batches`, on what one `getmany` gave
  unfoldable pub ordered : List (ConsumedEvent Event) → List (ConsumedEvent Event)
  unfolding sorted
  ordered messages = sorted delivery_leb messages

  unfoldable pub process_all : List (ConsumedEvent Event) → State → Option State
  process_all [] s = some s
  process_all (r ∷ rs) s = engine.process r.event s >>= λ t. process_all rs t

  -- `latest_by_partition`
  unfoldable pub latest_by_partition :
      List (ConsumedEvent Event)
      → Dict Partition (ConsumedEvent Event)
      → Dict Partition (ConsumedEvent Event)
  unfolding insert
  latest_by_partition [] d = d
  latest_by_partition (r ∷ rs) d = latest_by_partition rs (insert (source_of r) r d)

  pub data Write : Type 0 where
    saving committing : ConsumedEvent Event → Write

  -- The calls of the loop over the partitions, in their order.
  unfoldable pub writes : Dict Partition (ConsumedEvent Event) → List Write
  writes [] = []
  writes ((p, r) ∷ d) = saving r ∷ committing r ∷ writes d

  abbrev pub durable_offset : ℕ → Option (WorkerCheckpoint Json) → ℕ
  durable_offset offset none = offset
  durable_offset offset (some row) = max row.last_durable_offset offset

  -- The row that `save` leaves in place of the row that was there.
  abbrev pub checkpoint_row :
      State → ConsumedEvent Event → Option (WorkerCheckpoint Json) → WorkerCheckpoint Json
  checkpoint_row s r row =
      let state_json = engine.export_state s in
      record {
        last_durable_offset = durable_offset r.offset row;
        state_json = state_json;
        state_checksum = engine.checksum state_json;
      }

  -- `checkpoints.save`
  unfoldable pub save : State → ConsumedEvent Event → Durable Json → Durable Json
  save s r d = record d {
    rows = insert (source_of r) (checkpoint_row s r (lookup (source_of r) d.rows)) d.rows;
    updated = some (source_of r);
  }

  -- `consumer.commit`
  unfoldable pub commit : ConsumedEvent Event → Durable Json → Durable Json
  commit r d = record d { committed = insert (source_of r) (r.offset + 1) d.committed }

  unfoldable pub write_all : State → List Write → Durable Json → Durable Json
  write_all s [] d = d
  write_all s (saving r ∷ ws) d = write_all s ws (save s r d)
  write_all s (committing r ∷ ws) d = write_all s ws (commit r d)

  -- The start of `run`: the state of the row that was written last, or a new engine.
  unfoldable pub load_row : Option (WorkerCheckpoint Json) → Option State
  load_row none = some engine.initial
  load_row (some row) =
      if str_eq row.state_checksum (engine.checksum row.state_json)
      then engine.restore_state row.state_json
      else none

  -- `checkpoints.latest`
  abbrev pub latest : Durable Json → Option (WorkerCheckpoint Json)
  latest d = elim d.updated [ none ↦ none | some p ↦ lookup p d.rows ]

  unfoldable pub load : Durable Json → Option State
  unfolding load_row
  load d = load_row (latest d)

  pub record Worker : Type 0 where
    pub state : State
    pub position : Partition → ℕ
    pub durable : Durable Json

  -- A worker that starts, at the offsets that are committed.
  unfoldable pub start : Durable Json → Option Worker
  start d = load d >>= λ s. some (record { state = s; position = committed_at d; durable = d })

  -- One `getmany`: its messages and the positions after it, and after how many calls of the loop
  -- over the partitions the worker dies, if it does.
  pub record Poll : Type 0 where
    pub messages : List (ConsumedEvent Event)
    pub after : Partition → ℕ
    pub dies : Option ℕ

  -- The process that `run` is: at work, or ended by an exception or a death.
  pub data Process : Type 0 where
    alive : Worker → Process
    ended : Durable Json → Process

  abbrev pub durable_of : Process → Durable Json
  durable_of (alive w) = w.durable
  durable_of (ended d) = d

  -- The calls of a round, up to the one after which the worker dies.
  unfoldable pub make_writes :
      Option ℕ → State → (Partition → ℕ) → List Write → Durable Json → Process
  make_writes none s after calls d =
      alive (record { state = s; position = after; durable = write_all s calls d })
  make_writes (some n) s after calls d = ended (write_all s (take n calls) d)

  -- The end of a round, by what the processing gave: an exception leaves `run`.
  unfoldable pub settle : Poll → Worker → Option State → Process
  settle poll w none = ended w.durable
  settle poll w (some s) =
      make_writes poll.dies s poll.after (writes (latest_by_partition (ordered poll.messages) []))
        w.durable

  -- One round of the loop of `run`.
  unfoldable pub round : Poll → Worker → Process
  unfolding settle
  round poll w = settle poll w (process_all (ordered poll.messages) w.state)
