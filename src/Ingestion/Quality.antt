-- ===== src/Ingestion/Quality.antt =====
-- src/scam2market/ingestion/quality.py, `SourceQualityTracker`. Times are microseconds; the sequence
-- numbers of a source are natural numbers.
pub mod Recovery
pub mod Sequence
use scam2marke.Prelude.{
  ℕ, zero, suc, [], ◌+◌, ◌-◌, ◌*◌, String, Bool, true, false, not, ◌&&◌, ◌||◌, Option, none, some,
  max, ltb, leb, or_else, if◌then◌else◌,
}
use scam2marke.Prelude.Dict.{Dict, string_eq, pair_eq, lookup, insert}

pub data OrderBookState : Type 0 where
  valid stale gap_detected resyncing recovered : OrderBookState

-- The texts of `status`.
pub data Status : Type 0 where
  starting healthy degraded idle : Status

pub record SourceQuality : Type 0 where
  pub source : String
  pub asset_id : String
  pub last_event_time : Option ℕ
  pub last_ingested_at : Option ℕ
  pub last_sequence : Option ℕ
  pub sequence_gap_count : ℕ
  pub out_of_order_count : ℕ
  pub status : Status
  pub source_active : Bool
  pub source_idle : Bool
  pub source_degraded : Bool
  pub orderbook_state : OrderBookState
  pub book_valid : Bool
  pub recovery_updates : ℕ

-- `SourceQuality(source, asset_id)`
unfoldable pub new_quality : String → String → SourceQuality
new_quality source asset_id = record {
  source = source;
  asset_id = asset_id;
  last_event_time = none;
  last_ingested_at = none;
  last_sequence = none;
  sequence_gap_count = 0;
  out_of_order_count = 0;
  status = Status.starting;
  source_active = false;
  source_idle = false;
  source_degraded = false;
  orderbook_state = OrderBookState.valid;
  book_valid = true;
  recovery_updates = 0;
}

pub record Observation : Type 0 where
  pub event_time : ℕ
  pub ingested_at : ℕ
  pub sequence : Option ℕ
  pub is_orderbook : Bool

-- `gap_detected`
abbrev pub is_gap : Option ℕ → Option ℕ → Bool
is_gap none last = false
is_gap (some n) none = false
is_gap (some n) (some last) = ltb (last + 1) n || leb n last

abbrev pub gaps_after : Option ℕ → Option ℕ → ℕ → ℕ
gaps_after none last count = count
gaps_after (some n) none count = count
gaps_after (some n) (some last) count = if ltb (last + 1) n then count + (n - last - 1) else count

abbrev pub out_of_order_after : Option ℕ → Option ℕ → ℕ → ℕ
out_of_order_after none last count = count
out_of_order_after (some n) none count = count
out_of_order_after (some n) (some last) count = if leb n last then count + 1 else count

-- `max(sequence, state.last_sequence or sequence)`: no last sequence, and the last sequence 0, stand
-- for the new one.
abbrev pub last_after : Option ℕ → Option ℕ → Option ℕ
last_after none last = last
last_after (some n) none = some n
last_after (some n) (some zero) = some n
last_after (some n) (some (suc m)) = some (max n (suc m))

-- The state of the order book and its count of recovery updates, after an update of the book.
unfoldable pub next_book : Bool → Bool → OrderBookState → ℕ → OrderBookState × ℕ
next_book late gap state updates =
    if late
    then (OrderBookState.stale, 0)
    else if gap
    then (OrderBookState.gap_detected, 0)
    else elim state [
      | OrderBookState.gap_detected ↦ (OrderBookState.resyncing, 1)
      | OrderBookState.stale ↦ (OrderBookState.resyncing, 1)
      | OrderBookState.resyncing ↦ (OrderBookState.recovered, updates + 1)
      | OrderBookState.recovered ↦ (OrderBookState.valid, updates)
      | OrderBookState.valid ↦ (OrderBookState.valid, updates)
    ]

-- `state.orderbook_state in {valid, recovered}`
abbrev pub is_valid_book : OrderBookState → Bool
is_valid_book OrderBookState.valid = true
is_valid_book OrderBookState.recovered = true
is_valid_book _ = false

-- `age > self._threshold`, where the age of an event from the future is 0.
abbrev pub is_late : ℕ → Observation → Bool
is_late threshold o = ltb threshold (o.ingested_at - o.event_time)

-- What `observe` does to the state of one source, with the threshold in microseconds.
unfoldable pub observed : ℕ → Observation → SourceQuality → SourceQuality
unfolding next_book
observed threshold o q =
    let gap = is_gap o.sequence q.last_sequence in
    let late = is_late threshold o in
    let (book, updates) : OrderBookState × ℕ =
      if o.is_orderbook
      then next_book late gap q.orderbook_state q.recovery_updates
      else (q.orderbook_state, q.recovery_updates) in
    let book_ok = if o.is_orderbook then is_valid_book book else q.book_valid in
    let degraded = late || gap || (o.is_orderbook && not book_ok) in
    record q {
      sequence_gap_count = gaps_after o.sequence q.last_sequence q.sequence_gap_count;
      out_of_order_count = out_of_order_after o.sequence q.last_sequence q.out_of_order_count;
      last_sequence = last_after o.sequence q.last_sequence;
      last_event_time = some (max o.event_time (or_else q.last_event_time o.event_time));
      last_ingested_at = some o.ingested_at;
      source_active = true;
      source_idle = false;
      orderbook_state = book;
      recovery_updates = updates;
      book_valid = book_ok;
      source_degraded = degraded;
      status = if degraded then Status.degraded else Status.healthy;
    }

unfoldable pub idled : SourceQuality → SourceQuality
idled q = record q {
  source_active = true;
  source_idle = true;
  source_degraded = false;
  status = Status.idle;
}

pub record SourceQualityTracker : Type 0 where
  pub threshold : ℕ
  pub states : Dict (String × String) SourceQuality

-- `SourceQualityTracker(freshness_threshold_seconds)`
unfoldable pub new_tracker : ℕ → SourceQualityTracker
new_tracker seconds = record { threshold = 1_000_000 * seconds; states = [] }

-- `self._states.setdefault((source, asset_id), SourceQuality(source, asset_id))`
abbrev pub state_of : SourceQualityTracker → String → String → SourceQuality
state_of t source asset_id =
    or_else (lookup (source, asset_id) t.states) (new_quality source asset_id)

-- `observe`, `mark_idle` and `get`. The state that they return is the tracker's own.
unfoldable pub observe : String → String → Observation → SourceQualityTracker → SourceQualityTracker
unfolding observed new_quality
observe source asset_id o t = record t {
  states = insert (source, asset_id) (observed t.threshold o (state_of t source asset_id)) t.states;
}

unfoldable pub mark_idle : String → String → SourceQualityTracker → SourceQualityTracker
unfolding idled new_quality
mark_idle source asset_id t = record t {
  states = insert (source, asset_id) (idled (state_of t source asset_id)) t.states;
}

unfoldable pub get : SourceQualityTracker → String → String → Option SourceQuality
get t source asset_id = lookup (source, asset_id) t.states
