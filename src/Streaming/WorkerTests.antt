-- ===== src/Streaming/WorkerTests.antt =====
-- The theorems on the worker at an engine that keeps a log without repetitions, and a poll after
-- which the worker dies between the save and the commit.
use scam2marke.Prelude.{
  ℕ, ◌≡◌, refl, sym, subst, inl, inr, ◌<◌, true, List, [], ◌∷◌, some, arith, sorted, if◌then◌else◌,
  Bool-cases, Any,
}
use mathlib.Core.Option.{some-injective}
use scam2marke.Prelude.Dict.{
  string_eq, nat_eq, pair_eq, pair_beq, lookup, insert, contains, contains-cons_self,
}
use scam2marke.Streaming.Worker.{
  Partition, ConsumedEvent, StreamEngine, Durable, committed_at, ordered, process_all,
  latest_by_partition, writes, save, commit, write_all, load, load_row, Worker, start, Poll, settle,
  make_writes, round, alive, ended,
}
use scam2marke.Streaming.Delivery.{Delivered, Kept}
use scam2marke.Streaming.NoLoss.{Runs, stop, next, restart, fresh, Runs-Kept}

abbrev add_once : ℕ → List ℕ → List ℕ
add_once e s = if contains s e then s else e ∷ s

add_once-takes : (e : ℕ) (s t : List ℕ) → some (add_once e s) ≡ some t → contains t e ≡ true
add_once-takes e s t h =
    subst (λ u. contains u e ≡ true) (some-injective _ _ h)
      (elim (Bool-cases (contains s e)) [
        | inl old ↦ rw old old
        | inr new ↦ rw new (contains-cons_self e s)
      ])

add_once-keeps :
    (d e : ℕ) (s t : List ℕ)
    → some (add_once e s) ≡ some t
    → contains s d ≡ true
    → contains t d ≡ true
unfolding contains
add_once-keeps d e s t h known =
    subst (λ u. contains u d ≡ true) (some-injective _ _ h)
      (elim (Bool-cases (contains s e)) [
        | inl old ↦ rw old known
        | inr new ↦ rw new (ground (arith, known))
      ])

abbrev log_engine : StreamEngine ℕ (List ℕ) (List ℕ)
log_engine = record {
  initial = [];
  event_time = λ e. e;
  process = λ e s. some (add_once e s);
  export_state = λ s. s;
  restore_state = λ s. some s;
  checksum = λ s. "";
  Covers = λ s e. contains s e ≡ true;
  IsReached = λ s. Unit;
  starts = tt;
  stays = λ e s t reached made. tt;
  restores = λ s reached. refl;
  takes = λ e s t reached. add_once-takes e s t;
  keeps = λ d e s t reached. add_once-keeps d e s t;
}

abbrev events : Partition → ℕ → ℕ
events p o = o

abbrev trades : Partition
trades = ("market.trades.v1", 0)

abbrev message : ℕ → ConsumedEvent ℕ
message o = record { event = o; topic = "market.trades.v1"; partition = 0; offset = o }

abbrev after_poll : Partition → ℕ
after_poll p = if pair_beq p trades then 2 else 0

abbrev poll : Poll log_engine
poll = record { messages = message 0 ∷ message 1 ∷ []; after = after_poll; dies = some 1 }

abbrev begun : Worker log_engine
begun = record { state = []; position = committed_at {Json = List ℕ} fresh; durable = fresh }

two_events :
    (o : ℕ) → o < 2 → Any (λ (r : ConsumedEvent ℕ). r.event ≡ o) (message 0 ∷ message 1 ∷ [])
two_events o below = ground arith

abbrev saved_once : Durable (List ℕ)
saved_once = record {
  rows =
      (trades, record { last_durable_offset = 1; state_json = 1 ∷ 0 ∷ []; state_checksum = "" })
      ∷ [];
  updated = some trades;
  committed = [];
}

poll-Delivered : Delivered log_engine events begun.position poll
unfolding lookup
poll-Delivered = record {
  forward = λ p. omega arith;
  whole = λ p o old below. elim (Bool-cases (pair_beq p trades)) [
    | inl same ↦ two_events o (rw same at below)
    | inr other ↦ absurd (omega (arith, rw other at below))
  ];
  within = (omega arith, (omega arith, tt));
}

-- The worker that starts again after the poll: it died between the two writes.
abbrev restarted : Worker log_engine
restarted = record { state = 1 ∷ 0 ∷ []; position = committed_at saved_once; durable = saved_once }

starts : start log_engine fresh ≡ some begun
unfolding start load load_row
starts = refl

dies : round log_engine poll begun ≡ ended saved_once
unfolding round settle make_writes write_all writes save commit process_all ordered sorted
    latest_by_partition lookup insert contains
dies = refl

restarts : start log_engine saved_once ≡ some restarted
unfolding start load load_row lookup
restarts = refl

died : Runs log_engine events (alive begun) (alive restarted)
died =
    next poll poll-Delivered
      (subst (λ p. Runs log_engine events p (alive restarted)) (sym dies) (restart restarts stop))

Runs-Kept_example : Kept log_engine events saved_once
Runs-Kept_example = Runs-Kept log_engine events begun (alive restarted) starts died
