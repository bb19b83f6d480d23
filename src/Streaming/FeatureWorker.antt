-- ===== src/Streaming/FeatureWorker.antt =====
-- The window engine of src/scam2market/features/engine.py as the engine of the loop of
-- src/scam2market/workers/stream_worker.py. A message is taken for the one signal that
-- `market_signal` makes of it; the health of its source is not looked up.
use scam2marke.Prelude.{ℕ, ◌<◌, ◌≡◌, refl, subst, true, length, Option, some, String}
use mathlib.Core.Option.{some-injective}
use scam2marke.Prelude.Dict.{string_eq, pair_eq, contains}
use scam2marke.Features.Types.{FeatureSignal, Settings, FeatureWindowEngine}
use scam2marke.Features.Fields.{is_readable}
use scam2marke.Features.Schema.{feature_schema}
use scam2marke.Features.Sources.{◌>>=◌, new_engine}
use scam2marke.Features.Engine.{Environment, ingest}
use scam2marke.Features.Engine.Invariant.{Yields, Yields-value}
use scam2marke.Features.Engine.Windows.{IsValid}
use scam2marke.Features.Engine.Ingest.{Ingested, ingest-Ingested, ingest-seen}
use scam2marke.Features.Engine.Run.{new_engine-IsValid}
use scam2marke.Features.Checkpoint.{
  Checkpoint, export_state, restore_state, Replays, ingest-Replays, restore_state-Replays,
  new_engine-Replays,
}
use scam2marke.Streaming.Worker.{Partition, StreamEngine, Worker, start, Process, alive, durable_of}
use scam2marke.Streaming.Delivery.{Kept}
use scam2marke.Streaming.NoLoss.{Runs, fresh, Runs-Kept}

-- What holds of a returned value holds of the part of it that is passed on.
Yields-passed :
    {A B : Type 0} (P : A → Type 0) (f : A → B) (r : Option A) (b : B)
    → Yields r P
    → (r >>= λ a. some (f a)) ≡ some b
    → (a : A) × (f a ≡ b) × P a
Yields-passed P f r b y e =
    let (a, returned, p) = Yields-value P r y in (a, some-injective _ _ (rw returned at e), p)

-- A signal of the market has no lists, so that reading them raises nothing.
abbrev Readable : Type 0
Readable = (e : FeatureSignal) × (is_readable e ≡ true)

-- `sha256` gives the digest of the JSON of a checkpoint with its keys in order.
module _ {Json : Type 0} (dump : FeatureSignal → Json) (validate : Json → Option FeatureSignal)
    (sha256 : Checkpoint Json → String) (env : Environment) (settings : Settings)
    (empty : FeatureWindowEngine) (valid : (e : FeatureSignal) → validate (dump e) ≡ some e)
    (required : 0 < length settings.required_domains)
    (schema : settings.feature_schema_version ≡ feature_schema)
    (made : new_engine settings ≡ some empty) where
  -- What `FeatureWindowService.process` does to the engine.
  abbrev take_in : Readable → FeatureWindowEngine → Option FeatureWindowEngine
  take_in (e, _) s = ingest env e s >>= λ r. some r.1

  -- The engine comes from a new one by the signals of its log.
  abbrev FromNew : FeatureWindowEngine → Type 0
  FromNew s = IsValid s × Replays dump validate env empty s

  abbrev Seen : FeatureWindowEngine → Readable → Type 0
  Seen s (e, _) = contains s.seen_event_ids (e.scope_id, e.event_id) ≡ true

  take_in-FromNew :
      (e : Readable) (s t : FeatureWindowEngine) → FromNew s → take_in e s ≡ some t → FromNew t
  take_in-FromNew e s t (is_valid, replays) done =
      let (r, same, from_new) =
        Yields-passed (λ r. IsValid r.1 × Replays dump validate env empty r.1) (λ r. r.1) _ t
          (ingest-Replays dump validate env e.0 empty s valid e.1 is_valid replays) done in
      subst FromNew same from_new

  take_in-Seen :
      (e : Readable) (s t : FeatureWindowEngine) → FromNew s → take_in e s ≡ some t → Seen t e
  take_in-Seen e s t (is_valid, replays) done =
      let (r, same, (_, seen, _)) =
        Yields-passed (Ingested env e.0 s) (λ r. r.1) _ t (ingest-Ingested env e.0 s e.1 is_valid)
          done in
      subst (λ u. Seen u e) same seen

  take_in-keeps :
      (d e : Readable) (s t : FeatureWindowEngine)
      → FromNew s
      → take_in e s ≡ some t
      → Seen s d
      → Seen t d
  take_in-keeps d e s t (is_valid, replays) done known =
      let (r, same, seen) =
        Yields-passed (λ r. Seen r.1 d) (λ r. r.1) _ t
          (ingest-seen env (d.0.scope_id, d.0.event_id) e.0 s e.1 is_valid known) done in
      subst (λ u. Seen u d) same seen

  abbrev feature_engine : StreamEngine Readable FeatureWindowEngine (Checkpoint Json)
  feature_engine = record {
    initial = empty;
    event_time = λ e. e.0.event_time;
    process = take_in;
    export_state = export_state dump validate;
    restore_state = λ json. restore_state dump validate env json empty >>= λ r. some r.1;
    checksum = sha256;
    Covers = Seen;
    IsReached = FromNew;
    starts =
        let (is_valid, no_log) = new_engine-IsValid settings required schema empty made in
        (is_valid, new_engine-Replays dump validate env empty no_log);
    stays = take_in-FromNew;
    restores = λ s from_new.
        rw
          (restore_state-Replays dump validate env empty s
            (new_engine-IsValid settings required schema empty made).1 from_new.1)
          refl;
    takes = take_in-Seen;
    keeps = take_in-keeps;
  }

  -- For the window engine: whatever rounds and new starts follow a start with nothing
  -- stored, the next start loads an
  -- engine that has seen every signal below the committed offset of its partition.
  feature_engine-Kept :
      (log : Partition → ℕ → Readable) (w : Worker feature_engine) (p : Process feature_engine)
      → start feature_engine fresh ≡ some w
      → Runs feature_engine log (alive w) p
      → Kept feature_engine log (durable_of feature_engine p)
  feature_engine-Kept log w p = Runs-Kept feature_engine log w p
