-- ===== src/Features/Tests.antt =====
-- Tests of the feature windows, and the theorems about them at concrete inputs.
use scam2marke.Prelude.{
  sorted, take, ℕ, ◌*◌, ◌≡◌, refl, String, ◌<>◌, true, false, List, [], ◌∷◌, Option, none, some,
  arith, map, length, or_else, All,
}
use scam2marke.Prelude.Int.{◌-ℤ◌, ℤ, pos, abs}
use scam2marke.Prelude.Dict.{string_eq, nat_eq, pair_eq, lookup, insert, contains}
use scam2marke.Features.Types.{
  SignalKind, SourceDomain, RevisionState, null, number, string, FeatureSignal, FeatureSnapshot,
  WindowKey, Settings, FeatureWindowEngine, SourceState,
}
use scam2marke.Features.Fields.{items_of, is_readable}
use scam2marke.Features.Numbers.{sum, mean, quotient, product}
use scam2marke.Features.Compute.{compute_features}
use scam2marke.Features.Sources.{empty_engine, new_engine, global_max, least, watermark}
use scam2marke.Features.Sources.Usable.{AllUsable, watermark-usable}
use scam2marke.Features.Engine.{Environment, floor_window, ingest, finalize_eligible}
use scam2marke.Features.Engine.Invariant.{Yields}
use scam2marke.Features.Engine.Windows.{IsValid}
use scam2marke.Features.Engine.Forced.{left_open}
use scam2marke.Features.Engine.Finality.{finalize_eligible-final}
use scam2marke.Features.Engine.Run.{new_engine-IsValid, run, run-IsValid, ingest_twice}
use scam2marke.Features.Engine.{snapshot_of}
use scam2marke.Features.Schema.{is_accepted}
use scam2marke.Features.Validation.{snapshot_of-accepted}
use scam2marke.Features.Checkpoint.{export_state, restore_state, restore_state-export_state}
use scam2marke.Features.Service.{World, process, process_twice}

abbrev settings : Settings
settings = record {
  intervals = 60 ∷ 300 ∷ [];
  allowed_lateness = 120_000_000;
  source_idle_after = 600_000_000;
  feature_schema_version = "surveillance-features-v2";
  required_domains = SourceDomain.market ∷ SourceDomain.social ∷ [];
}

abbrev minutes : Settings
minutes = record settings { intervals = 60 ∷ []; required_domains = SourceDomain.market ∷ [] }

-- Stands for the deviation of some numbers.
abbrev spread : List ℤ → ℤ
spread [] = pos 0
spread (x ∷ xs) = pos (abs x)

abbrev environment : Environment
environment = record {
  uuid5 = λ name. "uuid5 " <> name;
  source_hash = λ es. "hash";
  str = λ n. "n";
  str_time = λ n. "t";
  schema_hash = "h1";
  pstdev = spread;
}

abbrev trade : String → ℕ → FeatureSignal
trade id seconds = record {
  event_id = id;
  scope_id = "LIVE";
  asset_id = "BTC";
  event_time = seconds * 1_000_000;
  kind = SignalKind.market_trade;
  source_domain = SourceDomain.market;
  values = [];
}

abbrev post : String → ℕ → FeatureSignal
post id seconds = record (trade id seconds) {
  kind = SignalKind.social_post;
  source_domain = SourceDomain.social;
  values = ("author_id", string "ann") ∷ [];
}

abbrev signals : List FeatureSignal
signals = trade "a" 1_010 ∷ post "b" 1_020 ∷ trade "c" 1_400 ∷ post "d" 1_400 ∷ post "e" 1_015 ∷ []

-- The revisions of a window, as numbers and states.
abbrev states :
    WindowKey → Option (List FeatureSnapshot × FeatureWindowEngine) → List (ℕ × RevisionState)
states key none = []
states key (some r) =
    map (λ x. (x.revision, x.revision_state)) (or_else (lookup key r.1.revisions) [])

abbrev start : FeatureWindowEngine
start = empty_engine settings

made : new_engine settings ≡ some start
unfolding new_engine
made = refl

start-IsValid : IsValid start
start-IsValid = (new_engine-IsValid settings (omega arith) refl start made).0

abbrev priced : String → ℕ → ℕ → ℕ → FeatureSignal
priced id seconds price quantity = record (trade id seconds) {
  values =
      ("price", number (pos (price * 1_000_000)))
      ∷ ("quantity", number (pos (quantity * 1_000_000)))
      ∷ ("side", string "BUY")
      ∷ [];
}

-- Two trades, of a source that is not known yet, make a return of 0.1 and a volume of 310.
numbers :
    take 3 (
      compute_features spread start
        ("LIVE", ("BTC", (960_000_000, 60)))
        (priced "a" 970 100 2 ∷ priced "b" 980 110 1 ∷ post "c" 990 ∷ []))
    ≡ ("price_return", some (pos 100_000))
      ∷ ("volume", some (pos 310_000_000))
      ∷ ("relative_volume", some (pos 1_000_000))
      ∷ []
unfolding compute_features lookup ◌-ℤ◌ sum mean quotient product sorted
numbers = refl

-- The second signal closes the window of the first, and the late post corrects it.
revised :
    states
      ("LIVE", ("BTC", (960_000_000, 60)))
      (run environment
        (trade "a" 1_010 ∷ trade "c" 1_400 ∷ trade "e" 1_015 ∷ [])
        (empty_engine minutes))
    ≡ (1, RevisionState.provisional) ∷ (2, RevisionState.final) ∷ (3, RevisionState.corrected) ∷ []
unfolding run ingest lookup insert contains floor_window global_max least
revised = refl

trade-readable : is_readable (trade "a" 1_010) ≡ true
unfolding is_readable items_of lookup
trade-readable = refl

signals-readable : All (λ e. is_readable e ≡ true) signals
unfolding is_readable items_of lookup
signals-readable = (refl, (refl, (refl, (refl, (refl, tt)))))

-- `urls` is `null`: the post cannot be taken in.
unreadable :
    ingest environment (record (post "f" 1_020) { values = ("urls", null) ∷ [] }) start ≡ none
unfolding ingest lookup insert contains floor_window global_max least items_of
unreadable = refl

run-IsValid_example : Yields (run environment signals start) (λ r. IsValid r.1)
run-IsValid_example =
    run-IsValid environment settings start signals (omega arith) refl signals-readable made

ingest_twice_example :
    Yields
      (ingest environment (trade "a" 1_010) start)
      (λ r. ingest environment (trade "a" 1_010) r.1 ≡ some ([], r.1))
ingest_twice_example = ingest_twice environment (trade "a" 1_010) start trade-readable start-IsValid

-- Signals as they are stand for their JSON.
restore_state-export_state_example : Yields (run environment signals start) (λ r.
    restore_state (λ e. e) some environment (export_state (λ e. e) some r.1) start
    ≡ some (length r.1.signal_log, r.1))
restore_state-export_state_example =
    restore_state-export_state (λ e. e) some environment settings start signals (λ e. refl)
      (omega arith) refl signals-readable made

abbrev post_window : WindowKey
post_window = ("LIVE", ("BTC", (1_020_000_000, 60)))

abbrev provisional_post : FeatureSnapshot
provisional_post = record {
  feature_window_id = "w";
  scope_id = "LIVE";
  asset_id = "BTC";
  window_start = 1_020_000_000;
  window_end = 1_080_000_000;
  interval_seconds = 60;
  revision = 1;
  is_final = false;
  revision_state = RevisionState.provisional;
  supersedes_revision = none;
  feature_schema_version = "surveillance-features-v2";
  feature_schema_hash = "h1";
  features = [];
  lineage = record {
    lineage_id = "l";
    source_event_ids = "b" ∷ [];
    source_event_min_time = some 1_020_000_000;
    source_event_max_time = some 1_020_000_000;
    source_count = 1;
    source_hash = "hash";
  };
}

abbrev active : SourceState
active = record { active = true; idle = false; degraded = false }

-- A window of one post, with both sources known up to the second 1400.
abbrev closing : FeatureWindowEngine
closing = record start {
  events = (post_window, post "b" 1_020 ∷ []) ∷ [];
  revisions = (post_window, provisional_post ∷ []) ∷ [];
  max_event_time =
      (("LIVE", ("BTC", SourceDomain.market)), 1_400_000_000)
      ∷ (("LIVE", ("BTC", SourceDomain.social)), 1_400_000_000)
      ∷ [];
  source_states =
      (("LIVE", ("BTC", SourceDomain.market)), active)
      ∷ (("LIVE", ("BTC", SourceDomain.social)), active)
      ∷ [];
}

post-readable : is_readable (post "b" 1_020) ≡ true
unfolding is_readable items_of lookup
post-readable = refl

closing-IsValid : IsValid closing
unfolding lookup
closing-IsValid = record {
  required = omega arith;
  positive = (omega arith, (omega arith, tt));
  schema = refl;
  readable = ((post-readable, tt), tt);
  windows = (((refl, refl, omega arith, omega arith), tt), tt);
  kept = (
    (
      ((refl, (refl, λ same. cc, refl), tt), ((refl, refl, refl, refl, refl), tt)),
      omega arith,
      (post "b" 1_020 ∷ [], refl),
    ),
    tt,
  );
}

closing-watermark : watermark "LIVE" "BTC" closing ≡ some (some (pos 1_280_000_000), closing)
unfolding watermark global_max lookup least insert
closing-watermark = refl

finalize_eligible-final_example : Yields (finalize_eligible environment "LIVE" "BTC" closing) (λ r.
    left_open "LIVE" "BTC"
      (pos 1_280_000_000)
      post_window
      (or_else (lookup post_window r.1.revisions) [])
    ≡ false)
finalize_eligible-final_example =
    finalize_eligible-final environment "LIVE" "BTC" (pos 1_280_000_000) closing closing post_window
      closing-IsValid closing-watermark

watermark-usable_example :
    AllUsable "LIVE" "BTC" closing.source_states closing.settings.required_domains
watermark-usable_example =
    watermark-usable "LIVE" "BTC" (pos 1_280_000_000) closing closing closing-watermark

snapshot_of-accepted_example :
    is_accepted "h1" (
      snapshot_of environment post_window
        (post "b" 1_020 ∷ [])
        (provisional_post ∷ [])
        true
        closing)
    ≡ true
snapshot_of-accepted_example =
    snapshot_of-accepted environment post_window (post "b" 1_020 ∷ []) (provisional_post ∷ []) true
      closing closing-IsValid.kept.0.0 refl

abbrev world : World
world = record { engine = start; snapshots = []; history = []; latest = []; published = [] }

process_twice_example :
    Yields
      (process environment (λ r. "trace") (trade "a" 1_010) world)
      (λ r. process environment (λ r. "trace") (trade "a" 1_010) r.1 ≡ some ([], r.1))
process_twice_example =
    process_twice environment (λ r. "trace") (trade "a" 1_010) world trade-readable start-IsValid
