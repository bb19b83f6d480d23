-- ===== src/Features/Engine.antt =====
-- src/scam2market/features/engine.py, `FeatureWindowEngine`: the windows, their revisions, `ingest`
-- and the checkpoint.
pub mod Revisions
pub mod Invariant
pub mod Loops
pub mod Windows
pub mod Forced
pub mod Finality
pub mod Ingest
pub mod Run
use scam2marke.Prelude.{
  ℕ, ◌+◌, ◌-◌, ◌*◌, ◌/◌, ◌%◌, String, ◌<>◌, Bool, true, false, not, ◌&&◌, ◌||◌, List, [], ◌∷◌, ◌++◌,
  map, Option, none, some, ltb, leb, ◌==◌, str_eq, or_else, length, last?, sorted, if◌then◌else◌,
}
use scam2marke.Prelude.Int.{ℤ, pos, leb_ℤ}
use scam2marke.Prelude.Text.{str_leb}
use scam2marke.Prelude.Dict.{Dict, nat_eq, string_eq, pair_eq, lookup, insert, contains}
use scam2marke.Features.Types.{
  RevisionState, FeatureSignal, FeatureSnapshot, is_provisional, WindowKey, FeatureWindowEngine,
}
use scam2marke.Features.Compute.{is_computable, compute_features}
use scam2marke.Features.Schema.{is_accepted}
use scam2marke.Features.Sources.{◌>>=◌, record_signal, watermark}

abbrev pub second : ℕ
second = 1_000_000

-- `_floor_window`
unfoldable pub floor_window : ℕ → ℕ → ℕ
floor_window t interval = let s = t / second in (s - s % interval) * second

abbrev pub end_of : WindowKey → ℕ
end_of (scope, (asset, (start, interval))) = start + interval * second

abbrev pub window_of : FeatureSignal → ℕ → WindowKey
window_of e interval = (e.scope_id, (e.asset_id, (floor_window e.event_time interval, interval)))

abbrev pub concerns : String → String → WindowKey → Bool
concerns scope asset (s, (a, w)) = str_eq s scope && str_eq a asset

-- The comparison of `(event.event_time, event.event_id)`.
unfoldable pub signal_leb : FeatureSignal → FeatureSignal → Bool
signal_leb a b =
    ltb a.event_time b.event_time || (a.event_time == b.event_time && str_leb a.event_id b.event_id)

abbrev first_time : List FeatureSignal → Option ℕ
first_time [] = none
first_time (e ∷ _) = some e.event_time

abbrev last_time : Option FeatureSignal → Option ℕ
last_time none = none
last_time (some e) = some e.event_time

-- The state of a new revision and what it supersedes, by the last revision before it.
unfoldable pub next_revision : Option FeatureSnapshot → Bool → RevisionState × Option ℕ
next_revision none finalize =
    (if finalize then RevisionState.final else RevisionState.provisional, none)
next_revision (some prior) finalize =
    if not (is_provisional prior.revision_state)
    then (RevisionState.corrected, some prior.revision)
    else (if finalize then RevisionState.final else RevisionState.provisional, none)

-- The keys of `downstream_keys`, sorted by the start of the window.
abbrev pub downstream : FeatureSignal → ℕ → Dict WindowKey (List FeatureSnapshot) → List WindowKey
downstream e interval [] = []
downstream e interval (((scope, (asset, (start, i))), _) ∷ d) =
    let rest = downstream e interval d in
    if str_eq scope e.scope_id
      && str_eq asset e.asset_id
      && (i == interval)
      && ltb (floor_window e.event_time interval) start
    then (scope, (asset, (start, i))) ∷ rest
    else rest

abbrev pub starts_before : WindowKey → WindowKey → Bool
starts_before (_, (_, (a, _))) (_, (_, (b, _))) = leb a b

-- `self._events.setdefault(window_key, []).append(signal)`
unfoldable pub append_signal : WindowKey → FeatureSignal → FeatureWindowEngine → FeatureWindowEngine
append_signal key e s = record s {
  events = insert key (or_else (lookup key s.events) [] ++ e ∷ []) s.events;
}

-- What is not the engine's own: `uuid5(NAMESPACE_URL, ·)`, the SHA-256 of the signals' JSON, the text
-- of a number and of a time, the manifest's hash, and `statistics.pstdev`.
pub record Environment : Type 0 where
  pub uuid5 : String → String
  pub source_hash : List FeatureSignal → String
  pub str : ℕ → String
  pub str_time : ℕ → String
  pub schema_hash : String
  pub pstdev : List ℤ → ℤ

-- Whether the watermark closes the window.
abbrev pub is_closed : WindowKey → Option ℤ → Bool
is_closed key none = false
is_closed key (some mark) = leb_ℤ (pos (end_of key)) mark

-- Whether `_finalize_eligible` closes a window at the watermark, by whether it is one of the asset.
unfoldable pub is_eligible : ℤ → WindowKey → List FeatureSnapshot → Bool → Option Bool
is_eligible mark key prior false = some false
is_eligible mark key prior true =
    last? prior >>= λ last. some (not last.is_final && is_closed key (some mark))

module _ (env : Environment) where
  abbrev window_id : WindowKey → String
  window_id (scope, (asset, (start, interval))) =
      env.uuid5 (
        "feature:" <> scope <> ":" <> asset <> ":" <> env.str_time start <> ":" <> env.str interval)

  -- The snapshot of `_build_revision`, from the window's signals in order, its revisions before and
  -- whether it is to be final.
  unfoldable pub snapshot_of :
      WindowKey
      → List FeatureSignal
      → List FeatureSnapshot
      → Bool
      → FeatureWindowEngine
      → FeatureSnapshot
  unfolding next_revision compute_features
  snapshot_of (scope, (asset, (start, interval))) signals prior finalize s =
      let key : WindowKey = (scope, (asset, (start, interval))) in
      let revision = length prior + 1 in
      let (state, supersedes) : RevisionState × Option ℕ = next_revision (last? prior) finalize in
      let source_hash = env.source_hash signals in
      record {
        feature_window_id = window_id key;
        scope_id = scope;
        asset_id = asset;
        window_start = start;
        window_end = end_of key;
        interval_seconds = interval;
        revision = revision;
        is_final = not (is_provisional state);
        revision_state = state;
        supersedes_revision = supersedes;
        feature_schema_version = s.settings.feature_schema_version;
        feature_schema_hash = env.schema_hash;
        features = compute_features env.pstdev s key signals;
        lineage = record {
          lineage_id =
              env.uuid5
                ("lineage:" <> window_id key <> ":" <> env.str revision <> ":" <> source_hash);
          source_event_ids = map (λ e. e.event_id) signals;
          source_event_min_time = first_time signals;
          source_event_max_time = last_time (last? signals);
          source_count = length signals;
          source_hash = source_hash;
        };
      }

  -- `_build_revision`, after the watermark is read.
  unfoldable pub add_revision :
      WindowKey
      → Bool
      → List FeatureSignal
      → Option ℤ
      → FeatureWindowEngine
      → FeatureSnapshot × FeatureWindowEngine
  unfolding snapshot_of
  add_revision key force_final signals mark s =
      let prior = or_else (lookup key s.revisions) [] in
      let finalize = force_final || is_closed key mark in
      let snapshot = snapshot_of key (sorted signal_leb signals) prior finalize s in
      (snapshot, record s { revisions = insert key (prior ++ snapshot ∷ []) s.revisions })

  -- The constructor of the snapshot, which raises where the features are not computed or the
  -- snapshot is not accepted.
  unfoldable pub construct :
      List FeatureSignal
      → FeatureSnapshot × FeatureWindowEngine
      → Option (FeatureSnapshot × FeatureWindowEngine)
  unfolding is_computable is_accepted
  construct signals (snapshot, s) =
      if is_computable signals && is_accepted env.schema_hash snapshot
      then some (snapshot, s)
      else none

  -- `_build_revision`
  unfoldable pub build_revision :
      WindowKey → Bool → FeatureWindowEngine → Option (FeatureSnapshot × FeatureWindowEngine)
  unfolding add_revision construct
  build_revision key force_final s = do
    signals ← lookup key s.events
    (mark, s') ← watermark key.0 key.1.0 s
    construct signals (add_revision key force_final signals mark s')

  -- The downstream windows of `ingest`, each by its last revision's `is_final`.
  unfoldable pub rebuild :
      List WindowKey → FeatureWindowEngine → Option (List FeatureSnapshot × FeatureWindowEngine)
  unfolding build_revision
  rebuild [] s = some ([], s)
  rebuild (key ∷ keys) s = do
    prior ← lookup key s.revisions
    last ← last? prior
    (snapshot, s') ← build_revision key last.is_final s
    (more, s'') ← rebuild keys s'
    some (snapshot ∷ more, s'')

  -- The loop of `ingest` over the intervals.
  unfoldable pub by_interval :
      FeatureSignal
      → List ℕ
      → FeatureWindowEngine
      → Option (List FeatureSnapshot × FeatureWindowEngine)
  unfolding build_revision rebuild append_signal sorted
  by_interval e [] s = some ([], s)
  by_interval e (interval ∷ intervals) s = do
    (snapshot, s₁) ←
        build_revision (window_of e interval) false (append_signal (window_of e interval) e s)
    (rebuilt, s₂) ← rebuild (sorted starts_before (downstream e interval s₁.revisions)) s₁
    (more, s₃) ← by_interval e intervals s₂
    some (snapshot ∷ rebuilt ++ more, s₃)

  unfoldable pub finalize :
      String
      → String
      → ℤ
      → Dict WindowKey (List FeatureSnapshot)
      → FeatureWindowEngine
      → Option (List FeatureSnapshot × FeatureWindowEngine)
  unfolding build_revision is_eligible
  finalize scope asset mark [] s = some ([], s)
  finalize scope asset mark ((key, prior) ∷ rest) s =
      is_eligible mark key prior (concerns scope asset key) >>= λ eligible. elim eligible [
        | false ↦ finalize scope asset mark rest s
        | true ↦ do
          (snapshot, s') ← build_revision key true s
          (more, s'') ← finalize scope asset mark rest s'
          some (snapshot ∷ more, s'')
      ]

  finalize_at :
      String
      → String
      → Option ℤ
      → FeatureWindowEngine
      → Option (List FeatureSnapshot × FeatureWindowEngine)
  unfolding finalize
  finalize_at scope asset none s = some ([], s)
  finalize_at scope asset (some mark) s = finalize scope asset mark s.revisions s

  -- `_finalize_eligible`
  unfoldable pub finalize_eligible :
      String → String → FeatureWindowEngine → Option (List FeatureSnapshot × FeatureWindowEngine)
  unfolding finalize_at watermark
  finalize_eligible scope asset s = do
    (mark, s') ← watermark scope asset s
    finalize_at scope asset mark s'

  -- `ingest`, of a signal that was not seen.
  unfoldable pub ingest_new :
      FeatureSignal → FeatureWindowEngine → Option (List FeatureSnapshot × FeatureWindowEngine)
  unfolding record_signal by_interval finalize_eligible
  ingest_new e s = do
    (changed, s') ← by_interval e s.settings.intervals (record_signal e s)
    (final, s'') ← finalize_eligible e.scope_id e.asset_id s'
    some (changed ++ final, s'')

  -- `ingest`
  unfoldable pub ingest :
      FeatureSignal → FeatureWindowEngine → Option (List FeatureSnapshot × FeatureWindowEngine)
  unfolding ingest_new
  ingest e s = elim (contains s.seen_event_ids (e.scope_id, e.event_id)) [
    | true ↦ some ([], s)
    | false ↦ ingest_new e s
  ]
