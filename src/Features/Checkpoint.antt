-- ===== src/Features/Checkpoint.antt =====
-- src/scam2market/features/engine.py, `export_state` and `restore_state`, with the readers
-- `revisions` and `latest`.
use scam2marke.Prelude.{
  length-map, ℕ, ◌<◌, ◌≡◌, refl, sym, ap, subst, ◌∙◌, inl, inr, String, str_eq, true, false, ◌==◌,
  ◌&&◌, List, [], ◌∷◌, ◌++◌, map, Option, none, some, or_else, length, Option-cases, ltb, last?,
  All, if◌then◌else◌,
}
use mathlib.Core.Option.{some-injective}
use scam2marke.Prelude.Dict.{Dict, string_eq, nat_eq, pair_eq, lookup}
use scam2marke.Features.Types.{
  FeatureSignal, FeatureSnapshot, WindowKey, Settings, FeatureWindowEngine,
}
use scam2marke.Features.Fields.{is_readable}
use scam2marke.Features.Schema.{feature_schema}
use scam2marke.Features.Sources.{◌>>=◌, new_engine}
use scam2marke.Features.Engine.{Environment, ingest}
use scam2marke.Features.Engine.Invariant.{Yields, Yields-bind, Yields-value, Yields-mono}
use scam2marke.Features.Engine.Windows.{IsValid}
use scam2marke.Features.Engine.Ingest.{Ingested, ingest-Ingested}
use scam2marke.Features.Engine.Run.{run, new_engine-IsValid}

-- `revisions`
unfoldable pub revisions : FeatureWindowEngine → String → ℕ → ℕ → String → List FeatureSnapshot
revisions s asset start interval scope =
    or_else (lookup (scope, (asset, (start, interval))) s.revisions) []

abbrev later : FeatureSnapshot → Option FeatureSnapshot → FeatureSnapshot
later r none = r
later r (some other) = if ltb r.window_start other.window_start then other else r

-- The last revision of the latest window: `max` gives the first of those that start last.
unfoldable latest_in :
    String → ℕ → String → Dict WindowKey (List FeatureSnapshot) → Option (Option FeatureSnapshot)
latest_in asset interval scope [] = some none
latest_in asset interval scope (((s, (a, (start, i))), rs) ∷ d) =
    latest_in asset interval scope d >>= λ rest.
    elim (str_eq s scope && str_eq a asset && (i == interval)) [
      | false ↦ some rest
      | true ↦ last? rs >>= λ r. some (some (later r rest))
    ]

-- `latest`
unfoldable pub latest : FeatureWindowEngine → String → ℕ → String → Option (Option FeatureSnapshot)
unfolding latest_in
latest s asset interval scope = latest_in asset interval scope s.revisions

-- The dictionary of `export_state`; `signals` is `none` where it holds no list.
pub record Checkpoint (Json : Type 0) : Type 0 where
  pub state_version : String
  pub signals : Option (List Json)

abbrev checkpoint_version : String
checkpoint_version = "feature-engine-state-v1"

-- `model_dump` and `model_validate` of `FeatureSignal` are pydantic's.
module _ {Json : Type 0} (dump : FeatureSignal → Json)
    (validate : Json → Option FeatureSignal) where
  -- `export_state`
  unfoldable pub export_state : FeatureWindowEngine → Checkpoint Json
  export_state s = record {
    state_version = checkpoint_version;
    signals = some (map dump s.signal_log);
  }

  module _ (env : Environment) where
    unfoldable pub restore_signals : List Json → FeatureWindowEngine → Option FeatureWindowEngine
    restore_signals [] s = some s
    restore_signals (raw ∷ raws) s = do
      e ← validate raw
      (_, s') ← ingest env e s
      restore_signals raws s'

    -- `restore_state`
    unfoldable pub restore_state :
        Checkpoint Json → FeatureWindowEngine → Option (ℕ × FeatureWindowEngine)
    unfolding restore_signals
    restore_state state s =
        elim ((length s.signal_log == 0) && str_eq state.state_version checkpoint_version) [
          | false ↦ none
          | true ↦ do raws ← state.signals; s' ← restore_signals raws s; some (length raws, s')
        ]

    restore-append :
        (es : List FeatureSignal) (e : FeatureSignal) (s t : FeatureWindowEngine)
        → ((e : FeatureSignal) → validate (dump e) ≡ some e)
        → restore_signals (map dump es) s ≡ some t
        → restore_signals (map dump (es ++ e ∷ [])) s ≡ (ingest env e t >>= λ r. some r.1)
    unfolding restore_signals
    restore-append [] e s t valid restored =
        rw (valid e) (ap (λ u. ingest env e u >>= λ r. some r.1) (some-injective _ _ restored))
    restore-append (x ∷ es) e s t valid restored = elim (Option-cases (ingest env x s)) [
      | inl raised ↦ absurd (cc (rw (valid x, raised) at restored))
      | inr (r, taken) ↦
          rw (valid x, taken) (restore-append es e r.1 t valid (rw (valid x, taken) at restored))
    ]

    -- The engine is what its log gives.
    abbrev pub Replays : FeatureWindowEngine → FeatureWindowEngine → Type 0
    Replays s t = restore_signals (map dump t.signal_log) s ≡ some t

    pub ingest-Replays :
        (e : FeatureSignal) (s t : FeatureWindowEngine)
        → ((e : FeatureSignal) → validate (dump e) ≡ some e)
        → is_readable e ≡ true
        → IsValid t
        → Replays s t
        → Yields (ingest env e t) (λ r. IsValid r.1 × Replays s r.1)
    ingest-Replays e s t valid reads is_valid replays =
        let (r, taken, (valid', seen, logged)) =
          Yields-value (Ingested env e t) (ingest env e t)
            (ingest-Ingested env e t reads is_valid) in
        rw taken (
          valid',
          elim logged [
            | inl same ↦ subst (Replays s) (sym same) replays
            | inr added ↦
                ap (λ log. restore_signals (map dump log) s) added
                ∙ restore-append t.signal_log e s t valid replays
                ∙ ap (λ o. o >>= λ r. some r.1) taken
          ],
        )

    run-Replays :
        (signals : List FeatureSignal) (s t : FeatureWindowEngine)
        → ((e : FeatureSignal) → validate (dump e) ≡ some e)
        → All (λ e. is_readable e ≡ true) signals
        → IsValid t
        → Replays s t
        → Yields (run env signals t) (λ r. Replays s r.1)
    unfolding run
    run-Replays [] s t valid reads is_valid replays = replays
    run-Replays (e ∷ es) s t valid reads is_valid replays =
        Yields-bind (λ r. IsValid r.1 × Replays s r.1) (λ r. Replays s r.1) (ingest env e t) _
          (ingest-Replays e s t valid reads.0 is_valid replays)
          λ r (is_valid', replays').
            Yields-bind (λ r'. Replays s r'.1) (λ r. Replays s r.1) (run env es r.1) _
              (run-Replays es s r.1 valid reads.1 is_valid' replays') λ r' replays''. replays''

    pub restore_state-Replays :
        (s t : FeatureWindowEngine)
        → s.signal_log ≡ []
        → Replays s t
        → restore_state (export_state t) s ≡ some (length t.signal_log, t)
    unfolding restore_state export_state
    restore_state-Replays s t empty replays =
        rw
          (
            restore_state,
            export_state,
            ap (λ log. length log == 0) empty,
            replays,
            length-map dump t.signal_log,
          )
          refl

    pub new_engine-Replays : (s : FeatureWindowEngine) → s.signal_log ≡ [] → Replays s s
    unfolding restore_signals
    new_engine-Replays s empty =
        subst (λ log. restore_signals (map dump log) s ≡ some s) (sym empty) refl

    -- Whatever signals an engine with the manifest's schema version took from its start, their lists
    -- being ones that can be iterated over, a new engine of the same settings that restores
    -- its exported state becomes the same engine: its windows, revisions, sources and log. The count
    -- returned is that of the log. The signals are assumed to survive `model_dump` and
    -- `model_validate`.
    pub restore_state-export_state :
        (settings : Settings) (s : FeatureWindowEngine) (signals : List FeatureSignal)
        → ((e : FeatureSignal) → validate (dump e) ≡ some e)
        → 0 < length settings.required_domains
        → settings.feature_schema_version ≡ feature_schema
        → All (λ e. is_readable e ≡ true) signals
        → new_engine settings ≡ some s
        → Yields
            (run env signals s)
            (λ r. restore_state (export_state r.1) s ≡ some (length r.1.signal_log, r.1))
    restore_state-export_state settings s signals valid required schema reads made =
        let (is_valid, empty) = new_engine-IsValid settings required schema s made in
        Yields-mono (λ r. Replays s r.1)
          (λ r. restore_state (export_state r.1) s ≡ some (length r.1.signal_log, r.1))
          (run env signals s) (λ r replays. restore_state-Replays s r.1 empty replays)
          (run-Replays signals s s valid reads is_valid (new_engine-Replays s empty))
