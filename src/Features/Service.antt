-- ===== src/Features/Service.antt =====
-- src/scam2market/features/engine.py, `FeatureWindowService` with `InMemoryFeatureRepository`: from a
-- signal to persisted and published snapshots. The online state and the publisher are those in
-- memory (state.py, streaming/publisher.py).
use scam2marke.Prelude.{
  ℕ, ◌≡◌, refl, String, ◌<>◌, str_eq, Bool, true, false, not, List, [], ◌∷◌, ◌++◌, Option, none,
  some, is_some, if◌then◌else◌, Bool-cases, inl, inr, ◌∙◌, subst, sym,
}
use scam2marke.Prelude.Dict.{Dict, string_eq, nat_eq, pair_eq, lookup, insert}
use scam2marke.Events.{CanonicalEvent, EventType, snapshot_payload}
use scam2marke.Features.Types.{
  SignalKind, RevisionState, Value, string, FeatureSignal, FeatureSnapshot, FeatureWindowEngine,
}
use scam2marke.Features.Fields.{is_readable}
use scam2marke.Features.Sources.{◌>>=◌}
use scam2marke.Features.Engine.{Environment, ingest}
use scam2marke.Features.Engine.Invariant.{Yields, Yields-value}
use scam2marke.Features.Engine.Windows.{IsValid}
use scam2marke.Features.Engine.Run.{ingest_twice}

pub record World : Type 0 where
  pub engine : FeatureWindowEngine
  pub snapshots : Dict (String × ℕ) FeatureSnapshot
  pub history : List FeatureSnapshot
  pub latest : Dict String FeatureSnapshot
  pub published : List (String × CanonicalEvent)

-- `InMemoryFeatureRepository.persist`
unfoldable pub persist : FeatureSnapshot → World → Bool × World
persist r w =
    let identity : String × ℕ = (r.feature_window_id, r.revision) in
    if is_some (lookup identity w.snapshots) then (false, w) else (
      true,
      record w { snapshots = insert identity r w.snapshots; history = w.history ++ r ∷ [] },
    )

abbrev pub event_type_of : RevisionState → EventType
event_type_of RevisionState.provisional = EventType.feature_window_updated
event_type_of RevisionState.final = EventType.feature_window_finalized
event_type_of RevisionState.corrected = EventType.feature_window_corrected

unfoldable pub is_text : String → Option Value → Bool
is_text text (some (string s)) = str_eq s text
is_text text _ = false

abbrev pub is_market_signal : FeatureSignal → Bool
is_market_signal e = elim e.kind [
  | SignalKind.market_trade ↦ true
  | SignalKind.market_candle ↦ true
  | SignalKind.orderbook ↦ true
  | SignalKind.data_quality ↦ is_text "market" (lookup "domain" e.values)
  | _ ↦ false
]

abbrev pub topic_of : FeatureSignal → String
topic_of e = if is_market_signal e then "features.market.v1" else "features.social.v1"

-- `correlation_id` gives the identifier that the trace of a snapshot's event draws.
module _ (env : Environment) (correlation_id : FeatureSnapshot → String) where
  unfoldable pub snapshot_event : FeatureSignal → FeatureSnapshot → CanonicalEvent
  snapshot_event e r =
      let live = str_eq r.scope_id "LIVE" in
      let address = r.scope_id <> ":" <> r.feature_window_id <> ":" <> env.str r.revision in
      record {
        event_id = env.uuid5 ("feature-event:" <> address);
        event_type = event_type_of r.revision_state;
        schema_version = 1;
        source = "feature-window-engine-v1";
        source_event_id = address;
        asset_id = some r.asset_id;
        event_time = r.window_end;
        partition_key = r.asset_id;
        replay = record {
          is_replay = not live;
          replay_session_id = if live then none else some r.scope_id;
        };
        trace = record { correlation_id = correlation_id r; causation_id = some e.event_id };
        payload = snapshot_payload r;
      }

  -- The body of the loop of `process`.
  unfoldable pub deliver : FeatureSignal → FeatureSnapshot → World → World
  unfolding persist snapshot_event is_text
  deliver e r w =
      let (_, w') = persist r w in
      record w' {
        latest = insert ("latest:features:" <> r.asset_id <> ":" <> env.str r.interval_seconds) r (
            insert
              ("latest:features:"
                <> r.scope_id
                <> ":"
                <> r.asset_id
                <> ":"
                <> env.str r.interval_seconds)
              r w'.latest);
        published = w'.published ++ (topic_of e, snapshot_event e r) ∷ [];
      }

  unfoldable pub deliver_all : FeatureSignal → List FeatureSnapshot → World → World
  unfolding deliver
  deliver_all e [] w = w
  deliver_all e (r ∷ rs) w = deliver_all e rs (deliver e r w)

  -- `process`
  unfoldable pub process : FeatureSignal → World → Option (List FeatureSnapshot × World)
  unfolding deliver_all
  process e w = do
    (snapshots, engine) ← ingest env e w.engine
    some (snapshots, deliver_all e snapshots (record w { engine = engine }))

  persist-engine : (r : FeatureSnapshot) (w : World) → (persist r w).1.engine ≡ w.engine
  unfolding persist
  persist-engine r w =
      elim (Bool-cases (is_some (lookup (r.feature_window_id, r.revision) w.snapshots))) [
        | inl old ↦ rw old refl
        | inr new ↦ rw new refl
      ]

  deliver-engine :
      (e : FeatureSignal) (r : FeatureSnapshot) (w : World) → (deliver e r w).engine ≡ w.engine
  unfolding deliver
  deliver-engine e r w = persist-engine r w

  deliver_all-engine :
      (e : FeatureSignal) (rs : List FeatureSnapshot) (w : World)
      → (deliver_all e rs w).engine ≡ w.engine
  unfolding deliver_all
  deliver_all-engine e [] w = refl
  deliver_all-engine e (r ∷ rs) w = deliver_all-engine e rs (deliver e r w) ∙ deliver-engine e r w

  nothing_new :
      (e : FeatureSignal) (w : World)
      → ingest env e w.engine ≡ some ([], w.engine)
      → process e w ≡ some ([], w)
  unfolding process deliver_all
  nothing_new e w again = rw (process, again) refl

  -- A signal whose lists can be read is processed, and then gives nothing when it is processed again: the engine, the stored
  -- snapshots, the online state and what was published stay as they are.
  pub process_twice :
      (e : FeatureSignal) (w : World)
      → is_readable e ≡ true
      → IsValid w.engine
      → Yields (process e w) (λ r. process e r.1 ≡ some ([], r.1))
  unfolding process deliver_all
  process_twice e w reads valid =
      let (r, taken, again) =
        Yields-value (λ r. ingest env e r.1 ≡ some ([], r.1)) (ingest env e w.engine)
          (ingest_twice env e w.engine reads valid) in
      let kept = deliver_all-engine e r.0 (record w { engine = r.1 }) in
      rw taken (
        nothing_new e (deliver_all e r.0 (record w { engine = r.1 }))
          (subst (λ s. ingest env e s ≡ some ([], s)) (sym kept) again))
