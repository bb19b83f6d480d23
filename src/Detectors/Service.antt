-- ===== src/Detectors/Service.antt =====
-- src/scam2market/intelligence/fusion.py, `DetectionService` with `InMemoryScoreRepository`: from a
-- snapshot to a persisted and published score.
pub mod Delivery
use scam2marke.Prelude.{
  ℕ, ◌+◌, String, ◌<>◌, Bool, true, false, not, List, [], ◌∷◌, ◌++◌, Option, none, some, str_eq,
  is_some, or_else, if◌then◌else◌,
}
use scam2marke.Prelude.Dict.{Dict, nat_eq, string_eq, pair_eq, lookup, insert}
use scam2marke.Fusion.Types.{ThreatContext, FusionResult}
use scam2marke.Fusion.Engine.{FeatureSnapshot, FusionContext, FusionEngine, fuse}
use scam2marke.Events.{CanonicalEvent, EventType, score_payload}
use scam2marke.Campaign.Common.{profile_name}
use scam2marke.Detectors.{MarketRegime, LiquidityClass, classify_regime, classify_liquidity, detect}

abbrev regime_name : MarketRegime → String
regime_name MarketRegime.calm = "CALM"
regime_name MarketRegime.trending = "TRENDING"
regime_name MarketRegime.volatile = "VOLATILE"
regime_name MarketRegime.dislocated = "DISLOCATED"

abbrev liquidity_name : LiquidityClass → String
liquidity_name LiquidityClass.low = "LOW"
liquidity_name LiquidityClass.medium = "MEDIUM"
liquidity_name LiquidityClass.high = "HIGH"
liquidity_name LiquidityClass.unknown = "UNKNOWN"

-- The arguments of `score`, and the two values that the call draws from outside: the clock's
-- `scored_at` and the correlation identifier of the event's trace.
pub record Request : Type 0 where
  pub snapshot : FeatureSnapshot
  pub claim_risk : Option ℕ
  pub legitimate_event_score : Option ℕ
  pub graph_score : Option ℕ
  pub graph_snapshot_id : Option String
  pub verification_snapshot_id : Option String
  pub threat_context : Option ThreatContext
  pub scored_at : ℕ
  pub correlation_id : String

-- The dictionary that the idempotency key is the digest of.
pub record Identity : Type 0 where
  pub scope_id : String
  pub asset_id : String
  pub feature_window_id : String
  pub feature_revision : ℕ
  pub enrichment_profile : String
  pub input_snapshot_ids : List (String × String)
  pub fusion_policy_version : String

-- What is not the service's own: `uuid5(NAMESPACE_URL, ·)`, the SHA-256 of the identity's JSON,
-- Python's `str` of a number, and the repository of threat contexts, where there is one.
pub record Environment : Type 0 where
  pub uuid5 : String → String
  pub digest : Identity → String
  pub str : ℕ → String
  pub threat_repository : Option (String → String → ℕ → ThreatContext)

-- The score repository, the online state and what was published.
pub record World : Type 0 where
  pub results : Dict (String × (ℕ × String)) FusionResult
  pub latest : Dict String FusionResult
  pub published : List (String × CanonicalEvent)

-- `InMemoryScoreRepository.persist`
abbrev pub score_key : FusionResult → String × (ℕ × String)
score_key r = (r.feature_window_id, (r.feature_revision, r.idempotency_key))

unfoldable pub persist :
    FusionResult
    → Dict (String × (ℕ × String)) FusionResult
    → Bool × Dict (String × (ℕ × String)) FusionResult
persist r d =
    if is_some (lookup (score_key r) d) then (false, d) else (true, insert (score_key r) r d)

abbrev keep_id : String → Option String → List (String × String)
keep_id name none = []
keep_id name (some v) = (name, v) ∷ []

abbrev snapshot_id_of : Option ThreatContext → Option String
snapshot_id_of none = none
snapshot_id_of (some t) = t.snapshot_id

module _ (env : Environment) (engine : FusionEngine) where
  -- `threat_context`, asked for where none is given and there is a repository.
  unfoldable pub resolve_threat : Request → Option ThreatContext
  resolve_threat q = elim q.threat_context [
    | some t ↦ some t
    | none ↦ elim env.threat_repository [
      | none ↦ none
      | some ask ↦ some (ask q.snapshot.scope_id q.snapshot.asset_id q.snapshot.window_end)
    ]
  ]

  -- The keyword arguments of `fuse`.
  unfoldable pub fusion_context : Request → FusionContext
  unfolding resolve_threat
  fusion_context q =
      let (regime, regime_confidence) = classify_regime q.snapshot in
      let (liquidity, liquidity_confidence) = classify_liquidity q.snapshot in
      record {
        claim_risk = q.claim_risk;
        legitimate_event_score = q.legitimate_event_score;
        graph_score = q.graph_score;
        threat_context = resolve_threat q;
        market_regime = regime_name regime;
        market_regime_confidence = regime_confidence;
        liquidity_class = liquidity_name liquidity;
        liquidity_confidence = liquidity_confidence;
      }

  abbrev pub snapshot_ids : Request → List (String × String)
  snapshot_ids q =
      keep_id "graph_snapshot_id" q.graph_snapshot_id
      ++ keep_id "verification_snapshot_id" q.verification_snapshot_id
      ++ keep_id "threat_snapshot_id" (snapshot_id_of (resolve_threat q))

  abbrev pub idempotency_key_of : Request → FusionResult → String
  idempotency_key_of q r = env.digest (record {
    scope_id = q.snapshot.scope_id;
    asset_id = q.snapshot.asset_id;
    feature_window_id = q.snapshot.feature_window_id;
    feature_revision = q.snapshot.revision;
    enrichment_profile = profile_name r.enrichment_profile;
    input_snapshot_ids = snapshot_ids q;
    fusion_policy_version = "fusion-policy-v1";
  })

  -- `result.model_copy(update={...})`
  unfoldable pub identified : Request → FusionResult → FusionResult
  identified q r = record r {
    model_score_id = env.uuid5 ("model-score:" <> idempotency_key_of q r);
    input_snapshot_ids = snapshot_ids q;
    idempotency_key = idempotency_key_of q r;
  }

  abbrev pub score_event : Request → FusionResult → CanonicalEvent
  score_event q r =
      let live = str_eq q.snapshot.scope_id "LIVE" in
      let address =
        q.snapshot.scope_id
        <> ":"
        <> q.snapshot.feature_window_id
        <> ":"
        <> env.str q.snapshot.revision
        <> ":"
        <> r.idempotency_key in
      record {
        event_id = env.uuid5 ("fusion-event:" <> address);
        event_type = EventType.model_fusion_scored;
        schema_version = 1;
        source = "fusion-v2";
        source_event_id = address;
        asset_id = some q.snapshot.asset_id;
        event_time = q.snapshot.window_end;
        partition_key = q.snapshot.asset_id;
        replay = record {
          is_replay = not live;
          replay_session_id = if live then none else some q.snapshot.scope_id;
        };
        trace = record { correlation_id = q.correlation_id; causation_id = none };
        payload = score_payload r;
      }

  -- From the persisting of the result on.
  unfoldable pub deliver : Request → FusionResult → World → World
  unfolding persist
  deliver q r w =
      let (is_new, results) = persist r w.results in
      record {
        results = results;
        latest =
            insert ("latest:score:" <> q.snapshot.scope_id <> ":" <> q.snapshot.asset_id) r
              (insert ("latest:score:" <> q.snapshot.asset_id) r w.latest);
        published =
            if is_new
            then w.published ++ ("model.fusion.score.v1", score_event q r) ∷ []
            else w.published;
      }

  -- `score`; where `fuse` raises, nothing is written.
  unfoldable pub score : Request → World → Option FusionResult × World
  unfolding identified deliver
  score q w = elim (fuse engine q.scored_at q.snapshot (detect q.snapshot) (fusion_context q)) [
    | none ↦ (none, w)
    | some r ↦ (some (identified q r), deliver q (identified q r) w)
  ]
