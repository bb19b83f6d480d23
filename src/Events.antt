-- ===== src/Events.antt =====
-- src/scam2market/schemas/events.py: the envelope of every event. The wall-clock stamps
-- (`ingested_at`, `processed_at`) play no part in the program's decisions and are left out.
use scam2marke.Prelude.{ℕ, String, Option, Bool}
use scam2marke.Fusion.Types.{FusionResult}
use scam2marke.Features.Types.{FeatureSnapshot}
use scam2marke.Campaign.Types.{CampaignRecord, AlertRecord, CampaignStage}

pub data EventType : Type 0 where
  market_trade_received market_candle_closed market_orderbook_updated : EventType
  social_post_received social_post_normalized social_asset_mention_detected : EventType
  disclosure_received feature_window_updated feature_window_finalized : EventType
  feature_window_corrected model_fusion_scored campaign_created campaign_stage_changed : EventType
  campaign_closed alert_created alert_severity_changed alert_refreshed alert_resolved : EventType
  narrative_clustered graph_snapshot_created graph_features_computed : EventType
  claim_verification_completed : EventType

-- The text of a `StrEnum` member.
abbrev pub event_name : EventType → String
event_name EventType.market_trade_received = "market.trade.received"
event_name EventType.market_candle_closed = "market.candle.closed"
event_name EventType.market_orderbook_updated = "market.orderbook.updated"
event_name EventType.social_post_received = "social.post.received"
event_name EventType.social_post_normalized = "social.post.normalized"
event_name EventType.social_asset_mention_detected = "social.asset_mention.detected"
event_name EventType.disclosure_received = "disclosure.received"
event_name EventType.feature_window_updated = "feature.window_updated"
event_name EventType.feature_window_finalized = "feature.window_finalized"
event_name EventType.feature_window_corrected = "feature.window_corrected"
event_name EventType.model_fusion_scored = "model.fusion_scored"
event_name EventType.campaign_created = "campaign.created"
event_name EventType.campaign_stage_changed = "campaign.stage_changed"
event_name EventType.campaign_closed = "campaign.closed"
event_name EventType.alert_created = "alert.created"
event_name EventType.alert_severity_changed = "alert.severity_changed"
event_name EventType.alert_refreshed = "alert.refreshed"
event_name EventType.alert_resolved = "alert.resolved"
event_name EventType.narrative_clustered = "narrative.clustered"
event_name EventType.graph_snapshot_created = "graph.snapshot_created"
event_name EventType.graph_features_computed = "graph.features_computed"
event_name EventType.claim_verification_completed = "claim.verification_completed"

pub record ReplayMetadata : Type 0 where
  pub is_replay : Bool
  pub replay_session_id : Option String

pub record TraceMetadata : Type 0 where
  pub correlation_id : String
  pub causation_id : Option String

-- What a payload dictionary is built from.
pub data Payload : Type 0 where
  campaign_payload : CampaignRecord → Payload
  stage_payload : CampaignRecord → CampaignStage → String → Payload
  closed_payload : String → String → Payload
  alert_payload : AlertRecord → String → Payload
  alert_row_payload : AlertRecord → CampaignRecord → String → String → Payload
  score_payload : FusionResult → Payload
  snapshot_payload : FeatureSnapshot → Payload

pub record CanonicalEvent : Type 0 where
  pub event_id : String
  pub event_type : EventType
  pub schema_version : ℕ
  pub source : String
  pub source_event_id : String
  pub asset_id : Option String
  pub event_time : ℕ
  pub partition_key : String
  pub replay : ReplayMetadata
  pub trace : TraceMetadata
  pub payload : Payload
