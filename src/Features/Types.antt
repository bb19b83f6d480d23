-- ===== src/Features/Types.antt =====
-- src/scam2market/features/schemas.py: the signals, the snapshots and their validator; and the state
-- of `FeatureWindowEngine` of features/engine.py. Times are microseconds since the epoch.
use scam2marke.Prelude.{
  ℕ, String, Bool, true, false, not, ◌≡◌, ◌↔◌, List, [], ◌∷◌, Option, str_eq, ltb, arith,
}
use scam2marke.Prelude.Int.{ℤ, abs}
use scam2marke.Prelude.Dict.{Eq, Dict}

pub data SignalKind : Type 0 where
  market_trade market_candle orderbook social_post asset_mention data_quality : SignalKind

pub data SourceDomain : Type 0 where
  market social : SourceDomain

pub data RevisionState : Type 0 where
  provisional final corrected : RevisionState

abbrev pub domain_beq : SourceDomain → SourceDomain → Bool
domain_beq SourceDomain.market SourceDomain.market = true
domain_beq SourceDomain.social SourceDomain.social = true
domain_beq _ _ = false

pub domain_beq_iff : (a b : SourceDomain) → (domain_beq a b ≡ true) ↔ (a ≡ b)
domain_beq_iff a b = ground arith

instance abbrev pub domain_eq : Eq SourceDomain
domain_eq = record { beq = domain_beq; beq_iff = domain_beq_iff }

-- A value of a JSON object, as far as the engine tells values apart; a number in millionths,
-- an array with a `none` for each item that is no string, an object by its keys.
pub data Value : Type 0 where
  null : Value
  flag : Bool → Value
  number : ℤ → Value
  string : String → Value
  array : List (Option String) → Value
  object : List String → Value

-- Python's `bool(v)`.
abbrev pub truthy : Value → Bool
truthy null = false
truthy (flag b) = b
truthy (number n) = ltb 0 (abs n)
truthy (string s) = not (str_eq s "")
truthy (array []) = false
truthy (array (_ ∷ _)) = true
truthy (object []) = false
truthy (object (_ ∷ _)) = true

pub record FeatureSignal : Type 0 where
  pub event_id : String
  pub scope_id : String
  pub asset_id : String
  pub event_time : ℕ
  pub kind : SignalKind
  pub source_domain : SourceDomain
  pub values : Dict String Value

pub record FeatureLineage : Type 0 where
  pub lineage_id : String
  pub source_event_ids : List String
  pub source_event_min_time : Option ℕ
  pub source_event_max_time : Option ℕ
  pub source_count : ℕ
  pub source_hash : String

-- The features are numbers in millionths, by name.
pub record FeatureSnapshot : Type 0 where
  pub feature_window_id : String
  pub scope_id : String
  pub asset_id : String
  pub window_start : ℕ
  pub window_end : ℕ
  pub interval_seconds : ℕ
  pub revision : ℕ
  pub is_final : Bool
  pub revision_state : RevisionState
  pub supersedes_revision : Option ℕ
  pub feature_schema_version : String
  pub feature_schema_hash : String
  pub features : Dict String (Option ℤ)
  pub lineage : FeatureLineage

abbrev pub is_provisional : RevisionState → Bool
is_provisional RevisionState.provisional = true
is_provisional _ = false

-- Scope, asset, start of the window and interval in seconds.
abbrev pub WindowKey : Type 0
WindowKey = String × (String × (ℕ × ℕ))

abbrev pub SourceKey : Type 0
SourceKey = String × (String × SourceDomain)

pub record SourceState : Type 0 where
  pub active : Bool
  pub idle : Bool
  pub degraded : Bool

-- The arguments of the constructor; the two durations in microseconds.
pub record Settings : Type 0 where
  pub intervals : List ℕ
  pub allowed_lateness : ℕ
  pub source_idle_after : ℕ
  pub feature_schema_version : String
  pub required_domains : List SourceDomain

pub record FeatureWindowEngine : Type 0 where
  pub settings : Settings
  pub events : Dict WindowKey (List FeatureSignal)
  pub revisions : Dict WindowKey (List FeatureSnapshot)
  pub max_event_time : Dict SourceKey ℕ
  pub source_states : Dict SourceKey SourceState
  pub seen_event_ids : List (String × String)
  pub author_first_seen : Dict (String × (String × String)) ℕ
  pub signal_log : List FeatureSignal
