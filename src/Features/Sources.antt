-- ===== src/Features/Sources.antt =====
-- src/scam2market/features/engine.py, `FeatureWindowEngine`: its construction, what a signal tells of
-- its source, and the watermarks. An exception (a missing key, the minimum of nothing) is `none`.
pub mod Usable
use scam2marke.Prelude.{
  ℕ, ◌-◌, String, Bool, true, false, ◌&&◌, ◌||◌, List, [], ◌∷◌, ◌++◌, Option, none, some, leb, ◌==◌,
  str_eq, or_else, min, max, length, any_of, if◌then◌else◌,
}
use scam2marke.Prelude.Int.{ℤ, sub_ℕ, leb_ℤ}
use scam2marke.Prelude.Dict.{Dict, nat_eq, string_eq, pair_eq, lookup, insert}
use scam2marke.Features.Types.{
  SignalKind, SourceDomain, domain_eq, Value, flag, string, truthy, FeatureSignal, SourceKey,
  SourceState, Settings, FeatureWindowEngine,
}

infixl 5 ◌>>=◌
abbrev pub ◌>>=◌ {ℓ κ} : {A : Type ℓ} {B : Type κ} → Option A → (A → Option B) → Option B
none >>= f = none
some a >>= f = f a

abbrev pub empty_engine : Settings → FeatureWindowEngine
empty_engine settings = record {
  settings = settings;
  events = [];
  revisions = [];
  max_event_time = [];
  source_states = [];
  seen_event_ids = [];
  author_first_seen = [];
  signal_log = [];
}

abbrev pub are_wrong : List ℕ → Bool
are_wrong intervals = length intervals == 0 || any_of (λ i. i == 0) intervals

-- The constructor.
unfoldable pub new_engine : Settings → Option FeatureWindowEngine
new_engine settings = if are_wrong settings.intervals then none else some (empty_engine settings)

abbrev pub source_key : FeatureSignal → SourceKey
source_key e = (e.scope_id, (e.asset_id, e.source_domain))

abbrev initial_source : SourceState
initial_source = record { active = true; idle = false; degraded = false }

abbrev get_flag : String → Bool → Dict String Value → Bool
get_flag name default values = truthy (or_else (lookup name values) (flag default))

-- What a signal says about its source.
unfoldable source_after : FeatureSignal → SourceState → SourceState
source_after e state = elim e.kind [
  | SignalKind.data_quality ↦ record {
    active = get_flag "source_active" true e.values;
    idle = get_flag "source_idle" false e.values;
    degraded = get_flag "source_degraded" false e.values;
  }
  | _ ↦ record state { active = true; idle = false }
]

unfoldable author_of : Option Value → Option String
author_of (some (string author)) = some author
author_of _ = none

abbrev first_seen :
    FeatureSignal
    → Option String
    → Dict (String × (String × String)) ℕ
    → Dict (String × (String × String)) ℕ
first_seen e none d = d
first_seen e (some author) d =
    let key : String × (String × String) = (e.scope_id, (e.asset_id, author)) in
    insert key (min e.event_time (or_else (lookup key d) e.event_time)) d

-- The first part of `ingest`, before the windows: the signal is record_signal, its source and its author.
unfoldable pub record_signal : FeatureSignal → FeatureWindowEngine → FeatureWindowEngine
unfolding source_after author_of
record_signal e s =
    let key = source_key e in
    record s {
      seen_event_ids = (e.scope_id, e.event_id) ∷ s.seen_event_ids;
      signal_log = s.signal_log ++ e ∷ [];
      max_event_time =
          insert key (max e.event_time (or_else (lookup key s.max_event_time) e.event_time))
            s.max_event_time;
      source_states =
          insert key (source_after e (or_else (lookup key s.source_states) initial_source))
            s.source_states;
      author_first_seen =
          first_seen e (author_of (lookup "author_id" e.values)) s.author_first_seen;
    }

-- `max(observed, default=None)` over the sources of an asset.
unfoldable pub global_max : String → String → Dict SourceKey ℕ → Option ℕ
global_max scope asset [] = none
global_max scope asset (((s, (a, domain)), t) ∷ d) =
    let rest = global_max scope asset d in
    if str_eq s scope && str_eq a asset then some (max t (or_else rest t)) else rest

abbrev is_silent : ℕ → Option ℕ → Option ℕ → Bool
is_silent idle_after (some latest) (some maximum) = leb idle_after (latest - maximum)
is_silent _ _ _ = false

abbrev minus_lateness : ℕ → Option ℕ → Option ℤ
minus_lateness lateness none = none
minus_lateness lateness (some t) = some (sub_ℕ t lateness)

-- The watermark of one domain, and whether its source is marked idle on the way.
unfoldable pub domain_mark : Settings → Option ℕ → Option ℕ → Option SourceState → Option ℤ × Bool
domain_mark settings latest maximum none = (none, false)
domain_mark settings latest maximum (some state) =
    if state.degraded
    then (none, false)
    else if is_silent settings.source_idle_after latest maximum
    then (minus_lateness settings.allowed_lateness latest, true)
    else if state.idle && (elim latest [ none ↦ false | some _ ↦ true ])
    then (minus_lateness settings.allowed_lateness latest, false)
    else (minus_lateness settings.allowed_lateness maximum, false)

abbrev set_idle :
    SourceKey → Bool → Option SourceState → Dict SourceKey SourceState → Dict SourceKey SourceState
set_idle key true (some state) d = insert key (record state { active = true; idle = true }) d
set_idle key _ _ d = d

-- The loop of `watermarks` over the required domains.
unfoldable pub domain_marks :
    String
    → String
    → Option ℕ
    → List SourceDomain
    → Dict SourceDomain (Option ℤ)
    → FeatureWindowEngine
    → Dict SourceDomain (Option ℤ) × FeatureWindowEngine
unfolding domain_mark
domain_marks scope asset latest [] marks s = (marks, s)
domain_marks scope asset latest (domain ∷ domains) marks s =
    let key : SourceKey = (scope, (asset, domain)) in
    let state = lookup key s.source_states in
    let (mark, idle) : Option ℤ × Bool =
      domain_mark s.settings latest (lookup key s.max_event_time) state in
    domain_marks scope asset latest domains (insert domain mark marks)
      (record s { source_states = set_idle key idle state s.source_states })

unfoldable pub available : Dict SourceDomain (Option ℤ) → List ℤ
available [] = []
available ((domain, none) ∷ marks) = available marks
available ((domain, some t) ∷ marks) = t ∷ available marks

abbrev min_ℤ : ℤ → ℤ → ℤ
min_ℤ a b = if leb_ℤ a b then a else b

-- `min(values)`, which raises on no values.
unfoldable pub least : List ℤ → Option ℤ
least [] = none
least (t ∷ []) = some t
least (t ∷ u ∷ ts) = least (u ∷ ts) >>= λ m. some (min_ℤ t m)

-- The watermark for the fusion, of the watermarks there are and the number required.
unfoldable pub fusion_mark : List ℤ → Bool → Option (Option ℤ)
fusion_mark there false = some none
fusion_mark there true = least there >>= λ m. some (some m)

-- `watermarks`: those of the domains, the one for the fusion, and the engine afterwards.
unfoldable pub watermarks :
    String
    → String
    → FeatureWindowEngine
    → Option (Dict SourceDomain (Option ℤ) × (Option ℤ × FeatureWindowEngine))
unfolding domain_marks available fusion_mark
watermarks scope asset s =
    let required = s.settings.required_domains in
    let (marks, s') : Dict SourceDomain (Option ℤ) × FeatureWindowEngine =
      domain_marks scope asset (global_max scope asset s.max_event_time) required [] s in
    let there = available marks in
    fusion_mark there (length there == length required) >>= λ fusion. some (marks, (fusion, s'))

-- `_watermark`
unfoldable pub watermark :
    String → String → FeatureWindowEngine → Option (Option ℤ × FeatureWindowEngine)
unfolding watermarks
watermark scope asset s = watermarks scope asset s >>= λ r. some r.1
