-- ===== src/Features/Fields.antt =====
-- src/scam2market/features/engine.py: what `_compute_features` reads of signals and sources.
use scam2marke.Prelude.{
  ℕ, String, str_eq, Bool, true, false, List, [], ◌∷◌, ◌++◌, Option, none, some, ◌==◌, or_else, not,
  ◌&&◌, ◌||◌, map, is_some, keep, if◌then◌else◌,
}
use scam2marke.Prelude.Int.{ℤ, pos}
use scam2marke.Prelude.Dict.{string_eq, nat_eq, pair_eq, lookup}
use scam2marke.Features.Types.{
  SignalKind, SourceDomain, domain_eq, Value, number, string, array, object, truthy, FeatureSignal,
  SourceState, FeatureWindowEngine,
}
use scam2marke.Features.Numbers.{whole}

-- `_safe_float`
unfoldable pub safe_float : ℤ → Option Value → ℤ
safe_float default (some (number n)) = n
safe_float default _ = default

abbrev pub kind_code : SignalKind → ℕ
kind_code SignalKind.market_trade = 0
kind_code SignalKind.market_candle = 1
kind_code SignalKind.orderbook = 2
kind_code SignalKind.social_post = 3
kind_code SignalKind.asset_mention = 4
kind_code SignalKind.data_quality = 5

-- `[event for event in events if event.kind == kind]`
abbrev pub of_kind : SignalKind → List FeatureSignal → List FeatureSignal
of_kind kind events = keep (λ e. kind_code e.kind == kind_code kind) events

abbrev pub field : String → FeatureSignal → ℤ
field name e = safe_float (pos 0) (lookup name e.values)

-- The characters of a text, as Python iterates over it.
unfoldable pub characters : String → List String
characters String.[] = []
characters (String.◌∷◌ c s) = String.◌∷◌ c String.[] ∷ characters s

-- What a loop over `values.get(name, [])` gives, `none` for an item that is no string. A loop over
-- `null`, a truth value or a number raises.
unfoldable pub items_of : Option Value → Option (List (Option String))
unfolding characters
items_of none = some []
items_of (some (array items)) = some items
items_of (some (object keys)) = some (map some keys)
items_of (some (string s)) = some (map some (characters s))
items_of _ = none

-- The items, where they are read without raising.
abbrev pub items_in : String → FeatureSignal → List (Option String)
items_in name e = or_else (items_of (lookup name e.values)) []

-- Whether what `_compute_features` reads of a signal's lists raises nothing.
unfoldable pub is_readable : FeatureSignal → Bool
unfolding items_of
is_readable e =
    not (kind_code e.kind == kind_code SignalKind.social_post)
    || is_some (items_of (lookup "urls" e.values))
      && is_some (items_of (lookup "hashtags" e.values))
      && is_some (items_of (lookup "cashtags" e.values))

unfoldable pub text_of : Option Value → Option String
text_of (some (string s)) = some s
text_of _ = none

abbrev pub holds : String → Bool → FeatureSignal → Bool
holds name default e = elim (lookup name e.values) [ none ↦ default | some v ↦ truthy v ]

abbrev pub has_text : String → String → FeatureSignal → Bool
has_text name text e = elim (text_of (lookup name e.values)) [
  | none ↦ false
  | some s ↦ str_eq s text
]

unfoldable pub somes : List (Option String) → List String
somes [] = []
somes (none ∷ xs) = somes xs
somes (some x ∷ xs) = x ∷ somes xs

unfoldable pub joined : List (List String) → List String
joined [] = []
joined (xs ∷ xss) = xs ++ joined xss

-- `state.get(..., {"active": False, "idle": False, "degraded": True})`
abbrev pub source_state : FeatureWindowEngine → String → String → SourceDomain → SourceState
source_state s scope asset domain =
    or_else (lookup (scope, (asset, domain)) s.source_states)
      (record { active = false; idle = false; degraded = true })

abbrev pub flag_number : Bool → ℤ
flag_number b = if b then whole 1 else pos 0

abbrev pub where_there : Bool → ℤ → Option ℤ
where_there available x = if available then some x else none
