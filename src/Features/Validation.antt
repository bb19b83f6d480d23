-- ===== src/Features/Validation.antt =====
-- src/scam2market/features: the snapshots of `_build_revision` and the validator of schemas.py.
use scam2marke.Prelude.{
  ℕ, ◌+◌, ◌<◌, leb, subst, ◌≡◌, refl, String, str_eq, Bool, true, false, not, List, [], ◌∷◌, map,
  Option, none, some, last?, arith,
}
use scam2marke.Prelude.Int.{ℤ}
use scam2marke.Prelude.Dict.{string_eq, contains, beq_refl}
use scam2marke.Features.Types.{
  FeatureSignal, FeatureSnapshot, is_provisional, WindowKey, FeatureWindowEngine,
}
use scam2marke.Features.Compute.Market.{market_features}
use scam2marke.Features.Compute.Social.{social_features}
use scam2marke.Features.Compute.{compute_features}
use mathlib.Core.Option.{some-injective}
use scam2marke.Features.Schema.{
  feature_schema, feature_names, has_names, is_linked, bool_eq, at_least_one, is_accepted,
}
use scam2marke.Features.Engine.Revisions.{Chain, IsHistory}
use scam2marke.Features.Engine.{Environment, next_revision, snapshot_of}

-- The features of a window are those of the manifest, in its order.
compute_features-names :
    (pstdev : List ℤ → ℤ) (s : FeatureWindowEngine) (key : WindowKey) (events : List FeatureSignal)
    → map (λ feature. feature.0) (compute_features pstdev s key events) ≡ feature_names
unfolding compute_features market_features social_features
compute_features-names pstdev s (scope, (asset, (start, interval))) events = refl

feature_names-accepted : has_names feature_names ≡ true
unfolding has_names contains
feature_names-accepted = refl

next_revision-linked :
    (last : Option FeatureSnapshot) (finalize : Bool)
    → is_linked (next_revision last finalize).0 (next_revision last finalize).1 ≡ true
unfolding next_revision
next_revision-linked none finalize = ground arith
next_revision-linked (some p) finalize = ground arith

bool_eq_refl : (b : Bool) → bool_eq b b ≡ true
bool_eq_refl true = refl
bool_eq_refl false = refl

accepted_of :
    (hash : String) (r : FeatureSnapshot)
    → 0 < r.revision
    → at_least_one r.supersedes_revision ≡ true
    → map (λ feature. feature.0) r.features ≡ feature_names
    → str_eq r.feature_schema_version feature_schema ≡ true
    → str_eq r.feature_schema_hash hash ≡ true
    → bool_eq r.is_final (not (is_provisional r.revision_state)) ≡ true
    → is_linked r.revision_state r.supersedes_revision ≡ true
    → is_accepted hash r ≡ true
unfolding is_accepted
accepted_of hash r numbered positive names same_version same_hash own linked =
    let number : leb 1 r.revision ≡ true = ground (arith, numbered) in
    rw (number, positive, names, feature_names-accepted, same_version, same_hash, own, linked) refl

last-numbered :
    (n : ℕ) (before : Option FeatureSnapshot) (rs : List FeatureSnapshot) (r : FeatureSnapshot)
    → Chain n before rs
    → last? rs ≡ some r
    → 0 < r.revision
last-numbered n before [] r chain last = cc
last-numbered n before (x ∷ []) r chain last =
    subst (λ x. 0 < x.revision) (some-injective _ _ last) (omega (arith, chain.0))
last-numbered n before (x ∷ y ∷ rs) r chain last =
    last-numbered (n + 1) (some x) (y ∷ rs) r chain.2 last

next_revision-at_least_one :
    (last : Option FeatureSnapshot) (finalize : Bool)
    → ((p : FeatureSnapshot) → last ≡ some p → 0 < p.revision)
    → at_least_one (next_revision last finalize).1 ≡ true
unfolding next_revision
next_revision-at_least_one none finalize numbered = refl
next_revision-at_least_one (some p) finalize numbered = ground (arith, numbered p refl)

-- The constructor of `FeatureSnapshot` accepts what the engine builds for a window with a history, if
-- the engine's schema version is the manifest's: the numbers of the revision and of the superseded
-- one are positive, the features are those of the manifest and no others, `is_final` agrees with the
-- state, and a corrected revision names what it supersedes.
pub snapshot_of-accepted :
    (env : Environment) (key : WindowKey) (signals : List FeatureSignal)
    (prior : List FeatureSnapshot) (finalize : Bool) (s : FeatureWindowEngine)
    → IsHistory key prior
    → s.settings.feature_schema_version ≡ feature_schema
    → is_accepted env.schema_hash (snapshot_of env key signals prior finalize s) ≡ true
unfolding snapshot_of
snapshot_of-accepted env (scope, (asset, (start, interval))) signals prior finalize s history same =
    accepted_of env.schema_hash _ (omega arith)
      (next_revision-at_least_one (last? prior) finalize
        λ p last. last-numbered 0 none prior p history.0 last)
      (compute_features-names env.pstdev s (scope, (asset, (start, interval))) signals)
      ((string_eq.beq_iff s.settings.feature_schema_version feature_schema).1 same)
      (beq_refl env.schema_hash)
      (bool_eq_refl (not (is_provisional (next_revision (last? prior) finalize).0)))
      (next_revision-linked (last? prior) finalize)
