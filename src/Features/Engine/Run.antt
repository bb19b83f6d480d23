-- ===== src/Features/Engine/Run.antt =====
-- Any number of signals, one after the other.
use scam2marke.Prelude.{
  ℕ, ◌<◌, ◌≡◌, refl, inl, inr, true, false, List, [], ◌∷◌, ◌++◌, Option, some, length, All,
  Bool-cases, subst, ◌==◌, any_of, arith,
}
use mathlib.Core.Option.{some-injective}
use scam2marke.Prelude.Dict.{string_eq, pair_eq}
use scam2marke.Features.Types.{FeatureSignal, FeatureSnapshot, Settings, FeatureWindowEngine}
use scam2marke.Features.Fields.{is_readable}
use scam2marke.Features.Schema.{feature_schema}
use scam2marke.Features.Sources.{◌>>=◌, are_wrong, new_engine}
use scam2marke.Features.Engine.{Environment, ingest}
use scam2marke.Features.Engine.Invariant.{Yields, Yields-bind, Yields-mono}
use scam2marke.Features.Engine.Windows.{IsValid}
use scam2marke.Features.Engine.Ingest.{Ingested, ingest-Ingested}

any_zero : (xs : List ℕ) → any_of (λ i. i == 0) xs ≡ false → All (λ i. 0 < i) xs
any_zero [] h = tt
any_zero (x ∷ xs) h = (ground (arith, h), any_zero xs (ground (arith, h)))

right_intervals : (xs : List ℕ) → are_wrong xs ≡ false → any_of (λ i. i == 0) xs ≡ false
right_intervals xs h = ground (arith, h)

-- A new engine has no signals and no windows, and its intervals are positive.
pub new_engine-IsValid :
    (settings : Settings)
    → 0 < length settings.required_domains
    → settings.feature_schema_version ≡ feature_schema
    → (s : FeatureWindowEngine) → new_engine settings ≡ some s
    → IsValid s × (s.signal_log ≡ [])
unfolding new_engine
new_engine-IsValid settings required schema s made =
    elim (Bool-cases (are_wrong settings.intervals)) [
      | inl wrong ↦ absurd (cc (rw wrong at made))
      | inr right ↦
          subst (λ s. IsValid s × (s.signal_log ≡ [])) (some-injective _ _ (rw right at made))
            (
              record {
                required = required;
                positive = any_zero settings.intervals (right_intervals settings.intervals right);
                schema = schema;
                readable = tt;
                windows = tt;
                kept = tt;
              },
              refl,
            )
    ]

-- The snapshots that the signals give, and the engine after them.
unfoldable pub run :
    Environment
    → List FeatureSignal
    → FeatureWindowEngine
    → Option (List FeatureSnapshot × FeatureWindowEngine)
run env [] s = some ([], s)
run env (e ∷ es) s = do
  (out, s') ← ingest env e s
  (more, s'') ← run env es s'
  some (out ++ more, s'')

module _ (env : Environment) where
  run_from :
      (signals : List FeatureSignal) (s : FeatureWindowEngine)
      → All (λ e. is_readable e ≡ true) signals
      → IsValid s
      → Yields (run env signals s) (λ r. IsValid r.1)
  unfolding run
  run_from [] s reads valid = valid
  run_from (e ∷ es) s reads valid =
      Yields-bind (Ingested env e s) (λ r. IsValid r.1) (ingest env e s) _
        (ingest-Ingested env e s reads.0 valid)
        λ r (valid', _, _).
          Yields-bind (λ r'. IsValid r'.1) (λ r. IsValid r.1) (run env es r.1) _
            (run_from es r.1 reads.1 valid') λ r' valid''. valid''

  -- A new engine with at least one required domain and the manifest's schema version takes any
  -- signals without raising, if the `urls`, `hashtags` and `cashtags` of every post can be iterated
  -- over: an absent one, an array, an object or a text, but no `null`, truth value or number. Then each
  -- signal that a window keeps is of its scope and asset and lies in its time, a window that has
  -- revisions is one that keeps signals, and the revisions of a window are numbered 1, 2, ...: a
  -- revision is corrected, and supersedes the one before it, exactly if that one was final or
  -- corrected.
  pub run-IsValid :
      (settings : Settings) (s : FeatureWindowEngine) (signals : List FeatureSignal)
      → 0 < length settings.required_domains
      → settings.feature_schema_version ≡ feature_schema
      → All (λ e. is_readable e ≡ true) signals
      → new_engine settings ≡ some s
      → Yields (run env signals s) (λ r. IsValid r.1)
  run-IsValid settings s signals required schema reads made =
      run_from signals s reads (new_engine-IsValid settings required schema s made).0

  -- The second delivery of a signal gives no snapshot and leaves the engine as it is.
  pub ingest_twice :
      (e : FeatureSignal) (s : FeatureWindowEngine)
      → is_readable e ≡ true
      → IsValid s
      → Yields (ingest env e s) (λ r. ingest env e r.1 ≡ some ([], r.1))
  unfolding ingest
  ingest_twice e s reads valid =
      Yields-mono (Ingested env e s) (λ r. ingest env e r.1 ≡ some ([], r.1)) (ingest env e s)
        (λ r (_, seen, _). rw (seen, ingest) refl) (ingest-Ingested env e s reads valid)
