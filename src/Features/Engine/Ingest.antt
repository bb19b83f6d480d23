-- ===== src/Features/Engine/Ingest.antt =====
-- `ingest` as a whole, and any number of signals.
use scam2marke.Prelude.{
  sorted, sorted-All, ℕ, ◌<◌, ◌≡◌, refl, ap, ◌∙◌, ◌⊎◌, inl, inr, String, true, false, List, [], ◌∷◌,
  ◌++◌, All, Bool-cases, arith,
}
use scam2marke.Prelude.Dict.{string_eq, nat_eq, pair_eq, Bound, contains, contains-cons_self}
use scam2marke.Features.Types.{FeatureSignal, FeatureSnapshot, FeatureWindowEngine}
use scam2marke.Features.Fields.{is_readable}
use scam2marke.Features.Sources.{record_signal}
use scam2marke.Features.Engine.{
  Environment, window_of, build_revision, rebuild, downstream, starts_before, append_signal,
  by_interval, finalize_eligible, ingest_new, ingest,
}
use scam2marke.Features.Engine.Windows.{
  IsValid, Carries, downstream-Bound, append_signal-IsValid, appended-Bound, append_signal-Carries,
  frame_of, frame_of-Holds, Holds-Carries, Carries-trans,
}
use scam2marke.Features.Engine.Invariant.{Yields, Yields-bind, Yields-mono}
use scam2marke.Features.Engine.Loops.{
  Grows, build_revision-Grows, rebuild-Grows, finalize_eligible-Grows,
}

record_signal-IsValid :
    (e : FeatureSignal) (s : FeatureWindowEngine) → IsValid s → IsValid (record_signal e s)
unfolding record_signal
record_signal-IsValid e s valid = record {
  required = valid.required;
  positive = valid.positive;
  schema = valid.schema;
  readable = valid.readable;
  windows = valid.windows;
  kept = valid.kept;
}

-- What `record_signal` records of the signal itself.
record_signal-log :
    (e : FeatureSignal) (s : FeatureWindowEngine)
    → ((record_signal e s).signal_log ≡ s.signal_log ++ e ∷ [])
      × (contains (record_signal e s).seen_event_ids (e.scope_id, e.event_id) ≡ true)
unfolding record_signal
record_signal-log e s = (refl, contains-cons_self (e.scope_id, e.event_id) s.seen_event_ids)

record_signal-seen :
    (d : String × String) (e : FeatureSignal) (s : FeatureWindowEngine)
    → contains s.seen_event_ids d ≡ true
    → contains (record_signal e s).seen_event_ids d ≡ true
unfolding record_signal contains
record_signal-seen d e s known = ground (arith, known)

module _ (env : Environment) where
  by_interval-Carries :
      (e : FeatureSignal) (intervals : List ℕ) (s : FeatureWindowEngine)
      → All (λ i. 0 < i) intervals
      → is_readable e ≡ true
      → IsValid s
      → Yields (by_interval env e intervals s) (λ r. Carries s r.1)
  unfolding by_interval
  by_interval-Carries e [] s positive reads valid = record {
    valid = valid;
    settings = refl;
    seen = refl;
    log = refl;
  }
  by_interval-Carries e (interval ∷ intervals) s positive reads valid =
      let key = window_of e interval in
      let s₀ = append_signal key e s in
      let valid₀ = append_signal-IsValid e interval s positive.0 reads valid in
      let f = frame_of s₀ valid₀ in
      Yields-bind (λ r. Grows env f s₀ r.1) (λ r. Carries s r.1) (build_revision env key false s₀) _
        (build_revision-Grows env f key false s₀ (appended-Bound e interval s)
          (frame_of-Holds s₀ valid₀))
        λ r grown.
          Yields-bind (λ r'. Grows env f r.1 r'.1) (λ r. Carries s r.1)
            (rebuild env (sorted starts_before (downstream e interval r.1.revisions)) r.1) _
            (rebuild-Grows env f _ r.1
              (sorted-All (λ k. Bound k r.1.revisions) starts_before
                (downstream e interval r.1.revisions)
                (downstream-Bound e interval r.1.revisions r.1.revisions λ k bound. bound))
              grown.0)
            λ r' grown'.
              let carried : Carries s r'.1 =
                Carries-trans s s₀ r'.1 (append_signal-Carries e interval s positive.0 reads valid)
                  (Holds-Carries s₀ r'.1 valid₀ grown'.0) in
              Yields-bind (λ r''. Carries r'.1 r''.1) (λ r. Carries s r.1)
                (by_interval env e intervals r'.1) _
                (by_interval-Carries e intervals r'.1 positive.1 reads carried.valid)
                λ r'' rest. Carries-trans s r'.1 r''.1 carried rest

  finalize_eligible-Carries :
      (scope asset : String) (s : FeatureWindowEngine)
      → IsValid s
      → Yields (finalize_eligible env scope asset s) (λ r. Carries s r.1)
  finalize_eligible-Carries scope asset s valid =
      Yields-mono (λ r. Grows env (frame_of s valid) s r.1) (λ r. Carries s r.1) _
        (λ r grown. Holds-Carries s r.1 valid grown.0)
        (finalize_eligible-Grows env (frame_of s valid) scope asset s (frame_of-Holds s valid))

  ingest_new-Carries :
      (e : FeatureSignal) (s : FeatureWindowEngine)
      → is_readable e ≡ true
      → IsValid s
      → Yields (ingest_new env e s) (λ r. Carries (record_signal e s) r.1)
  unfolding ingest_new
  ingest_new-Carries e s reads valid =
      let valid₀ = record_signal-IsValid e s valid in
      Yields-bind (λ r. Carries (record_signal e s) r.1) (λ r. Carries (record_signal e s) r.1)
        (by_interval env e s.settings.intervals (record_signal e s)) _
        (by_interval-Carries e s.settings.intervals (record_signal e s) valid.positive reads valid₀)
        λ r carried.
          Yields-bind (λ r'. Carries r.1 r'.1) (λ r. Carries (record_signal e s) r.1)
            (finalize_eligible env e.scope_id e.asset_id r.1) _
            (finalize_eligible-Carries e.scope_id e.asset_id r.1 carried.valid)
            λ r' next. Carries-trans (record_signal e s) r.1 r'.1 carried next

  -- What `ingest` does to what the engine has seen: nothing if the signal is there already, and else
  -- the signal is added.
  abbrev pub Ingested :
      FeatureSignal → FeatureWindowEngine → List FeatureSnapshot × FeatureWindowEngine → Type 0
  Ingested e s (out, t) =
      IsValid t
      × (contains t.seen_event_ids (e.scope_id, e.event_id) ≡ true)
      × ((t ≡ s) ⊎ (t.signal_log ≡ s.signal_log ++ e ∷ []))

  pub ingest-Ingested :
      (e : FeatureSignal) (s : FeatureWindowEngine)
      → is_readable e ≡ true
      → IsValid s
      → Yields (ingest env e s) (Ingested e s)
  unfolding ingest
  ingest-Ingested e s reads valid =
      elim (Bool-cases (contains s.seen_event_ids (e.scope_id, e.event_id))) [
        | inl seen ↦ rw (seen, Yields) (valid, seen, inl refl)
        | inr new ↦
            rw (new, Yields)
              (Yields-mono (λ r. Carries (record_signal e s) r.1) (Ingested e s) _
                (λ r carried. (
                  carried.valid,
                  ap (λ ids. contains ids (e.scope_id, e.event_id)) carried.seen
                      ∙ (record_signal-log e s).1,
                  inr (carried.log ∙ (record_signal-log e s).0),
                ))
                (ingest_new-Carries e s reads valid))
      ]

  pub ingest-seen :
      (d : String × String) (e : FeatureSignal) (s : FeatureWindowEngine)
      → is_readable e ≡ true
      → IsValid s
      → contains s.seen_event_ids d ≡ true
      → Yields (ingest env e s) (λ r. contains r.1.seen_event_ids d ≡ true)
  unfolding ingest
  ingest-seen d e s reads valid known =
      elim (Bool-cases (contains s.seen_event_ids (e.scope_id, e.event_id))) [
        | inl seen ↦ rw (seen, Yields) known
        | inr new ↦
            rw (new, Yields)
              (Yields-mono (λ r. Carries (record_signal e s) r.1)
                (λ r. contains r.1.seen_event_ids d ≡ true) _
                (λ r carried.
                  ap (λ ids. contains ids d) carried.seen ∙ record_signal-seen d e s known)
                (ingest_new-Carries e s reads valid))
      ]
