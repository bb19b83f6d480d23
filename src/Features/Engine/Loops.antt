-- ===== src/Features/Engine/Loops.antt =====
-- The loops of `ingest` keep the invariant and never raise.
use scam2marke.Prelude.{
  All-mono, ◌<◌, ◌≡◌, sym, subst, ◌∙◌, inl, inr, String, Bool, true, false, List, [], ◌∷◌, Option,
  none, some, arith, length, last?, All, Bool-cases, refl, ap, sorted, or_else, ◌||◌,
}
use scam2marke.Prelude.Int.{ℤ}
use scam2marke.Prelude.Dict.{
  Dict, string_eq, nat_eq, pair_eq, lookup, Entries, lookup-Entries, Bound, insert-Bound,
}
use scam2marke.Features.Types.{
  FeatureSignal, FeatureSnapshot, WindowKey, Settings, FeatureWindowEngine,
}
use scam2marke.Features.Fields.{is_readable}
use scam2marke.Features.Compute.{is_computable}
use scam2marke.Features.Schema.{feature_schema}
use scam2marke.Features.Validation.{snapshot_of-accepted}
use scam2marke.Features.Sources.{◌>>=◌, watermark}
use scam2marke.Features.Engine.{
  Environment, add_revision, construct, is_closed, signal_leb, build_revision, rebuild, concerns,
  is_eligible, finalize, finalize_at, finalize_eligible,
}
use scam2marke.Features.Engine.Invariant.{
  Yields, Yields-bind, Same, watermark-Same, Kept, prior-IsHistory, add_revision-Kept,
}

-- What `_compute_features` reads of the signals raises nothing.
abbrev pub AllReadable : WindowKey → List FeatureSignal → Type 0
AllReadable key es = All (λ e. is_readable e ≡ true) es

is_computable-AllReadable :
    (es : List FeatureSignal) → All (λ e. is_readable e ≡ true) es → is_computable es ≡ true
unfolding is_computable
is_computable-AllReadable [] all = refl
is_computable-AllReadable (e ∷ es) all = rw (all.0) (is_computable-AllReadable es all.1)

-- What stays the same while the windows are revised.
pub record Frame : Type 0 where
  pub settings : Settings
  pub seen : List (String × String)
  pub log : List FeatureSignal
  pub events : Dict WindowKey (List FeatureSignal)
  pub required : 0 < length settings.required_domains
  pub schema : settings.feature_schema_version ≡ feature_schema
  pub readable : Entries AllReadable events

pub record Holds (f : Frame) (s : FeatureWindowEngine) : Type 0 where
  pub settings : s.settings ≡ f.settings
  pub seen : s.seen_event_ids ≡ f.seen
  pub log : s.signal_log ≡ f.log
  pub events : s.events ≡ f.events
  pub kept : Entries (Kept f.events) s.revisions

last-total : (rs : List FeatureSnapshot) → 0 < length rs → Yields (last? rs) (λ _. Unit)
last-total [] some_one = absurd (omega (arith, some_one))
last-total (r ∷ []) some_one = tt
last-total (r ∷ x ∷ rs) some_one = last-total (x ∷ rs) (omega arith)

is_eligible-total :
    (mark : ℤ) (key : WindowKey) (rs : List FeatureSnapshot) (own : Bool)
    → 0 < length rs
    → Yields (is_eligible mark key rs own) (λ _. Unit)
unfolding is_eligible
is_eligible-total mark key rs false some_one = tt
is_eligible-total mark key rs true some_one =
    Yields-bind (λ _. Unit) (λ _. Unit) (last? rs) _ (last-total rs some_one) λ last _. tt

module _ (env : Environment) (f : Frame) where
  pub Same-Holds : (s t : FeatureWindowEngine) → Same s t → Holds f s → Holds f t
  Same-Holds s t same h = record {
    settings = same.settings ∙ h.settings;
    seen = same.seen ∙ h.seen;
    log = same.log ∙ h.log;
    events = same.events ∙ h.events;
    kept = subst (Entries (Kept f.events)) (sym same.revisions) h.kept;
  }

  pub add_revision-Holds :
      (key : WindowKey) (force_final : Bool) (signals : List FeatureSignal) (mark : Option ℤ)
      (s : FeatureWindowEngine)
      → Bound key f.events
      → Holds f s
      → Holds f (add_revision env key force_final signals mark s).1
  unfolding add_revision
  add_revision-Holds key force_final signals mark s known h = record {
    settings = h.settings;
    seen = h.seen;
    log = h.log;
    events = h.events;
    kept = add_revision-Kept env key force_final signals mark f.events s known h.kept;
  }

  add_revision-Bound :
      (key : WindowKey) (force_final : Bool) (signals : List FeatureSignal) (mark : Option ℤ)
      (s : FeatureWindowEngine) (k : WindowKey)
      → Bound k s.revisions
      → Bound k (add_revision env key force_final signals mark s).1.revisions
  unfolding add_revision
  add_revision-Bound key force_final signals mark s k bound = insert-Bound key k _ s.revisions bound

  pub construct-total :
      (key : WindowKey) (force_final : Bool) (signals : List FeatureSignal) (mark : Option ℤ)
      (s : FeatureWindowEngine) (Q : FeatureSnapshot × FeatureWindowEngine → Type 0)
      → lookup key f.events ≡ some signals
      → Holds f s
      → Q (add_revision env key force_final signals mark s)
      → Yields (construct env signals (add_revision env key force_final signals mark s)) Q
  unfolding construct add_revision
  construct-total key force_final signals mark s Q found h q =
      let readable =
        is_computable-AllReadable signals
          (lookup-Entries AllReadable key signals f.events f.readable found) in
      let accepted =
        snapshot_of-accepted env key (sorted signal_leb signals)
          (or_else (lookup key s.revisions) []) (force_final || is_closed key mark) s
          (prior-IsHistory env f.events key s.revisions h.kept)
          (ap (λ σ. σ.feature_schema_version) h.settings ∙ f.schema) in
      rw (readable, accepted) q

  -- The windows that have revisions keep having them.
  abbrev pub Grows : FeatureWindowEngine → FeatureWindowEngine → Type 0
  Grows s t = Holds f t × ((k : WindowKey) → Bound k s.revisions → Bound k t.revisions)

  pub watermark-Holds :
      (scope asset : String) (s : FeatureWindowEngine)
      → Holds f s
      → Yields (watermark scope asset s) (λ r. Same s r.1)
  watermark-Holds scope asset s h =
      watermark-Same scope asset s
        (subst (λ σ. 0 < length σ.required_domains) (sym h.settings) f.required)

  pub build_revision-Grows :
      (key : WindowKey) (force_final : Bool) (s : FeatureWindowEngine)
      → Bound key f.events
      → Holds f s
      → Yields (build_revision env key force_final s) (λ r. Grows s r.1)
  unfolding build_revision
  build_revision-Grows key force_final s known h =
      Yields-bind (λ signals. lookup key f.events ≡ some signals) (λ r. Grows s r.1)
        (lookup key s.events) _ (rw (h.events, known.1) refl)
        λ signals found.
          Yields-bind (λ r. Same s r.1) (λ r. Grows s r.1) (watermark key.0 key.1.0 s) _
            (watermark-Holds key.0 key.1.0 s h)
            λ r same.
              construct-total key force_final signals r.0 r.1 (λ r. Grows s r.1) found
                (Same-Holds s r.1 same h)
                (
                  add_revision-Holds key force_final signals r.0 r.1 known
                      (Same-Holds s r.1 same h),
                  λ k bound.
                      add_revision-Bound key force_final signals r.0 r.1 k
                        (subst (Bound k) (sym same.revisions) bound),
                )

  Yields-Grows :
      (s t : FeatureWindowEngine)
      → ((k : WindowKey) → Bound k s.revisions → Bound k t.revisions)
      → (r : Option (List FeatureSnapshot × FeatureWindowEngine)) → Yields r (λ r. Grows t r.1)
      → Yields r (λ r. Grows s r.1)
  Yields-Grows s t grows none h = absurd h
  Yields-Grows s t grows (some r) h = (h.0, λ k bound. h.1 k (grows k bound))

  -- A loop that keeps the invariant may be followed by another.
  after-Grows :
      (s t : FeatureWindowEngine) (out : List FeatureSnapshot → List FeatureSnapshot)
      (r : Option (List FeatureSnapshot × FeatureWindowEngine))
      → ((k : WindowKey) → Bound k s.revisions → Bound k t.revisions)
      → Yields r (λ r. Grows t r.1)
      → Yields {A = List FeatureSnapshot × FeatureWindowEngine}
          (r >>= λ r. some (out r.0, r.1))
          (λ r. Grows s r.1)
  after-Grows s t out none grows h = absurd h
  after-Grows s t out (some r) grows h = (h.0, λ k bound. h.1 k (grows k bound))

  pub rebuild-Grows :
      (keys : List WindowKey) (s : FeatureWindowEngine)
      → All (λ k. Bound k s.revisions) keys
      → Holds f s
      → Yields (rebuild env keys s) (λ r. Grows s r.1)
  unfolding rebuild
  rebuild-Grows [] s bound h = (h, λ k b. b)
  rebuild-Grows (key ∷ keys) s ((rs, found), rest) h =
      let kept = lookup-Entries (Kept f.events) key rs s.revisions h.kept found in
      rw found (
        Yields-bind (λ _. Unit) (λ r. Grows s r.1) (last? rs) _ (last-total rs kept.1)
          λ last _.
            Yields-bind (λ r. Grows s r.1) (λ r. Grows s r.1)
              (build_revision env key last.is_final s) _
              (build_revision-Grows key last.is_final s kept.2 h)
              λ r grown.
                after-Grows s r.1 (λ more. r.0 ∷ more) (rebuild env keys r.1) grown.1
                  (rebuild-Grows keys r.1 (All-mono grown.1 keys rest) grown.0))

  finalize-Grows :
      (scope asset : String) (mark : ℤ) (d : Dict WindowKey (List FeatureSnapshot))
      (s : FeatureWindowEngine)
      → Entries (Kept f.events) d
      → Holds f s
      → Yields (finalize env scope asset mark d s) (λ r. Grows s r.1)
  unfolding finalize
  finalize-Grows scope asset mark [] s kept h = (h, λ k b. b)
  finalize-Grows scope asset mark ((key, rs) ∷ d) s kept h =
      Yields-bind (λ _. Unit) (λ r. Grows s r.1)
        (is_eligible mark key rs (concerns scope asset key)) _
        (is_eligible-total mark key rs (concerns scope asset key) kept.0.1)
        λ eligible _. elim (Bool-cases eligible) [
          | inr open_still ↦ rw (open_still, Yields) (finalize-Grows scope asset mark d s kept.1 h)
          | inl closes ↦
              rw (closes, Yields)
                (Yields-bind (λ r. Grows s r.1) (λ r. Grows s r.1) (build_revision env key true s) _
                  (build_revision-Grows key true s kept.0.2 h)
                  λ r grown.
                    after-Grows s r.1 (λ more. r.0 ∷ more) (finalize env scope asset mark d r.1)
                      grown.1 (finalize-Grows scope asset mark d r.1 kept.1 grown.0))
        ]

  finalize_at-Grows :
      (scope asset : String) (mark : Option ℤ) (s : FeatureWindowEngine)
      → Holds f s
      → Yields (finalize_at env scope asset mark s) (λ r. Grows s r.1)
  unfolding finalize_at
  finalize_at-Grows scope asset none s h = (h, λ k b. b)
  finalize_at-Grows scope asset (some mark) s h =
      finalize-Grows scope asset mark s.revisions s h.kept h

  pub finalize_eligible-Grows :
      (scope asset : String) (s : FeatureWindowEngine)
      → Holds f s
      → Yields (finalize_eligible env scope asset s) (λ r. Grows s r.1)
  unfolding finalize_eligible
  finalize_eligible-Grows scope asset s h =
      Yields-bind (λ r. Same s r.1) (λ r. Grows s r.1) (watermark scope asset s) _
        (watermark-Holds scope asset s h)
        λ r same.
          Yields-Grows s r.1 (λ k b. subst (Bound k) (sym same.revisions) b) _
            (finalize_at-Grows scope asset r.0 r.1 (Same-Holds s r.1 same h))
