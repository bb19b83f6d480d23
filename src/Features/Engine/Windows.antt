-- ===== src/Features/Engine/Windows.antt =====
-- The windows of the signals, and what the parts of `ingest` leave as it was.
use scam2marke.Prelude.{
  ℕ, zero, suc, ◌+◌, ◌*◌, ◌/◌, ◌%◌, ◌<◌, ◌≤◌, ◌≡◌, refl, ap, sym, subst, ◌∙◌, inl, inr, Bool, true,
  false, List, [], ◌∷◌, arith, length, All, All-append, if◌then◌else◌, or_else, Option-cases,
}
use native.Mathlib.Omega.{mod_fact}
use scam2marke.Prelude.Dict.{
  Dict, string_eq, nat_eq, pair_eq, lookup, Entries, Entries-mono, insert-Entries, lookup-Entries,
  Bound, insert-Bound, insert-Bound_self, head-Bound, tail-Bound,
}
use scam2marke.Features.Types.{FeatureSignal, FeatureSnapshot, WindowKey, FeatureWindowEngine}
use scam2marke.Features.Fields.{is_readable}
use scam2marke.Features.Schema.{feature_schema}
use scam2marke.Features.Engine.{second, floor_window, window_of, downstream, append_signal}
use scam2marke.Features.Engine.Invariant.{Kept}
use scam2marke.Features.Engine.Loops.{AllReadable, Frame, Holds}

-- A signal lies in its window.
abbrev pub Within : WindowKey → FeatureSignal → Type 0
Within (scope, (asset, (start, interval))) e =
    (e.scope_id ≡ scope)
    × (e.asset_id ≡ asset)
    × (start ≤ e.event_time)
    × (e.event_time < start + interval * second)

pub record IsValid (s : FeatureWindowEngine) : Type 0 where
  pub required : 0 < length s.settings.required_domains
  pub positive : All (λ i. 0 < i) s.settings.intervals
  pub schema : s.settings.feature_schema_version ≡ feature_schema
  pub readable : Entries AllReadable s.events
  pub windows : Entries (λ key es. All (Within key) es) s.events
  pub kept : Entries (Kept s.events) s.revisions

mod_lt : (n m : ℕ) → 0 < m → n % m < m
mod_lt n zero positive = elim positive [ ]
mod_lt n (suc m) positive = mod_fact n m

floor_window-Within :
    (t interval : ℕ)
    → 0 < interval
    → (floor_window t interval ≤ t) × (t < floor_window t interval + interval * second)
unfolding floor_window
floor_window-Within t interval positive = omega (arith, mod_lt (t / second) interval positive)

All-if {ℓ κ} :
    {A : Type ℓ} (P : A → Type κ) (b : Bool) (x : A) (xs : List A)
    → P x
    → All P xs
    → All P (if b then x ∷ xs else xs)
All-if P true x xs p all = (p, all)
All-if P false x xs p all = all

pub downstream-Bound :
    (e : FeatureSignal) (interval : ℕ) (d all : Dict WindowKey (List FeatureSnapshot))
    → ((k : WindowKey) → Bound k d → Bound k all)
    → All (λ k. Bound k all) (downstream e interval d)
downstream-Bound e interval [] all sub = tt
downstream-Bound e interval (((scope, (asset, (start, i))), rs) ∷ d) all sub =
    let key : WindowKey = (scope, (asset, (start, i))) in
    All-if (λ k. Bound k all) _ key (downstream e interval d) (sub key (head-Bound key rs d))
      (downstream-Bound e interval d all λ k bound. sub k (tail-Bound key k rs d bound))

window_of-Within :
    (e : FeatureSignal) (interval : ℕ) → 0 < interval → Within (window_of e interval) e
window_of-Within e interval positive =
    let (low, high) = floor_window-Within e.event_time interval positive in (refl, refl, low, high)

signals-Within :
    (key : WindowKey) (events : Dict WindowKey (List FeatureSignal))
    → Entries (λ k es. All (Within k) es) events
    → All (Within key) (or_else (lookup key events) [])
signals-Within key events windows = elim (Option-cases (lookup key events)) [
  | inl absent ↦ rw absent tt
  | inr (es, found) ↦
      rw found (lookup-Entries (λ k es. All (Within k) es) key es events windows found)
]

signals-Entries :
    (P : FeatureSignal → Type 0) (key : WindowKey) (events : Dict WindowKey (List FeatureSignal))
    → Entries (λ k es. All P es) events
    → All P (or_else (lookup key events) [])
signals-Entries P key events all = elim (Option-cases (lookup key events)) [
  | inl absent ↦ rw absent tt
  | inr (es, found) ↦ rw found (lookup-Entries (λ k es. All P es) key es events all found)
]

pub append_signal-IsValid :
    (e : FeatureSignal) (interval : ℕ) (s : FeatureWindowEngine)
    → 0 < interval
    → is_readable e ≡ true
    → IsValid s
    → IsValid (append_signal (window_of e interval) e s)
unfolding append_signal
append_signal-IsValid e interval s positive reads valid =
    let key = window_of e interval in
    record {
      required = valid.required;
      positive = valid.positive;
      schema = valid.schema;
      readable =
          insert-Entries AllReadable key _ s.events
            (All-append (λ e. is_readable e ≡ true) (or_else (lookup key s.events) []) (e ∷ [])
              (signals-Entries (λ e. is_readable e ≡ true) key s.events valid.readable) (reads, tt))
            valid.readable;
      windows =
          insert-Entries (λ k es. All (Within k) es) key _ s.events
            (All-append (Within key) (or_else (lookup key s.events) []) (e ∷ [])
              (signals-Within key s.events valid.windows)
              (window_of-Within e interval positive, tt))
            valid.windows;
      kept =
          Entries-mono (λ k rs h. (h.0, h.1, insert-Bound key k _ s.events h.2)) s.revisions
            valid.kept;
    }

-- The invariant, and what a part of `ingest` leaves as it was.
pub record Carries (s t : FeatureWindowEngine) : Type 0 where
  pub valid : IsValid t
  pub settings : t.settings ≡ s.settings
  pub seen : t.seen_event_ids ≡ s.seen_event_ids
  pub log : t.signal_log ≡ s.signal_log

pub appended-Bound :
    (e : FeatureSignal) (interval : ℕ) (s : FeatureWindowEngine)
    → Bound (window_of e interval) (append_signal (window_of e interval) e s).events
unfolding append_signal
appended-Bound e interval s = insert-Bound_self (window_of e interval) _ s.events

pub append_signal-Carries :
    (e : FeatureSignal) (interval : ℕ) (s : FeatureWindowEngine)
    → 0 < interval
    → is_readable e ≡ true
    → IsValid s
    → Carries s (append_signal (window_of e interval) e s)
unfolding append_signal
append_signal-Carries e interval s positive reads valid = record {
  valid = append_signal-IsValid e interval s positive reads valid;
  settings = refl;
  seen = refl;
  log = refl;
}

-- The frame of an engine.
abbrev pub frame_of : (s : FeatureWindowEngine) → IsValid s → Frame
frame_of s valid = record {
  settings = s.settings;
  seen = s.seen_event_ids;
  log = s.signal_log;
  events = s.events;
  required = valid.required;
  schema = valid.schema;
  readable = valid.readable;
}

pub frame_of-Holds : (s : FeatureWindowEngine) (valid : IsValid s) → Holds (frame_of s valid) s
frame_of-Holds s valid = record {
  settings = refl;
  seen = refl;
  log = refl;
  events = refl;
  kept = valid.kept;
}

pub Holds-Carries :
    (s t : FeatureWindowEngine) (valid : IsValid s) → Holds (frame_of s valid) t → Carries s t
Holds-Carries s t valid h = record {
  valid = record {
    required = subst (λ σ. 0 < length σ.required_domains) (sym h.settings) valid.required;
    positive = subst (λ σ. All (λ i. 0 < i) σ.intervals) (sym h.settings) valid.positive;
    schema = ap (λ σ. σ.feature_schema_version) h.settings ∙ valid.schema;
    readable = subst (Entries AllReadable) (sym h.events) valid.readable;
    windows = subst (Entries (λ key es. All (Within key) es)) (sym h.events) valid.windows;
    kept = subst (λ events. Entries (Kept events) t.revisions) (sym h.events) h.kept;
  };
  settings = h.settings;
  seen = h.seen;
  log = h.log;
}

pub Carries-trans : (s t u : FeatureWindowEngine) → Carries s t → Carries t u → Carries s u
Carries-trans s t u first next = record {
  valid = next.valid;
  settings = next.settings ∙ first.settings;
  seen = next.seen ∙ first.seen;
  log = next.log ∙ first.log;
}
