-- ===== src/Features/Engine/Invariant.antt =====
-- What every signal keeps of the engine, and that the engine never raises.
use scam2marke.Prelude.{
  sorted, ℕ, ◌<◌, ◌≡◌, refl, sym, subst, inl, inr, String, Bool, true, false, ◌||◌, List, [], ◌∷◌,
  ◌++◌, Option, none, some, arith, length, length-append, last?, All-append, or_else, Option-cases,
  ◌==◌,
}
use scam2marke.Prelude.Int.{ℤ}
use scam2marke.Prelude.Dict.{
  Dict, string_eq, nat_eq, pair_eq, lookup, Entries, insert-Entries, lookup-Entries, Bound,
}
use scam2marke.Features.Types.{
  SourceDomain, domain_eq, FeatureSignal, FeatureSnapshot, WindowKey, FeatureWindowEngine,
}
use scam2marke.Features.Sources.{
  ◌>>=◌, global_max, domain_marks, available, least, fusion_mark, watermarks, watermark,
}
use scam2marke.Features.Engine.{Environment, snapshot_of, add_revision, is_closed, signal_leb}
use scam2marke.Features.Engine.Revisions.{
  OfWindow, IsHistory, Follows, Chain-append, last_or-none, last-agree, next_revision-Follows,
}

-- The computation does not raise, and `P` holds of what it returns.
abbrev pub Yields : {A : Type 0} → Option A → (A → Type 0) → Type 0
Yields none P = ⊥
Yields (some a) P = P a

pub Yields-bind :
    {A B : Type 0} (P : A → Type 0) (Q : B → Type 0) (r : Option A) (f : A → Option B)
    → Yields r P
    → ((a : A) → P a → Yields (f a) Q)
    → Yields (r >>= f) Q
Yields-bind P Q none f h k = absurd h
Yields-bind P Q (some a) f h k = k a h

pub Yields-mono :
    {A : Type 0} (P Q : A → Type 0) (r : Option A) → ((a : A) → P a → Q a) → Yields r P → Yields r Q
Yields-mono P Q none h y = absurd y
Yields-mono P Q (some a) h y = h a y

pub Yields-value :
    {A : Type 0} (P : A → Type 0) (r : Option A) → Yields r P → (a : A) × (r ≡ some a) × P a
Yields-value P none y = absurd y
Yields-value P (some a) y = (a, refl, y)

-- Two engines that differ at most in what is known of the sources.
pub record Same (s t : FeatureWindowEngine) : Type 0 where
  pub settings : t.settings ≡ s.settings
  pub events : t.events ≡ s.events
  pub revisions : t.revisions ≡ s.revisions
  pub seen : t.seen_event_ids ≡ s.seen_event_ids
  pub log : t.signal_log ≡ s.signal_log

domain_marks-Same :
    (scope asset : String) (latest : Option ℕ) (domains : List SourceDomain)
    (marks : Dict SourceDomain (Option ℤ)) (s : FeatureWindowEngine)
    → Same s (domain_marks scope asset latest domains marks s).1
unfolding domain_marks
domain_marks-Same scope asset latest [] marks s = record {
  settings = refl;
  events = refl;
  revisions = refl;
  seen = refl;
  log = refl;
}
domain_marks-Same scope asset latest (domain ∷ domains) marks s =
    let same = domain_marks-Same scope asset latest domains _ _ in
    record {
      settings = same.settings;
      events = same.events;
      revisions = same.revisions;
      seen = same.seen;
      log = same.log;
    }

least-total : (ts : List ℤ) → 0 < length ts → Yields (least ts) (λ _. Unit)
unfolding least
least-total [] some_value = absurd (omega (arith, some_value))
least-total (t ∷ []) some_value = tt
least-total (t ∷ u ∷ ts) some_value =
    Yields-bind (λ _. Unit) (λ _. Unit) (least (u ∷ ts)) _ (least-total (u ∷ ts) (omega arith))
      λ m _. tt

as_many : (n m : ℕ) → 0 < m → (n == m) ≡ true → 0 < n
as_many n m some_one same = ground arith

fusion_mark-total :
    (ts : List ℤ) (all : Bool)
    → (all ≡ true → 0 < length ts)
    → Yields (fusion_mark ts all) (λ _. Unit)
unfolding fusion_mark
fusion_mark-total ts false there = tt
fusion_mark-total ts true there =
    Yields-bind (λ _. Unit) (λ _. Unit) (least ts) _ (least-total ts (there refl)) λ m _. tt

watermarks-Same :
    (scope asset : String) (s : FeatureWindowEngine)
    → 0 < length s.settings.required_domains
    → Yields (watermarks scope asset s) (λ r. Same s r.1.1)
unfolding watermarks
watermarks-Same scope asset s required =
    let latest = global_max scope asset s.max_event_time in
    let domains = s.settings.required_domains in
    let there = available (domain_marks scope asset latest domains [] s).0 in
    Yields-bind (λ _. Unit) (λ r. Same s r.1.1) (fusion_mark there (length there == length domains))
      _ (fusion_mark-total there _ (as_many (length there) (length domains) required))
      λ m _. domain_marks-Same scope asset latest domains [] s

pub watermark-Same :
    (scope asset : String) (s : FeatureWindowEngine)
    → 0 < length s.settings.required_domains
    → Yields (watermark scope asset s) (λ r. Same s r.1)
unfolding watermark
watermark-Same scope asset s required =
    Yields-bind (λ r. Same s r.1.1) (λ r. Same s r.1) (watermarks scope asset s) _
      (watermarks-Same scope asset s required) λ r same. same

-- What holds of the revisions of a window.
abbrev pub Kept : Dict WindowKey (List FeatureSignal) → WindowKey → List FeatureSnapshot → Type 0
Kept events key rs = IsHistory key rs × (0 < length rs) × Bound key events

module _ (env : Environment) where
  -- A new revision continues the history of its window.
  snapshot-IsHistory :
      (key : WindowKey) (signals : List FeatureSignal) (prior : List FeatureSnapshot)
      (finalize : Bool) (s : FeatureWindowEngine)
      → IsHistory key prior
      → IsHistory key (prior ++ snapshot_of env key signals prior finalize s ∷ [])
  unfolding snapshot_of
  snapshot-IsHistory (scope, (asset, (start, interval))) signals prior finalize s (chain, own) =
      let key : WindowKey = (scope, (asset, (start, interval))) in
      let r = snapshot_of env key signals prior finalize s in
      let follows : Follows (last? prior) r =
        next_revision-Follows (last? prior) finalize r
          (λ p last. last-agree 0 none prior p chain last) refl refl in
      (
        Chain-append 0 none prior r chain (omega arith)
            (subst (λ p. Follows p r) (sym (last_or-none prior)) follows),
        All-append (OfWindow key) prior (r ∷ []) own ((refl, refl, refl, refl, refl), tt),
      )

  pub prior-IsHistory :
      (events : Dict WindowKey (List FeatureSignal)) (key : WindowKey)
      (revisions : Dict WindowKey (List FeatureSnapshot))
      → Entries (Kept events) revisions
      → IsHistory key (or_else (lookup key revisions) [])
  prior-IsHistory events key revisions kept = elim (Option-cases (lookup key revisions)) [
    | inl absent ↦ rw absent (tt, tt)
    | inr (rs, found) ↦ rw found (lookup-Entries (Kept events) key rs revisions kept found).0
  ]

  pub add_revision-Kept :
      (key : WindowKey) (force_final : Bool) (signals : List FeatureSignal) (mark : Option ℤ)
      (events : Dict WindowKey (List FeatureSignal)) (s : FeatureWindowEngine)
      → Bound key events
      → Entries (Kept events) s.revisions
      → Entries (Kept events) (add_revision env key force_final signals mark s).1.revisions
  unfolding add_revision
  add_revision-Kept key force_final signals mark events s known kept =
      let prior = or_else (lookup key s.revisions) [] in
      let r =
        snapshot_of env key (sorted signal_leb signals) prior (force_final || is_closed key mark)
          s in
      insert-Entries (Kept events) key (prior ++ r ∷ []) s.revisions
        (
          snapshot-IsHistory key (sorted signal_leb signals) prior
              (force_final || is_closed key mark) s (prior-IsHistory events key s.revisions kept),
          omega (arith, length-append prior (r ∷ [])),
          known,
        )
        kept
