-- ===== src/Features/Engine/Forced.antt =====
-- Windows that the watermark has passed, and revisions that are forced to be final.
use scam2marke.Prelude.{
  sorted, ◌<◌, ◌≡◌, refl, subst, ◌⊎◌, inl, inr, String, Bool, true, false, not, ◌&&◌, List, [], ◌∷◌,
  ◌++◌, Option, none, some, arith, length, last?, or_else, Bool-cases, Option-cases,
}
use mathlib.Core.Option.{some-injective}
use scam2marke.Prelude.Int.{ℤ}
use scam2marke.Prelude.Dict.{
  Dict, string_eq, nat_eq, pair_eq, pair_beq, lookup, lookup-insert, Bound,
}
use scam2marke.Features.Types.{
  FeatureSignal, FeatureSnapshot, is_provisional, WindowKey, FeatureWindowEngine,
}
use scam2marke.Features.Sources.{watermark}
use scam2marke.Features.Engine.{
  Environment, concerns, is_closed, signal_leb, next_revision, snapshot_of, add_revision,
  build_revision, is_eligible,
}
use scam2marke.Features.Engine.Revisions.{last?-snoc}
use scam2marke.Features.Engine.Invariant.{Yields, Yields-bind, Same}
use scam2marke.Features.Engine.Loops.{
  Frame, Holds, Same-Holds, add_revision-Holds, construct-total, watermark-Holds,
}

-- The last revision is final or corrected.
abbrev pub LastFinal : List FeatureSnapshot → Type 0
LastFinal rs = (r : FeatureSnapshot) × (last? rs ≡ some r) × (r.is_final ≡ true)

-- A window of the asset that ends by the mark.
abbrev pub IsPassed : String → String → ℤ → WindowKey → Type 0
IsPassed scope asset mark key =
    (concerns scope asset key ≡ true) × (is_closed key (some mark) ≡ true)

-- Every window that was passed is final.
abbrev pub Settled : String → String → ℤ → Dict WindowKey (List FeatureSnapshot) → Type 0
Settled scope asset mark d =
    (key : WindowKey) (rs : List FeatureSnapshot)
    → lookup key d ≡ some rs
    → IsPassed scope asset mark key
    → LastFinal rs

-- A window of the asset that ends by the mark, whose last revision is provisional.
abbrev pub left_open : String → String → ℤ → WindowKey → List FeatureSnapshot → Bool
left_open scope asset mark key rs =
    concerns scope asset key
    && is_closed key (some mark)
    && (elim (last? rs) [ none ↦ false | some r ↦ not r.is_final ])

pub not_left_open :
    (scope asset : String) (mark : ℤ) (d : Dict WindowKey (List FeatureSnapshot)) (key : WindowKey)
    → Settled scope asset mark d
    → left_open scope asset mark key (or_else (lookup key d) []) ≡ false
not_left_open scope asset mark d key settled = elim (Option-cases (lookup key d)) [
  | inl absent ↦ rw absent (ground arith)
  | inr (rs, there) ↦ elim (Bool-cases (concerns scope asset key && is_closed key (some mark))) [
    | inr other ↦ rw (there, other) refl
    | inl passed ↦
        let (r, last, final) = settled key rs there (ground (arith, passed)) in
        rw (there, passed, last, final) refl
  ]
]

next_revision-final :
    (last : Option FeatureSnapshot) → not (is_provisional (next_revision last true).0) ≡ true
unfolding next_revision
next_revision-final none = refl
next_revision-final (some p) = ground arith

last-found :
    (rs : List FeatureSnapshot) → 0 < length rs → Yields (last? rs) (λ r. last? rs ≡ some r)
last-found [] some_one = absurd (omega (arith, some_one))
last-found (r ∷ []) some_one = refl
last-found (r ∷ x ∷ rs) some_one = last-found (x ∷ rs) (omega arith)

stays_final : (final closed : Bool) → (not final && closed) ≡ false → closed ≡ true → final ≡ true
stays_final final closed stays passed = ground arith

pub eligible-tells :
    (scope asset : String) (mark : ℤ) (key : WindowKey) (rs : List FeatureSnapshot) (own : Bool)
    → 0 < length rs
    → Yields
        (is_eligible mark key rs own)
        (λ b. b ≡ false → own ≡ true → is_closed key (some mark) ≡ true → LastFinal rs)
unfolding is_eligible
eligible-tells scope asset mark key rs false some_one = λ stays own closed. absurd (cc)
eligible-tells scope asset mark key rs true some_one =
    Yields-bind (λ r. last? rs ≡ some r)
      (λ b. b ≡ false → true ≡ true → is_closed key (some mark) ≡ true → LastFinal rs) (last? rs) _
      (last-found rs some_one)
      λ r found stays own closed. (r, found, stays_final r.is_final _ stays closed)

module _ (env : Environment) where
  snapshot_of-final :
      (key : WindowKey) (signals : List FeatureSignal) (prior : List FeatureSnapshot)
      (s : FeatureWindowEngine)
      → (snapshot_of env key signals prior true s).is_final ≡ true
  unfolding snapshot_of
  snapshot_of-final (scope, (asset, (start, interval))) signals prior s =
      next_revision-final (last? prior)

  -- A forced revision leaves a window final, and the other windows as they were.
  unfoldable pub Forces : WindowKey → FeatureWindowEngine → FeatureWindowEngine → Type 0
  Forces key s t =
      (k : WindowKey) (rs : List FeatureSnapshot)
      → lookup k t.revisions ≡ some rs
      → LastFinal rs ⊎ ((pair_beq key k ≡ false) × (lookup k s.revisions ≡ some rs))

  add_revision-Forces :
      (key : WindowKey) (signals : List FeatureSignal) (mark : Option ℤ) (s : FeatureWindowEngine)
      → Forces key s (add_revision env key true signals mark s).1
  unfolding add_revision Forces
  add_revision-Forces key signals mark s k rs found =
      let prior = or_else (lookup key s.revisions) [] in
      let r = snapshot_of env key (sorted signal_leb signals) prior true s in
      elim (Bool-cases (pair_beq key k)) [
        | inl same ↦ inl (
            subst LastFinal
              (some-injective _ _
                (rw (lookup-insert key k (prior ++ r ∷ []) s.revisions, same) at found))
              (r, last?-snoc prior r, snapshot_of-final key (sorted signal_leb signals) prior s))
        | inr other ↦
            inr (other, rw (lookup-insert key k (prior ++ r ∷ []) s.revisions, other) at found)
      ]

  pub build_revision-Forces :
      (f : Frame) (key : WindowKey) (s : FeatureWindowEngine)
      → Bound key f.events
      → Holds f s
      → Yields (build_revision env key true s) (λ r. Holds f r.1 × Forces key s r.1)
  unfolding build_revision Forces
  build_revision-Forces f key s known h =
      Yields-bind (λ signals. lookup key f.events ≡ some signals)
        (λ r. Holds f r.1 × Forces key s r.1) (lookup key s.events) _ (rw (h.events, known.1) refl)
        λ signals there.
          Yields-bind (λ r. Same s r.1) (λ r. Holds f r.1 × Forces key s r.1)
            (watermark key.0 key.1.0 s) _ (watermark-Holds env f key.0 key.1.0 s h)
            λ r same.
              construct-total env f key true signals r.0 r.1 (λ r. Holds f r.1 × Forces key s r.1)
                there (Same-Holds env f s r.1 same h)
                (
                  add_revision-Holds env f key true signals r.0 r.1 known
                      (Same-Holds env f s r.1 same h),
                  λ k rs found.
                      subst
                        (λ d. LastFinal rs ⊎ ((pair_beq key k ≡ false) × (lookup k d ≡ some rs)))
                        same.revisions (add_revision-Forces key signals r.0 r.1 k rs found),
                )
