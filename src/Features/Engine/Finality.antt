-- ===== src/Features/Engine/Finality.antt =====
-- `_finalize_eligible` closes every window that the watermark has passed.
use scam2marke.Prelude.{
  ◌≡◌, sym, subst, ◌⊎◌, inl, inr, String, true, false, List, [], ◌∷◌, some, or_else, Bool-cases,
}
use mathlib.Core.Option.{some-injective}
use scam2marke.Prelude.Int.{ℤ}
use scam2marke.Prelude.Dict.{
  Dict, string_eq, nat_eq, pair_eq, pair_beq, pair_beq_iff, lookup, Entries,
}
use scam2marke.Features.Types.{FeatureSnapshot, WindowKey, FeatureWindowEngine}
use scam2marke.Features.Sources.{watermark}
use scam2marke.Features.Engine.{
  Environment, concerns, is_closed, build_revision, is_eligible, finalize, finalize_at,
  finalize_eligible,
}
use scam2marke.Features.Engine.Invariant.{
  Yields, Yields-bind, Yields-mono, Same, watermark-Same, Kept,
}
use scam2marke.Features.Engine.Loops.{Frame, Holds, Same-Holds}
use scam2marke.Features.Engine.Forced.{
  LastFinal, IsPassed, Settled, left_open, not_left_open, eligible-tells, Forces,
  build_revision-Forces,
}
use scam2marke.Features.Engine.Windows.{IsValid, frame_of, frame_of-Holds}

module _ (key k : WindowKey) (prior before : List FeatureSnapshot)
    (d : Dict WindowKey (List FeatureSnapshot)) where
  head_other :
      pair_beq key k ≡ false → lookup k ((key, prior) ∷ d) ≡ some before → lookup k d ≡ some before
  unfolding lookup
  head_other other there = rw other at there

  head_same : pair_beq key k ≡ true → lookup k ((key, prior) ∷ d) ≡ some before → prior ≡ before
  unfolding lookup
  head_same same there = some-injective _ _ (rw same at there)

nothing_bound :
    (k : WindowKey) (before : List FeatureSnapshot)
    → lookup {V = List FeatureSnapshot} k [] ≡ some before
    → ⊥
unfolding lookup
nothing_bound k before there = cc

module _ (env : Environment) where
  -- A passed window is final, or the rest of the loop will find it so or make it so.
  Pending :
      String → String → ℤ → Dict WindowKey (List FeatureSnapshot) → FeatureWindowEngine → Type 0
  Pending scope asset mark d s =
      (k : WindowKey) (rs : List FeatureSnapshot)
      → lookup k s.revisions ≡ some rs
      → IsPassed scope asset mark k
      → LastFinal rs
        ⊎ ((before : List FeatureSnapshot) × (lookup k d ≡ some before)
            × (LastFinal before → LastFinal rs))

  Pending-stays :
      (scope asset : String) (mark : ℤ) (key : WindowKey) (prior : List FeatureSnapshot)
      (d : Dict WindowKey (List FeatureSnapshot)) (s : FeatureWindowEngine)
      → (concerns scope asset key ≡ true → is_closed key (some mark) ≡ true → LastFinal prior)
      → Pending scope asset mark ((key, prior) ∷ d) s
      → Pending scope asset mark d s
  unfolding Pending
  Pending-stays scope asset mark key prior d s tells pending k rs found passed =
      elim (pending k rs found passed) [
        | inl final ↦ inl final
        | inr (before, there, kept) ↦ elim (Bool-cases (pair_beq key k)) [
          | inr other ↦ inr (before, head_other key k prior before d other there, kept)
          | inl same ↦
              let (own, closed) =
                subst (IsPassed scope asset mark) (sym ((pair_beq_iff key k).0 same)) passed in
              inl (
                kept
                  (subst LastFinal (head_same key k prior before d same there) (tells own closed)))
        ]
      ]

  Pending-forced :
      (scope asset : String) (mark : ℤ) (key : WindowKey) (prior : List FeatureSnapshot)
      (d : Dict WindowKey (List FeatureSnapshot)) (s t : FeatureWindowEngine)
      → Forces env key s t
      → Pending scope asset mark ((key, prior) ∷ d) s
      → Pending scope asset mark d t
  unfolding Pending Forces
  Pending-forced scope asset mark key prior d s t forces pending k rs found passed =
      elim (forces k rs found) [
        | inl final ↦ inl final
        | inr (other, found') ↦ elim (pending k rs found' passed) [
          | inl final ↦ inl final
          | inr (before, there, kept) ↦
              inr (before, head_other key k prior before d other there, kept)
        ]
      ]

  finalize-Settles :
      (f : Frame) (scope asset : String) (mark : ℤ) (d : Dict WindowKey (List FeatureSnapshot))
      (s : FeatureWindowEngine)
      → Entries (Kept f.events) d
      → Holds f s
      → Pending scope asset mark d s
      → Yields (finalize env scope asset mark d s) (λ r. Settled scope asset mark r.1.revisions)
  unfolding finalize Pending
  finalize-Settles f scope asset mark [] s kept h pending = λ k rs found passed.
      elim (pending k rs found passed) [
        | inl final ↦ final
        | inr (before, there, _) ↦ absurd (nothing_bound k before there)
      ]
  finalize-Settles f scope asset mark ((key, prior) ∷ d) s kept h pending =
      Yields-bind
        (λ b.
          b ≡ false
          → concerns scope asset key ≡ true
          → is_closed key (some mark) ≡ true
          → LastFinal prior)
        (λ r. Settled scope asset mark r.1.revisions)
        (is_eligible mark key prior (concerns scope asset key)) _
        (eligible-tells scope asset mark key prior (concerns scope asset key) kept.0.1)
        λ eligible tells. elim (Bool-cases eligible) [
          | inr stays ↦
              rw (stays, Yields)
                (finalize-Settles f scope asset mark d s kept.1 h (
                  Pending-stays scope asset mark key prior d s
                    (λ own closed. tells stays own closed) pending))
          | inl closes ↦
              rw (closes, Yields)
                (Yields-bind (λ r. Holds f r.1 × Forces env key s r.1)
                  (λ r. Settled scope asset mark r.1.revisions) (build_revision env key true s) _
                  (build_revision-Forces env f key s kept.0.2 h)
                  λ r (h', forces).
                    Yields-bind (λ r. Settled scope asset mark r.1.revisions)
                      (λ r. Settled scope asset mark r.1.revisions)
                      (finalize env scope asset mark d r.1) _
                      (finalize-Settles f scope asset mark d r.1 kept.1 h'
                        (Pending-forced scope asset mark key prior d s r.1 forces pending))
                      λ r' settled. settled)
        ]

  finalize_at-Settles :
      (f : Frame) (scope asset : String) (mark : ℤ) (s : FeatureWindowEngine)
      → Holds f s
      → Yields
          (finalize_at env scope asset (some mark) s)
          (λ r. Settled scope asset mark r.1.revisions)
  unfolding finalize_at Pending
  finalize_at-Settles f scope asset mark s h =
      finalize-Settles f scope asset mark s.revisions s h.kept h
        λ k rs found passed. inr (rs, found, λ final. final)

  finalize_eligible-settles :
      (scope asset : String) (mark : ℤ) (s t : FeatureWindowEngine)
      → IsValid s
      → watermark scope asset s ≡ some (some mark, t)
      → Yields (finalize_eligible env scope asset s) (λ r. Settled scope asset mark r.1.revisions)
  unfolding finalize_eligible
  finalize_eligible-settles scope asset mark s t valid marked =
      let f = frame_of s valid in
      let same : Same s t =
        subst (λ o. Yields o (λ r. Same s r.1)) marked
          (watermark-Same scope asset s valid.required) in
      rw marked (
        finalize_at-Settles f scope asset mark t
          (Same-Holds env f s t same (frame_of-Holds s valid)))

  -- Where the watermark of an asset is known, `_finalize_eligible` returns and leaves no window of
  -- the asset that ends by it with a provisional last revision.
  pub finalize_eligible-final :
      (scope asset : String) (mark : ℤ) (s t : FeatureWindowEngine) (key : WindowKey)
      → IsValid s
      → watermark scope asset s ≡ some (some mark, t)
      → Yields
          (finalize_eligible env scope asset s)
          (λ r. left_open scope asset mark key (or_else (lookup key r.1.revisions) []) ≡ false)
  finalize_eligible-final scope asset mark s t key valid marked =
      Yields-mono (λ r. Settled scope asset mark r.1.revisions)
        (λ r. left_open scope asset mark key (or_else (lookup key r.1.revisions) []) ≡ false)
        (finalize_eligible env scope asset s)
        (λ r settled. not_left_open scope asset mark r.1.revisions key settled)
        (finalize_eligible-settles scope asset mark s t valid marked)
