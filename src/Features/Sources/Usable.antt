-- ===== src/Features/Sources/Usable.antt =====
-- A watermark for the fusion needs every required source.
use scam2marke.Prelude.{
  ℕ, ◌+◌, ◌<◌, ◌≤◌, ◌≡◌, ◌⊎◌, refl, sym, ap, subst, ◌∙◌, inl, inr, String, Bool, true, false, not,
  List, [], ◌∷◌, Option, none, some, arith, length, All, All-mono, Bool-cases, Option-cases, ◌==◌,
  ==_iff,
}
use mathlib.Core.Option.{some-injective}
use scam2marke.Prelude.Int.{ℤ}
use scam2marke.Prelude.Dict.{
  Dict, string_eq, pair_eq, pair_beq, pair_beq_iff, lookup, insert, lookup-insert,
}
use scam2marke.Features.Types.{
  SourceDomain, domain_eq, domain_beq, SourceKey, SourceState, Settings, FeatureWindowEngine,
}
use scam2marke.Features.Sources.{
  global_max, domain_mark, set_idle, domain_marks, available, fusion_mark, watermarks, watermark,
}

-- The source is known and not degraded.
abbrev is_usable : Option SourceState → Bool
is_usable none = false
is_usable (some state) = not state.degraded

abbrev pub usable : Dict SourceKey SourceState → SourceKey → Bool
usable d key = is_usable (lookup key d)

abbrev count_of : Option ℤ → ℕ
count_of none = 0
count_of (some t) = 1

-- A mark more or replaced adds one at most, and nothing if it is missing.
available-insert :
    (domain : SourceDomain) (mark : Option ℤ) (marks : Dict SourceDomain (Option ℤ))
    → length (available (insert domain mark marks)) ≤ length (available marks) + count_of mark
unfolding available insert
available-insert domain none [] = omega arith
available-insert domain (some t) [] = omega arith
available-insert domain none ((d, none) ∷ marks) = elim (Bool-cases (domain_beq d domain)) [
  | inl same ↦ rw same (omega arith)
  | inr other ↦ rw other (available-insert domain none marks)
]
available-insert domain (some t) ((d, none) ∷ marks) = elim (Bool-cases (domain_beq d domain)) [
  | inl same ↦ rw same (omega arith)
  | inr other ↦ rw other (available-insert domain (some t) marks)
]
available-insert domain none ((d, some u) ∷ marks) = elim (Bool-cases (domain_beq d domain)) [
  | inl same ↦ rw same (omega arith)
  | inr other ↦ rw other (omega (arith, available-insert domain none marks))
]
available-insert domain (some t) ((d, some u) ∷ marks) = elim (Bool-cases (domain_beq d domain)) [
  | inl same ↦ rw same (omega arith)
  | inr other ↦ rw other (omega (arith, available-insert domain (some t) marks))
]

-- A source that is not usable has no mark.
domain_mark-usable :
    (settings : Settings) (latest maximum : Option ℕ) (state : Option SourceState)
    → (is_usable state ≡ true) ⊎ ((domain_mark settings latest maximum state).0 ≡ none)
unfolding domain_mark
domain_mark-usable settings latest maximum none = inr refl
domain_mark-usable settings latest maximum (some state) = elim (Bool-cases state.degraded) [
  | inl degraded ↦ inr (rw degraded refl)
  | inr well ↦ inl (rw well refl)
]

-- Marking a source idle leaves what is usable.
set_idle-usable :
    (key : SourceKey) (idle : Bool) (d : Dict SourceKey SourceState) (k : SourceKey)
    (state : Option SourceState)
    → lookup key d ≡ state
    → usable (set_idle key idle state d) k ≡ usable d k
set_idle-usable key false d k none found = refl
set_idle-usable key false d k (some state) found = refl
set_idle-usable key true d k none found = refl
set_idle-usable key true d k (some state) found = elim (Bool-cases (pair_beq key k)) [
  | inl same ↦
      let found' = subst (λ j. lookup j d ≡ some state) ((pair_beq_iff key k).0 same) found in
      rw (lookup-insert key k (record state { active = true; idle = true }) d, same, found') refl
  | inr other ↦ rw (lookup-insert key k (record state { active = true; idle = true }) d, other) refl
]

count_le : (mark : Option ℤ) → count_of mark ≤ 1
count_le none = omega arith
count_le (some t) = omega arith

-- All the sources are usable.
abbrev pub AllUsable : String → String → Dict SourceKey SourceState → List SourceDomain → Type 0
AllUsable scope asset d domains = All (λ domain. usable d (scope, (asset, domain)) ≡ true) domains

module _ (scope asset : String) (latest : Option ℕ) where
  domain_marks-AllUsable :
      (domains : List SourceDomain) (marks : Dict SourceDomain (Option ℤ)) (s : FeatureWindowEngine)
      → let found = available (domain_marks scope asset latest domains marks s).0 in
        (length found ≤ length (available marks) + length domains)
        × (AllUsable scope asset s.source_states domains
            ⊎ (length found < length (available marks) + length domains))
  unfolding domain_marks
  domain_marks-AllUsable [] marks s = (omega arith, inl tt)
  domain_marks-AllUsable (domain ∷ domains) marks s =
      let key : SourceKey = (scope, (asset, domain)) in
      let state = lookup key s.source_states in
      let (mark, idle) : Option ℤ × Bool =
        domain_mark s.settings latest (lookup key s.max_event_time) state in
      let d = set_idle key idle state s.source_states in
      let (most, rest) =
        domain_marks-AllUsable domains (insert domain mark marks)
          (record s { source_states = d }) in
      let added = available-insert domain mark marks in
      let one_more = count_le mark in
      (
        omega arith,
        elim (domain_mark-usable s.settings latest (lookup key s.max_event_time) state) [
          | inr unmarked ↦ inr (omega (arith, ap count_of unmarked))
          | inl good ↦ elim rest [
            | inr fewer ↦ inr (omega arith)
            | inl all ↦ inl (
              good,
              All-mono
                  (λ other h.
                    sym
                      (set_idle-usable key idle s.source_states (scope, (asset, other)) state refl)
                    ∙ h)
                  domains all,
            )
          ]
        ],
      )

fusion_mark-all :
    (ts : List ℤ) (all : Bool) (mark : ℤ) → fusion_mark ts all ≡ some (some mark) → all ≡ true
unfolding fusion_mark
fusion_mark-all ts true mark made = refl
fusion_mark-all ts false mark made = absurd (cc)

-- Where the watermark of an asset for the fusion is known, every required source of the asset is
-- known to the engine and not degraded.
pub watermark-usable :
    (scope asset : String) (mark : ℤ) (s t : FeatureWindowEngine)
    → watermark scope asset s ≡ some (some mark, t)
    → AllUsable scope asset s.source_states s.settings.required_domains
unfolding watermark watermarks
watermark-usable scope asset mark s t marked =
    let latest = global_max scope asset s.max_event_time in
    let domains = s.settings.required_domains in
    let found = available (domain_marks scope asset latest domains [] s).0 in
    elim (domain_marks-AllUsable scope asset latest domains [] s).1 [
      | inl all ↦ all
      | inr fewer ↦ elim (Option-cases (fusion_mark found (length found == length domains))) [
        | inl raised ↦ absurd (cc (rw raised at marked))
        | inr (fusion, made) ↦
            let known = ap (λ r. r.0) (some-injective _ _ (rw made at marked)) in
            let as_many =
              fusion_mark-all found (length found == length domains) mark (made ∙ ap some known) in
            absurd (omega (arith, (==_iff (length found) (length domains)).0 as_many))
      ]
    ]
