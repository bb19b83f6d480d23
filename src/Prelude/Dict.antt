-- ===== src/Prelude/Dict.antt =====
-- A Python dict as an association list, over keys that carry a Boolean equality.
use Prim.Native.Nat.{ℕ, ◌+◌}
use Prim.Native.String.{String}
use mathlib.Core.Path.{◌≡◌, refl, sym, subst}
use mathlib.Core.Logic.{◌↔◌, inl, inr}
use mathlib.Core.Bool.{Bool, true, false, ◌&&◌}
use mathlib.Core.Option.{Option, none, some, some-injective}
use mathlib.Core.List.{List, [], ◌∷◌}
use native.Mathlib.Omega.{arith}
use text.Mathlib.Text.{◌==◌ as str_eq}
use text.Mathlib.TextEquality.{eq_iff}
use scam2marke.Prelude.Lists.{length}
use scam2marke.Prelude.Tests.{◌==◌ as nat_beq, ==_iff, Bool-cases, if◌then◌else◌}

pub record Eq {ℓ} (A : Type ℓ) : Type ℓ where
  pub beq : A → A → Bool
  pub beq_iff : (a b : A) → (beq a b ≡ true) ↔ (a ≡ b)

instance abbrev pub nat_eq : Eq ℕ
nat_eq = record { beq = nat_beq; beq_iff = ==_iff }

instance abbrev pub string_eq : Eq String
string_eq = record { beq = str_eq; beq_iff = eq_iff }

module _ {ℓ κ} {A : Type ℓ} {B : Type κ} ⦃a : Eq A⦄ ⦃b : Eq B⦄ where
  abbrev pub pair_beq : A × B → A × B → Bool
  pair_beq (x, y) (z, w) = a.beq x z && b.beq y w

  pub pair_beq_iff : (p q : A × B) → (pair_beq p q ≡ true) ↔ (p ≡ q)
  pair_beq_iff (x, y) (z, w) = ground (arith, a.beq_iff x z, b.beq_iff y w)

  instance abbrev pub pair_eq : Eq (A × B)
  pair_eq = record { beq = pair_beq; beq_iff = pair_beq_iff }

module _ {ℓ} {A : Type ℓ} ⦃a : Eq A⦄ where
  abbrev pub option_beq : Option A → Option A → Bool
  option_beq none none = true
  option_beq (some x) (some y) = a.beq x y
  option_beq none (some y) = false
  option_beq (some x) none = false

  pub option_beq_iff : (p q : Option A) → (option_beq p q ≡ true) ↔ (p ≡ q)
  option_beq_iff none none = ground arith
  option_beq_iff (some x) (some y) = ground (arith, a.beq_iff x y)
  option_beq_iff none (some y) = ground arith
  option_beq_iff (some x) none = ground arith

  instance abbrev pub option_eq : Eq (Option A)
  option_eq = record { beq = option_beq; beq_iff = option_beq_iff }

abbrev pub Dict {ℓ κ} : Type ℓ → Type κ → Type (ℓ ⊔ κ)
Dict K V = List (K × V)

module _ {ℓ κ} {K : Type ℓ} {V : Type κ} ⦃e : Eq K⦄ where
  -- `d.get(k)`
  unfoldable pub lookup : K → Dict K V → Option V
  lookup k [] = none
  lookup k ((j, v) ∷ d) = if e.beq j k then some v else lookup k d

  -- `d[k] = v`
  unfoldable pub insert : K → V → Dict K V → Dict K V
  insert k v [] = (k, v) ∷ []
  insert k v ((j, w) ∷ d) = if e.beq j k then (j, v) ∷ d else (j, w) ∷ insert k v d

  pub lookup-insert :
      (k j : K) (v : V) (d : Dict K V)
      → lookup j (insert k v d) ≡ (if e.beq k j then some v else lookup j d)
  unfolding lookup insert
  lookup-insert k j v [] = refl
  lookup-insert k j v ((i, w) ∷ d) =
      ground (arith, e.beq_iff k j, e.beq_iff i k, e.beq_iff i j, lookup-insert k j v d)

  -- `k in d`
  abbrev pub Bound : K → Dict K V → Type κ
  Bound k d = (v : V) × (lookup k d ≡ some v)

  pub insert-Bound : (k j : K) (v : V) (d : Dict K V) → Bound j d → Bound j (insert k v d)
  insert-Bound k j v d (w, found) = elim (Bool-cases (e.beq k j)) [
    | inl same ↦ (v, rw (lookup-insert k j v d, same) refl)
    | inr other ↦ (w, rw (lookup-insert k j v d, other) found)
  ]

  pub insert-Bound_self : (k : K) (v : V) (d : Dict K V) → Bound k (insert k v d)
  insert-Bound_self k v d = (v, rw (lookup-insert k k v d, (e.beq_iff k k).1 refl) refl)

  pub head-Bound : (k : K) (v : V) (d : Dict K V) → Bound k ((k, v) ∷ d)
  unfolding lookup
  head-Bound k v d = (v, rw ((e.beq_iff k k).1 refl) refl)

  pub tail-Bound : (k j : K) (v : V) (d : Dict K V) → Bound j d → Bound j ((k, v) ∷ d)
  unfolding lookup
  tail-Bound k j v d (w, found) = elim (Bool-cases (e.beq k j)) [
    | inl same ↦ (v, rw same refl)
    | inr other ↦ (w, rw other found)
  ]

  -- A key that is not there adds one entry.
  pub length-insert :
      (k : K) (v : V) (d : Dict K V) → lookup k d ≡ none → length (insert k v d) ≡ length d + 1
  unfolding lookup insert
  length-insert k v [] absent = omega arith
  length-insert k v ((j, w) ∷ d) absent = elim (Bool-cases (e.beq j k)) [
    | inl same ↦ absurd (cc (rw same at absent))
    | inr other ↦ let more = length-insert k v d (rw other at absent) in rw other (omega arith)
  ]

module _ {ℓ κ μ} {K : Type ℓ} {V : Type κ} ⦃e : Eq K⦄ (P : K → V → Type μ) where
  -- Every entry satisfies `P`.
  abbrev pub Entries : Dict K V → Type μ
  Entries [] = Unit
  Entries ((k, v) ∷ d) = P k v × Entries d

  pub insert-Entries : (k : K) (v : V) (d : Dict K V) → P k v → Entries d → Entries (insert k v d)
  unfolding insert
  insert-Entries k v [] p h = (p, h)
  insert-Entries k v ((j, w) ∷ d) p h = elim (Bool-cases (e.beq j k)) [
    | inl same ↦ rw same (subst (λ i. P i v) (sym ((e.beq_iff j k).0 same)) p, h.1)
    | inr other ↦ rw other (h.0, insert-Entries k v d p h.1)
  ]

  pub lookup-Entries : (k : K) (v : V) (d : Dict K V) → Entries d → lookup k d ≡ some v → P k v
  unfolding lookup
  lookup-Entries k v [] h f = absurd (cc)
  lookup-Entries k v ((j, w) ∷ d) h f = elim (Bool-cases (e.beq j k)) [
    | inl same ↦
        subst (λ i. P i v) ((e.beq_iff j k).0 same)
          (subst (P j) (some-injective _ _ (rw same at f)) h.0)
    | inr other ↦ lookup-Entries k v d h.1 (rw other at f)
  ]

pub Entries-mono {ℓ κ μ ν} :
    {K : Type ℓ} {V : Type κ} ⦃e : Eq K⦄ {P : K → V → Type μ} {Q : K → V → Type ν}
    → ((k : K) (v : V) → P k v → Q k v)
    → (d : Dict K V) → Entries P d
    → Entries Q d
Entries-mono h [] entries = tt
Entries-mono h ((k, v) ∷ d) entries = (h k v entries.0, Entries-mono h d entries.1)

module _ {ℓ} {A : Type ℓ} ⦃e : Eq A⦄ where
  pub beq_refl : (a : A) → e.beq a a ≡ true
  beq_refl a = (e.beq_iff a a).1 refl

  -- `a in s`
  unfoldable pub contains : List A → A → Bool
  contains [] a = false
  contains (x ∷ xs) a = if e.beq x a then true else contains xs a

  pub contains-cons_self : (a : A) (xs : List A) → contains (a ∷ xs) a ≡ true
  unfolding contains
  contains-cons_self a xs = rw (beq_refl a)

  -- `s.discard(a)`
  unfoldable pub discard : A → List A → List A
  discard a [] = []
  discard a (x ∷ xs) = let rest = discard a xs in if e.beq x a then rest else x ∷ rest

  pub contains-discard :
      (a b : A) (xs : List A)
      → contains (discard a xs) b ≡ (if e.beq a b then false else contains xs b)
  unfolding contains discard
  contains-discard a b [] = ground arith
  contains-discard a b (x ∷ xs) =
      ground (arith, e.beq_iff a b, e.beq_iff x a, e.beq_iff x b, contains-discard a b xs)
