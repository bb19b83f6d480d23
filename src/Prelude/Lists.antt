-- ===== src/Prelude/Lists.antt =====
-- Lists measured and indexed by native numbers, under the library's names, and Python's list tests.
use Prim.Native.Nat.{ℕ, zero, suc, ◌+◌, ◌-◌, ◌≤◌}
use mathlib.Core.Path.{◌≡◌, refl, ap}
use mathlib.Core.List.{List, [], ◌∷◌, ◌++◌, map}
use mathlib.Core.Logic.{◌⊎◌, inl, inr}
use mathlib.Core.Bool.{Bool, true, false, not, ◌||◌, ◌&&◌}
use mathlib.Core.Option.{Option, none, some}
use native.Mathlib.Omega.{arith}
use scam2marke.Prelude.Tests.{if◌then◌else◌, Bool-cases}

module _ {ℓ} {A : Type ℓ} where
  abbrev pub length : List A → ℕ
  length [] = 0
  length (x ∷ xs) = suc (length xs)

  -- The truth of a list.
  abbrev pub nonempty : List A → Bool
  nonempty [] = false
  nonempty (x ∷ xs) = true

  abbrev pub drop : ℕ → List A → List A
  drop zero xs = xs
  drop (suc n) [] = []
  drop (suc n) (x ∷ xs) = drop n xs

  abbrev pub last? : List A → Option A
  last? [] = none
  last? (x ∷ []) = some x
  last? (x ∷ y ∷ xs) = last? (y ∷ xs)

  -- `[x for x in xs if p(x)]`
  abbrev pub keep : (A → Bool) → List A → List A
  keep p [] = []
  keep p (x ∷ xs) = let rest = keep p xs in if p x then x ∷ rest else rest

  abbrev pub any_of : (A → Bool) → List A → Bool
  any_of p [] = false
  any_of p (x ∷ xs) = p x || any_of p xs

  abbrev pub all_of : (A → Bool) → List A → Bool
  all_of p [] = true
  all_of p (x ∷ xs) = p x && all_of p xs

  pub length-append : (xs ys : List A) → length (xs ++ ys) ≡ length xs + length ys
  length-append [] ys = omega arith
  length-append (x ∷ xs) ys = omega (arith, length-append xs ys)

  pub append_nil : (xs : List A) → xs ++ [] ≡ xs
  append_nil [] = refl
  append_nil (x ∷ xs) = ap (λ ys. x ∷ ys) (append_nil xs)

  pub append_snoc : (xs : List A) (a : A) (zs : List A) → (xs ++ a ∷ []) ++ zs ≡ xs ++ a ∷ zs
  append_snoc [] a zs = refl
  append_snoc (x ∷ xs) a zs = ap (λ ws. x ∷ ws) (append_snoc xs a zs)

  pub length-drop : (n : ℕ) (xs : List A) → length (drop n xs) ≡ length xs - n
  length-drop zero xs = omega arith
  length-drop (suc n) [] = omega arith
  length-drop (suc n) (x ∷ xs) = omega (arith, length-drop n xs)

module _ {ℓ κ} {A : Type ℓ} where
  -- A predicate by recursion computes to tuples, which the tactics read and build.
  abbrev pub All : (A → Type κ) → List A → Type κ
  All P [] = Unit
  All P (x ∷ xs) = P x × All P xs

  pub All-append : (P : A → Type κ) (xs ys : List A) → All P xs → All P ys → All P (xs ++ ys)
  All-append P [] ys hx hy = hy
  All-append P (x ∷ xs) ys hx hy = (hx.0, All-append P xs ys hx.1 hy)

module _ {ℓ} {A : Type ℓ} (before : A → A → Bool) where
  -- Python's `sorted`, which is stable.
  unfoldable pub insert_sorted : A → List A → List A
  insert_sorted a [] = a ∷ []
  insert_sorted a (x ∷ xs) = if before a x then a ∷ x ∷ xs else x ∷ insert_sorted a xs

  unfoldable pub sorted : List A → List A
  unfolding insert_sorted
  sorted [] = []
  sorted (x ∷ xs) = insert_sorted x (sorted xs)

module _ {ℓ κ} {A : Type ℓ} (P : A → Type κ) (before : A → A → Bool) where
  pub insert_sorted-All : (a : A) (xs : List A) → P a → All P xs → All P (insert_sorted before a xs)
  unfolding insert_sorted
  insert_sorted-All a [] p all = (p, tt)
  insert_sorted-All a (x ∷ xs) p all = elim (Bool-cases (before a x)) [
    | inl first ↦ rw first (p, all)
    | inr later ↦ rw later (all.0, insert_sorted-All a xs p all.1)
  ]

  pub sorted-All : (xs : List A) → All P xs → All P (sorted before xs)
  unfolding sorted
  sorted-All [] all = tt
  sorted-All (x ∷ xs) all = insert_sorted-All x (sorted before xs) all.0 (sorted-All xs all.1)

  pub All-insert_sorted : (a : A) (xs : List A) → All P (insert_sorted before a xs) → P a × All P xs
  unfolding insert_sorted
  All-insert_sorted a [] all = (all.0, tt)
  All-insert_sorted a (x ∷ xs) all = elim (Bool-cases (before a x)) [
    | inl first ↦ rw first at all
    | inr later ↦
        let split = rw later at all in
        let rest = All-insert_sorted a xs split.1 in (rest.0, (split.0, rest.1))
  ]

  -- What holds of the sorted elements holds of the elements.
  pub All-sorted : (xs : List A) → All P (sorted before xs) → All P xs
  unfolding sorted
  All-sorted [] all = tt
  All-sorted (x ∷ xs) all =
      let split = All-insert_sorted x (sorted before xs) all in (split.0, All-sorted xs split.1)

pub All-mono {ℓ κ μ} :
    {A : Type ℓ} {P : A → Type κ} {Q : A → Type μ}
    → ((a : A) → P a → Q a)
    → (xs : List A) → All P xs
    → All Q xs
All-mono h [] all = tt
All-mono h (x ∷ xs) all = (h x all.0, All-mono h xs all.1)

pub All-map {ℓ κ μ ν} :
    {A : Type ℓ} {B : Type κ} (P : A → Type μ) (Q : B → Type ν) (f : A → B)
    → ((a : A) → P a → Q (f a))
    → (xs : List A) → All P xs
    → All Q (map f xs)
All-map P Q f h [] all = tt
All-map P Q f h (x ∷ xs) all = (h x all.0, All-map P Q f h xs all.1)

pub length-map {ℓ κ} :
    {A : Type ℓ} {B : Type κ} (f : A → B) (xs : List A) → length (map f xs) ≡ length xs
length-map f [] = refl
length-map f (x ∷ xs) = omega (arith, length-map f xs)

module _ {ℓ} {A : Type ℓ} where
  -- `xs[:n]`
  abbrev pub take : ℕ → List A → List A
  take zero xs = []
  take (suc n) [] = []
  take (suc n) (x ∷ xs) = x ∷ take n xs

  pub length-take : (n : ℕ) (xs : List A) → length (take n xs) ≤ n
  length-take zero xs = omega arith
  length-take (suc n) [] = omega arith
  length-take (suc n) (x ∷ xs) = omega (arith, length-take n xs)

module _ {ℓ} {A : Type ℓ} where
  pub keep-keep : (p q : A → Bool) (xs : List A) → keep p (keep q xs) ≡ keep q (keep p xs)
  keep-keep p q [] = refl
  keep-keep p q (x ∷ xs) = grind (arith, keep-keep p q xs)

  pub nonempty-keep :
      (p : A → Bool) (xs : List A)
      → nonempty xs ≡ true
      → nonempty (keep p xs) || nonempty (keep (λ x. not (p x)) xs) ≡ true
  nonempty-keep p [] h = absurd (cc)
  nonempty-keep p (x ∷ xs) h = ground arith

  -- Some element satisfies `P`.
  abbrev pub Any : (A → Type 0) → List A → Type 0
  Any P [] = ⊥
  Any P (x ∷ xs) = P x ⊎ Any P xs

  pub Any-keep :
      (P : A → Type 0) (p : A → Bool) (xs : List A)
      → Any P (keep p xs)
      → Any (λ x. P x × (p x ≡ true)) xs
  Any-keep P p [] found = found
  Any-keep P p (x ∷ xs) found = elim (Bool-cases (p x)) [
    | inl kept ↦ elim (rw kept at found) [
      | inl here ↦ inl (here, kept)
      | inr later ↦ inr (Any-keep P p xs later)
    ]
    | inr lost ↦ inr (Any-keep P p xs (rw lost at found))
  ]

-- Every item of a list is one of its items.
pub All-member : {A : Type 0} (xs : List A) → All (λ x. Any (λ y. y ≡ x) xs) xs
All-member [] = tt
All-member (x ∷ xs) = (inl refl, All-mono (λ y found. inr found) xs (All-member xs))

pub Any-append {ℓ} :
    {A : Type ℓ} (P : A → Type 0) (xs ys : List A) → Any P xs ⊎ Any P ys → Any P (xs ++ ys)
Any-append P [] ys (inl found) = absurd found
Any-append P [] ys (inr found) = found
Any-append P (x ∷ xs) ys (inl (inl here)) = inl here
Any-append P (x ∷ xs) ys (inl (inr later)) = inr (Any-append P xs ys (inl later))
Any-append P (x ∷ xs) ys (inr found) = inr (Any-append P xs ys (inr found))

pub Any-mono {ℓ} :
    {A : Type ℓ} {P : A → Type 0} {Q : A → Type 0}
    → ((a : A) → P a → Q a)
    → (xs : List A) → Any P xs
    → Any Q xs
Any-mono h [] found = found
Any-mono h (x ∷ xs) (inl here) = inl (h x here)
Any-mono h (x ∷ xs) (inr later) = inr (Any-mono h xs later)

pub Any-map {ℓ κ} :
    {A : Type ℓ} {B : Type κ} (P : B → Type 0) (f : A → B) (xs : List A)
    → Any P (map f xs)
    → Any (λ a. P (f a)) xs
Any-map P f [] found = found
Any-map P f (x ∷ xs) (inl here) = inl here
Any-map P f (x ∷ xs) (inr later) = inr (Any-map P f xs later)

pub keep-map {ℓ κ} :
    {A : Type ℓ} {B : Type κ} (f : A → B) (p : B → Bool) (xs : List A)
    → keep p (map f xs) ≡ map f (keep (λ a. p (f a)) xs)
keep-map f p [] = refl
keep-map f p (x ∷ xs) = elim (Bool-cases (p (f x))) [
  | inl kept ↦ rw kept (ap (λ ys. f x ∷ ys) (keep-map f p xs))
  | inr lost ↦ rw lost (keep-map f p xs)
]
