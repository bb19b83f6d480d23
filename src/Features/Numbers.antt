-- ===== src/Features/Numbers.antt =====
-- The arithmetic of the features: a float is a whole number of millionths, and a product or a
-- quotient is cut towards 0 to that.
use scam2marke.Prelude.{
  ℕ, suc, ◌+◌, ◌*◌, ◌/◌, Bool, List, [], ◌∷◌, Option, none, some, ltb, max, min, length, keep,
  if◌then◌else◌,
}
use scam2marke.Prelude.Int.{ℤ, pos, negsuc, minus, pos_part, neg_part, sub_ℕ, ◌+ℤ◌, abs, leb_ℤ}
use scam2marke.Prelude.Dict.{Eq, contains}
use scam2marke.Prelude.Score.{one}

-- A whole number, as a float.
abbrev pub whole : ℕ → ℤ
whole n = pos (n * one)

unfoldable pub mul_ℤ : ℤ → ℤ → ℤ
mul_ℤ a b =
    sub_ℕ (pos_part a * pos_part b + neg_part a * neg_part b)
      (pos_part a * neg_part b + neg_part a * pos_part b)

unfoldable pub quot_ℤ : ℤ → ℕ → ℤ
quot_ℤ (pos n) k = pos (n / k)
quot_ℤ (negsuc n) k = minus (suc n / k)

abbrev sign : ℤ → ℤ
sign (pos n) = pos 1
sign (negsuc n) = negsuc 0

unfoldable pub product : ℤ → ℤ → ℤ
unfolding mul_ℤ quot_ℤ
product a b = quot_ℤ (mul_ℤ a b) one

-- `a / b`, for `b` other than 0.
unfoldable pub quotient : ℤ → ℤ → ℤ
unfolding mul_ℤ quot_ℤ
quotient a b = quot_ℤ (mul_ℤ (mul_ℤ a (sign b)) (pos one)) (abs b)

-- The truth of a number.
abbrev pub is_nonzero : ℤ → Bool
is_nonzero a = ltb 0 (abs a)

abbrev pub min_ℤ : ℤ → ℤ → ℤ
min_ℤ a b = if leb_ℤ a b then a else b

unfoldable pub sum : List ℤ → ℤ
unfolding ◌+ℤ◌
sum [] = pos 0
sum (x ∷ xs) = x +ℤ sum xs

-- `fmean` of one or more numbers, and `None` of none.
unfoldable pub mean : List ℤ → Option ℤ
unfolding sum quot_ℤ
mean [] = none
mean (x ∷ xs) = some (quot_ℤ (sum (x ∷ xs)) (suc (length xs)))

unfoldable pub greatest : List ℕ → Option ℕ
greatest [] = none
greatest (x ∷ xs) = elim (greatest xs) [ none ↦ some x | some m ↦ some (max x m) ]

unfoldable pub smallest : List ℕ → Option ℕ
smallest [] = none
smallest (x ∷ xs) = elim (smallest xs) [ none ↦ some x | some m ↦ some (min x m) ]

module _ {ℓ} {A : Type ℓ} ⦃e : Eq A⦄ where
  -- The elements of `set(xs)`.
  unfoldable pub distinct : List A → List A
  unfolding contains
  distinct [] = []
  distinct (x ∷ xs) = let rest = distinct xs in if contains rest x then rest else x ∷ rest

  unfoldable most_common : List A → List A → ℕ
  most_common all [] = 0
  most_common all (x ∷ xs) = max (length (keep (e.beq x) all)) (most_common all xs)

  -- `_concentration`
  unfoldable pub concentration : List A → ℤ
  unfolding most_common
  concentration [] = pos 0
  concentration (x ∷ xs) = pos (most_common (x ∷ xs) (x ∷ xs) * one / suc (length xs))
