-- ===== src/Resilience/Batching.antt =====
-- src/scam2market/resilience/batching.py, `bounded_batches`. What the waits of its inner loop answer is
-- a list: the clock and the source decide it together.
use scam2marke.Prelude.{
  ℕ, ◌<◌, ◌≤◌, ◌≡◌, refl, ap, sym, subst, append_nil, append_snoc, ◌∙◌, inl, inr, Bool, true, false,
  ◌||◌, List, [], ◌∷◌, ◌++◌, Option, none, some, arith, length, length-append, All, leb, ltb,
  Bool-cases, if◌then◌else◌,
}

-- An item came, the time of the batch ran out, or the source was exhausted. A pending read that ran
-- out of time answers a later wait.
pub data Wait {ℓ} (A : Type ℓ) : Type ℓ where
  arrives : A → Wait A
  times_out : Wait A
  exhausted : Wait A

module _ {ℓ} {A : Type ℓ} where
  -- `if batch: yield batch`
  abbrev pub flush : List A → List (List A)
  flush [] = []
  flush (a ∷ rest) = (a ∷ rest) ∷ []

  -- The two loops, from the batch under way: the batches yielded. A list of waits that does not end
  -- with `exhausted` leaves the generator waiting.
  unfoldable pub batches_from : ℕ → List A → List (Wait A) → List (List A)
  batches_from size batch [] = []
  batches_from size batch (exhausted ∷ waits) = flush batch
  batches_from size batch (times_out ∷ waits) = flush batch ++ batches_from size [] waits
  batches_from size batch (arrives a ∷ waits) =
      let full = leb size (length (batch ++ a ∷ [])) in
      (if full then flush (batch ++ a ∷ []) else [])
      ++ batches_from size (if full then [] else batch ++ a ∷ []) waits

  -- `bounded_batches`, the limit of time in microseconds; `none` is the `ValueError`.
  unfoldable pub bounded_batches : ℕ → ℕ → List (Wait A) → Option (List (List A))
  unfolding batches_from
  bounded_batches size seconds waits =
      if ltb size 1 || leb seconds 0 then none else some (batches_from size [] waits)

  -- The items that came before the source was exhausted.
  abbrev pub items : List (Wait A) → List A
  items [] = []
  items (arrives a ∷ waits) = a ∷ items waits
  items (times_out ∷ waits) = items waits
  items (exhausted ∷ waits) = []

  abbrev pub ends : List (Wait A) → Bool
  ends [] = false
  ends (exhausted ∷ waits) = true
  ends (_ ∷ waits) = ends waits

  abbrev pub concat : List (List A) → List A
  concat [] = []
  concat (xs ∷ xss) = xs ++ concat xss

  -- A batch that is not empty and within the limit.
  abbrev pub IsBounded : ℕ → List A → Type 0
  IsBounded size batch = (0 < length batch) × (length batch ≤ size)

  flush-IsBounded :
      (size : ℕ) (batch : List A) (rest : List (List A))
      → length batch ≤ size
      → All (IsBounded size) rest
      → All (IsBounded size) (flush batch ++ rest)
  flush-IsBounded size [] rest fits all = all
  flush-IsBounded size (a ∷ more) rest fits all = ((omega arith, fits), all)

  concat-flush :
      (batch : List A) (rest : List (List A)) → concat (flush batch ++ rest) ≡ batch ++ concat rest
  concat-flush [] rest = refl
  concat-flush (a ∷ more) rest = refl

  from-IsBounded :
      (size : ℕ) (batch : List A) (waits : List (Wait A))
      → length batch < size
      → All (IsBounded size) (batches_from size batch waits)
  unfolding batches_from
  from-IsBounded size batch [] room = tt
  from-IsBounded size batch (exhausted ∷ waits) room =
      subst (All (IsBounded size)) (append_nil (flush batch))
        (flush-IsBounded size batch [] (omega (arith, room)) tt)
  from-IsBounded size batch (times_out ∷ waits) room =
      flush-IsBounded size batch _ (omega (arith, room))
        (from-IsBounded size [] waits (omega arith))
  from-IsBounded size batch (arrives a ∷ waits) room =
      elim (Bool-cases (leb size (length (batch ++ a ∷ [])))) [
        | inl full ↦
            rw (full, batches_from)
              (flush-IsBounded size (batch ++ a ∷ []) _
                (omega (arith, length-append batch (a ∷ [])))
                (from-IsBounded size [] waits (omega arith)))
        | inr open_still ↦
            rw (open_still, batches_from)
              (from-IsBounded size (batch ++ a ∷ []) waits (ground (arith, open_still)))
      ]

  from-concat :
      (size : ℕ) (batch : List A) (waits : List (Wait A))
      → ends waits ≡ true
      → concat (batches_from size batch waits) ≡ batch ++ items waits
  unfolding batches_from
  from-concat size batch [] ended = cc
  from-concat size batch (exhausted ∷ waits) ended =
      ap concat (sym (append_nil (flush batch))) ∙ concat-flush batch []
  from-concat size batch (times_out ∷ waits) ended =
      concat-flush batch _ ∙ ap (λ xs. batch ++ xs) (from-concat size [] waits ended)
  from-concat size batch (arrives a ∷ waits) ended =
      elim (Bool-cases (leb size (length (batch ++ a ∷ [])))) [
        | inl full ↦
            rw (full, batches_from)
              (concat-flush (batch ++ a ∷ []) _
                ∙ ap (λ xs. (batch ++ a ∷ []) ++ xs) (from-concat size [] waits ended)
                ∙ append_snoc batch a (items waits))
        | inr open_still ↦
            rw (open_still, batches_from)
              (from-concat size (batch ++ a ∷ []) waits ended ∙ append_snoc batch a (items waits))
      ]

  -- With a positive limit of size and of time the batches are yielded, none is empty or above the
  -- limit of size, and once the source is exhausted they hold its items, each once and in order.
  pub bounded_batches-Delivers :
      (size seconds : ℕ) (waits : List (Wait A))
      → 0 < size
      → 0 < seconds
      → ends waits ≡ true
      → (batches : List (List A)) × (bounded_batches size seconds waits ≡ some batches)
        × All (IsBounded size) batches
        × (concat batches ≡ items waits)
  unfolding bounded_batches
  bounded_batches-Delivers size seconds waits some_room some_time ended = (
    batches_from size [] waits,
    ground (arith, some_room, some_time),
    from-IsBounded size [] waits some_room,
    from-concat size [] waits ended,
  )
