-- ===== src/Security/Bounds.antt =====
-- How many requests a bucket lets through.
use scam2marke.Prelude.{ℕ, ◌+◌, ◌*◌, ◌≡◌, refl, ◌≤◌, true, List, [], ◌∷◌, arith, if◌then◌else◌}
use scam2marke.Prelude.Int.{ℤ, pos, pos_part, neg_part, sub_ℕ, ◌+ℤ◌, ◌-ℤ◌, leb_ℤ}
use scam2marke.Features.Numbers.{min_ℤ}
use scam2marke.Security.RateLimiter.{token_units, Bucket, refilled, take_token, serve}

-- A step on the numbers alone: `a` and `b` stand for what the clock has brought by now and before.
step_bound :
    (most a b : ℕ) (t : ℤ)
    → let r = min_ℤ (pos most) (t +ℤ sub_ℕ a b) in
      let accepted = leb_ℤ (pos token_units) r in
      let u = if accepted then r -ℤ pos token_units else r in
      pos_part u + neg_part t + (if accepted then 1 else 0) * token_units + b
      ≤ neg_part u + pos_part t + a
unfolding ◌+ℤ◌ ◌-ℤ◌
step_bound most a b t = ground arith

step_sign :
    (most a b : ℕ) (t : ℤ)
    → b ≤ a
    → neg_part t ≡ 0
    → let r = min_ℤ (pos most) (t +ℤ sub_ℕ a b) in
      neg_part (if leb_ℤ (pos token_units) r then r -ℤ pos token_units else r) ≡ 0
unfolding ◌+ℤ◌ ◌-ℤ◌
step_sign most a b t forward sign = ground arith

chain :
    (pe ne pm nm p n g h a b c : ℕ)
    → pm + n + g * token_units + a ≤ nm + p + b
    → pe + nm + h * token_units + b ≤ ne + pm + c
    → pe + n + (g + h) * token_units + a ≤ ne + p + c
chain pe ne pm nm p n g h a b c first rest = omega arith

mul_mono : {a b : ℕ} (k : ℕ) → a ≤ b → a * k ≤ b * k
mul_mono k le = grind arith

module _ (capacity refill : ℕ) where
  -- The clock does not go back.
  abbrev pub Ascending : ℕ → List ℕ → Type 0
  Ascending last [] = Unit
  Ascending last (now ∷ later) = (last ≤ now) × Ascending now later

  serve_bound :
      (times : List ℕ) (b : Bucket)
      → let served = serve capacity refill times b in
        pos_part served.1.tokens
          + neg_part b.tokens
          + served.0 * token_units
          + b.last_refill * refill
        ≤ neg_part served.1.tokens + pos_part b.tokens + served.1.last_refill * refill
  unfolding serve take_token refilled
  serve_bound [] b = omega arith
  serve_bound (now ∷ later) b =
      let taken = take_token capacity refill now b in
      let end = serve capacity refill later taken.1 in
      chain (pos_part end.1.tokens) (neg_part end.1.tokens) (pos_part taken.1.tokens)
        (neg_part taken.1.tokens) (pos_part b.tokens) (neg_part b.tokens) (if taken.0 then 1 else 0)
        end.0 (b.last_refill * refill) (now * refill) (end.1.last_refill * refill)
        (step_bound (capacity * token_units) (now * refill) (b.last_refill * refill) b.tokens)
        (serve_bound later taken.1)

  serve_sign :
      (times : List ℕ) (b : Bucket)
      → Ascending b.last_refill times
      → neg_part b.tokens ≡ 0
      → neg_part (serve capacity refill times b).1.tokens ≡ 0
  unfolding serve take_token refilled
  serve_sign [] b up sign = sign
  serve_sign (now ∷ later) b up sign = serve_sign later (take_token capacity refill now b).1 up.1 (
      step_sign (capacity * token_units) (now * refill) (b.last_refill * refill) b.tokens
        (mul_mono refill up.0) sign)

  -- Where the clock does not go back: of the requests since a full bucket at the time `t`, no more
  -- are accepted than the capacity and what the clock has refilled by the last of them.
  pub serve-bounded :
      (times : List ℕ) (t : ℕ)
      → Ascending t times
      → let served =
          serve capacity refill times
            (record { tokens = pos (capacity * token_units); last_refill = t }) in
        served.0 * token_units + t * refill ≤ capacity * token_units + served.1.last_refill * refill
  serve-bounded times t up =
      let full : Bucket = record { tokens = pos (capacity * token_units); last_refill = t } in
      omega (arith, serve_bound times full, serve_sign times full up refl)

  -- A client whose bucket has refilled by a whole token since its last request is let through,
  -- where the capacity is one token at least.
  pub take_token-accepted :
      (now : ℕ) (b : Bucket)
      → 1 ≤ capacity
      → neg_part b.tokens ≡ 0
      → b.last_refill * refill + token_units ≤ now * refill
      → (take_token capacity refill now b).0 ≡ true
  unfolding take_token refilled ◌+ℤ◌
  take_token-accepted now b room sign waited = ground arith
