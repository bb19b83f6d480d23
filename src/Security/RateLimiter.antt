-- ===== src/Security/RateLimiter.antt =====
-- src/scam2market/security/rate_limiter.py. A token is 10^12 units: the clock counts microseconds
-- and the refill is in millionths of a token per second, so that the product is in units. Redis
-- runs the script as one step; where it fails, the script has no result.
use scam2marke.Prelude.{
  ℕ, ◌+◌, ◌*◌, ◌/◌, String, str_eq, Bool, ◌||◌, not, List, [], ◌∷◌, Option, none, some, or_else,
  any_of, if◌then◌else◌,
}
use scam2marke.Prelude.Int.{ℤ, pos, pos_part, sub_ℕ, ◌+ℤ◌, ◌-ℤ◌, leb_ℤ}
use scam2marke.Prelude.Text.{is_blank, starts_with}
use scam2marke.Features.Numbers.{min_ℤ}

abbrev pub token_units : ℕ
token_units = 1_000_000_000_000

-- The hash of a client: `tokens` and `last_refill`.
pub record Bucket : Type 0 where
  pub tokens : ℤ
  pub last_refill : ℕ

module _ (capacity refill : ℕ) where
  -- `if tokens == nil then …`
  abbrev pub bucket_of : ℕ → Option Bucket → Bucket
  bucket_of now b = or_else b (record { tokens = pos (capacity * token_units); last_refill = now })

  unfoldable pub refilled : ℕ → Bucket → ℤ
  unfolding ◌+ℤ◌
  refilled now b =
      min_ℤ (pos (capacity * token_units))
        (b.tokens +ℤ sub_ℕ (now * refill) (b.last_refill * refill))

  -- `TOKEN_BUCKET_LUA`, before its result is written
  unfoldable pub take_token : ℕ → Bucket → Bool × Bucket
  unfolding refilled ◌-ℤ◌
  take_token now b =
      let tokens = refilled now b in
      let accepted = leb_ℤ (pos token_units) tokens in
      (
        accepted,
        record {
          tokens = if accepted then tokens -ℤ pos token_units else tokens;
          last_refill = now;
        },
      )

  -- `TOKEN_BUCKET_LUA`
  unfoldable pub token_bucket : ℕ → Option Bucket → (Bool × ℕ) × Bucket
  unfolding take_token
  token_bucket now stored =
      let (accepted, b) = take_token now (bucket_of now stored) in
      ((accepted, pos_part b.tokens / token_units), b)

  -- The requests of a client at their times: how many are accepted, and the bucket.
  unfoldable pub serve : List ℕ → Bucket → ℕ × Bucket
  serve [] b = (0, b)
  serve (now ∷ later) b =
      let rest = serve later (take_token now b).1 in
      ((if (take_token now b).0 then 1 else 0) + rest.0, rest.1)

pub data Answer : Type 0 where
  forwarded : Option ℕ → Answer
  too_many unavailable unauthorized : Answer

abbrev pub excluded : List String
excluded = "/api/v1/health" ∷ "/api/v1/ready" ∷ "/api/v1/metrics" ∷ "/docs" ∷ "/openapi.json" ∷ []

-- `RateLimitMiddleware.dispatch`; `result` is what the script gave, if Redis answered.
unfoldable pub dispatch : Bool → Bool → String → Option (Bool × ℕ) → Answer
unfolding starts_with
dispatch enabled fail_closed path result =
    if not enabled || any_of (λ (p : String). starts_with p path) excluded
    then forwarded none
    else elim result [
      | none ↦ if fail_closed then unavailable else forwarded none
      | some (accepted, remaining) ↦ if accepted then forwarded (some remaining) else too_many
    ]

-- `ApiKeyMiddleware.dispatch`
unfoldable pub check_api_key : Bool → Option String → String → Option String → Answer
check_api_key required configured method supplied =
    if any_of (str_eq method) ("GET" ∷ "HEAD" ∷ "OPTIONS" ∷ []) || not required
    then forwarded none
    else elim configured [
      | none ↦ unauthorized
      | some key ↦ elim supplied [
        | none ↦ unauthorized
        | some given ↦
            if is_blank key || not (str_eq given key) then unauthorized else forwarded none
      ]
    ]
