-- ===== src/Security/Tests.antt =====
-- A bucket of two tokens that refills by one token in a second, and the theorem at its requests.
use scam2marke.Prelude.{ℕ, ◌+◌, ◌*◌, ◌≡◌, refl, ◌≤◌, false, true, List, [], ◌∷◌, none, some, arith}
use scam2marke.Prelude.Int.{pos, ◌+ℤ◌, ◌-ℤ◌}
use scam2marke.Prelude.Text.{starts_with}
use scam2marke.Security.RateLimiter.{
  token_units, Bucket, refilled, take_token, token_bucket, serve, dispatch, too_many, check_api_key,
  unauthorized,
}
use scam2marke.Security.Bounds.{serve-bounded}

abbrev requests : List ℕ
requests = 0 ∷ 0 ∷ 0 ∷ 1_000_000 ∷ 1_000_001 ∷ []

abbrev full : Bucket
full = record { tokens = pos (2 * token_units); last_refill = 0 }

three_accepted : (serve 2 1_000_000 requests full).0 ≡ 3
unfolding serve take_token refilled ◌+ℤ◌ ◌-ℤ◌
three_accepted = refl

first_request : (token_bucket 2 1_000_000 5 none).0 ≡ (true, 1)
unfolding token_bucket take_token refilled ◌+ℤ◌ ◌-ℤ◌
first_request = refl

refused : dispatch true false "/api/v1/alerts" (some (false, 0)) ≡ too_many
unfolding dispatch starts_with
refused = refl

no_key : check_api_key true (some "k") "POST" none ≡ unauthorized
unfolding check_api_key
no_key = refl

serve-bounded_example :
    (serve 2 1_000_000 requests full).0 * token_units + 0 * 1_000_000
    ≤ 2 * token_units + (serve 2 1_000_000 requests full).1.last_refill * 1_000_000
serve-bounded_example = serve-bounded 2 1_000_000 requests 0 (omega arith)
