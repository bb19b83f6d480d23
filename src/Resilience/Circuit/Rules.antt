-- ===== src/Resilience/Circuit/Rules.antt =====
-- When a circuit breaker admits a call, and when it opens.
use scam2marke.Prelude.{ℕ, ◌+◌, ◌≡◌, ◌⊎◌, true, false, none, some, arith, List, [], ◌∷◌, length}
use scam2marke.Resilience.Circuit.{
  CircuitBreaker, closed, half_open, opened, admitted, refused, circuit_is_open,
  probe_already_running, raised, enter, on_failure, leave, call, snapshot,
}

-- The reported state tells what `enter` does at the same time: a closed circuit admits the call and
-- changes nothing, an open one refuses it, and a half-open one lets exactly one probe through.
pub enter-snapshot :
    (now : ℕ) (b : CircuitBreaker)
    → (((snapshot now b).state ≡ closed) × (enter now b ≡ admitted b))
      ⊎ (((snapshot now b).state ≡ opened) × (enter now b ≡ refused circuit_is_open))
      ⊎ (((snapshot now b).state ≡ half_open)
          × (b.half_open_in_flight ≡ true)
          × (enter now b ≡ refused probe_already_running))
      ⊎ (((snapshot now b).state ≡ half_open)
          × (b.half_open_in_flight ≡ false)
          × (enter now b ≡ admitted (record b { half_open_in_flight = true })))
unfolding enter snapshot
enter-snapshot now b = ground arith

-- What failing calls, one after the other, leave of a breaker.
pub fail_all : List (ℕ × ℕ) → CircuitBreaker → CircuitBreaker
unfolding call
fail_all [] b = b
fail_all ((start, finish) ∷ ts) b = fail_all ts (call start finish raised b)

-- The next failing call of a breaker that has not opened.
fail-once :
    (start finish : ℕ) (b : CircuitBreaker)
    → b.opened_at ≡ none
    → call start finish raised b ≡ on_failure finish b
unfolding call enter leave on_failure
fail-once start finish b e = ground arith

-- Below its threshold a breaker counts every failure and stays closed; the failure that reaches the
-- threshold opens it at that call's end.
pub fail_all-threshold :
    (ts : List (ℕ × ℕ)) (start finish : ℕ) (b : CircuitBreaker)
    → b.opened_at ≡ none
    → b.failures + length ts + 1 ≡ b.failure_threshold
    → let before = fail_all ts b in
      (before.opened_at ≡ none)
      × (before.failures ≡ b.failures + length ts)
      × ((call start finish raised before).opened_at ≡ some finish)
unfolding fail_all
fail_all-threshold [] start finish b e h =
    (e, omega arith, unfold call enter leave on_failure in ground arith)
fail_all-threshold ((s, f) ∷ ts) start finish b e h =
    let b' = call s f raised b in
    let step = fail-once s f b e in
    let shut : b'.opened_at ≡ none = unfold on_failure in ground (arith, step) in
    let more : b'.failures ≡ b.failures + 1 = unfold on_failure in ground (arith, step) in
    let same : b'.failure_threshold ≡ b.failure_threshold =
      unfold on_failure in ground (arith, step) in
    let r = fail_all-threshold ts start finish b' shut (omega arith) in
    (r.0, omega (arith, r.1), r.2)
