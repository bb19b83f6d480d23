-- ===== src/Resilience/Circuit.antt =====
-- src/scam2market/resilience/circuit_breaker.py. Times are whole ticks of `monotonic()`, passed in
-- by the caller. `call` holds the lock twice, before and after it awaits the operation, so it is
-- two atomic steps here, `enter` and one of `on_failure` and `on_success`.
pub mod Rules
pub mod Probe
use scam2marke.Prelude.{
  ℕ, ◌+◌, ◌-◌, Bool, true, false, ◌||◌, Option, none, some, ltb, leb, ◌==◌, if◌then◌else◌,
}

pub data CircuitState : Type 0 where
  closed opened half_open : CircuitState

pub record CircuitSnapshot : Type 0 where
  pub state : CircuitState
  pub failure_count : ℕ
  pub opened_for_seconds : Option ℕ

pub record CircuitBreaker : Type 0 where
  pub failure_threshold : ℕ
  pub recovery_seconds : ℕ
  pub failures : ℕ
  pub opened_at : Option ℕ
  pub half_open_in_flight : Bool

-- The two messages of `CircuitOpenError`.
pub data Refusal : Type 0 where
  circuit_is_open probe_already_running : Refusal

pub data Entry : Type 0 where
  admitted : CircuitBreaker → Entry
  refused : Refusal → Entry

-- `__init__`; `none` is the `ValueError`.
unfoldable pub init : ℕ → ℕ → Option CircuitBreaker
init failure_threshold recovery_seconds =
    if ltb failure_threshold 1 || recovery_seconds == 0
    then none
    else some (record {
      failure_threshold = failure_threshold;
      recovery_seconds = recovery_seconds;
      failures = 0;
      opened_at = none;
      half_open_in_flight = false;
    })

-- The first locked block of `call`, at the time `now`.
pub enter : ℕ → CircuitBreaker → Entry
enter now b = elim b.opened_at [
  | none ↦ admitted b
  | some since ↦
      if ltb (now - since) b.recovery_seconds
      then refused circuit_is_open
      else if b.half_open_in_flight
      then refused probe_already_running
      else admitted (record b { half_open_in_flight = true })
]

-- The locked block of the `except` branch.
pub on_failure : ℕ → CircuitBreaker → CircuitBreaker
on_failure now b = record b {
  half_open_in_flight = false;
  failures = b.failures + 1;
  opened_at = if leb b.failure_threshold (b.failures + 1) then some now else b.opened_at;
}

-- The last locked block.
pub on_success : CircuitBreaker → CircuitBreaker
on_success b = record b { failures = 0; opened_at = none; half_open_in_flight = false }

pub data Outcome : Type 0 where
  raised returned : Outcome

pub leave : ℕ → Outcome → CircuitBreaker → CircuitBreaker
unfolding on_failure on_success
leave now raised b = on_failure now b
leave now returned b = on_success b

-- A call that no other call interleaves with: it starts at `start` and ends at `finish`.
pub call : ℕ → ℕ → Outcome → CircuitBreaker → CircuitBreaker
unfolding enter leave
call start finish outcome b = elim (enter start b) [
  | admitted b' ↦ leave finish outcome b'
  | refused _ ↦ b
]

pub snapshot : ℕ → CircuitBreaker → CircuitSnapshot
snapshot now b = elim b.opened_at [
  | none ↦ record { state = closed; failure_count = b.failures; opened_for_seconds = none }
  | some since ↦ record {
    state = if leb b.recovery_seconds (now - since) then half_open else opened;
    failure_count = b.failures;
    opened_for_seconds = some (now - since);
  }
]
