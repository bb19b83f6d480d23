-- ===== src/Resilience/Tests.antt =====
-- Tests of the circuit breaker, and the theorems about it at concrete inputs.
use scam2marke.Prelude.{ℕ, ◌≡◌, refl, true, false, List, [], ◌∷◌, none, some, arith, All}
use scam2marke.Resilience.Batching.{
  Wait, arrives, times_out, exhausted, bounded_batches, items, concat, IsBounded,
  bounded_batches-Delivers,
}
use scam2marke.Resilience.Circuit.{CircuitBreaker, raised}
use scam2marke.Resilience.Circuit.Probe.{
  Traffic, Event, starts, ordinary_ends, probe_ends, run, IsExclusive, run-IsExclusive,
  second_probe,
}

abbrev fresh : CircuitBreaker
fresh = record {
  failure_threshold = 3;
  recovery_seconds = 30;
  failures = 0;
  opened_at = none;
  half_open_in_flight = false;
}

abbrev tripped : CircuitBreaker
tripped = record fresh { failures = 3; opened_at = some 100 }

abbrev failed_calls : List (ℕ × ℕ)
failed_calls = (1, 2) ∷ (3, 4) ∷ []

abbrev idle_traffic : Traffic
idle_traffic = record { breaker = tripped; ordinary = 1; probes = 0 }

abbrev events : List Event
events = starts 140 ∷ starts 141 ∷ probe_ends 150 raised ∷ starts 185 ∷ []

run-IsExclusive_example : IsExclusive (run idle_traffic events)
run-IsExclusive_example =
    run-IsExclusive idle_traffic events (tt, (tt, (tt, (tt, tt)))) (ground arith)

abbrev probing : Traffic
probing = record {
  breaker = record tripped { half_open_in_flight = true };
  ordinary = 1;
  probes = 1;
}

second_probe_example : (run probing (ordinary_ends 150 raised ∷ starts 190 ∷ [])).probes ≡ 2
second_probe_example =
    second_probe probing 0 150 190 refl refl (λ e. cc) (omega arith) (omega arith)

-- Three items with a pause after the first, in batches of two.
abbrev waits : List (Wait ℕ)
waits = arrives 1 ∷ times_out ∷ times_out ∷ arrives 2 ∷ arrives 3 ∷ arrives 4 ∷ exhausted ∷ []

batched : bounded_batches 2 1_000 waits ≡ some ((1 ∷ []) ∷ (2 ∷ 3 ∷ []) ∷ (4 ∷ []) ∷ [])
unfolding bounded_batches
batched = refl

bounded_batches-Delivers_example :
    (batches : List (List ℕ)) × (bounded_batches 2 1_000 waits ≡ some batches)
    × All (IsBounded 2) batches
    × (concat batches ≡ items waits)
bounded_batches-Delivers_example =
    bounded_batches-Delivers 2 1_000 waits (omega arith) (omega arith) refl
