-- ===== src/Resilience/Circuit/Probe.antt =====
-- How many probes of an open circuit run at once, when calls interleave.
use scam2marke.Prelude.{
  ℕ, zero, suc, ◌+◌, ◌≤◌, ◌≡◌, ◌≢◌, ◌⊎◌, true, false, none, is_some, arith, List, [], ◌∷◌, All,
  if◌then◌else◌,
}
use scam2marke.Resilience.Circuit.{
  CircuitBreaker, admitted, refused, Outcome, raised, enter, on_failure, on_success, leave,
}

-- A breaker and the calls in flight: those that were admitted while the circuit was closed, and
-- those that were admitted as probes.
pub record Traffic : Type 0 where
  pub breaker : CircuitBreaker
  pub ordinary : ℕ
  pub probes : ℕ

pub data Event : Type 0 where
  starts : ℕ → Event
  ordinary_ends probe_ends : ℕ → Outcome → Event

-- The call that `enter` admits is a probe exactly when the circuit was open.
admit : Traffic → CircuitBreaker → Traffic
admit s b =
    if is_some s.breaker.opened_at
    then record s { breaker = b; probes = s.probes + 1 }
    else record s { breaker = b; ordinary = s.ordinary + 1 }

end_ordinary : ℕ → Outcome → Traffic → ℕ → Traffic
end_ordinary now o s zero = s
end_ordinary now o s (suc n) = record s { breaker = leave now o s.breaker; ordinary = n }

end_probe : ℕ → Outcome → Traffic → ℕ → Traffic
end_probe now o s zero = s
end_probe now o s (suc n) = record s { breaker = leave now o s.breaker; probes = n }

pub step : Traffic → Event → Traffic
unfolding admit end_ordinary end_probe
step s (starts now) = elim (enter now s.breaker) [ admitted b ↦ admit s b | refused _ ↦ s ]
step s (ordinary_ends now o) = end_ordinary now o s s.ordinary
step s (probe_ends now o) = end_probe now o s s.probes

pub run : Traffic → List Event → Traffic
run s [] = s
run s (e ∷ es) = run (step s e) es

-- The flag tells whether a probe is in flight, and there is at most one.
abbrev pub IsExclusive : Traffic → Type 0
IsExclusive s =
    ((s.breaker.half_open_in_flight ≡ true) × (s.probes ≡ 1) × (s.breaker.opened_at ≢ none))
    ⊎ ((s.breaker.half_open_in_flight ≡ false) × (s.probes ≡ 0))

abbrev pub KeepsOrdinary : Event → Type 0
KeepsOrdinary (ordinary_ends _ _) = ⊥
KeepsOrdinary _ = Unit {0}

step-IsExclusive :
    (s : Traffic) (e : Event) → KeepsOrdinary e → IsExclusive s → IsExclusive (step s e)
unfolding step enter leave on_failure on_success
step-IsExclusive s (starts now) k h = ground arith
step-IsExclusive s (ordinary_ends now o) k h = absurd k
step-IsExclusive s (probe_ends now o) k h = ground arith

-- As long as no call that was admitted before the circuit opened ends, at most one probe is in
-- flight, whatever calls start and however the probes end.
pub run-IsExclusive :
    (s : Traffic) (es : List Event) → All KeepsOrdinary es → IsExclusive s → IsExclusive (run s es)
unfolding run
run-IsExclusive s [] k h = h
run-IsExclusive s (e ∷ es) k h = run-IsExclusive (step s e) es k.1 (step-IsExclusive s e k.0 h)

-- While a probe runs, a call that was admitted before the circuit opened fails; its failure clears
-- the flag, so once the recovery time has passed again a second probe is let in beside the first.
pub second_probe :
    (s : Traffic) (n failed later : ℕ)
    → s.ordinary ≡ suc n
    → s.probes ≡ 1
    → s.breaker.opened_at ≢ none
    → s.breaker.failure_threshold ≤ s.breaker.failures + 1
    → failed + s.breaker.recovery_seconds ≤ later
    → (run s (ordinary_ends failed raised ∷ starts later ∷ [])).probes ≡ 2
unfolding run step enter leave on_failure
second_probe s n failed later o p opened full late = ground arith
