-- ===== src/Ingestion/Quality/Recovery.antt =====
-- The order book's way through gaps, and what a healthy status promises.
use scam2marke.Prelude.{
  ℕ, ◌≡◌, true, false, arith, ◌↔◌, List, [], ◌∷◌, ◌⊎◌, inl, inr, String, refl, Option-cases,
}
use scam2marke.Prelude.Dict.{Entries, insert-Entries, lookup-Entries, lookup, string_eq, pair_eq}
use scam2marke.Ingestion.Quality.{
  OrderBookState, SourceQuality, SourceQualityTracker, Observation, Status, observed, observe,
  mark_idle, idled, new_quality, state_of, is_valid_book, is_late, is_gap,
}

-- A status follows from the flags, and the flag of the book from its state.
pub record IsConsistent (q : SourceQuality) : Type 0 where
  pub book : q.book_valid ≡ is_valid_book q.orderbook_state
  pub status_degraded : (q.status ≡ Status.degraded) ↔ (q.source_degraded ≡ true)
  pub status_idle : (q.status ≡ Status.idle) ↔ (q.source_idle ≡ true)
  pub status_starting : (q.status ≡ Status.starting) ↔ (q.source_active ≡ false)

observed-IsConsistent :
    (threshold : ℕ) (o : Observation) (q : SourceQuality)
    → IsConsistent q
    → IsConsistent (observed threshold o q)
unfolding observed
observed-IsConsistent threshold o q h = record {
  book = ground (arith, h.book);
  status_degraded = ground arith;
  status_idle = ground arith;
  status_starting = ground arith;
}

idled-IsConsistent : (q : SourceQuality) → IsConsistent q → IsConsistent (idled q)
unfolding idled
idled-IsConsistent q h = record {
  book = h.book;
  status_degraded = ground arith;
  status_idle = ground arith;
  status_starting = ground arith;
}

new_quality-IsConsistent : (source asset_id : String) → IsConsistent (new_quality source asset_id)
unfolding new_quality
new_quality-IsConsistent source asset_id = record {
  book = refl;
  status_degraded = ground arith;
  status_idle = ground arith;
  status_starting = ground arith;
}

-- The calls that change a tracker.
pub data Call : Type 0 where
  observe_call : String → String → Observation → Call
  idle_call : String → String → Call

unfoldable pub run : List Call → SourceQualityTracker → SourceQualityTracker
run [] t = t
run (Call.observe_call source asset_id o ∷ cs) t = run cs (observe source asset_id o t)
run (Call.idle_call source asset_id ∷ cs) t = run cs (mark_idle source asset_id t)

abbrev pub Consistent : SourceQualityTracker → Type 0
Consistent t = Entries (λ k q. IsConsistent q) t.states

state_of-IsConsistent :
    (t : SourceQualityTracker) (source asset_id : String)
    → Consistent t
    → IsConsistent (state_of t source asset_id)
state_of-IsConsistent t source asset_id h =
    elim (Option-cases (lookup (source, asset_id) t.states)) [
      | inl absent ↦ rw absent (new_quality-IsConsistent source asset_id)
      | inr (q, found) ↦
          let fits = lookup-Entries (λ k q. IsConsistent q) (source, asset_id) q t.states h found in
          rw found fits
    ]

-- Whatever is observed or marked, in any order, in the state of every source: the book is flagged
-- valid exactly when its state is VALID or RECOVERED, and the status is DEGRADED, IDLE or STARTING
-- exactly as the flags say.
pub run-Consistent :
    (cs : List Call) (t : SourceQualityTracker) → Consistent t → Consistent (run cs t)
unfolding run observe mark_idle
run-Consistent [] t h = h
run-Consistent (Call.observe_call source asset_id o ∷ cs) t h =
    run-Consistent cs (observe source asset_id o t) (
      insert-Entries (λ k q. IsConsistent q) (source, asset_id)
        (observed t.threshold o (state_of t source asset_id)) t.states
        (observed-IsConsistent t.threshold o (state_of t source asset_id)
          (state_of-IsConsistent t source asset_id h))
        h)
run-Consistent (Call.idle_call source asset_id ∷ cs) t h =
    run-Consistent cs (mark_idle source asset_id t) (
      insert-Entries (λ k q. IsConsistent q) (source, asset_id) (idled (state_of t source asset_id))
        t.states
        (idled-IsConsistent (state_of t source asset_id)
          (state_of-IsConsistent t source asset_id h))
        h)

-- After an update of the book the source is HEALTHY exactly when the update is fresh, continues the
-- sequence, and the book was valid, recovered or resyncing.
pub observed-healthy :
    (threshold : ℕ) (o : Observation) (q : SourceQuality)
    → o.is_orderbook ≡ true
    → ((observed threshold o q).status ≡ Status.healthy) ↔ (
        (is_late threshold o ≡ false)
        × (is_gap o.sequence q.last_sequence ≡ false)
        × ((is_valid_book q.orderbook_state ≡ true)
            ⊎ (q.orderbook_state ≡ OrderBookState.resyncing)))
unfolding observed
observed-healthy threshold o q h = ground arith

-- An update of the book that is fresh and continues the sequence.
abbrev pub IsClean : ℕ → Observation → SourceQuality → Type 0
IsClean threshold o q =
    (o.is_orderbook ≡ true)
    × (is_late threshold o ≡ false)
    × (is_gap o.sequence q.last_sequence ≡ false)

-- Three fresh updates in sequence make a book VALID again, whatever its state was; the first leaves it
-- degraded exactly where it was stale or had a gap, and the second never does.
pub observed-recovers :
    (threshold : ℕ) (a b c : Observation) (q : SourceQuality)
    → IsClean threshold a q
    → IsClean threshold b (observed threshold a q)
    → IsClean threshold c (observed threshold b (observed threshold a q))
    → let q1 = observed threshold a q in
      let q2 = observed threshold b q1 in
      ((observed threshold c q2).orderbook_state ≡ OrderBookState.valid)
      × (q2.source_degraded ≡ false)
      × ((q1.source_degraded ≡ true) ↔ (
          (q.orderbook_state ≡ OrderBookState.stale)
          ⊎ (q.orderbook_state ≡ OrderBookState.gap_detected)))
unfolding observed
observed-recovers threshold a b c q first second third = ground arith
