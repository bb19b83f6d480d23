-- ===== src/Ingestion/Tests.antt =====
-- Tests of the quality of a source, and the theorems about it at concrete inputs.
use scam2marke.Prelude.{ℕ, ◌+◌, ◌≡◌, ◌↔◌, ◌⊎◌, refl, true, false, List, [], ◌∷◌, some}
use scam2marke.Ingestion.Quality.{OrderBookState, Status, SourceQuality, Observation, observed}
use scam2marke.Ingestion.Quality.Recovery.{Call, observed-recovers}

-- A book with a gap at number 5.
abbrev gapped : SourceQuality
gapped = record {
  source = "exchange";
  asset_id = "BTC";
  last_event_time = some 100;
  last_ingested_at = some 110;
  last_sequence = some 5;
  sequence_gap_count = 2;
  out_of_order_count = 0;
  status = Status.degraded;
  source_active = true;
  source_idle = false;
  source_degraded = true;
  orderbook_state = OrderBookState.gap_detected;
  book_valid = false;
  recovery_updates = 0;
}

abbrev update : ℕ → Observation
update n = record {
  event_time = 200 + n;
  ingested_at = 210 + n;
  sequence = some n;
  is_orderbook = true;
}

observed-recovers_example :
    let q1 = observed 50 (update 6) gapped in
    let q2 = observed 50 (update 7) q1 in
    ((observed 50 (update 8) q2).orderbook_state ≡ OrderBookState.valid)
    × (q2.source_degraded ≡ false)
    × ((q1.source_degraded ≡ true) ↔ (
        (gapped.orderbook_state ≡ OrderBookState.stale)
        ⊎ (gapped.orderbook_state ≡ OrderBookState.gap_detected)))
unfolding observed
observed-recovers_example =
    observed-recovers 50 (update 6) (update 7) (update 8) gapped (refl, refl, refl)
      (refl, refl, refl) (refl, refl, refl)

abbrev calls : List Call
calls =
    Call.observe_call "exchange" "BTC" (update 3)
    ∷ Call.idle_call "exchange" "ETH"
    ∷ Call.observe_call "exchange" "BTC" (update 9)
    ∷ []
