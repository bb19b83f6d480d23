-- ===== src/Ingestion/Quality/Sequence.antt =====
-- The sequence numbers of a source: what is counted as lost, and as out of order.
use scam2marke.Prelude.{ℕ, ◌+◌, ◌≤◌, ◌≡◌, some, arith, List, [], ◌∷◌, length, max}
use scam2marke.Ingestion.Quality.{SourceQuality, Observation, observed}

-- The observations of one source, applied in order.
unfoldable pub observed_all : ℕ → List Observation → SourceQuality → SourceQuality
observed_all threshold [] q = q
observed_all threshold (o ∷ os) q = observed_all threshold os (observed threshold o q)

-- Every observation has a sequence number.
abbrev pub Numbered : List Observation → Type 0
Numbered [] = Unit
Numbered (o ∷ os) = ((n : ℕ) × (o.sequence ≡ some n)) × Numbered os

observed-sequence :
    (threshold : ℕ) (o : Observation) (q : SourceQuality) (last n : ℕ)
    → q.last_sequence ≡ some last
    → o.sequence ≡ some n
    → let r = observed threshold o q in
      (r.last_sequence ≡ some (max n last))
      × (max n last + q.sequence_gap_count + r.out_of_order_count
          ≡ last + r.sequence_gap_count + q.out_of_order_count + 1)
unfolding observed
observed-sequence threshold o q last n seen numbered = ground arith

-- Over any numbered observations of a source, in whatever order they come, the last sequence number
-- is never lowered, and it grows by the number of observations and of those counted as lost, less
-- those counted as out of order.
pub observed_all-sequence :
    (threshold : ℕ) (os : List Observation) (q : SourceQuality) (last : ℕ)
    → q.last_sequence ≡ some last
    → Numbered os
    → let r = observed_all threshold os q in
      (final : ℕ) × (r.last_sequence ≡ some final)
      × (last ≤ final)
      × (final + q.sequence_gap_count + r.out_of_order_count
          ≡ last + r.sequence_gap_count + q.out_of_order_count + length os)
unfolding observed_all
observed_all-sequence threshold [] q last seen numbered = (last, seen, omega arith, omega arith)
observed_all-sequence threshold (o ∷ os) q last seen ((n, number), rest) =
    let (now, count) = observed-sequence threshold o q last n seen number in
    let (final, last_one, grows, counts) =
      observed_all-sequence threshold os (observed threshold o q) (max n last) now rest in
    (final, last_one, omega arith, omega arith)
