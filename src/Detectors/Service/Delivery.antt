-- ===== src/Detectors/Service/Delivery.antt =====
-- What the service of scores promises: scores that a campaign can take, each published once.
use scam2marke.Prelude.{ℕ, ◌≡◌, refl, ap, String, true, some, Option-cases, inl, inr, is_some}
use scam2marke.Prelude.Dict.{nat_eq, string_eq, pair_eq, lookup, lookup-insert, beq_refl}
use scam2marke.Fusion.Types.{FusionResult}
use scam2marke.Fusion.Engine.{FusionEngine, fused}
use scam2marke.Fusion.Engine.Score.{IsOrdered}
use scam2marke.Fusion.Engine.Result.{IsWeighted, fuse-total, fused-IsScored}
use scam2marke.Campaign.Types.{CampaignStage}
use scam2marke.Campaign.Policy.{assess, assessment, ok}
use scam2marke.Campaign.Policy.Stages.{IsScored, assess-total}
use scam2marke.Detectors.{detect}
use scam2marke.Detectors.Bounds.{detect-fits}
use scam2marke.Detectors.Service.{
  Environment, Request, World, score, deliver, identified, score_key, resolve_threat,
  fusion_context,
}

module _ (env : Environment) (engine : FusionEngine) where
  -- What `fuse` returns for a request.
  abbrev pub request_result : Request → FusionResult
  request_result q =
      identified env engine q
        (fused engine q.scored_at q.snapshot (detect q.snapshot) (fusion_context env engine q))

  -- With positive weights every request is scored.
  score-total :
      (q : Request) (w : World)
      → IsWeighted engine.weights
      → score env engine q w ≡ (some (request_result q), deliver env engine q (request_result q) w)
  unfolding score
  score-total q w weights =
      rw
        (
          fuse-total engine q.snapshot (detect q.snapshot) (fusion_context env engine q) q.scored_at
              weights,
          score,
        )
        refl

  -- With positive weights and thresholds in order, the service scores every request, whatever the
  -- features of its snapshot, and a campaign at any stage can take the score: its rules refuse
  -- neither the transition nor the confidence.
  pub score-assess :
      (q : Request) (w : World) (stage : CampaignStage)
      → IsWeighted engine.weights
      → IsOrdered engine.thresholds
      → (r : FusionResult) × ((score env engine q w).0 ≡ some r)
        × (assess stage r ≡ ok (assessment stage r))
  unfolding identified
  score-assess q w stage weights order =
      let r = request_result q in
      let bounds =
        (fused-IsScored engine q.snapshot (detect q.snapshot) (fusion_context env engine q)
          q.scored_at order (detect-fits q.snapshot)).0 in
      let scored : IsScored r = record {
        market_bound = bounds.market_bound;
        social_bound = bounds.social_bound;
        coordination_bound = bounds.coordination_bound;
        confidence_bound = bounds.confidence_bound;
      } in
      (r, ap (λ p. p.0) (score-total q w weights), (assess-total stage r scored).0)

  deliver-stored :
      (q : Request) (r : FusionResult) (w : World)
      → is_some (lookup (score_key r) (deliver env engine q r w).results) ≡ true
  unfolding deliver
  deliver-stored q r w = elim (Option-cases (lookup (score_key r) w.results)) [
    | inl absent ↦
        rw (absent, lookup-insert (score_key r) (score_key r) r w.results, beq_refl (score_key r))
          refl
    | inr (old, found) ↦ rw (found, found) refl
  ]

  deliver_again :
      (q : Request) (r : FusionResult) (w : World)
      → is_some (lookup (score_key r) w.results) ≡ true
      → ((deliver env engine q r w).published ≡ w.published)
        × ((deliver env engine q r w).results ≡ w.results)
  unfolding deliver
  deliver_again q r w stored = rw stored (refl, refl)

  -- The key of a result does not depend on when it was scored.
  score_key_at :
      (q : Request) (later : ℕ) (correlation_id : String)
      → score_key (request_result (record q { scored_at = later; correlation_id = correlation_id }))
        ≡ score_key (request_result q)
  unfolding identified fused fusion_context resolve_threat
  score_key_at q later correlation_id = refl

  -- A request that was scored is not published a second time, however much later it is scored again;
  -- the result that was stored first stays.
  pub score_again :
      (q : Request) (w : World) (later : ℕ) (correlation_id : String)
      → IsWeighted engine.weights
      → let q' = record q { scored_at = later; correlation_id = correlation_id } in
        let w1 = (score env engine q w).1 in
        let w2 = (score env engine q' w1).1 in
        (w2.published ≡ w1.published) × (w2.results ≡ w1.results)
  score_again q w later correlation_id weights =
      let q' : Request = record q { scored_at = later; correlation_id = correlation_id } in
      let w1 = deliver env engine q (request_result q) w in
      let stored : is_some (lookup (score_key (request_result q')) w1.results) ≡ true =
        rw (score_key_at q later correlation_id) (deliver-stored q (request_result q) w) in
      rw (score-total q w weights, score-total q' w1 weights)
        (deliver_again q' (request_result q') w1 stored)
