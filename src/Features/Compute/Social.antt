-- ===== src/Features/Compute/Social.antt =====
-- src/scam2market/features/engine.py, `_compute_features`: posts, authors and mentions.
use scam2marke.Prelude.{
  ℕ, zero, suc, ◌+◌, ◌*◌, ◌/◌, String, Bool, false, not, ◌&&◌, ◌||◌, List, [], ◌∷◌, map, Option,
  leb, or_else, max, length, keep,
}
use scam2marke.Prelude.Int.{ℤ, pos}
use scam2marke.Prelude.Dict.{Dict, string_eq, nat_eq, pair_eq, lookup}
use scam2marke.Prelude.Score.{one}
use scam2marke.Features.Types.{
  SignalKind, SourceDomain, domain_eq, FeatureSignal, WindowKey, FeatureWindowEngine,
}
use scam2marke.Features.Numbers.{whole, quotient, sum, distinct, concentration}
use scam2marke.Features.Fields.{
  of_kind, items_in, items_of, text_of, holds, somes, joined, source_state, where_there,
}

module _ (s : FeatureWindowEngine) where
  -- `len(event.values.get("hashtags", [])) + len(event.values.get("cashtags", []))`
  abbrev tags : FeatureSignal → ℕ
  tags e = length (items_in "hashtags" e) + length (items_in "cashtags" e)

  -- The author was not seen before the window.
  abbrev is_new_author : WindowKey → String → Bool
  is_new_author (scope, (asset, (start, interval))) author =
      leb start (or_else (lookup (scope, (asset, author)) s.author_first_seen) start)

  -- `part / len(all)`, and 0.0 of none.
  abbrev share : ℕ → ℕ → ℤ
  share part zero = pos 0
  share part (suc n) = pos (part * one / suc n)

  unfoldable pub social_features : WindowKey → List FeatureSignal → Dict String (Option ℤ)
  unfolding text_of items_of somes joined
  social_features (scope, (asset, (start, interval))) events =
      let key : WindowKey = (scope, (asset, (start, interval))) in
      let social = of_kind SignalKind.social_post events in
      let state = source_state s scope asset SourceDomain.social in
      let there = state.active && not state.degraded in
      let authors = somes (map (λ e. text_of (lookup "author_id" e.values)) social) in
      let different = distinct authors in
      let answers = keep (λ e. holds "repost_of" false e || holds "reply_to" false e) social in
      let tag_count = sum (map (λ e. whole (tags e)) social) in
      let minutes = pos (max one (interval * one / 60)) in
      (
        "mention_count",
        where_there there (whole (length (of_kind SignalKind.asset_mention events))),
      )
      ∷ ("unique_author_count", where_there there (whole (length different)))
      ∷ ("author_concentration", where_there there (concentration authors))
      ∷ ("repost_reply_ratio", where_there there (share (length answers) (length social)))
      ∷ ("hashtag_velocity", where_there there (quotient tag_count minutes))
      ∷ (
        "url_concentration",
        where_there there (concentration (joined (map (λ e. somes (items_in "urls" e)) social))),
      )
      ∷ (
        "new_author_ratio",
        where_there there (share (length (keep (is_new_author key) different)) (length different)),
      )
      ∷ []
