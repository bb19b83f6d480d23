-- ===== src/Features/Compute/Market.antt =====
-- src/scam2market/features/engine.py, `_compute_features`: prices, volumes and books. `pstdev` is that
-- of Python's `statistics`.
use scam2marke.Prelude.{
  ℕ, ◌-◌, String, str_eq, Bool, true, ◌&&◌, List, [], ◌∷◌, map, Option, some, ltb, leb, ◌==◌,
  or_else, length, keep, drop, last?, sorted, if◌then◌else◌,
}
use scam2marke.Prelude.Int.{ℤ, pos, ◌+ℤ◌, ◌-ℤ◌, ltb_ℤ}
use scam2marke.Prelude.Dict.{Dict, string_eq, nat_eq, pair_eq, lookup}
use scam2marke.Prelude.Score.{one}
use scam2marke.Features.Types.{SignalKind, domain_eq, FeatureSignal, WindowKey, FeatureWindowEngine}
use scam2marke.Features.Numbers.{whole, product, quotient, is_nonzero, sum, mean}
use scam2marke.Features.Fields.{
  safe_float, of_kind, field, text_of, holds, has_text, flag_number, where_there,
}

-- The changes from each price to the next, where the price is not 0.
unfoldable pub returns_of : List ℤ → List ℤ
returns_of [] = []
returns_of (p ∷ []) = []
returns_of (p ∷ q ∷ ps) =
    let rest = returns_of (q ∷ ps) in
    if is_nonzero p then (quotient q p -ℤ pos one) ∷ rest else rest

abbrev traded : FeatureSignal → ℤ
traded e = product (field "quantity" e) (safe_float (pos one) (lookup "price" e.values))

-- `x or y` on numbers.
abbrev or_number : ℤ → ℤ → ℤ
or_number x y = if is_nonzero x then x else y

-- `_raw_volume`
unfoldable pub raw_volume : List FeatureSignal → ℤ
unfolding safe_float
raw_volume events =
    or_number (sum (map traded (of_kind SignalKind.market_trade events)))
      (sum (map (field "volume") (of_kind SignalKind.market_candle events)))

abbrev above_zero : ℤ → Bool
above_zero x = ltb_ℤ (pos 0) x

-- The windows of the asset and the interval that start earlier, in the order of `self._events`.
abbrev pub earlier :
    WindowKey → Dict WindowKey (List FeatureSignal) → Dict WindowKey (List FeatureSignal)
earlier (scope, (asset, (start, interval))) events =
    keep
      (λ entry.
        str_eq entry.0.0 scope
        && str_eq entry.0.1.0 asset
        && (entry.0.1.1.1 == interval)
        && ltb entry.0.1.1.0 start)
      events

-- `values[-n:]`
abbrev last_of {ℓ} : {A : Type ℓ} → ℕ → List A → List A
last_of n xs = drop (length xs - n) xs

abbrev trailing_volumes : WindowKey → Dict WindowKey (List FeatureSignal) → List ℤ
trailing_volumes key events = keep above_zero (
    last_of 20 (
      map (λ entry. raw_volume entry.1)
        (sorted (λ a b. leb a.0.1.1.0 b.0.1.1.0) (earlier key events))))

-- The change from the first price to the last.
abbrev ends_of : List ℤ → ℤ
ends_of [] = pos 0
ends_of (p ∷ []) = pos 0
ends_of (p ∷ q ∷ ps) =
    if is_nonzero p then quotient (or_else (last? (q ∷ ps)) q) p -ℤ pos one else pos 0

-- `xs or ys` on lists.
abbrev or_list : List ℤ → List ℤ → List ℤ
or_list [] ys = ys
or_list (x ∷ xs) ys = x ∷ xs

module _ (pstdev : List ℤ → ℤ) (s : FeatureWindowEngine) where
  unfoldable pub market_features : WindowKey → List FeatureSignal → Dict String (Option ℤ)
  unfolding raw_volume returns_of text_of safe_float
  market_features (scope, (asset, (start, interval))) events =
      let key : WindowKey = (scope, (asset, (start, interval))) in
      let trades = of_kind SignalKind.market_trade events in
      let books = of_kind SignalKind.orderbook events in
      let valid_books = keep (holds "book_valid" true) books in
      let prices =
        or_list (map (field "price") trades)
          (map (field "close") (of_kind SignalKind.market_candle events)) in
      let returns = returns_of prices in
      let volume = raw_volume events in
      let baselines = keep above_zero (map (field "baseline_volume") events) in
      let baseline =
        or_else (mean baselines) (or_else (mean (trailing_volumes key s.events)) volume) in
      let buys = sum (map (field "quantity") (keep (has_text "side" "BUY") trades)) in
      let sells = sum (map (field "quantity") (keep (has_text "side" "SELL") trades)) in
      ("price_return", some (ends_of prices))
      ∷ ("volume", some volume)
      ∷ ("relative_volume", some (if is_nonzero baseline then quotient volume baseline else pos 0))
      ∷ ("volatility", some (if ltb 1 (length returns) then pstdev returns else pos 0))
      ∷ ("spread", mean (map (field "spread") valid_books))
      ∷ ("top_n_depth", mean (map (field "top_n_depth") valid_books))
      ∷ ("orderbook_imbalance", mean (map (field "imbalance") valid_books))
      ∷ (
        "orderbook_valid",
        where_there (ltb 0 (length books)) (flag_number (ltb 0 (length valid_books))),
      )
      ∷ ("trade_count", some (whole (length trades)))
      ∷ (
        "buy_sell_pressure",
        some (
            if is_nonzero (buys +ℤ sells) then quotient (buys -ℤ sells) (buys +ℤ sells) else pos 0),
      )
      ∷ []
