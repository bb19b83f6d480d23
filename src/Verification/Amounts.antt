-- ===== src/Verification/Amounts.antt =====
-- Which amounts a claim can have: the text that they are looked for in is made of tokens.
use Prim.Native.Char.{Char, code}
use Prim.Native.String.append
use scam2marke.Prelude.{
  ◌≡◌, ◌≢◌, refl, inl, inr, String, ◌<>◌, Bool, true, false, List, [], ◌∷◌, none, arith, leb,
  Bool-cases, All, All-append,
}
use scam2marke.Prelude.Text.{text_length}
use scam2marke.Verification.Text.{
  starts_token, continues_token, snoc, token_of, extend, scan_tokens, find_tokens, join_tokens,
  is_word, is_number, words, amount_step, scan_amounts, find_amounts, canonical_claim,
}

abbrev NoDot : String → Type 0
NoDot String.[] = Unit
NoDot (String.◌∷◌ c s) = (code c ≢ b'.') × NoDot s

append-NoDot : (s t : String) → NoDot s → NoDot t → NoDot (s <> t)
append-NoDot String.[] t hs ht = rw (append.nil t) ht
append-NoDot (String.◌∷◌ c s) t hs ht = rw (append.cons c s t) (hs.0, append-NoDot s t hs.1 ht)

continues_no_dot : (c : Char) → continues_token (code c) ≡ true → code c ≢ b'.'
continues_no_dot c h = ground arith

starts_no_dot : (c : Char) → starts_token (code c) ≡ true → code c ≢ b'.'
starts_no_dot c h = ground arith

token_of-NoDot : (run : String) → NoDot run → All NoDot (token_of run)
unfolding token_of
token_of-NoDot run h = elim (Bool-cases (leb 2 (text_length run))) [
  | inl long ↦ rw long (h, tt)
  | inr short ↦ rw short tt
]

extend-NoDot : (run : String) (c : Char) → NoDot run → NoDot (extend run c)
unfolding extend
extend-NoDot String.[] c h = elim (Bool-cases (starts_token (code c))) [
  | inl start ↦ rw start (starts_no_dot c start, tt)
  | inr other ↦ rw other tt
]
extend-NoDot (String.◌∷◌ d s) c h = elim (Bool-cases (continues_token (code c))) [
  | inl goes_on ↦
      rw goes_on
        (append-NoDot (String.◌∷◌ d s) (String.◌∷◌ c String.[]) h (continues_no_dot c goes_on, tt))
  | inr ends ↦ rw ends tt
]

scan_tokens-NoDot : (run s : String) → NoDot run → All NoDot (scan_tokens run s)
unfolding scan_tokens
scan_tokens-NoDot run String.[] h = token_of-NoDot run h
scan_tokens-NoDot run (String.◌∷◌ c s) h =
    let rest = scan_tokens-NoDot (extend run c) s (extend-NoDot run c h) in
    elim (Bool-cases (continues_token (code c))) [
      | inl goes_on ↦ rw goes_on rest
      | inr ends ↦ rw ends (All-append NoDot (token_of run) _ (token_of-NoDot run h) rest)
    ]

join_tokens-NoDot : (ts : List String) → All NoDot ts → NoDot (join_tokens ts)
unfolding join_tokens
join_tokens-NoDot [] all = tt
join_tokens-NoDot (t ∷ []) all = all.0
join_tokens-NoDot (t ∷ u ∷ ts) all =
    append-NoDot t (" " <> join_tokens (u ∷ ts)) all.0
      (append-NoDot " " (join_tokens (u ∷ ts)) (omega arith, tt) (join_tokens-NoDot (u ∷ ts) all.1))

abbrev Undotted : List (String × Bool) → Type 0
Undotted ws = All (λ (w : String × Bool). w.1 ≡ false) ws

words-Undotted : (run s : String) → NoDot s → Undotted (words run s)
unfolding words
words-Undotted run String.[] h = (refl, tt)
words-Undotted run (String.◌∷◌ c s) h = elim (Bool-cases (is_word (code c))) [
  | inl word ↦ rw word (words-Undotted (snoc run c) s h.1)
  | inr gap ↦ rw gap (ground (arith, h.0), words-Undotted String.[] s h.1)
]

abbrev AllNumbers : List String → Type 0
AllNumbers ws = All (λ (w : String). is_number w ≡ true) ws

scan_amounts-AllNumbers :
    (ws : List (String × Bool)) → Undotted ws → AllNumbers (scan_amounts none ws)
unfolding scan_amounts amount_step
scan_amounts-AllNumbers [] h = tt
scan_amounts-AllNumbers ((w, dot) ∷ ws) h =
    let rest = scan_amounts-AllNumbers ws h.1 in
    elim (Bool-cases (is_number w)) [
      | inl number ↦ rw (number, h.0) (number, rest)
      | inr other ↦ rw other rest
    ]

-- No amount of a claim has a fraction: every one is a run of digits, whatever the text is.
pub amounts-canonical_claim :
    (lower upper : String → String) (asset_id text : String)
    → AllNumbers (canonical_claim lower upper asset_id text).amounts
unfolding canonical_claim find_amounts find_tokens
amounts-canonical_claim lower upper asset_id text = scan_amounts-AllNumbers _ (
    words-Undotted "" (join_tokens (find_tokens (lower text)))
      (join_tokens-NoDot (find_tokens (lower text)) (scan_tokens-NoDot "" (lower text) tt)))
