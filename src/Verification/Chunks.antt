-- ===== src/Verification/Chunks.antt =====
-- What the chunks of a document and the claims of a narrative are.
use scam2marke.Prelude.{
  ℕ, ◌+◌, ◌≡◌, inl, inr, ◌≤◌, String, ◌<>◌, false, not, ◌&&◌, List, [], ◌∷◌, arith, ltb, Bool-cases,
  All,
}
use Prim.Native.String.append
use scam2marke.Prelude.Dict.{string_eq}
use scam2marke.Prelude.Text.{is_blank, text_length, text_length-append}
use scam2marke.Verification.Extractor.{TextLibrary, chunk_texts}

module _ (lib : TextLibrary) (shorter : (s : String) → text_length (lib.strip s) ≤ text_length s)
    (drops_newline : (s : String) → text_length (lib.strip ("\n" <> s)) ≤ text_length s) where
  joined_short :
      (limit : ℕ) (current p : String)
      → text_length current + text_length p + 1 ≤ limit
      → text_length (lib.strip (current <> ("\n" <> p))) ≤ limit
  unfolding text_length
  joined_short limit current p h = omega (
    arith,
    shorter (current <> ("\n" <> p)),
    text_length-append current ("\n" <> p),
    text_length-append "\n" p,
  )

  extended :
      (limit : ℕ) (current p : String)
      → text_length p ≤ limit
      → not (is_blank current) && ltb limit (text_length current + text_length p + 1) ≡ false
      → text_length (lib.strip (current <> ("\n" <> p))) ≤ limit
  extended limit String.[] p short goes_on =
      rw (append.nil ("\n" <> p)) (omega (arith, drops_newline p))
  extended limit (String.◌∷◌ c s) p short goes_on =
      joined_short limit (String.◌∷◌ c s) p (ground arith)

  -- Where `strip` never lengthens a text and takes a newline off its front: if no paragraph is
  -- longer than the limit, no chunk is.
  pub chunk_texts-bounded :
      (limit : ℕ) (current : String) (ps : List String)
      → text_length current ≤ limit
      → All (λ (p : String). text_length p ≤ limit) ps
      → All (λ (c : String). text_length c ≤ limit) (chunk_texts lib limit current ps)
  unfolding chunk_texts
  chunk_texts-bounded limit current [] short all = elim (Bool-cases (is_blank current)) [
    | inl blank ↦ rw blank tt
    | inr solid ↦ rw solid (short, tt)
  ]
  chunk_texts-bounded limit current (p ∷ ps) short all =
      let full = not (is_blank current) && ltb limit (text_length current + text_length p + 1) in
      elim (Bool-cases full) [
        | inl closed ↦ rw closed (short, chunk_texts-bounded limit p ps all.0 all.1)
        | inr goes_on ↦ rw goes_on (
            chunk_texts-bounded limit (lib.strip (current <> ("\n" <> p))) ps
              (extended limit current p all.0 goes_on) all.1)
      ]
