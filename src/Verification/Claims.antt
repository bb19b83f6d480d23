-- ===== src/Verification/Claims.antt =====
-- The claims that are extracted from a narrative.
use scam2marke.Prelude.{
  ℕ, ◌≡◌, refl, ◌≢◌, inl, inr, ◌≤◌, String, true, false, List, [], ◌∷◌, arith, Bool-cases, length,
  length-take, nonempty, All, All-mono, take,
}
use scam2marke.Prelude.Dict.{contains, string_eq}
use scam2marke.Prelude.Text.{is_blank}
use scam2marke.Verification.Types.{Claim}
use scam2marke.Verification.Extractor.{TextLibrary, extract_loop, extract, claim_of, claim_texts}

abbrev pub OncePerHash : List Claim → Type 0
OncePerHash [] = Unit
OncePerHash (c ∷ cs) = All (λ (d : Claim). d.claim_hash ≢ c.claim_hash) cs × OncePerHash cs

Unseen : List String → List Claim → Type 0
Unseen seen cs = All (λ (c : Claim). contains seen c.claim_hash ≡ false) cs

module _ (lib : TextLibrary) (narrative_id asset_id : String) (extracted_at : ℕ) where
  abbrev loop : List String → List String → List Claim
  loop texts seen = extract_loop lib narrative_id asset_id extracted_at texts seen

  abbrev made : String → Claim
  made text = claim_of lib narrative_id asset_id extracted_at text

  loop_again :
      (text : String) (texts seen : List String)
      → contains seen (made text).claim_hash ≡ true
      → loop (text ∷ texts) seen ≡ loop texts seen
  unfolding extract_loop
  loop_again text texts seen again = rw again refl

  loop_new :
      (text : String) (texts seen : List String)
      → contains seen (made text).claim_hash ≡ false
      → loop (text ∷ texts) seen ≡ made text ∷ loop texts ((made text).claim_hash ∷ seen)
  unfolding extract_loop
  loop_new text texts seen fresh = rw fresh refl

  length-loop : (texts seen : List String) → length (loop texts seen) ≤ length texts
  unfolding extract_loop
  length-loop [] seen = omega arith
  length-loop (text ∷ texts) seen = elim (Bool-cases (contains seen (made text).claim_hash)) [
    | inl again ↦ rw again (omega (arith, length-loop texts seen))
    | inr fresh ↦ rw fresh (omega (arith, length-loop texts ((made text).claim_hash ∷ seen)))
  ]

  not_head :
      (h : String) (seen : List String) (j : String)
      → contains (h ∷ seen) j ≡ false
      → (j ≢ h) × (contains seen j ≡ false)
  unfolding contains
  not_head h seen j missing = ground (arith, string_eq.beq_iff h j)

  loop-OncePerHash :
      (texts seen : List String) → OncePerHash (loop texts seen) × Unseen seen (loop texts seen)
  unfolding Unseen extract_loop
  loop-OncePerHash [] seen = (tt, tt)
  loop-OncePerHash (text ∷ texts) seen = elim (Bool-cases (contains seen (made text).claim_hash)) [
    | inl again ↦ rw (loop_again text texts seen again) (loop-OncePerHash texts seen)
    | inr fresh ↦
        let h = (made text).claim_hash in
        let rest = loop-OncePerHash texts (h ∷ seen) in
        rw (loop_new text texts seen fresh) (
          (
            All-mono (λ c unseen. (not_head h seen c.claim_hash unseen).0) (loop texts (h ∷ seen))
                rest.1,
            rest.0,
          ),
          (
            fresh,
            All-mono (λ c unseen. (not_head h seen c.claim_hash unseen).1) (loop texts (h ∷ seen))
                rest.1,
          ),
        )
  ]

  -- At most five claims come out of a narrative, and no two of them have one hash.
  pub extract-OncePerHash :
      (summary : String)
      → let claims = extract lib narrative_id asset_id summary extracted_at in
        (length claims ≤ 5) × OncePerHash claims
  unfolding extract
  extract-OncePerHash summary =
      let texts = take 5 (claim_texts lib summary) in
      (
        omega (arith, length-loop texts [], length-take 5 (claim_texts lib summary)),
        (loop-OncePerHash texts []).0,
      )

  loop-nonempty : (texts : List String) → nonempty texts ≡ true → nonempty (loop texts []) ≡ true
  unfolding extract_loop contains
  loop-nonempty [] some_text = some_text
  loop-nonempty (text ∷ texts) some_text = refl

  claim_texts-nonempty :
      (summary : String)
      → is_blank (lib.strip summary) ≡ false
      → nonempty (take 5 (claim_texts lib summary)) ≡ true
  unfolding claim_texts
  claim_texts-nonempty summary solid = ground arith

  -- A narrative whose summary is more than white space has at least one claim.
  pub extract-nonempty :
      (summary : String)
      → is_blank (lib.strip summary) ≡ false
      → nonempty (extract lib narrative_id asset_id summary extracted_at) ≡ true
  unfolding extract
  extract-nonempty summary solid =
      loop-nonempty (take 5 (claim_texts lib summary)) (claim_texts-nonempty summary solid)
