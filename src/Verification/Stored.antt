-- ===== src/Verification/Stored.antt =====
-- The same content stored twice: `persist_versioned_disclosure` numbers a new version after the
-- newest one and refuses content that the newest one has.
use scam2marke.Prelude.{
  ℕ, ◌+◌, ◌≡◌, refl, sym, ap, ◌∙◌, subst, inl, inr, ◌≤◌, ◌<◌, String, ◌<>◌, Bool, true, false, List,
  [], ◌∷◌, ◌++◌, Option, none, some, arith, ltb, str_eq, eq_iff, if◌then◌else◌, lt→ltb, ltb→lt,
  Bool-cases, Option-cases, keep, All, All-mono,
}
use mathlib.Core.Option.{some-injective}
use scam2marke.Prelude.Dict.{Dict, string_eq, lookup, insert}
use scam2marke.Verification.Types.{DisclosureDocument, DisclosureChunk}
use scam2marke.Verification.Repository.{
  Versions, VerificationRepository, newest, logical_key, document_key, same_document, entries,
  supersede, mark_latest, prepare, latest_version, next_version, persist_versioned_disclosure,
  store, is_unchanged, or_text, document_of,
}
use scam2marke.Verification.Versions.{Version, version_of, keep-append}

abbrev Documents : Type 0
Documents = Dict String Version

Below : ℕ → Versions → Type 0
Below n vs = All (λ (v : Version). version_of v < n) vs

Below-mono : (m n : ℕ) (vs : Versions) → m ≤ n → Below m vs → Below n vs
unfolding Below
Below-mono m n vs le below = All-mono (λ v lt. omega arith) vs below

newest-none-Below : (n : ℕ) (vs : Versions) → newest vs ≡ none → Below n vs
unfolding newest Below
newest-none-Below n [] e = tt
newest-none-Below n (v ∷ vs) e = elim (Option-cases (newest vs)) [
  | inl alone ↦ absurd (cc (rw alone at e))
  | inr (u, found) ↦ absurd (cc (rw found at e))
]

newest_max : (vs : Versions) (w : Version) → newest vs ≡ some w → Below (version_of w + 1) vs
unfolding newest Below
newest_max [] w e = tt
newest_max (v ∷ vs) w e = elim (Option-cases (newest vs)) [
  | inl alone ↦
      let same = some-injective _ _ (rw alone at e) in
      (
        subst (λ z. version_of v < version_of z + 1) same (omega arith),
        unfold Below in (newest-none-Below (version_of w + 1) vs alone),
      )
  | inr (u, found) ↦ elim (Bool-cases (ltb (version_of v) (version_of u))) [
    | inl newer ↦
        let same = some-injective _ _ (rw newer at (rw found at e)) in
        subst (λ z. Below (version_of z + 1) (v ∷ vs)) same
          (omega (arith, ltb→lt (version_of v) (version_of u) newer), newest_max vs u found)
    | inr older ↦
        let same = some-injective _ _ (rw older at (rw found at e)) in
        subst (λ z. Below (version_of z + 1) (v ∷ vs)) same
          (
            omega arith,
            Below-mono (version_of u + 1) (version_of v + 1) vs (ground arith)
                (newest_max vs u found),
          )
  ]
]

newest_snoc :
    (vs : Versions) (w : Version) → Below (version_of w) vs → newest (vs ++ w ∷ []) ≡ some w
unfolding newest Below
newest_snoc [] w below = refl
newest_snoc (v ∷ vs) w below =
    rw (newest_snoc vs w below.1, lt→ltb (version_of v) (version_of w) below.0) refl

lookup-insert_absent :
    (k : String) (v : Version) (d : Documents)
    → lookup k d ≡ none
    → entries (insert k v d) ≡ entries d ++ v ∷ []
unfolding lookup insert
lookup-insert_absent k v [] absent = refl
lookup-insert_absent k v ((j, w) ∷ d) absent = elim (Bool-cases (string_eq.beq j k)) [
  | inl same ↦ absurd (cc (rw same at absent))
  | inr other ↦ rw other (ap (λ vs. w ∷ vs) (lookup-insert_absent k v d (rw other at absent)))
]

or_text_again : (a : Option String) (b : String) → or_text (some (or_text a b)) b ≡ or_text a b
or_text_again none b = ground arith
or_text_again (some s) b = ground arith

lookup-supersede :
    (k id : String) (d : Documents) → lookup k d ≡ none → lookup k (supersede id d) ≡ none
unfolding lookup supersede
lookup-supersede k id [] absent = refl
lookup-supersede k id ((j, (w, cs)) ∷ d) absent = elim (Bool-cases (string_eq.beq j k)) [
  | inl same ↦ absurd (cc (rw same at absent))
  | inr other ↦ rw other (lookup-supersede k id d (rw other at absent))
]

module _ (lk dk : String) where
  abbrev one_of : Version → Bool
  one_of v = same_document lk dk v.0

  supersede-Below :
      (n : ℕ) (id : String) (d : Documents)
      → Below n (keep one_of (entries d))
      → Below n (keep one_of (entries (supersede id d)))
  unfolding Below supersede same_document logical_key document_key
  supersede-Below n id [] below = tt
  supersede-Below n id ((j, (w, cs)) ∷ d) below = elim (Bool-cases (str_eq w.disclosure_id id)) [
    | inl marked ↦ rw marked (elim (Bool-cases (one_of (w, cs))) [
      | inl one ↦ let split = rw one at below in rw one (split.0, supersede-Below n id d split.1)
      | inr other ↦ rw other (supersede-Below n id d (rw other at below))
    ])
    | inr plain ↦ rw plain (elim (Bool-cases (one_of (w, cs))) [
      | inl one ↦ let split = rw one at below in rw one (split.0, supersede-Below n id d split.1)
      | inr other ↦ rw other (supersede-Below n id d (rw other at below))
    ])
  ]

  mark-Below :
      (docs : Documents) (latest : Option Version)
      → newest (keep one_of (entries docs)) ≡ latest
      → Below
          (next_version (document_of latest))
          (keep one_of (entries (mark_latest (document_of latest) docs)))
  mark-Below docs none e = newest-none-Below 1 (keep one_of (entries docs)) e
  mark-Below docs (some w) e =
      supersede-Below (version_of w + 1) w.0.disclosure_id docs
        (newest_max (keep one_of (entries docs)) w e)

lookup-mark :
    (k : String) (latest : Option DisclosureDocument) (docs : Documents)
    → lookup k docs ≡ none
    → lookup k (mark_latest latest docs) ≡ none
lookup-mark k none docs absent = absent
lookup-mark k (some l) docs absent = lookup-supersede k l.disclosure_id docs absent

module _ (uuid5 : String → String) (show : ℕ → String) (d : DisclosureDocument) where
  -- The key under which the next version is stored.
  abbrev pub next_key : VerificationRepository → String
  next_key r =
      logical_key d
      <> (":" <> (document_key d <> (":" <> show (next_version (latest_version r d)))))

  prepare-one_of :
      (now : ℕ) (latest : Option DisclosureDocument) (preserve : Bool) (cs : List DisclosureChunk)
      → one_of (logical_key d) (document_key d) (prepare uuid5 show now d latest preserve, cs)
        ≡ true
  unfolding prepare same_document logical_key document_key
  prepare-one_of now latest preserve cs = ground (
    arith,
    or_text_again d.logical_source_key (or_text d.source_policy_id d.source),
    or_text_again d.source_document_key d.source_document_id,
    eq_iff (logical_key d) (logical_key d),
    eq_iff (document_key d) (document_key d),
  )

  version_of-prepare :
      (now : ℕ) (latest : Option DisclosureDocument) (preserve : Bool)
      → (prepare uuid5 show now d latest preserve).document_version ≡ next_version latest
  unfolding prepare
  version_of-prepare now latest preserve = refl

  hash-prepare :
      (now : ℕ) (latest : Option DisclosureDocument) (preserve : Bool)
      → (prepare uuid5 show now d latest preserve).content_hash ≡ d.content_hash
  unfolding prepare
  hash-prepare now latest preserve = refl

  newest-stored :
      (docs : Documents) (key : String) (v : Version)
      → one_of (logical_key d) (document_key d) v ≡ true
      → lookup key docs ≡ none
      → Below (version_of v) (keep (one_of (logical_key d) (document_key d)) (entries docs))
      → newest (keep (one_of (logical_key d) (document_key d)) (entries (insert key v docs)))
        ≡ some v
  newest-stored docs key v own absent below =
      let one = one_of (logical_key d) (document_key d) in
      ap (λ vs. newest (keep one vs)) (lookup-insert_absent key v docs absent)
      ∙ ap newest (keep-append one (entries docs) (v ∷ []))
      ∙ ap (λ (b : Bool). newest (keep one (entries docs) ++ (if b then v ∷ [] else []))) own
      ∙ newest_snoc (keep one (entries docs)) v below

  module _ (chunks_for : DisclosureDocument → List DisclosureChunk) where
    -- A stored version is the newest one of its document.
    latest_version-store :
        (now : ℕ) (r : VerificationRepository) (preserve : Bool)
        → lookup (next_key r) r.documents ≡ none
        → latest_version (store uuid5 show now chunks_for r d (latest_version r d) preserve) d
          ≡ some (prepare uuid5 show now d (latest_version r d) preserve)
    latest_version-store now r preserve fresh =
        let latest = latest_version r d in
        let v : Version = (
          prepare uuid5 show now d latest preserve,
          chunks_for (prepare uuid5 show now d latest preserve),
        ) in
        let number_v = version_of-prepare now latest preserve in
        let key = logical_key d <> (":" <> (document_key d <> (":" <> show (version_of v)))) in
        let absent : lookup key r.documents ≡ none =
          subst
            (λ n.
              lookup (logical_key d <> (":" <> (document_key d <> (":" <> show n)))) r.documents
              ≡ none)
            (sym number_v) fresh in
        ap document_of (
          newest-stored (mark_latest latest r.documents) key v
            (prepare-one_of now latest preserve
              (chunks_for (prepare uuid5 show now d latest preserve)))
            (lookup-mark key latest r.documents absent)
            (subst
              (λ n. Below n (
                keep (one_of (logical_key d) (document_key d))
                  (entries (mark_latest latest r.documents))))
              (sym number_v) (mark-Below (logical_key d) (document_key d) r.documents _ refl)))

    persist_unchanged :
        (now : ℕ) (r : VerificationRepository) (preserve : Bool)
        → is_unchanged (latest_version r d) d ≡ true
        → persist_versioned_disclosure uuid5 show now chunks_for r d preserve ≡ (none, r)
    unfolding persist_versioned_disclosure
    persist_unchanged now r preserve same = rw same refl

    persist_changed :
        (now : ℕ) (r : VerificationRepository) (preserve : Bool)
        → is_unchanged (latest_version r d) d ≡ false
        → (persist_versioned_disclosure uuid5 show now chunks_for r d preserve).1
          ≡ store uuid5 show now chunks_for r d (latest_version r d) preserve
    unfolding persist_versioned_disclosure
    persist_changed now r preserve changed = rw changed refl

    is_unchanged-store :
        (now : ℕ) (r : VerificationRepository) (preserve : Bool)
        → lookup (next_key r) r.documents ≡ none
        → is_unchanged
            (latest_version (store uuid5 show now chunks_for r d (latest_version r d) preserve) d)
            d
          ≡ true
    is_unchanged-store now r preserve fresh =
        ap (λ l. is_unchanged l d) (latest_version-store now r preserve fresh)
        ∙ (eq_iff _ _).1 (hash-prepare now (latest_version r d) preserve)

    -- Where the key of the next version is not in use: content that is stored a second time, later
    -- and with any timestamps, is refused and leaves the repository as it is.
    pub persist_versioned_disclosure-again :
        (now later : ℕ) (r : VerificationRepository) (preserve again : Bool)
        → lookup (next_key r) r.documents ≡ none
        → let r' = (persist_versioned_disclosure uuid5 show now chunks_for r d preserve).1 in
          persist_versioned_disclosure uuid5 show later chunks_for r' d again ≡ (none, r')
    persist_versioned_disclosure-again now later r preserve again fresh =
        let r' = (persist_versioned_disclosure uuid5 show now chunks_for r d preserve).1 in
        persist_unchanged later r' again (elim (Bool-cases (is_unchanged (latest_version r d) d)) [
          | inl same ↦
              subst (λ s. is_unchanged (latest_version s d) d ≡ true)
                (sym (ap (λ p. p.1) (persist_unchanged now r preserve same))) same
          | inr changed ↦
              subst (λ s. is_unchanged (latest_version s d) d ≡ true)
                (sym (persist_changed now r preserve changed))
                (is_unchanged-store now r preserve fresh)
        ])
