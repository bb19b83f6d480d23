-- ===== src/Verification/Versions.antt =====
-- The versions of a document in the repository: what a time sees of them, and the same content
-- stored twice.
use scam2marke.Prelude.{
  if◌then◌else◌, ℕ, ◌≤◌, ◌<◌, sym, false, All-mono, Any, Any-keep, Any-mono, ◌≡◌, refl, ap, ◌∙◌,
  subst, inl, inr, Bool, true, List, [], ◌∷◌, ◌++◌, Option, none, some, arith, leb, ltb, append_nil,
  Bool-cases, Option-cases, keep, All,
}
use mathlib.Core.Option.{some-injective}
use scam2marke.Prelude.Dict.{string_eq}
use scam2marke.Verification.Types.{DisclosureDocument, DisclosureChunk}
use scam2marke.Verification.Repository.{Versions, available, newest, select_versions}

abbrev pub Version : Type 0
Version = DisclosureDocument × List DisclosureChunk

abbrev pub eligible : ℕ → Version → Bool
eligible alert_time v = leb (available v.0) alert_time

abbrev pub later : ℕ → Version → Bool
later alert_time v = ltb alert_time (available v.0)

keep-later : (t : ℕ) (vs : Versions) → keep (eligible t) (keep (later t) vs) ≡ []
keep-later t [] = refl
keep-later t (v ∷ vs) = ground (arith, keep-later t vs)

pub keep-append {ℓ} :
    {A : Type ℓ} (p : A → Bool) (xs ys : List A) → keep p (xs ++ ys) ≡ keep p xs ++ keep p ys
keep-append p [] ys = refl
keep-append p (x ∷ xs) ys = elim (Bool-cases (p x)) [
  | inl kept ↦ rw kept (ap (λ zs. x ∷ zs) (keep-append p xs ys))
  | inr lost ↦ rw lost (keep-append p xs ys)
]

abbrev pub list_of {ℓ} : {A : Type ℓ} → Option A → List A
list_of none = []
list_of (some a) = a ∷ []

abbrev pub version_of : Version → ℕ
version_of v = v.0.document_version

pub newest-All :
    (P : Version → Type 0) (vs : Versions) (w : Version) → All P vs → newest vs ≡ some w → P w
unfolding newest
newest-All P [] w all e = absurd (cc)
newest-All P (v ∷ vs) w all e = elim (Option-cases (newest vs)) [
  | inl alone ↦ subst P (some-injective _ _ (rw alone at e)) all.0
  | inr (u, found) ↦ elim (Bool-cases (ltb (version_of v) (version_of u))) [
    | inl newer ↦
        subst P (some-injective _ _ (rw newer at (rw found at e))) (newest-All P vs u all.1 found)
    | inr older ↦ subst P (some-injective _ _ (rw older at (rw found at e))) all.0
  ]
]

true-false : true ≡ false → ⊥
true-false h = cc

cons-nil : (v : Version) (vs : Versions) → [] ≡ v ∷ vs → ⊥
cons-nil v vs h = cc

newest-none : (vs : Versions) → newest vs ≡ none → (P : Version → Type 0) → All P vs
unfolding newest
newest-none [] e P = tt
newest-none (v ∷ vs) e P = elim (Option-cases (newest vs)) [
  | inl alone ↦ absurd (cc (rw alone at e))
  | inr (u, found) ↦ absurd (cc (rw found at e))
]

-- The newest is one of the versions, and none has a greater number.
newest-greatest :
    (vs : Versions) (w : Version)
    → newest vs ≡ some w
    → Any (λ v. v ≡ w) vs × All (λ v. version_of v ≤ version_of w) vs
unfolding newest
newest-greatest [] w e = absurd (cc)
newest-greatest (v ∷ vs) w e = elim (Option-cases (newest vs)) [
  | inl alone ↦
      let same : v ≡ w = some-injective _ _ (rw alone at e) in
      let nothing = newest-none vs alone in
      (
        inl same,
        (
          subst (λ u. version_of v ≤ version_of u) same (omega arith),
          nothing (λ x. version_of x ≤ version_of w),
        ),
      )
  | inr (u, found) ↦
      let (there, most) = newest-greatest vs u found in
      elim (Bool-cases (ltb (version_of v) (version_of u))) [
        | inl newer ↦
            let same : u ≡ w = some-injective _ _ (rw newer at (rw found at e)) in
            subst (λ w. Any (λ v. v ≡ w) (v ∷ vs) × All (λ v. version_of v ≤ version_of w) (v ∷ vs))
              same (inr there, (ground (arith, newer), most))
        | inr older ↦
            let same : v ≡ w = some-injective _ _ (rw older at (rw found at e)) in
            subst (λ w. Any (λ v. v ≡ w) (v ∷ vs) × All (λ v. version_of v ≤ version_of w) (v ∷ vs))
              same (inl refl, (omega arith, All-mono (λ x le. ground (arith, older, le)) vs most))
      ]
]

All-keep :
    (p : Version → Bool) (P : Version → Type 0) (vs : Versions)
    → All P (keep p vs)
    → All (λ v. p v ≡ true → P v) vs
All-keep p P [] all = tt
All-keep p P (v ∷ vs) all = elim (Bool-cases (p v)) [
  | inl kept ↦
      let now : P v × All P (keep p vs) = rw kept at all in ((λ _. now.0), All-keep p P vs now.1)
  | inr lost ↦ ((λ kept. absurd (true-false (sym kept ∙ lost))), All-keep p P vs (rw lost at all))
]

keep-All : (p : Version → Bool) (vs : Versions) → All (λ (v : Version). p v ≡ true) (keep p vs)
keep-All p [] = tt
keep-All p (v ∷ vs) = elim (Bool-cases (p v)) [
  | inl kept ↦ rw kept (kept, keep-All p vs)
  | inr lost ↦ rw lost (keep-All p vs)
]

newest-keep :
    (p : Version → Bool) (vs : Versions)
    → keep p (list_of (newest (keep p vs))) ≡ list_of (newest (keep p vs))
newest-keep p vs = elim (Option-cases (newest (keep p vs))) [
  | inl absent ↦ rw absent refl
  | inr (w, found) ↦
      rw (found, newest-All (λ v. p v ≡ true) (keep p vs) w (keep-All p vs) found) refl
]

-- What a time sees of a document: nothing where no version was available, and else one version that
-- was, of the greatest number among those that were.
abbrev pub Seen : ℕ → Versions → Versions → Type 0
Seen t vs [] = All (λ v. t < available v.0) vs
Seen t vs (w ∷ []) =
    Any (λ v. v ≡ w) vs
    × (available w.0 ≤ t)
    × All (λ v. available v.0 ≤ t → version_of v ≤ version_of w) vs
Seen t vs (_ ∷ _ ∷ _) = ⊥

newest-Seen : (t : ℕ) (vs : Versions) → Seen t vs (list_of (newest (keep (eligible t) vs)))
newest-Seen t vs = elim (Option-cases (newest (keep (eligible t) vs))) [
  | inl absent ↦ rw absent (
      All-mono
        (λ v never. elim (Bool-cases (eligible t v)) [
          | inl kept ↦ absurd (never kept)
          | inr lost ↦ ground (arith, lost)
        ])
        vs (All-keep (eligible t) (λ v. ⊥) vs (newest-none _ absent (λ v. ⊥))))
  | inr (w, found) ↦
      let (there, most) = newest-greatest (keep (eligible t) vs) w found in
      let kept =
        newest-All (λ v. eligible t v ≡ true) (keep (eligible t) vs) w (keep-All _ vs) found in
      rw found (
        Any-mono (λ v both. both.0) vs (Any-keep (λ v. v ≡ w) (eligible t) vs there),
        ground (arith, kept),
        All-mono (λ v most available_then. most (ground (arith, available_then))) vs
            (All-keep (eligible t) (λ v. version_of v ≤ version_of w) vs most),
      )
]

keep-eligible : (t : ℕ) (vs : Versions) → keep (later t) (keep (eligible t) vs) ≡ []
keep-eligible t [] = refl
keep-eligible t (v ∷ vs) = ground (arith, keep-eligible t vs)

keep-twice : (p : Version → Bool) (vs : Versions) → keep p (keep p vs) ≡ keep p vs
keep-twice p [] = refl
keep-twice p (v ∷ vs) = elim (Bool-cases (p v)) [
  | inl kept ↦ rw (kept, kept) (ap (λ us. v ∷ us) (keep-twice p vs))
  | inr lost ↦ rw lost (keep-twice p vs)
]

not_later :
    (t : ℕ) (o : Option Version)
    → keep (eligible t) (list_of o) ≡ list_of o
    → keep (later t) (list_of o) ≡ []
not_later t none own = refl
not_later t (some v) own = elim (Bool-cases (eligible t v)) [
  | inl kept ↦ ground (arith, kept)
  | inr lost ↦ absurd (cons-nil v [] (subst (λ b. (if b then v ∷ [] else []) ≡ v ∷ []) lost own))
]

-- What a query at a time gets of a document's versions. Of those available by then it gets only one,
-- with the greatest version number among them, and it gets one if there is any; a version that came
-- later does not hide it. Those that came later it gets all, in their order.
pub select_versions-eligible :
    (alert_time : ℕ) (versions : Versions)
    → Seen alert_time versions (keep (eligible alert_time) (select_versions alert_time versions))
      × (keep (later alert_time) (select_versions alert_time versions)
          ≡ keep (later alert_time) versions)
unfolding select_versions
select_versions-eligible t vs =
    let first = list_of (newest (keep (eligible t) vs)) in
    let own = newest-keep (eligible t) vs in
    (
      subst (Seen t vs)
          (sym (
            keep-append (eligible t) first (keep (later t) vs)
            ∙ ap (λ zs. keep (eligible t) first ++ zs) (keep-later t vs)
            ∙ append_nil _
            ∙ own))
          (newest-Seen t vs),
      keep-append (later t) first (keep (later t) vs)
          ∙ ap (λ zs. zs ++ keep (later t) (keep (later t) vs))
              (not_later t (newest (keep (eligible t) vs)) own)
          ∙ keep-twice (later t) vs,
    )
