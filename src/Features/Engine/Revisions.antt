-- ===== src/Features/Engine/Revisions.antt =====
-- The revisions of a window: how they are numbered, and what each says of the one before it.
use scam2marke.Prelude.{
  ℕ, ◌+◌, ◌≡◌, ◌≢◌, refl, Bool, not, List, [], ◌∷◌, ◌++◌, Option, none, some, arith, length, last?,
  All, if◌then◌else◌,
}
use scam2marke.Features.Types.{RevisionState, FeatureSnapshot, is_provisional, WindowKey}
use scam2marke.Features.Engine.{end_of, next_revision}

-- What a revision says of itself and of the one before it: a final or corrected one is corrected by
-- the next, and nothing else is.
abbrev pub Follows : Option FeatureSnapshot → FeatureSnapshot → Type 0
Follows none r =
    (r.is_final ≡ not (is_provisional r.revision_state))
    × (r.revision_state ≢ RevisionState.corrected)
    × (r.supersedes_revision ≡ none)
Follows (some prior) r =
    (r.is_final ≡ not (is_provisional r.revision_state))
    × (if prior.is_final
        then (r.revision_state ≡ RevisionState.corrected)
          × (r.supersedes_revision ≡ some prior.revision)
        else (r.revision_state ≢ RevisionState.corrected) × (r.supersedes_revision ≡ none))

-- Revisions that come after `n` others, of which `prior` is the last.
abbrev pub Chain : ℕ → Option FeatureSnapshot → List FeatureSnapshot → Type 0
Chain n prior [] = Unit
Chain n prior (r ∷ rs) = (r.revision ≡ n + 1) × Follows prior r × Chain (n + 1) (some r) rs

-- The snapshot is one of the window.
abbrev pub OfWindow : WindowKey → FeatureSnapshot → Type 0
OfWindow (scope, (asset, (start, interval))) r =
    (r.scope_id ≡ scope)
    × (r.asset_id ≡ asset)
    × (r.window_start ≡ start)
    × (r.interval_seconds ≡ interval)
    × (r.window_end ≡ end_of (scope, (asset, (start, interval))))

abbrev pub IsHistory : WindowKey → List FeatureSnapshot → Type 0
IsHistory key rs = Chain 0 none rs × All (OfWindow key) rs

abbrev last_or : Option FeatureSnapshot → List FeatureSnapshot → Option FeatureSnapshot
last_or prior [] = prior
last_or prior (r ∷ rs) = last_or (some r) rs

last_or-cons :
    (prior : Option FeatureSnapshot) (r : FeatureSnapshot) (rs : List FeatureSnapshot)
    → last_or prior (r ∷ rs) ≡ last? (r ∷ rs)
last_or-cons prior r [] = refl
last_or-cons prior r (x ∷ rs) = last_or-cons (some r) x rs

pub last_or-none : (rs : List FeatureSnapshot) → last_or none rs ≡ last? rs
last_or-none [] = refl
last_or-none (r ∷ rs) = last_or-cons none r rs

pub Chain-append :
    (n : ℕ) (prior : Option FeatureSnapshot) (rs : List FeatureSnapshot) (r : FeatureSnapshot)
    → Chain n prior rs
    → r.revision ≡ n + length rs + 1
    → Follows (last_or prior rs) r
    → Chain n prior (rs ++ r ∷ [])
Chain-append n prior [] r chain number follows = (omega arith, follows, tt)
Chain-append n prior (x ∷ rs) r chain number follows =
    (chain.0, chain.1, Chain-append (n + 1) (some x) rs r chain.2 (omega arith) follows)

-- In a chain every revision's `is_final` agrees with its state.
Follows-agree :
    (prior : Option FeatureSnapshot) (r : FeatureSnapshot)
    → Follows prior r
    → r.is_final ≡ not (is_provisional r.revision_state)
Follows-agree none r f = f.0
Follows-agree (some p) r f = f.0

pub last-agree :
    (n : ℕ) (prior : Option FeatureSnapshot) (rs : List FeatureSnapshot) (r : FeatureSnapshot)
    → Chain n prior rs
    → last? rs ≡ some r
    → r.is_final ≡ not (is_provisional r.revision_state)
last-agree n prior [] r chain last = cc
last-agree n prior (x ∷ []) r chain last = ground (arith, Follows-agree prior x chain.1)
last-agree n prior (x ∷ y ∷ rs) r chain last = last-agree (n + 1) (some x) (y ∷ rs) r chain.2 last

pub last?-snoc : (rs : List FeatureSnapshot) (r : FeatureSnapshot) → last? (rs ++ r ∷ []) ≡ some r
last?-snoc [] r = refl
last?-snoc (x ∷ []) r = refl
last?-snoc (x ∷ y ∷ rs) r = last?-snoc (y ∷ rs) r

pub next_revision-Follows :
    (last : Option FeatureSnapshot) (finalize : Bool) (r : FeatureSnapshot)
    → ((p : FeatureSnapshot) → last ≡ some p → p.is_final ≡ not (is_provisional p.revision_state))
    → (r.revision_state, r.supersedes_revision) ≡ next_revision last finalize
    → r.is_final ≡ not (is_provisional r.revision_state)
    → Follows last r
unfolding next_revision
next_revision-Follows none finalize r agree next own = ground arith
next_revision-Follows (some p) finalize r agree next own = ground (arith, agree p refl)
