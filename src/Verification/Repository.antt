-- ===== src/Verification/Repository.antt =====
-- src/scam2market/verification/repository.py, `InMemoryVerificationRepository`: the versions of the
-- official documents and the candidates that a claim is compared with. `uuid5` and `show` are
-- Python's, `now` is the clock; a text that names nothing falls through `or` like `None`.
use scam2marke.Prelude.{
  ℕ, ◌+◌, ◌*◌, String, ◌<>◌, Bool, true, false, ◌&&◌, ◌||◌, List, [], ◌∷◌, ◌++◌, map, Option, none,
  some, ltb, leb, ◌==◌, str_eq, max, or_else, keep, any_of, sorted, if◌then◌else◌,
}
use scam2marke.Prelude.Dict.{Dict, string_eq, pair_eq, option_eq, lookup, insert}
use scam2marke.Prelude.Text.{is_blank, str_leb}
use scam2marke.Verification.Types.{
  DisclosureDocument, DisclosureChunk, DisclosureCandidate, ClaimVerification, VerificationSummary,
}

abbrev pub Versions : Type 0
Versions = List (DisclosureDocument × List DisclosureChunk)

-- `self.coverage` and its like: whether every expected source was read.
pub record VerificationRepository : Type 0 where
  pub documents : Dict String (DisclosureDocument × List DisclosureChunk)
  pub verifications : List ClaimVerification
  pub outbox : List (String × VerificationSummary)
  pub coverage : Bool
  pub coverage_by_asset : Dict (Option String) Bool

-- `a or b`, on a text that may be missing
abbrev pub or_text : Option String → String → String
or_text none d = d
or_text (some s) d = if is_blank s then d else s

unfoldable pub logical_key : DisclosureDocument → String
logical_key d = or_text d.logical_source_key (or_text d.source_policy_id d.source)

unfoldable pub document_key : DisclosureDocument → String
document_key d = or_text d.source_document_key d.source_document_id

abbrev pub entries : Dict String (DisclosureDocument × List DisclosureChunk) → Versions
entries [] = []
entries ((k, v) ∷ d) = v ∷ entries d

-- The versions of one document.
unfoldable pub same_document : String → String → DisclosureDocument → Bool
unfolding logical_key document_key
same_document lk dk d = str_eq (logical_key d) lk && str_eq (document_key d) dk

-- `max(versions, key=document_version)`, which keeps the first of the greatest
unfoldable pub newest : Versions → Option (DisclosureDocument × List DisclosureChunk)
newest [] = none
newest (v ∷ vs) = elim (newest vs) [
  | none ↦ some v
  | some w ↦ some (if ltb v.0.document_version w.0.document_version then w else v)
]

abbrev pub document_of :
    Option (DisclosureDocument × List DisclosureChunk) → Option DisclosureDocument
document_of none = none
document_of (some v) = some v.0

-- `max(versions, key=…, default=None)`
abbrev pub latest_version : VerificationRepository → DisclosureDocument → Option DisclosureDocument
latest_version r d = document_of (
    newest (
      keep
        (λ (v : DisclosureDocument × List DisclosureChunk).
          same_document (logical_key d) (document_key d) v.0)
        (entries r.documents)))

unfoldable pub supersede :
    String
    → Dict String (DisclosureDocument × List DisclosureChunk)
    → Dict String (DisclosureDocument × List DisclosureChunk)
supersede id [] = []
supersede id ((k, (d, chunks)) ∷ rest) =
    (
      k,
      (if str_eq d.disclosure_id id then record d { version_status = "SUPERSEDED" } else d, chunks),
    )
    ∷ supersede id rest

abbrev pub next_version : Option DisclosureDocument → ℕ
next_version none = 1
next_version (some l) = l.document_version + 1

abbrev pub superseded_id : Option DisclosureDocument → Option String
superseded_id none = none
superseded_id (some l) = some l.disclosure_id

abbrev pub is_unchanged : Option DisclosureDocument → DisclosureDocument → Bool
is_unchanged none d = false
is_unchanged (some l) d = str_eq l.content_hash d.content_hash

abbrev pub mark_latest :
    Option DisclosureDocument
    → Dict String (DisclosureDocument × List DisclosureChunk)
    → Dict String (DisclosureDocument × List DisclosureChunk)
mark_latest none documents = documents
mark_latest (some l) documents = supersede l.disclosure_id documents

-- `persist_disclosure`
unfoldable pub persist_disclosure :
    (ℕ → String)
    → VerificationRepository
    → DisclosureDocument
    → List DisclosureChunk
    → Bool × VerificationRepository
unfolding lookup insert
persist_disclosure show r d chunks =
    let key = d.source <> (":" <> (d.source_document_id <> (":" <> show d.document_version))) in
    elim (lookup key r.documents) [
      | some _ ↦ (false, r)
      | none ↦ (true, record r { documents = insert key (d, chunks) r.documents })
    ]

module _ (uuid5 : String → String) (show : ℕ → String) (now : ℕ) where
  -- The document as it is stored, after the newest version.
  unfoldable pub prepare :
      DisclosureDocument → Option DisclosureDocument → Bool → DisclosureDocument
  unfolding logical_key document_key
  prepare d latest preserve =
      let lk = logical_key d in
      let dk = document_key d in
      let version = next_version latest in
      let first_observed_at = or_else d.first_observed_at d.retrieved_at in
      let ingested_at = if preserve then or_else d.ingested_at d.retrieved_at else now in
      record d {
        disclosure_id = uuid5 (
            "official-disclosure:"
            <> (lk <> (":" <> (dk <> (":" <> (show version <> (":" <> d.content_hash)))))));
        logical_source_key = some lk;
        source_document_key = some dk;
        document_version = version;
        supersedes_disclosure_id = superseded_id latest;
        first_observed_at = some first_observed_at;
        ingested_at = some ingested_at;
        available_at = some (max first_observed_at ingested_at);
      }

  abbrev pub store :
      (DisclosureDocument → List DisclosureChunk)
      → VerificationRepository
      → DisclosureDocument
      → Option DisclosureDocument
      → Bool
      → VerificationRepository
  store chunks_for r d latest preserve =
      let prepared = prepare d latest preserve in
      let lk = logical_key d in
      let dk = document_key d in
      let key = lk <> (":" <> (dk <> (":" <> show prepared.document_version))) in
      let marked = mark_latest latest r.documents in
      record r { documents = insert key (prepared, chunks_for prepared) marked }

  -- `persist_versioned_disclosure`
  unfoldable pub persist_versioned_disclosure :
      (DisclosureDocument → List DisclosureChunk)
      → VerificationRepository
      → DisclosureDocument
      → Bool
      → Option DisclosureDocument × VerificationRepository
  unfolding newest same_document prepare supersede insert
  persist_versioned_disclosure chunks_for r d preserve =
      let latest = latest_version r d in
      if is_unchanged latest d
      then (none, r)
      else (some (prepare d latest preserve), store chunks_for r d latest preserve)

-- `document.available_at or document.retrieved_at`
abbrev pub available : DisclosureDocument → ℕ
available d = or_else d.available_at d.retrieved_at

-- `grouped[key].append(item)`
unfoldable pub add_version :
    String × String
    → DisclosureDocument × List DisclosureChunk
    → Dict (String × String) Versions
    → Dict (String × String) Versions
unfolding lookup insert
add_version key v groups = insert key (or_else (lookup key groups) [] ++ v ∷ []) groups

unfoldable pub grouped :
    Versions → Dict (String × String) Versions → Dict (String × String) Versions
unfolding add_version logical_key document_key
grouped [] groups = groups
grouped (v ∷ vs) groups = grouped vs (add_version (logical_key v.0, document_key v.0) v groups)

-- The newest version that was available, and every later one.
unfoldable pub select_versions : ℕ → Versions → Versions
unfolding newest
select_versions alert_time versions =
    elim (newest (
      keep (λ (v : DisclosureDocument × List DisclosureChunk). leb (available v.0) alert_time)
        versions)) [ none ↦ [] | some v ↦ v ∷ [] ]
    ++ keep (λ (v : DisclosureDocument × List DisclosureChunk). ltb alert_time (available v.0))
        versions

unfoldable pub select_groups : ℕ → Dict (String × String) Versions → Versions
unfolding select_versions
select_groups alert_time [] = []
select_groups alert_time ((key, versions) ∷ groups) =
    select_versions alert_time versions ++ select_groups alert_time groups

abbrev pub day : ℕ
day = 86_400_000_000

unfoldable pub candidate_of : DisclosureDocument → DisclosureChunk → DisclosureCandidate
candidate_of d chunk =
    let first_observed_at = or_else d.first_observed_at d.retrieved_at in
    let ingested_at = or_else d.ingested_at d.retrieved_at in
    record {
      chunk_id = chunk.chunk_id;
      disclosure_id = d.disclosure_id;
      source = d.source;
      source_document_id = d.source_document_id;
      title = d.title;
      text = chunk.text;
      published_at = d.published_at;
      first_observed_at = first_observed_at;
      ingested_at = ingested_at;
      available_at = or_else d.available_at (max first_observed_at ingested_at);
      document_version = d.document_version;
      source_policy_version = d.source_policy_version;
      reliability = d.reliability;
      source_policy_id = d.source_policy_id;
    }

abbrev pub for_asset : String → Option String → Bool
for_asset asset_id none = true
for_asset asset_id (some a) = str_eq a asset_id

-- `earliest <= document.published_at <= latest`, with the subtraction moved across
abbrev pub in_range : ℕ → ℕ → ℕ → ℕ → Bool
in_range alert_time lookback_days future_days t =
    leb alert_time (t + lookback_days * day) && leb t (alert_time + future_days * day)

unfoldable pub expand : (DisclosureDocument → Bool) → Versions → List DisclosureCandidate
unfolding candidate_of
expand wanted [] = []
expand wanted ((d, chunks) ∷ rest) =
    (if wanted d then map (candidate_of d) chunks else []) ++ expand wanted rest

abbrev pub published_leb : DisclosureCandidate → DisclosureCandidate → Bool
published_leb a b =
    ltb a.published_at b.published_at
    || (a.published_at == b.published_at && str_leb a.chunk_id b.chunk_id)

abbrev pub wanted_document : String → ℕ → ℕ → ℕ → DisclosureDocument → Bool
wanted_document asset_id alert_time lookback_days future_days d =
    for_asset asset_id d.asset_id && in_range alert_time lookback_days future_days d.published_at

-- `candidates`
unfoldable pub candidates : VerificationRepository → String → ℕ → ℕ → ℕ → List DisclosureCandidate
unfolding expand select_groups grouped sorted
candidates r asset_id alert_time lookback_days future_days = sorted published_leb (
    expand (wanted_document asset_id alert_time lookback_days future_days)
      (select_groups alert_time (grouped (entries r.documents) [])))

-- `source_coverage`, of which the decision reads `complete`
unfoldable pub source_coverage : VerificationRepository → String → Bool
unfolding lookup
source_coverage r asset_id =
    or_else (lookup (some asset_id) r.coverage_by_asset)
      (or_else (lookup none r.coverage_by_asset) r.coverage)

abbrev pub has_verification : String → List ClaimVerification → Bool
has_verification id items = any_of (λ (i : ClaimVerification). str_eq i.verification_id id) items

-- `persist_verifications`, of a list that is not empty
unfoldable pub persist_verifications :
    VerificationRepository
    → ClaimVerification
    → List ClaimVerification
    → String × VerificationSummary
    → Bool × VerificationRepository
persist_verifications r first rest event =
    if has_verification first.verification_id r.verifications then (false, r) else (
      true,
      record r {
        verifications = r.verifications ++ (first ∷ rest);
        outbox = r.outbox ++ event ∷ [];
      },
    )
