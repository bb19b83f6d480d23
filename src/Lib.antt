-- ===== src/Lib.antt =====
-- Scam2Market: a pipeline that scores market and social evidence for manipulation and follows it as
-- campaigns. The parts modelled here, by the way of one event through them:
--
-- Ingestion/Quality models scam2market/ingestion/quality.py: `SourceQualityTracker` keeps for each
-- source and asset the sequence gaps, the lateness and the state of the order book.
-- Features models scam2market/features: Features/Types the data of features/schemas.py,
-- Features/Sources and Features/Engine `FeatureWindowEngine` of features/engine.py (what a signal tells
-- of its source, the watermarks; the windows, their revisions and `ingest`), Features/Checkpoint its
-- exported state, Features/Fields, Features/Numbers and Features/Compute `_compute_features`,
-- Features/Schema the validator of a snapshot, which its construction calls, Features/Service `FeatureWindowService` with
-- `InMemoryFeatureRepository`.
-- Streaming/Outbox models `OutboxDispatcher` of streaming/outbox.py with `SqlOutboxRepository` of
-- ingestion/repositories.py, which publish the messages that the other parts queue.
-- Streaming/Worker models the loop of workers/stream_worker.py with `EventConsumer.batches` of
-- streaming/consumer.py and `SqlWorkerCheckpointRepository`: a round is a poll, the processing of
-- its batch, and the saves and commits, cut off wherever the worker dies; an exception ends it, and
-- who starts it again is a step of its own. The engine is the
-- interface `StreamEngine` with its laws; the log of the broker and what a consumer guarantees of a
-- poll are parameters (Streaming/Delivery, Streaming/Saving, Streaming/NoLoss).
-- Streaming/FeatureWorker fills the interface with the window engine of Features, a message taken
-- for the one signal of its market event. An exception leaves no state of the engine behind.
-- Verification models scam2market/verification: Verification/Types schemas.py, Verification/Text the
-- tokens, the canonical claims and the similarity of service.py, Verification/Extractor
-- `DeterministicClaimExtractor` and the chunks, Verification/Repository
-- `InMemoryVerificationRepository`, Verification/Verifier `TimeBoundedClaimVerifier` and its
-- evidence, Verification/Summary `NarrativeVerificationService`. The other modules prove what they
-- are named for. The methods of `str`, the splitting expressions, the digest and uuid5 are
-- parameters (`TextLibrary`); a score is cut to millionths after each product.
-- Notifications/Service models `NotificationService` of notifications/service.py on the rows of its
-- tables; Notifications/Attempts is the machine of attempts that it implements.
-- Security/RateLimiter models security/rate_limiter.py: the Lua script of the token bucket and the
-- answers of its two middlewares. A token is 10^12 units, so that the products are whole.
-- Detectors models scam2market/intelligence/detectors.py: the four detectors, the regime and the
-- liquidity of a feature snapshot. Detectors/Service models `DetectionService` and
-- `InMemoryScoreRepository` of intelligence/fusion.py, from a snapshot to a published score.
-- Fusion models `FusionEngine.fuse` of intelligence/fusion.py: Fusion/Weights the weighted mean and
-- the trace of its components, Fusion/Engine/Steps the calibration, the adjustments, the policies and
-- the demotions, Fusion/Engine how `fuse` puts them together.
-- Events models the envelope of schemas/events.py.
-- Campaign/Policy models `CampaignStateMachine` of campaigns/policy.py, Campaign/Types the data of
-- campaigns/schemas.py. Campaign/Common, Campaign/Alerting, Campaign/Memory and Campaign/Database
-- model campaigns/repository.py: what its two stores share, `InMemoryCampaignRepository`, and
-- `SqlCampaignRepository`. A score enters as a `CampaignEvidence`.
-- Resilience/Circuit models resilience/circuit_breaker.py, Resilience/Batching the generator of
-- resilience/batching.py.
-- Prelude has the shared types, Boolean tests, integers, dicts and lemmas. A file below a model's
-- file proves what its name says; Tests and Samples hold concrete inputs.
--
-- Numbers. A float stands as a whole number of millionths: a score as a natural number of at most
-- 1000000, a signed signal as an integer; products keep their decimals and each division rounds
-- down; in Features a product and a quotient are cut towards 0. Times are whole microseconds, and an age or a gap that would be negative is 0, as the code
-- clamps it or compares it with a positive bound; a watermark is an integer. Counters do not wrap,
-- as Python's do not.
-- Loops are structural recursions over lists or over the attempts left; no fuel is needed.
-- A method under an asyncio lock, and a database transaction, is one step from a state to the next;
-- where the code releases the lock (the circuit breaker's `call`), a run is a sequence of steps.
-- Exceptions are values. `uuid5`, SHA-256 digests, the text of a number, the clock's readings, the
-- score calibrator, `statistics.pstdev` and the answers of the publisher, of a batch's waits and of
-- the database to a lock attempt are parameters.
--
-- Not modelled: HTTP handlers, SQLAlchemy declarations, provider clients and connectors, the
-- evaluation and evidence reports, the narratives with their embeddings and graphs, the SQL
-- repository of the official verification, authentication, settings and logging. Of the data kept out of the models: wall-clock stamps,
-- versions that are constants, and the SHA-256 fingerprint of an evidence row.
pub mod Prelude
pub mod Resilience
pub mod Streaming
pub mod Events
pub mod Features
pub mod Fusion
pub mod Detectors
pub mod Ingestion
pub mod Campaign
pub mod Verification
pub mod Notifications
pub mod Security
