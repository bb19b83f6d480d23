-- ===== src/Streaming/Delivery.antt =====
-- src/scam2market/workers/stream_worker.py: what a worker's state and its checkpoints have of the
-- log, through the processing of a batch.
use scam2marke.Prelude.{
  ℕ, ◌≡◌, subst, inl, inr, ◌≤◌, ◌<◌, List, [], ◌∷◌, some, arith, ltb, ltb→lt, All-sorted,
  Bool-cases, Option-cases, All, Any,
}
use mathlib.Core.Option.{some-injective}
use scam2marke.Prelude.Dict.{string_eq, nat_eq, pair_eq}
use scam2marke.Streaming.Worker.{
  Partition, ConsumedEvent, source_of, StreamEngine, Durable, committed_at, delivery_leb, ordered,
  process_all, load, Worker, start, Poll,
}

module _ {Event State Json : Type 0} (engine : StreamEngine Event State Json)
    (log : Partition → ℕ → Event) where
  -- What a consumer guarantees of a poll: the positions move forward, and every message between
  -- the old and the new position of a partition was given, and none beyond.
  pub record Delivered (position : Partition → ℕ) (poll : Poll engine) : Type 0 where
    pub forward : (p : Partition) → position p ≤ poll.after p
    pub whole :
        (p : Partition) (o : ℕ)
        → position p ≤ o
        → o < poll.after p
        → Any (λ (r : ConsumedEvent Event). r.event ≡ log p o) poll.messages
    pub within :
        All (λ (r : ConsumedEvent Event). r.offset < poll.after (source_of r)) poll.messages

  -- All events of a partition below an offset are in a state.
  abbrev pub Holds : State → Partition → ℕ → Type 0
  Holds s p n = (o : ℕ) → o < n → engine.Covers s (log p o)

  -- A restart loads a state, and that state has the events below the committed offsets.
  pub record Kept (d : Durable Json) : Type 0 where
    pub kept : State
    pub reached : engine.IsReached kept
    pub loads : load engine d ≡ some kept
    pub saved : (p : Partition) → Holds kept p (committed_at d p)

  pub record Safe (w : Worker engine) : Type 0 where
    pub durable : Kept w.durable
    pub reached : engine.IsReached w.state
    pub held : (p : Partition) → Holds w.state p (w.position p)
    pub behind : (p : Partition) → committed_at w.durable p ≤ w.position p

  pub start-Safe :
      (d : Durable Json) (w : Worker engine) → Kept d → start engine d ≡ some w → Safe w
  unfolding start
  start-Safe d w k e =
      let same = some-injective _ _ (rw k.loads at e) in
      subst Safe same
        (record { durable = k; reached = k.reached; held = k.saved; behind = λ p. omega arith })

  pub process_all-stays :
      (rs : List (ConsumedEvent Event)) (s t : State)
      → engine.IsReached s
      → process_all engine rs s ≡ some t
      → engine.IsReached t
  unfolding process_all
  process_all-stays [] s t reached e = subst engine.IsReached (some-injective _ _ e) reached
  process_all-stays (r ∷ rs) s t reached e = elim (Option-cases (engine.process r.event s)) [
    | inl raised ↦ absurd (cc (rw raised at e))
    | inr (u, ok) ↦ process_all-stays rs u t (engine.stays r.event s u reached ok) (rw ok at e)
  ]

  process_all-keeps :
      (rs : List (ConsumedEvent Event)) (s t : State)
      → engine.IsReached s
      → process_all engine rs s ≡ some t
      → (d : Event) → engine.Covers s d
      → engine.Covers t d
  unfolding process_all
  process_all-keeps [] s t reached e d c = subst (λ u. engine.Covers u d) (some-injective _ _ e) c
  process_all-keeps (r ∷ rs) s t reached e d c = elim (Option-cases (engine.process r.event s)) [
    | inl raised ↦ absurd (cc (rw raised at e))
    | inr (u, ok) ↦
        process_all-keeps rs u t (engine.stays r.event s u reached ok) (rw ok at e) d
          (engine.keeps d r.event s u reached ok c)
  ]

  process_all-takes :
      (rs : List (ConsumedEvent Event)) (s t : State)
      → engine.IsReached s
      → process_all engine rs s ≡ some t
      → All (λ (r : ConsumedEvent Event). engine.Covers t r.event) rs
  unfolding process_all
  process_all-takes [] s t reached e = tt
  process_all-takes (r ∷ rs) s t reached e = elim (Option-cases (engine.process r.event s)) [
    | inl raised ↦ absurd (cc (rw raised at e))
    | inr (u, ok) ↦
        let next = engine.stays r.event s u reached ok in
        (
          process_all-keeps rs u t next (rw ok at e) r.event (engine.takes r.event s u reached ok),
          process_all-takes rs u t next (rw ok at e),
        )
  ]

  Any-covered :
      (rs : List (ConsumedEvent Event)) (t : State) (e : Event)
      → All (λ (r : ConsumedEvent Event). engine.Covers t r.event) rs
      → Any (λ (r : ConsumedEvent Event). r.event ≡ e) rs
      → engine.Covers t e
  Any-covered [] t e all found = absurd found
  Any-covered (r ∷ rs) t e all (inl here) = subst (engine.Covers t) here all.0
  Any-covered (r ∷ rs) t e all (inr later) = Any-covered rs t e all.1 later

  -- The state after a batch has everything below the new positions.
  pub Holds-after :
      (w : Worker engine) (poll : Poll engine) (t : State)
      → Safe w
      → Delivered w.position poll
      → process_all engine (ordered engine poll.messages) w.state ≡ some t
      → (p : Partition) → Holds t p (poll.after p)
  unfolding ordered
  Holds-after w poll t safe delivered e p o below = elim (Bool-cases (ltb o (w.position p))) [
    | inl old ↦
        process_all-keeps _ w.state t safe.reached e (log p o)
          (safe.held p o (ltb→lt o (w.position p) old))
    | inr new ↦
        Any-covered poll.messages t (log p o)
          (All-sorted _ (delivery_leb engine) poll.messages
            (process_all-takes (ordered engine poll.messages) w.state t safe.reached e))
          (delivered.whole p o (ground arith) below)
  ]
