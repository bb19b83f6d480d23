-- ===== src/Streaming/Saving.antt =====
-- src/scam2market/workers/stream_worker.py: the calls of `save` and `commit` of a round on what
-- outlives the worker.
use scam2marke.Prelude.{
  ℕ, zero, suc, ◌+◌, ◌≡◌, refl, sym, ap, subst, ◌∙◌, inl, inr, ◌≤◌, ◌<◌, eq_iff, Bool, List, [],
  ◌∷◌, some, arith, take, sorted-All, if◌then◌else◌, Bool-cases, All, All-mono,
}
use scam2marke.Prelude.Dict.{
  Dict, string_eq, nat_eq, pair_eq, lookup, insert, lookup-insert, Entries, insert-Entries,
  beq_refl,
}
use scam2marke.Streaming.Worker.{
  Partition, ConsumedEvent, source_of, StreamEngine, WorkerCheckpoint, Durable, committed_at,
  delivery_leb, ordered, process_all, latest_by_partition, writes, checkpoint_row, save, commit,
  write_all, load_row, latest, load, Worker, Poll,
}
use scam2marke.Streaming.Delivery.{Delivered, Holds, Kept, Safe, process_all-stays, Holds-after}

before_after : {o c q a : ℕ} → c ≤ q → q ≤ a → o < c → o < a
before_after cq qa oc = omega arith

module _ {Event State Json : Type 0} (engine : StreamEngine Event State Json)
    (log : Partition → ℕ → Event) where
  latest-save :
      (s : State) (r : ConsumedEvent Event) (d : Durable Json)
      → (row : WorkerCheckpoint Json) × (latest engine (save engine s r d) ≡ some row)
        × (row.state_json ≡ engine.export_state s)
        × (row.state_checksum ≡ engine.checksum (engine.export_state s))
  unfolding save
  latest-save s r d =
      let row = checkpoint_row engine s r (lookup (source_of r) d.rows) in
      (
        row,
        lookup-insert (source_of r) (source_of r) row d.rows
            ∙ ap (λ (b : Bool). if b then some row else lookup (source_of r) d.rows)
                (beq_refl (source_of r)),
        refl,
        refl,
      )

  load_row-state :
      (s : State) (row : WorkerCheckpoint Json)
      → engine.IsReached s
      → row.state_json ≡ engine.export_state s
      → row.state_checksum ≡ engine.checksum (engine.export_state s)
      → load_row engine (some row) ≡ some s
  unfolding load_row
  load_row-state s row reached json sum =
      simp
        (
          json,
          sum,
          (eq_iff (engine.checksum (engine.export_state s))
                (engine.checksum (engine.export_state s))).1
              refl,
        )
        (engine.restores s reached)

  load-save :
      (s : State) (r : ConsumedEvent Event) (d : Durable Json)
      → engine.IsReached s
      → load engine (save engine s r d) ≡ some s
  unfolding load
  load-save s r d reached =
      let (row, found, json, sum) = latest-save s r d in
      ap (load_row engine) found ∙ load_row-state s row reached json sum

  committed_at-commit :
      (r : ConsumedEvent Event) (d : Durable Json) (p : Partition)
      → committed_at (commit engine r d) p
        ≡ (if pair_eq.beq (source_of r) p then r.offset + 1 else committed_at d p)
  unfolding commit
  committed_at-commit r d p = elim (Bool-cases (pair_eq.beq (source_of r) p)) [
    | inl same ↦ rw (lookup-insert (source_of r) p (r.offset + 1) d.committed, same) refl
    | inr other ↦ rw (lookup-insert (source_of r) p (r.offset + 1) d.committed, other) refl
  ]

  -- The durable part while the calls of a batch with the state `t` and the positions `after` go on.
  pub record Writing (t : State) (after : Partition → ℕ) (d : Durable Json) : Type 0 where
    pub durable : Kept engine log d
    pub reached : engine.IsReached t
    pub held : (p : Partition) → Holds engine log t p (committed_at d p)
    pub behind : (p : Partition) → committed_at d p ≤ after p

  -- The events of the record's partition up to the record.
  Ready : State → (Partition → ℕ) → ConsumedEvent Event → Type 0
  Ready t after r =
      Holds engine log t (source_of r) (r.offset + 1) × (r.offset < after (source_of r))

  commit-at :
      (t : State) (after : Partition → ℕ) (r : ConsumedEvent Event) (d : Durable Json)
      → Ready t after r
      → ((p : Partition) → Holds engine log t p (committed_at d p) × (committed_at d p ≤ after p))
      → (p : Partition)
      → Holds engine log t p (committed_at (commit engine r d) p)
        × (committed_at (commit engine r d) p ≤ after p)
  unfolding Ready
  commit-at t after r d ready old p =
      let Good = λ (n : ℕ). Holds engine log t p n × (n ≤ after p) in
      subst Good (sym (committed_at-commit r d p))
        (elim (Bool-cases (pair_eq.beq (source_of r) p)) [
          | inl same ↦
              let here = (pair_eq.beq_iff (source_of r) p).0 same in
              rw same (
                subst (λ q. Holds engine log t q (r.offset + 1)) here ready.0,
                subst (λ q. r.offset + 1 ≤ after q) here (omega (arith, ready.1)),
              )
          | inr other ↦ rw other (old p)
        ])

  save-Writing :
      (t : State) (after : Partition → ℕ) (r : ConsumedEvent Event) (d : Durable Json)
      → Writing t after d
      → Writing t after (save engine t r d)
  unfolding save
  save-Writing t after r d w = record {
    durable = record {
      kept = t;
      reached = w.reached;
      loads = load-save t r d w.reached;
      saved = w.held;
    };
    reached = w.reached;
    held = w.held;
    behind = w.behind;
  }

  load-commit :
      (r : ConsumedEvent Event) (d : Durable Json) → load engine (commit engine r d) ≡ load engine d
  unfolding load commit
  load-commit r d = refl

  commit-Writing :
      (t : State) (after : Partition → ℕ) (r : ConsumedEvent Event) (d : Durable Json)
      → Ready t after r
      → Writing t after d
      → load engine d ≡ some t
      → Writing t after (commit engine r d)
  commit-Writing t after r d ready w loaded =
      let now = commit-at t after r d ready (λ p. (w.held p, w.behind p)) in
      record {
        durable = record {
          kept = t;
          reached = w.reached;
          loads = load-commit r d ∙ loaded;
          saved = λ p. (now p).0;
        };
        reached = w.reached;
        held = λ p. (now p).0;
        behind = λ p. (now p).1;
      }

  write_all-Writing :
      (t : State) (after : Partition → ℕ) (n : ℕ)
      → (newest : Dict Partition (ConsumedEvent Event)) (d : Durable Json)
      → Entries (λ (p : Partition) (r : ConsumedEvent Event). Ready t after r) newest
      → Writing t after d
      → Writing t after (write_all engine t (take n (writes engine newest)) d)
  unfolding write_all writes
  write_all-Writing t after zero newest d ready w = w
  write_all-Writing t after (suc n) [] d ready w = w
  write_all-Writing t after (suc zero) ((p, r) ∷ newest) d ready w = save-Writing t after r d w
  write_all-Writing t after (suc (suc n)) ((p, r) ∷ newest) d ready w =
      write_all-Writing t after n newest (commit engine r (save engine t r d)) ready.1 (
        commit-Writing t after r (save engine t r d) ready.0 (save-Writing t after r d w)
          (load-save t r d w.reached))

  latest-Ready :
      (t : State) (after : Partition → ℕ) (rs : List (ConsumedEvent Event))
      → (d : Dict Partition (ConsumedEvent Event)) → All (Ready t after) rs
      → Entries (λ (p : Partition) (r : ConsumedEvent Event). Ready t after r) d
      → Entries
          (λ (p : Partition) (r : ConsumedEvent Event). Ready t after r)
          (latest_by_partition engine rs d)
  unfolding latest_by_partition
  latest-Ready t after [] d all h = h
  latest-Ready t after (r ∷ rs) d all h =
      latest-Ready t after rs (insert (source_of r) r d) all.1
        (insert-Entries (λ p q. Ready t after q) (source_of r) r d all.0 h)

  batch-Ready :
      (t : State) (after : Partition → ℕ) (rs : List (ConsumedEvent Event))
      → ((p : Partition) → Holds engine log t p (after p))
      → All (λ (r : ConsumedEvent Event). r.offset < after (source_of r)) rs
      → All (Ready t after) rs
  unfolding Ready
  batch-Ready t after rs held within =
      All-mono (λ r below. ((λ o le. held (source_of r) o (omega arith)), below)) rs within

  -- The durable part after any number of the calls of a round.
  pub round-Writing :
      (w : Worker engine) (poll : Poll engine) (t : State) (n : ℕ)
      → Safe engine log w
      → Delivered engine log w.position poll
      → process_all engine (ordered engine poll.messages) w.state ≡ some t
      → Writing t poll.after (
          write_all engine t
            (take n (writes engine (latest_by_partition engine (ordered engine poll.messages) [])))
            w.durable)
  unfolding ordered
  round-Writing w poll t n safe delivered e =
      let held = Holds-after engine log w poll t safe delivered e in
      let within = sorted-All _ (delivery_leb engine) poll.messages delivered.within in
      write_all-Writing t poll.after n
        (latest_by_partition engine (ordered engine poll.messages) []) w.durable
        (latest-Ready t poll.after (ordered engine poll.messages) []
          (batch-Ready t poll.after (ordered engine poll.messages) held within) tt)
        (record {
          durable = safe.durable;
          reached = process_all-stays engine log _ w.state t safe.reached e;
          held = λ p o below. held p o (before_after (safe.behind p) (delivered.forward p) below);
          behind = λ p. omega (arith, safe.behind p, delivered.forward p);
        })
