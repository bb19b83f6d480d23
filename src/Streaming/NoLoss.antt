-- ===== src/Streaming/NoLoss.antt =====
-- Rounds of the worker, deaths and restarts included.
use scam2marke.Prelude.{
  ℕ, ◌≡◌, refl, sym, ap, subst, inl, inr, ◌≤◌, List, [], ◌∷◌, Option, none, some, arith, length,
  take, Option-cases,
}
use scam2marke.Prelude.Dict.{lookup}
use scam2marke.Streaming.Worker.{
  Partition, StreamEngine, Durable, committed_at, ordered, process_all, latest_by_partition, writes,
  write_all, load, Worker, start, Poll, settle, make_writes, round, Process, alive, ended,
  durable_of,
}
use scam2marke.Streaming.Delivery.{Delivered, Kept, Safe, start-Safe, Holds-after}
use scam2marke.Streaming.Saving.{round-Writing}

take_all {ℓ} : {A : Type ℓ} (xs : List A) → take (length xs) xs ≡ xs
take_all [] = refl
take_all (x ∷ xs) = ap (λ ys. x ∷ ys) (take_all xs)

-- No checkpoint and no committed offset.
abbrev pub fresh : {Json : Type 0} → Durable Json
fresh = record { rows = []; updated = none; committed = [] }

module _ {Event State Json : Type 0} (engine : StreamEngine Event State Json)
    (log : Partition → ℕ → Event) where
  -- Rounds of polls that the broker can give, and new starts of a worker that ended.
  pub data Runs : Process engine → Process engine → Type 0 where
    stop : {p : Process engine} → Runs p p
    next :
        {w : Worker engine} {p : Process engine} (poll : Poll engine)
        → Delivered engine log w.position poll
        → Runs (round engine poll w) p
        → Runs (alive w) p
    restart :
        {d : Durable Json} {w : Worker engine} {p : Process engine}
        → start engine d ≡ some w
        → Runs (alive w) p
        → Runs (ended d) p

  abbrev IsSafe : Process engine → Type 0
  IsSafe (alive w) = Safe engine log w
  IsSafe (ended d) = Kept engine log d

  whole-Safe :
      (w : Worker engine) (poll : Poll engine) (t : State)
      → Safe engine log w
      → Delivered engine log w.position poll
      → process_all engine (ordered engine poll.messages) w.state ≡ some t
      → Safe engine log (record {
        state = t;
        position = poll.after;
        durable =
            write_all engine t
              (writes engine (latest_by_partition engine (ordered engine poll.messages) []))
              w.durable;
      })
  whole-Safe w poll t safe delivered e =
      let calls = writes engine (latest_by_partition engine (ordered engine poll.messages) []) in
      let done = round-Writing engine log w poll t (length calls) safe delivered e in
      let all = ap (λ ws. write_all engine t ws w.durable) (take_all calls) in
      record {
        durable = subst (Kept engine log) all done.durable;
        reached = done.reached;
        held = Holds-after engine log w poll t safe delivered e;
        behind = λ p. subst (λ d. committed_at d p ≤ poll.after p) all (done.behind p);
      }

  settle-IsSafe :
      (w : Worker engine) (poll : Poll engine) (t : State)
      → Safe engine log w
      → Delivered engine log w.position poll
      → process_all engine (ordered engine poll.messages) w.state ≡ some t
      → IsSafe (settle engine poll w (some t))
  unfolding settle make_writes
  settle-IsSafe w poll t safe delivered e =
      let calls = writes engine (latest_by_partition engine (ordered engine poll.messages) []) in
      let Made =
        λ (dies : Option ℕ). IsSafe (make_writes engine dies t poll.after calls w.durable) in
      elim (Option-cases poll.dies) [
        | inl lives ↦ subst Made (sym lives) (whole-Safe w poll t safe delivered e)
        | inr (n, dies) ↦
            subst Made (sym dies) (round-Writing engine log w poll t n safe delivered e).durable
      ]

  raised-IsSafe :
      (w : Worker engine) (poll : Poll engine)
      → Safe engine log w
      → IsSafe (settle engine poll w none)
  unfolding settle
  raised-IsSafe w poll safe = safe.durable

  round-IsSafe :
      (w : Worker engine) (poll : Poll engine)
      → Safe engine log w
      → Delivered engine log w.position poll
      → IsSafe (round engine poll w)
  unfolding round
  round-IsSafe w poll safe delivered =
      let Settled = λ (r : Option State). IsSafe (settle engine poll w r) in
      elim (Option-cases (process_all engine (ordered engine poll.messages) w.state)) [
        | inl raised ↦ subst Settled (sym raised) (raised-IsSafe w poll safe)
        | inr (t, done) ↦ subst Settled (sym done) (settle-IsSafe w poll t safe delivered done)
      ]

  Runs-IsSafe : (p q : Process engine) → IsSafe p → Runs p q → IsSafe q
  Runs-IsSafe p q safe stop = safe
  Runs-IsSafe p q safe (next {w = w} poll delivered rest) =
      Runs-IsSafe (round engine poll w) q (round-IsSafe w poll safe delivered) rest
  Runs-IsSafe p q safe (restart {d = d} {w = w} e rest) =
      Runs-IsSafe (alive w) q (start-Safe engine log d w safe e) rest

  IsSafe-durable : (p : Process engine) → IsSafe p → Kept engine log (durable_of engine p)
  IsSafe-durable (alive w) safe = safe.durable
  IsSafe-durable (ended d) kept = kept

  fresh-Kept : Kept engine log fresh
  unfolding lookup load
  fresh-Kept = record {
    kept = engine.initial;
    reached = engine.starts;
    loads = refl;
    saved = λ p o below. absurd (omega (arith, below));
  }

  -- From a worker that starts with nothing stored, whatever rounds and new starts follow, with
  -- exceptions that end it and deaths between any two writes: the next start loads a state, and every
  -- event below the committed offset of its partition has been taken into that state. So it is while
  -- the worker is at work and after it ended.
  pub Runs-Kept :
      (w : Worker engine) (p : Process engine)
      → start engine fresh ≡ some w
      → Runs (alive w) p
      → Kept engine log (durable_of engine p)
  Runs-Kept w p e runs =
      IsSafe-durable p (Runs-IsSafe (alive w) p (start-Safe engine log fresh w fresh-Kept e) runs)
