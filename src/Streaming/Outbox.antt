-- ===== src/Streaming/Outbox.antt =====
-- src/scam2market/streaming/outbox.py, `OutboxDispatcher`, with `SqlOutboxRepository` of
-- src/scam2market/ingestion/repositories.py. Each method of the repository is one transaction, a step
-- from a table to the next. Times are microseconds.
pub mod Dispatch
use scam2marke.Prelude.{
  ℕ, ◌+◌, String, Bool, true, false, not, ◌&&◌, List, [], ◌∷◌, ◌++◌, map, Option, none, some, ltb,
  leb, str_eq, keep, take, sorted, or_else, if◌then◌else◌,
}
use scam2marke.Prelude.Dict.{string_eq, contains}
use scam2marke.Prelude.Text.{first_chars}
use scam2marke.Events.{CanonicalEvent}

-- The texts of `status`.
pub data OutboxStatus : Type 0 where
  pending processing failed published : OutboxStatus

pub record EventOutboxModel : Type 0 where
  pub outbox_id : String
  pub topic : String
  pub envelope : CanonicalEvent
  pub status : OutboxStatus
  pub attempts : ℕ
  pub created_at : ℕ
  pub claimed_at : Option ℕ
  pub published_at : Option ℕ
  pub last_error : Option String

pub record OutboxMessage : Type 0 where
  pub outbox_id : String
  pub topic : String
  pub event : CanonicalEvent

abbrev pub is_processing : OutboxStatus → Bool
is_processing OutboxStatus.processing = true
is_processing _ = false

abbrev before_stale : ℕ → Option ℕ → Bool
before_stale now none = false
before_stale now (some t) = ltb (t + 300_000_000) now

-- The condition of the query of `pending`; a comparison with NULL is not true.
unfoldable pub is_due : ℕ → EventOutboxModel → Bool
is_due now row =
    (elim row.status [
      | OutboxStatus.pending ↦ true
      | OutboxStatus.failed ↦ true
      | OutboxStatus.processing ↦ before_stale now row.claimed_at
      | OutboxStatus.published ↦ false
    ])
    && ltb row.attempts 10

-- The rows that `pending` claims, oldest first. `is_locked` tells the rows that another transaction
-- has locked, which the query skips.
unfoldable pub due_rows : ℕ → (String → Bool) → ℕ → List EventOutboxModel → List EventOutboxModel
unfolding is_due sorted
due_rows now is_locked limit table = take limit (
    sorted (λ a b. leb a.created_at b.created_at)
      (keep (λ row. is_due now row && not (is_locked row.outbox_id)) table))

abbrev pub message_of : EventOutboxModel → OutboxMessage
message_of row = record { outbox_id = row.outbox_id; topic = row.topic; event = row.envelope }

abbrev pub claimed : ℕ → EventOutboxModel → EventOutboxModel
claimed now row = record row {
  status = OutboxStatus.processing;
  claimed_at = some now;
  attempts = row.attempts + 1;
}

-- `UPDATE ... WHERE outbox_id IN ids`
unfoldable pub update_rows :
    List String
    → (EventOutboxModel → EventOutboxModel)
    → List EventOutboxModel
    → List EventOutboxModel
update_rows ids change table =
    map (λ row. if contains ids row.outbox_id then change row else row) table

-- `pending`: the messages, and the table afterwards.
unfoldable pub pending_batch :
    ℕ → (String → Bool) → ℕ → List EventOutboxModel → List OutboxMessage × List EventOutboxModel
unfolding due_rows update_rows
pending_batch now is_locked limit table =
    let rows = due_rows now is_locked limit table in
    (map message_of rows, update_rows (map (λ row. row.outbox_id) rows) (claimed now) table)

-- `mark_published` and `mark_failed`.
unfoldable pub mark_published : ℕ → String → List EventOutboxModel → List EventOutboxModel
unfolding update_rows
mark_published now id table =
    update_rows (id ∷ [])
      (λ row. record row {
        status = OutboxStatus.published;
        published_at = some now;
        last_error = none;
      })
      table

-- The table and what was published.
pub record World : Type 0 where
  pub table : List EventOutboxModel
  pub sent : List (String × CanonicalEvent)

unfoldable pub mark_failed : String → Option String → List EventOutboxModel → List EventOutboxModel
unfolding update_rows first_chars
mark_failed id error table =
    let text = or_else error "publish failed" in
    update_rows (id ∷ [])
      (λ row. record row {
        status = OutboxStatus.failed;
        last_error = some (first_chars 2_000 (if str_eq text "" then "publish failed" else text));
      })
      table

-- The loop of `dispatch_batch`: `answer` is the publisher's, `some` the `repr` of what it raises.
unfoldable pub dispatch :
    (OutboxMessage → Option String) → ℕ → List OutboxMessage → World → ℕ × World
unfolding mark_published mark_failed
dispatch answer now [] w = (0, w)
dispatch answer now (m ∷ ms) w = elim (answer m) [
  | some error ↦
      dispatch answer now ms (record w { table = mark_failed m.outbox_id (some error) w.table })
  | none ↦
      let (count, w') = dispatch answer now ms (record {
        table = mark_published now m.outbox_id w.table;
        sent = w.sent ++ (m.topic, m.event) ∷ [];
      }) in
      (count + 1, w')
]

-- `dispatch_batch`: how many messages were published. One clock reading stands for all of a batch.
unfoldable pub dispatch_batch :
    (OutboxMessage → Option String) → ℕ → (String → Bool) → ℕ → World → ℕ × World
unfolding pending_batch dispatch
dispatch_batch answer now is_locked limit w =
    let (messages, table) = pending_batch now is_locked limit w.table in
    dispatch answer now messages (record w { table = table })
