-- ===== src/Streaming/Outbox/Dispatch.antt =====
-- What a batch of the dispatcher does to the rows that it claims, and what it counts.
use scam2marke.Prelude.{Any, ◌⊎◌, true, ℕ, ◌≡◌, String, Bool, false, List, map}
use scam2marke.Prelude.Dict.{string_eq, contains}
use scam2marke.Streaming.Outbox.{EventOutboxModel, OutboxMessage, is_processing, due_rows}

abbrev ids_of : List OutboxMessage → List String
ids_of ms = map (λ m. m.outbox_id) ms

-- The row is not claimed.
abbrev pub IsSettled : EventOutboxModel → Type 0
IsSettled row = is_processing row.status ≡ false

-- A row that was so before, and that the batch has not taken.
abbrev pub IsLeft : List String → List EventOutboxModel → EventOutboxModel → Type 0
IsLeft ids table row = Any (λ old. old ≡ row) table × (contains ids row.outbox_id ≡ false)

module _ (taken : List String) (before : List EventOutboxModel) where
  -- A row is not claimed, is one whose message is still to come, or is left as it was.
  abbrev IsAmong : List String → EventOutboxModel → Type 0
  IsAmong ids row = IsSettled row ⊎ ((contains ids row.outbox_id ≡ true) ⊎ IsLeft taken before row)

abbrev pub taken_ids : ℕ → (String → Bool) → ℕ → List EventOutboxModel → List String
taken_ids now is_locked limit table =
    map (λ row. row.outbox_id) (due_rows now is_locked limit table)
