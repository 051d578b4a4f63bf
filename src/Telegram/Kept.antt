-- ===== src/Telegram/Kept.antt =====
-- A message is tried at once, or it waits in a row.
use Prim.Native.String.{◌++◌}
use project_brain.Base.{
  ℕ, String, List, [], ◌∷◌, ◌≡◌, ◌⊎◌, failure, if◌then◌else◌, length, Outcome, ok, err, Calls,
  ◌>>=◌,
}
use project_brain.Domain.{IngestTextRequest}
use project_brain.Store.State.{Db}
use project_brain.Telegram.Message.{Message}
use project_brain.Telegram.Chat.{Bot, Sent, card, InlineButton}
use project_brain.Telegram.Desk.{Collision, PendingRow, Desk}
use project_brain.Telegram.Intake.{
  IntakeHandler, ingest_and_reply, format_collision_prompt, new_token, park_and_prompt,
}
use project_brain.Telegram.Writing.{tables, QuietIntake}

module _ (bot : Bot) (h : IntakeHandler) where
  -- The message is ingested at once, from a desk with these tables.
  abbrev pub Direct : ℕ → IngestTextRequest → Db → Outcome (Unit {0}) × Desk → Type 0
  Direct chat_id req db x =
      (id : ℕ) × (d : Desk) × (tables d ≡ db) × (x ≡ ingest_and_reply bot h chat_id req id d)

  -- The buttons of the question about a message.
  abbrev pub question : String → List (List InlineButton)
  question token =
      (record { text = "✅ Guardar igual"; callback_data = "keep:" ++ token }
        ∷ (record { text = "❌ Descartar"; callback_data = "discard:" ++ token } ∷ []))
      ∷ []

  -- The message waits in the table for the answer to a question. The handler ends with an error if
  -- and only if Telegram refused that question.
  abbrev pub Waiting : ℕ → IngestTextRequest → Db → Outcome (Unit {0}) × Desk → Type 0
  Waiting chat_id req db x =
      (top : Collision) × (row : PendingRow) × (rest : List PendingRow) × (sent : List Sent)
      × (tables x.1 ≡ db)
      × (x.1.pending ≡ row ∷ rest)
      × (h.columns.marshal_request req ≡ ok row.request)
      × (h.columns.marshal_collision top ≡ ok row.collision)
      × (x.1.chat.outbox
          ≡ card chat_id (format_collision_prompt bot h req.content top) (question row.token)
            ∷ sent)
      × (x.0 ≡ (if bot.send_fault (length sent) then err (failure 1) else ok tt))

  abbrev pub Kept : ℕ → IngestTextRequest → Db → Outcome (Unit {0}) × Desk → Type 0
  Kept chat_id req db x = Direct chat_id req db x ⊎ Waiting chat_id req db x

  module _ (quiet : QuietIntake h) where
    abbrev asking : ℕ → IngestTextRequest → ℕ → Collision → Calls Desk (Unit {0})
    asking chat_id req id top = new_token bot h >>= park_and_prompt bot h chat_id req id top
