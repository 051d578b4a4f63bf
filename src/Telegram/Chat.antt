-- ===== src/Telegram/Chat.antt =====
-- What the handlers of telegram/ share: the tables, the review actions, and the calls that were made
-- to Telegram.
use project_brain.Base.{
  ℕ, String, Bool, Option, none, some, List, ◌∷◌, length, if◌then◌else◌, ok, err, not_found,
  failure, Calls, attempt, ◌>>=◌,
}
use project_brain.Domain.{KnowledgeObject}
use project_brain.Store.State.{Env, World, tick, statement}
use project_brain.Store.Objects.{find}
use project_brain.Tokens.Memory.{TelegramReviewAction, Actions}
use project_brain.Tokens.Postgres.{save_row, take_row}
use project_brain.Lifecycle.Validate.{ValidateObjectService}
use project_brain.Backlog.Cursor.{CursorCodec}

pub record InlineButton : Type 0 where
  pub text : String
  pub callback_data : String

-- A call of a `Sender`.
pub data Sent : Type 0 where
  message : ℕ → String → Sent
  card : ℕ → String → List (List InlineButton) → Sent
  answer : ℕ → String → Sent
  edit : ℕ → ℕ → String → Sent

-- A tap on a button. `message` is the chat and the number of the card, if Telegram still has it.
pub record CallbackQuery : Type 0 where
  pub id : ℕ
  pub from_id : ℕ
  pub callback_data : String
  pub message : Option (ℕ × ℕ)

pub record Chat : Type 0 where
  pub world : World
  pub actions : Actions
  pub outbox : List Sent  -- newest first, failed calls too

-- What surrounds a handler. `decimal` is `strconv.FormatInt`, `send_fault` says which calls to
-- Telegram fail.
pub record Bot : Type 0 where
  pub env : Env
  pub codec : CursorCodec
  pub decimal : ℕ → String
  pub send_fault : ℕ → Bool

-- The dependencies of a `Handler` that may be nil.
pub record Handler : Type 0 where
  pub has_backlog : Bool
  pub has_finder : Bool
  pub has_debater : Bool
  pub validator : Option ValidateObjectService

-- A call of a service.
abbrev pub serving : {A : Type 0} → Calls World A → Calls Chat A
serving m c = let (r, w) = m c.world in (r, record c { world = w })

module _ (bot : Bot) where
  -- The outbox has the call whether or not Telegram took it.
  abbrev pub send : Sent → Calls Chat (Unit {0})
  send s c =
      let r = if bot.send_fault (length c.outbox) then err (failure 1) else ok tt in
      (r, record c { outbox = s ∷ c.outbox })

  -- `_ = h.sender.EditMessageText(...)`, then `AnswerCallback`
  abbrev pub edit_and_answer : CallbackQuery → ℕ × ℕ → String → String → Calls Chat (Unit {0})
  edit_and_answer cb (chat_id, message_id) body toast = do
    edited ← attempt (send (edit chat_id message_id body))
    send (answer cb.id toast)

  abbrev pub take_action : String → Calls Chat TelegramReviewAction
  take_action token c =
      let n = c.world.calls in
      let (r, rows) = take_row (bot.env.fault n) (bot.env.sql_now n) token c.actions in
      (r, record c { world = tick c.world; actions = rows })

  abbrev pub save_action : TelegramReviewAction → Calls Chat (Unit {0})
  save_action a c =
      let n = c.world.calls in
      let (r, rows) = save_row (bot.env.fault n) (bot.env.sql_now n) a c.actions in
      (r, record c { world = tick c.world; actions = rows })

  unfoldable pub find_by_id : String → ℕ → Calls Chat KnowledgeObject
  find_by_id workspace_id id = serving (
      statement bot.env λ now db.
        (elim (find workspace_id id db.objects) [ none ↦ err not_found | some o ↦ ok o ], db))
