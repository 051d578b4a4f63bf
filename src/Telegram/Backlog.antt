-- ===== src/Telegram/Backlog.antt =====
-- telegram/handler_backlog.go. The log is left out.
use project_brain.Base.{
  ℕ, ◌+◌, String, Option, none, some, List, [], ◌∷◌, if◌then◌else◌, Outcome, ok, err, Calls,
  attempt, pure, ◌>>=◌,
}
use project_brain.Domain.{KnowledgeObject}
use project_brain.Store.State.{new_id, read_clock}
use project_brain.Tokens.Memory.{TelegramReviewAction}
use project_brain.Backlog.Query.{BacklogItem, BacklogPage, day, list_human_backlog}
use project_brain.Telegram.Chat.{
  Bot, Handler, Chat, CallbackQuery, InlineButton, message, card, answer, serving, send,
  edit_and_answer, save_action, find_by_id,
}
use project_brain.Telegram.Render.{
  BacklogButtonSpec, backlog_buttons_for_status, assemble_backlog_rows, render_backlog_card_text,
}

abbrev pub telegram_workspace_default : String
telegram_workspace_default = "default"

-- A reading that is dropped if the call fails.
abbrev found_or_nil : Outcome KnowledgeObject → Option KnowledgeObject
found_or_nil (ok o) = some o
found_or_nil (err e) = none

module _ (bot : Bot) where
  abbrev pub page_at : String → String → Calls Chat BacklogPage
  page_at workspace_id cursor = serving (
      list_human_backlog bot.env bot.codec
        (record { workspace_id = workspace_id; page_size = 1; cursor = cursor }))

  unfoldable pub hydrate_backlog_item : Handler → BacklogItem → Calls Chat (Option KnowledgeObject)
  hydrate_backlog_item h item =
      if h.has_finder
      then (do
        found ← attempt (find_by_id bot telegram_workspace_default item.id)
        pure (found_or_nil found))
      else pure none

  -- A token for one button.
  unfoldable pub issue_review_action :
      BacklogItem → String → ℕ → ℕ → BacklogButtonSpec → Calls Chat String
  issue_review_action item next_cursor actor_id chat_id spec = do
    drawn ← serving (new_id bot.env)
    let token = bot.env.uuid_text drawn
    now ← serving (read_clock bot.env)
    saved ← save_action bot (record {
      token = token;
      workspace_id = telegram_workspace_default;
      actor_id = actor_id;
      chat_id = chat_id;
      object_id = item.id;
      action = spec.action;
      expected_status = item.status;
      next_cursor = next_cursor;
      created_at = 0;
      expires_at = now + day;
    })
    pure token

  unfoldable pub issue_review_actions :
      BacklogItem → String → ℕ → ℕ → List BacklogButtonSpec → Calls Chat (List String)
  issue_review_actions item next_cursor actor_id chat_id [] = pure []
  issue_review_actions item next_cursor actor_id chat_id (spec ∷ specs) = do
    token ← issue_review_action item next_cursor actor_id chat_id spec
    tokens ← issue_review_actions item next_cursor actor_id chat_id specs
    pure (token ∷ tokens)

  -- The text and the buttons of the card for a row, once its tokens are stored.
  abbrev pub prepared_card :
      Handler
      → BacklogItem
      → String
      → ℕ
      → ℕ
      → Calls Chat (Outcome (String × List (List InlineButton)))
  prepared_card h item next_cursor actor_id chat_id = do
    hydrated ← hydrate_backlog_item h item
    let specs = backlog_buttons_for_status item.status
    issued ← attempt (issue_review_actions item next_cursor actor_id chat_id specs)
    pure (elim issued [
      | err e ↦ err e
      | ok tokens ↦
          ok
            (render_backlog_card_text bot.decimal item hydrated, assemble_backlog_rows specs tokens)
    ])

  abbrev pub Ready : Type 0
  Ready = Outcome (String × List (List InlineButton))

  abbrev pub send_ready : ℕ → Ready → Calls Chat (Unit {0})
  send_ready chat_id (err e) =
      send bot (message chat_id "Error al preparar las acciones; probá de nuevo.")
  send_ready chat_id (ok (body, rows)) = send bot (card chat_id body rows)

  abbrev pub send_first : Handler → ℕ → ℕ → String → List BacklogItem → Calls Chat (Unit {0})
  send_first h actor_id chat_id next_cursor [] =
      send bot (message chat_id "Nada pendiente en el backlog 🎉")
  send_first h actor_id chat_id next_cursor (item ∷ items) = do
    ready ← prepared_card h item next_cursor actor_id chat_id
    send_ready chat_id ready

  abbrev pub send_listed : Handler → ℕ → ℕ → Outcome BacklogPage → Calls Chat (Unit {0})
  send_listed h actor_id chat_id (err e) =
      send bot (message chat_id "Error al obtener el backlog; probá más tarde.")
  send_listed h actor_id chat_id (ok page) =
      send_first h actor_id chat_id page.next_cursor page.items

  -- `/backlog`, from a user in a chat
  unfoldable pub handle_backlog : Handler → ℕ → ℕ → Calls Chat (Unit {0})
  handle_backlog h actor_id chat_id =
      if h.has_backlog
      then (do
        listed ← attempt (page_at telegram_workspace_default "")
        send_listed h actor_id chat_id listed)
      else send bot (message chat_id "El backlog no está disponible en esta build.")

  abbrev pub answer_sent : CallbackQuery → Outcome (Unit {0}) → Calls Chat (Unit {0})
  answer_sent cb (err e) = send bot (answer cb.id "Error al enviar el siguiente; probá de nuevo")
  answer_sent cb (ok u) = send bot (answer cb.id "Saltado")

  abbrev pub answer_ready : CallbackQuery → ℕ → Ready → Calls Chat (Unit {0})
  answer_ready cb chat_id (err e) =
      send bot (answer cb.id "Error al preparar el siguiente; probá de nuevo")
  answer_ready cb chat_id (ok (body, rows)) = do
    sent ← attempt (send bot (card chat_id body rows))
    answer_sent cb sent

  abbrev pub answer_next :
      Handler → CallbackQuery → ℕ × ℕ → ℕ → String → List BacklogItem → Calls Chat (Unit {0})
  answer_next h cb place actor_id next_cursor [] =
      edit_and_answer bot cb place "Nada pendiente en el backlog 🎉" "Sin más elementos"
  answer_next h cb place actor_id next_cursor (item ∷ items) = do
    ready ← prepared_card h item next_cursor actor_id place.0
    answer_ready cb place.0 ready

  abbrev pub answer_listed :
      Handler → CallbackQuery → ℕ × ℕ → ℕ → Outcome BacklogPage → Calls Chat (Unit {0})
  answer_listed h cb place actor_id (err e) =
      send bot (answer cb.id "Error al cargar el siguiente; probá más tarde")
  answer_listed h cb place actor_id (ok page) =
      answer_next h cb place actor_id page.next_cursor page.items

  unfoldable pub render_next_backlog_card :
      Handler → CallbackQuery → ℕ × ℕ → TelegramReviewAction → Calls Chat (Unit {0})
  render_next_backlog_card h cb place action =
      if h.has_backlog
      then (do
        listed ← attempt (page_at action.workspace_id action.next_cursor)
        answer_listed h cb place action.actor_id listed)
      else edit_and_answer bot cb place "El backlog no está disponible en esta build."
          "Backlog no disponible"
