-- ===== src/Telegram/Intake.antt =====
-- telegram/handler.go and the rest of telegram/handler_callback.go: what becomes of an update.
use Prim.Native.String.{◌++◌}
use project_brain.Base.{
  ℕ, ◌+◌, String, Bool, not, ◌&&◌, Option, none, some, List, [], ◌∷◌, eqb, ◌==◌, if◌then◌else◌,
  Outcome, ok, err, Calls, attempt, pure, is_not_found, ◌>>=◌,
}
use project_brain.Base.Text.{trim_space}
use project_brain.Domain.{IngestTextRequest, IngestTextResult, Metadata, text, json}
use project_brain.Store.State.{World, new_id, read_clock}
use project_brain.Lifecycle.Validate.{Hook}
use project_brain.Ingest.Service.{ingest}
use project_brain.Backlog.Query.{day}
use project_brain.Telegram.Message.{Message, build_ingest_request}
use project_brain.Telegram.Chat.{
  Bot, Handler, CallbackQuery, Sent, message, card, answer, serving, send, edit_and_answer,
}
use project_brain.Telegram.Render.{split_callback_data, truncate, namespace}
use project_brain.Telegram.Backlog.{handle_backlog}
use project_brain.Telegram.Review.{place_of, handle_review_callback}
use project_brain.Telegram.Desk.{
  Collision, PendingValidation, RawInput, JsonColumns, Desk, at_chat, save_pending, take_pending,
  create_raw_input, set_promoted, set_discarded, set_collision_summary,
}

-- The rest of the handler: the hook of the ingestion service, the detector and the raw inputs, of
-- which the last two may be nil. `percent` is %.0f of a similarity times 100.
pub record IntakeHandler : Type 0 where
  pub review : Handler
  pub post_ingest : Hook
  pub detector : Option (String → String → Calls World (List Collision))
  pub has_raw_inputs : Bool
  pub columns : JsonColumns
  pub percent : ℕ → String

-- An update of the bot API.
pub data Update : Type 0 where
  callback : CallbackQuery → Update
  received : Message → Update
  other : Update

module _ (bot : Bot) (h : IntakeHandler) where
  abbrev pub tell : Sent → Calls Desk (Unit {0})
  tell s = at_chat (send bot s)

  abbrev pub ingest_request : IngestTextRequest → Calls Desk IngestTextResult
  ingest_request req = at_chat (serving (ingest bot.env h.post_ingest req))

  -- An update of a raw input, if it was staged; its error is dropped.
  abbrev pub mark_raw_input : ℕ → Calls Desk (Unit {0}) → Calls Desk (Unit {0})
  mark_raw_input raw_input_id change =
      if h.has_raw_inputs && not (eqb raw_input_id 0)
      then (do marked ← attempt change; pure tt)
      else pure tt

  abbrev pub reply_ingested : ℕ → ℕ → Outcome IngestTextResult → Calls Desk (Unit {0})
  reply_ingested chat_id raw_input_id (err e) =
      tell (message chat_id "Sorry, something went wrong processing your message.")
  reply_ingested chat_id raw_input_id (ok result) = do
    marked ← mark_raw_input raw_input_id (set_promoted bot.env raw_input_id result.object_id)
    tell (message chat_id (if result.duplicate then "Duplicate" else "Saved"))

  unfoldable pub ingest_and_reply : ℕ → IngestTextRequest → ℕ → Calls Desk (Unit {0})
  ingest_and_reply chat_id req raw_input_id = do
    result ← attempt (ingest_request req)
    reply_ingested chat_id raw_input_id result

  abbrev pub raw_input_of : ℕ → Message → IngestTextRequest → RawInput
  raw_input_of id msg req = record {
    id = id;
    workspace_id = req.workspace_id;
    channel = "telegram";
    content = msg.content;
    actor_id = bot.decimal msg.from_id;
    external_ref =
        ("chat_id", json (bot.decimal msg.chat_id))
        ∷ (("message_id", text (bot.decimal msg.id)) ∷ []);
    status = "pending";
    promoted_object_id = none;
    collision_summary = none;
  }

  abbrev pub staged_id : ℕ → Outcome (Unit {0}) → ℕ
  staged_id id (ok u) = id
  staged_id id (err e) = 0

  abbrev pub create_or_zero : Message → IngestTextRequest → ℕ → Calls Desk ℕ
  create_or_zero msg req id =
      if h.has_raw_inputs
      then (do
        created ← attempt (create_raw_input bot.env (raw_input_of id msg req))
        pure (staged_id id created))
      else pure id

  -- The ID of the raw input, or zero if it could not be stored.
  unfoldable pub stage_raw_input : Message → IngestTextRequest → Calls Desk ℕ
  stage_raw_input msg req = do id ← at_chat (serving (new_id bot.env)); create_or_zero msg req id

  abbrev pub summary_of : Collision → Metadata
  summary_of top =
      ("verdict", text top.verdict)
      ∷ (("similarity", json (bot.env.float_text top.similarity))
          ∷ (("object_id", text (bot.env.uuid_text top.object.id))
              ∷ (("content_preview", text (truncate top.object.content 200)) ∷ [])))

  unfoldable pub format_collision_prompt : String → Collision → String
  format_collision_prompt candidate c =
      "⚠\u{fe0f} Esto puede chocar con conocimiento existente ("
      ++ c.verdict
      ++ ", "
      ++ h.percent c.similarity
      ++ "%).\n\n"
      ++ "Tu mensaje:\n"
      ++ truncate candidate 200
      ++ "\n\n"
      ++ "Choca con:\n"
      ++ truncate c.object.content 200
      ++ "\n\n"
      ++ "¿Qué hacés?"

  abbrev pub prompt :
      ℕ → IngestTextRequest → ℕ → Collision → String → Outcome (Unit {0}) → Calls Desk (Unit {0})
  prompt chat_id req raw_input_id top token (err e) = ingest_and_reply chat_id req raw_input_id
  prompt chat_id req raw_input_id top token (ok u) = tell (
      card chat_id (format_collision_prompt req.content top) (
        (record { text = "✅ Guardar igual"; callback_data = "keep:" ++ token }
          ∷ (record { text = "❌ Descartar"; callback_data = "discard:" ++ token } ∷ []))
        ∷ []))

  abbrev pub pending_of : ℕ → IngestTextRequest → ℕ → Collision → String → ℕ → PendingValidation
  pending_of chat_id req raw_input_id top token now = record {
    token = token;
    chat_id = chat_id;
    request = req;
    collision = top;
    raw_input_id = raw_input_id;
    expires_at = now + day;
  }

  abbrev pub new_token : Calls Desk String
  new_token = do drawn ← at_chat (serving (new_id bot.env)); pure (bot.env.uuid_text drawn)

  abbrev pub park : ℕ → IngestTextRequest → ℕ → Collision → String → Calls Desk (Outcome (Unit {0}))
  park chat_id req raw_input_id top token = do
    now ← at_chat (serving (read_clock bot.env))
    attempt (save_pending bot.env h.columns (pending_of chat_id req raw_input_id top token now))

  -- The rest of a collision: the human is asked, unless the question cannot be stored.
  abbrev pub park_and_prompt :
      ℕ → IngestTextRequest → ℕ → Collision → String → Calls Desk (Unit {0})
  park_and_prompt chat_id req raw_input_id top token = do
    saved ← park chat_id req raw_input_id top token
    prompt chat_id req raw_input_id top token saved

  unfoldable pub ask_human : ℕ → IngestTextRequest → ℕ → Collision → Calls Desk (Unit {0})
  ask_human chat_id req raw_input_id top = do
    marked ←
        mark_raw_input raw_input_id (set_collision_summary bot.env raw_input_id (summary_of top))
    token ← new_token
    park_and_prompt chat_id req raw_input_id top token

  abbrev pub decide_collisions :
      ℕ → IngestTextRequest → ℕ → Outcome (List Collision) → Calls Desk (Unit {0})
  decide_collisions chat_id req raw_input_id (err e) = ingest_and_reply chat_id req raw_input_id
  decide_collisions chat_id req raw_input_id (ok []) = ingest_and_reply chat_id req raw_input_id
  decide_collisions chat_id req raw_input_id (ok (top ∷ more)) =
      ask_human chat_id req raw_input_id top

  abbrev pub detect_first :
      ℕ
      → IngestTextRequest
      → ℕ
      → Option (String → String → Calls World (List Collision))
      → Calls Desk (Unit {0})
  detect_first chat_id req raw_input_id none = ingest_and_reply chat_id req raw_input_id
  detect_first chat_id req raw_input_id (some detect) = do
    collisions ← attempt (at_chat (serving (detect req.workspace_id req.content)))
    decide_collisions chat_id req raw_input_id collisions

  unfoldable pub handle_message : Message → Calls Desk (Unit {0})
  handle_message msg = do
    let req = build_ingest_request bot.decimal msg
    raw_input_id ← stage_raw_input msg req
    detect_first msg.chat_id req raw_input_id h.detector

  abbrev pub answer_kept :
      CallbackQuery → PendingValidation → Outcome IngestTextResult → Calls Desk (Unit {0})
  answer_kept cb pending (err e) = at_chat (
      edit_and_answer bot cb (place_of cb) "⚠\u{fe0f} No se pudo guardar. Probá de nuevo."
        "Error al guardar")
  answer_kept cb pending (ok result) = do
    marked ←
        mark_raw_input pending.raw_input_id
          (set_promoted bot.env pending.raw_input_id result.object_id)
    let verb = if result.duplicate then "Ya estaba guardado" else "Guardado"
    at_chat (
        edit_and_answer bot cb (place_of cb) ("✅ " ++ verb ++ " igual, a pesar de la colisión.")
          verb)

  unfoldable pub keep : CallbackQuery → PendingValidation → Calls Desk (Unit {0})
  keep cb pending = do
    result ← attempt (ingest_request pending.request)
    answer_kept cb pending result

  unfoldable pub discard : CallbackQuery → PendingValidation → Calls Desk (Unit {0})
  discard cb pending = do
    marked ← mark_raw_input pending.raw_input_id (set_discarded bot.env pending.raw_input_id)
    at_chat (
        edit_and_answer bot cb (place_of cb)
          ("❌ Descartado. Ya estaba cubierto por:\n"
            ++ truncate pending.collision.object.content 120)
          "Descartado")

  abbrev pub resolve_pending :
      CallbackQuery → String → Outcome PendingValidation → Calls Desk (Unit {0})
  resolve_pending cb action (err e) = tell (
      answer cb.id (
        if is_not_found e
        then "Esta validación ya no está disponible"
        else "Error temporal; probá de nuevo"))
  resolve_pending cb action (ok pending) =
      if action == "keep"
      then keep cb pending
      else if action == "discard"
      then discard cb pending
      else tell (answer cb.id "")

  abbrev pub route_callback : CallbackQuery → Option (String × String) → Calls Desk (Unit {0})
  route_callback cb none = tell (answer cb.id "")
  route_callback cb (some (action, token)) =
      if action == namespace then at_chat (handle_review_callback bot h.review cb token) else (do
        taken ← attempt (take_pending bot.env h.columns token)
        resolve_pending cb action taken)

  unfoldable pub handle_callback : CallbackQuery → Calls Desk (Unit {0})
  handle_callback cb = route_callback cb (split_callback_data cb.callback_data)

  unfoldable pub process_update : Update → Calls Desk (Unit {0})
  process_update (callback cb) = handle_callback cb
  process_update other = pure tt
  process_update (received msg) =
      let command = trim_space msg.content in
      if command == "/start"
      then tell
          (message msg.chat_id "Welcome! Send me any text and I'll save it to Knowledge Core.")
      else if command == "/help"
      then tell (
          message msg.chat_id
            "Send any text message and I'll ingest it into Knowledge Core. Use /start for a welcome message.")
      else if command == "/backlog"
      then at_chat (handle_backlog bot h.review msg.from_id msg.chat_id)
      else handle_message msg
