-- ===== src/Telegram/Review.antt =====
-- telegram/handler_callback.go: the buttons of the backlog.
use project_brain.Base.{
  ℕ, String, ◌&&◌, Option, none, some, eqb, ◌==◌, if◌then◌else◌, Outcome, ok, err, Err, Calls,
  attempt, is_not_found, is_invalid_transition, ◌>>=◌,
}
use project_brain.Domain.{KnowledgeObject, proposed, debating, validated, deprecated, trigger_human}
use project_brain.Store.State.{World}
use project_brain.Tokens.Memory.{TelegramReviewAction}
use project_brain.Lifecycle.Validate.{ValidateObjectService, ValidateObjectRequest, validate}
use project_brain.Lifecycle.Debate.{
  MarkDebatingRequest, ResolveDebateRequest, mark_debating, resolve_debate,
}
use project_brain.Telegram.Chat.{
  Bot, Handler, Chat, CallbackQuery, answer, serving, send, edit_and_answer, take_action,
  find_by_id,
}
use project_brain.Telegram.Render.{validate_action, deprecate_action, debate_action, skip_action}
use project_brain.Telegram.Backlog.{render_next_backlog_card}

-- The service call of a case of the switch, with the target and the reason.
pub data ReviewCall : Type 0 where
  validating : String → String → ReviewCall
  marking : String → ReviewCall
  resolving : String → String → ReviewCall

-- The case: the call, the text of the card and the toast after it.
abbrev pub ReviewCase : Type 0
ReviewCase = ReviewCall × String × String

-- The switch over the status that the button was made for and its action.
unfoldable pub review_case : String → String → Option ReviewCase
review_case status action =
    if status == proposed && action == validate_action
    then some
        (validating validated "telegram validation action", "✅ Marcado como validado.", "Validado")
    else if status == proposed && action == deprecate_action
    then some (
      validating deprecated "telegram deprecation action",
      "🗑 Marcado como deprecado.",
      "Deprecado",
    )
    else if status == proposed && action == debate_action
    then some (marking "telegram debate action", "💬 Marcado como en debate.", "En debate")
    else if status == debating && action == validate_action
    then some (
      resolving validated "telegram validation action",
      "✅ Debate resuelto: validado.",
      "Validado",
    )
    else if status == debating && action == deprecate_action
    then some (
      resolving deprecated "telegram deprecation action",
      "🗑 Debate resuelto: deprecado.",
      "Deprecado",
    )
    else none

-- The chat and the number of the card, zero if Telegram no longer has it.
abbrev pub place_of : CallbackQuery → ℕ × ℕ
place_of cb = elim cb.message [ none ↦ (0, 0) | some place ↦ place ]

module _ (bot : Bot) (h : Handler) where
  unfoldable pub respond_review_service_error : CallbackQuery → ℕ × ℕ → Err → Calls Chat (Unit {0})
  respond_review_service_error cb place e =
      if is_invalid_transition e
      then edit_and_answer bot cb place
          "⚠\u{fe0f} Este elemento ya cambió de estado. Usá /backlog para ver el actual."
          "Estado desactualizado"
      else if is_not_found e
      then edit_and_answer bot cb place "⚠\u{fe0f} Este objeto ya no existe." "Objeto no encontrado"
      else send bot (answer cb.id "Error temporal; probá de nuevo")

  abbrev pub answer_call :
      {A : Type 0} → CallbackQuery → ℕ × ℕ → String → String → Outcome A → Calls Chat (Unit {0})
  answer_call cb place body toast (err e) = respond_review_service_error cb place e
  answer_call cb place body toast (ok a) = edit_and_answer bot cb place body toast

  abbrev pub call_service :
      {A : Type 0} → CallbackQuery → String × String → Calls World A → Calls Chat (Unit {0})
  call_service cb (body, toast) call = do
    r ← attempt (serving call)
    answer_call cb (place_of cb) body toast r

  abbrev pub validate_request :
      CallbackQuery → TelegramReviewAction → String → String → ValidateObjectRequest
  validate_request cb a target reason = record {
    workspace_id = a.workspace_id;
    object_id = a.object_id;
    target_status = target;
    actor_id = bot.decimal cb.from_id;
    reason = reason;
    request_id = none;
  }

  abbrev pub mark_request : CallbackQuery → TelegramReviewAction → String → MarkDebatingRequest
  mark_request cb a reason = record {
    workspace_id = a.workspace_id;
    object_id = a.object_id;
    triggered_by = trigger_human;
    suggested_by = "";
    actor_id = bot.decimal cb.from_id;
    reason = reason;
    request_id = none;
  }

  abbrev pub resolve_request :
      CallbackQuery → TelegramReviewAction → String → String → ResolveDebateRequest
  resolve_request cb a target reason = record {
    workspace_id = a.workspace_id;
    object_id = a.object_id;
    target_status = target;
    actor_id = bot.decimal cb.from_id;
    reason = reason;
    request_id = none;
  }

  abbrev pub validate_case :
      CallbackQuery
      → TelegramReviewAction
      → String
      → String
      → String × String
      → Option ValidateObjectService
      → Calls Chat (Unit {0})
  validate_case cb a target reason texts none = send bot (answer cb.id "Validación no disponible")
  validate_case cb a target reason texts (some service) =
      call_service cb texts (validate bot.env service (validate_request cb a target reason))

  unfoldable pub run_review_case :
      CallbackQuery → TelegramReviewAction → ReviewCall → String × String → Calls Chat (Unit {0})
  run_review_case cb a (validating target reason) texts =
      validate_case cb a target reason texts h.validator
  run_review_case cb a (marking reason) texts =
      if h.has_debater
      then call_service cb texts (mark_debating bot.env (mark_request cb a reason))
      else send bot (answer cb.id "Debate no disponible")
  run_review_case cb a (resolving target reason) texts =
      if h.has_debater
      then call_service cb texts (resolve_debate bot.env (resolve_request cb a target reason))
      else send bot (answer cb.id "Debate no disponible")

  abbrev pub run_chosen :
      CallbackQuery → TelegramReviewAction → Option ReviewCase → Calls Chat (Unit {0})
  run_chosen cb a none =
      edit_and_answer bot cb (place_of cb)
        "⚠\u{fe0f} Acción no soportada para el estado actual. Usá /backlog para ver el backlog."
        "Acción no soportada"
  run_chosen cb a (some (call, body, toast)) = run_review_case cb a call (body, toast)

  -- The switch, for an object that still has the expected status.
  unfoldable pub dispatch_review : CallbackQuery → TelegramReviewAction → Calls Chat (Unit {0})
  dispatch_review cb a = run_chosen cb a (review_case a.expected_status a.action)

  abbrev pub check_status :
      CallbackQuery → TelegramReviewAction → Outcome KnowledgeObject → Calls Chat (Unit {0})
  check_status cb a (err e) =
      if is_not_found e
      then edit_and_answer bot cb (place_of cb) "⚠\u{fe0f} Este objeto ya no existe."
          "Objeto no encontrado"
      else send bot (answer cb.id "Error al leer el objeto; probá de nuevo")
  check_status cb a (ok object) =
      if object.status == a.expected_status
      then dispatch_review cb a
      else edit_and_answer bot cb (place_of cb)
          "⚠\u{fe0f} Este elemento ya cambió de estado. Usá /backlog para ver el actual."
          "Estado desactualizado"

  unfoldable pub review_object : CallbackQuery → TelegramReviewAction → Calls Chat (Unit {0})
  review_object cb a =
      if h.has_finder
      then (do found ← attempt (find_by_id bot a.workspace_id a.object_id); check_status cb a found)
      else edit_and_answer bot cb (place_of cb)
          "⚠\u{fe0f} No se pudo verificar el estado actual. Usá /backlog para ver el estado real."
          "Estado no verificable"

  abbrev pub check_actor : CallbackQuery → Outcome TelegramReviewAction → Calls Chat (Unit {0})
  check_actor cb (err e) = send bot (
      answer cb.id (
        if is_not_found e
        then "Esta acción ya no está disponible"
        else "Error temporal; probá de nuevo"))
  check_actor cb (ok a) =
      if eqb cb.from_id a.actor_id && eqb (place_of cb).0 a.chat_id
      then (if a.action == skip_action
          then render_next_backlog_card bot h cb (place_of cb) a
          else review_object cb a)
      else send bot (answer cb.id "Este botón no es para vos")

  unfoldable pub handle_review_callback : CallbackQuery → String → Calls Chat (Unit {0})
  handle_review_callback cb token = do taken ← attempt (take_action bot token); check_actor cb taken
