-- ===== src/Telegram/Handling.antt =====
-- The handlers of an update, as writers of the tables of the knowledge base.
use project_brain.Base.{
  ℕ, String, Option, none, some, List, [], ◌∷◌, ◌==◌, ◌≡◌, refl, Outcome, ok, err, Calls, attempt,
  ◌>>=◌,
}
use project_brain.Base.Text.{trim_space}
use project_brain.Domain.{IngestTextRequest, IngestTextResult}
use project_brain.Store.State.{World}
use project_brain.Lifecycle.Write.{done}
use project_brain.Telegram.Message.{Message, build_ingest_request}
use project_brain.Telegram.Chat.{Bot, CallbackQuery, serving}
use project_brain.Telegram.Render.{split_callback_data, namespace}
use project_brain.Telegram.Backlog.{handle_backlog}
use project_brain.Telegram.Review.{handle_review_callback}
use project_brain.Telegram.Still.{handle_backlog-Still}
use project_brain.Telegram.Trail.{handle_review_callback-Writes}
use project_brain.Telegram.Desk.{
  Collision, PendingValidation, at_chat, take_pending, set_promoted, set_discarded,
  set_collision_summary,
}
use project_brain.Telegram.Intake.{
  IntakeHandler, Update, callback, received, other, ingest_request, mark_raw_input, stage_raw_input,
  summary_of, park, prompt, park_and_prompt, ask_human, decide_collisions, detect_first,
  handle_message, answer_kept, keep, discard, resolve_pending, route_callback, handle_callback,
  process_update,
}
use project_brain.Telegram.Writing.{
  Writing, if-Writing, bind-Writing, Leaves-Writing, QuietIntake, mark_raw_input-Writing,
  set_promoted-Leaves, ingest_request-Writing, ingest_and_reply-Writing, set_discarded-Leaves,
  set_collision_summary-Leaves, save_pending-Leaves, take_pending-Writing, stage_raw_input-Writing,
}

module _ (bot : Bot) (h : IntakeHandler) (quiet : QuietIntake h) where
  prompt-Writing :
      (chat_id : ℕ) (req : IngestTextRequest) (id : ℕ) (top : Collision) (token : String)
      (r : Outcome (Unit {0}))
      → Writing (prompt bot h chat_id req id top token r)
  prompt-Writing chat_id req id top token (err e) =
      ingest_and_reply-Writing bot h quiet chat_id req id
  prompt-Writing chat_id req id top token (ok u) = λ d. done

  park_and_prompt-Writing :
      (chat_id : ℕ) (req : IngestTextRequest) (id : ℕ) (top : Collision) (token : String)
      → Writing (park_and_prompt bot h chat_id req id top token)
  park_and_prompt-Writing chat_id req id top token =
      let parked = park bot h chat_id req id top token in
      bind-Writing parked (prompt bot h chat_id req id top token)
        (Leaves-Writing parked (λ d. save_pending-Leaves bot h quiet _ _))
        (prompt-Writing chat_id req id top token)

  ask_human-Writing :
      (chat_id : ℕ) (req : IngestTextRequest) (id : ℕ) (top : Collision)
      → Writing (ask_human bot h chat_id req id top)
  unfolding ask_human
  ask_human-Writing chat_id req id top =
      let summary = summary_of bot h top in
      bind-Writing (mark_raw_input bot h id (set_collision_summary bot.env id summary)) _
        (mark_raw_input-Writing bot h quiet id (set_collision_summary bot.env id summary)
          (set_collision_summary-Leaves bot h quiet id summary))
        (λ marked d. park_and_prompt-Writing chat_id req id top _ _)

  decide_collisions-Writing :
      (chat_id : ℕ) (req : IngestTextRequest) (id : ℕ) (r : Outcome (List Collision))
      → Writing (decide_collisions bot h chat_id req id r)
  decide_collisions-Writing chat_id req id (err e) =
      ingest_and_reply-Writing bot h quiet chat_id req id
  decide_collisions-Writing chat_id req id (ok []) =
      ingest_and_reply-Writing bot h quiet chat_id req id
  decide_collisions-Writing chat_id req id (ok (top ∷ more)) = ask_human-Writing chat_id req id top

  detect_first-Writing :
      (chat_id : ℕ) (req : IngestTextRequest) (id : ℕ)
      (detector : Option (String → String → Calls World (List Collision)))
      → h.detector ≡ detector
      → Writing (detect_first bot h chat_id req id detector)
  detect_first-Writing chat_id req id none p = ingest_and_reply-Writing bot h quiet chat_id req id
  detect_first-Writing chat_id req id (some detect) p =
      let call = attempt (at_chat (serving (detect req.workspace_id req.content))) in
      bind-Writing call (decide_collisions bot h chat_id req id)
        (Leaves-Writing call
          (λ d. quiet.detector_quiet detect req.workspace_id req.content d.chat.world p))
        (decide_collisions-Writing chat_id req id)

  handle_message-Writing : (msg : Message) → Writing (handle_message bot h msg)
  unfolding handle_message
  handle_message-Writing msg =
      let req = build_ingest_request bot.decimal msg in
      bind-Writing (stage_raw_input bot h msg req)
        (λ id. detect_first bot h msg.chat_id req id h.detector)
        (stage_raw_input-Writing bot h quiet msg req)
        (λ id. detect_first-Writing msg.chat_id req id h.detector refl)

  answer_kept-Writing :
      (cb : CallbackQuery) (pending : PendingValidation) (r : Outcome IngestTextResult)
      → Writing (answer_kept bot h cb pending r)
  answer_kept-Writing cb pending (err e) = λ d. done
  answer_kept-Writing cb pending (ok result) =
      let id = pending.raw_input_id in
      bind-Writing (mark_raw_input bot h id (set_promoted bot.env id result.object_id)) _
        (mark_raw_input-Writing bot h quiet id (set_promoted bot.env id result.object_id)
          (set_promoted-Leaves bot h quiet id result.object_id))
        (λ marked d. done)

  keep-Writing :
      (cb : CallbackQuery) (pending : PendingValidation) → Writing (keep bot h cb pending)
  unfolding keep
  keep-Writing cb pending =
      bind-Writing (attempt (ingest_request bot h pending.request)) (answer_kept bot h cb pending)
        (ingest_request-Writing bot h quiet pending.request) (answer_kept-Writing cb pending)

  discard-Writing :
      (cb : CallbackQuery) (pending : PendingValidation) → Writing (discard bot h cb pending)
  unfolding discard
  discard-Writing cb pending =
      let id = pending.raw_input_id in
      bind-Writing (mark_raw_input bot h id (set_discarded bot.env id)) _
        (mark_raw_input-Writing bot h quiet id (set_discarded bot.env id)
          (set_discarded-Leaves bot h quiet id))
        (λ marked d. done)

  resolve_pending-Writing :
      (cb : CallbackQuery) (action : String) (r : Outcome PendingValidation)
      → Writing (resolve_pending bot h cb action r)
  resolve_pending-Writing cb action (err e) = λ d. done
  resolve_pending-Writing cb action (ok pending) =
      if-Writing (action == "keep") _ _ (keep-Writing cb pending)
        (if-Writing (action == "discard") _ _ (discard-Writing cb pending) (λ d. done))

  route_callback-Writing :
      (cb : CallbackQuery) (r : Option (String × String)) → Writing (route_callback bot h cb r)
  route_callback-Writing cb none = λ d. done
  route_callback-Writing cb (some (action, token)) =
      let taken = attempt (take_pending bot.env h.columns token) in
      if-Writing (action == namespace) (at_chat (handle_review_callback bot h.review cb token))
        (taken >>= resolve_pending bot h cb action)
        (λ d. handle_review_callback-Writes bot h.review cb token d.chat quiet.review_quiet)
        (bind-Writing taken (resolve_pending bot h cb action)
          (take_pending-Writing bot h quiet token) (resolve_pending-Writing cb action))

  pub process_update-Writing : (u : Update) → Writing (process_update bot h u)
  unfolding process_update handle_callback
  process_update-Writing (callback cb) =
      route_callback-Writing cb (split_callback_data cb.callback_data)
  process_update-Writing other = λ d. done
  process_update-Writing (received msg) =
      let command = trim_space msg.content in
      let listing = at_chat (handle_backlog bot h.review msg.from_id msg.chat_id) in
      if-Writing (command == "/start") _ _ (λ d. done)
        (if-Writing (command == "/help") _ _ (λ d. done)
          (if-Writing (command == "/backlog") listing (handle_message bot h msg)
            (Leaves-Writing listing
              (λ d. handle_backlog-Still bot h.review msg.from_id msg.chat_id d.chat))
            (handle_message-Writing msg)))
