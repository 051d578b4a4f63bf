-- ===== src/Tests/Telegram.antt =====
-- The buttons of the backlog at concrete chats.
use mathlib.Core.Path.{subst}
use project_brain.Base.Text.{trim_space, trim_left, trim_right, is_space, map_runes}
use project_brain.Base.{
  Bool, String, true, false, Option, none, some, List, [], ◌∷◌, ◌≡◌, ◌⊎◌, refl, ap, length, err,
  not_found, Calls, ok,
}
use project_brain.Domain.{KnowledgeObject}
use project_brain.Store.State.{World, normalize}
use project_brain.Store.Objects.{find_by_id_for_update, update_status}
use project_brain.Tokens.Memory.{TelegramReviewAction}
use project_brain.Tokens.Postgres.{take_row}
use project_brain.Lifecycle.Validate.{ValidateObjectService, validate, validate_tx, validate_found}
use project_brain.Lifecycle.Log.{log}
use project_brain.Store.Tx.{within_tx}
use project_brain.Lifecycle.Refine.{Quiet}
use project_brain.Lifecycle.Write.{done}
use project_brain.Backlog.Query.{item_of, newest_first, needs_attention}
use project_brain.Backlog.Walk.{backlog_rows}
use project_brain.Telegram.Chat.{
  Bot, Handler, Chat, CallbackQuery, InlineButton, answer, card, edit, find_by_id,
}
use project_brain.Telegram.Render.{
  render_backlog_card_text, review_action_payload, split_callback_data,
}
use project_brain.Telegram.Review.{
  handle_review_callback, review_case, run_review_case, review_object, dispatch_review,
}
use project_brain.Telegram.Guards.{given, Allowed, after_take, handle_review_callback-guarded}
use project_brain.Telegram.Trail.{QuietHandler}
use project_brain.Telegram.Desk.{
  Collision, JsonColumns, Desk, create_raw_input, save_pending, set_collision_summary,
}
use project_brain.Telegram.Intake.{IntakeHandler, handle_message, stage_raw_input, ask_human}
use project_brain.Telegram.Writing.{QuietIntake}
use project_brain.Telegram.Message.{Message}
use project_brain.Telegram.Kept.{Kept}
use project_brain.Telegram.Buttons.{
  is_some, offers, split_callback_data-review_action_payload, backlog_buttons-review_case,
}
use project_brain.Telegram.Wrap.{skip-wraps}
use project_brain.Tests.World.{empty_db, world_of, note_with, no_hooks, one}
use project_brain.Tests.Backlog.{steady, unary}

abbrev pub bot : Bot
bot = record { env = steady; codec = unary; decimal = λ n. "0"; send_fault = λ n. false }

abbrev handler : Handler
handler = record {
  has_backlog = true;
  has_finder = true;
  has_debater = true;
  validator = some no_hooks;
}

abbrev stored : String → TelegramReviewAction
stored action = record {
  token = "t";
  workspace_id = "w";
  actor_id = 5;
  chat_id = 6;
  object_id = 77;
  action = action;
  expected_status = "proposed";
  next_cursor = "";
  created_at = 1;
  expires_at = 100;
}

abbrev tap : CallbackQuery
tap = record { id = 3; from_id = 5; callback_data = "rv:t"; message = some (6, 8) }

-- A chat over one object with a stored action.
abbrev chat_with : String → String → Chat
chat_with status action = record { world = one status; actions = stored action ∷ []; outbox = [] }

abbrev service_or : Option ValidateObjectService → ValidateObjectService
service_or none = no_hooks
service_or (some s) = s

quiet : QuietHandler handler
quiet s p =
    subst (λ s. Quiet s.post_validation_hook × Quiet s.post_deprecation_hook) (ap service_or p)
      (λ o w. done, λ o w. done)

-- The tap validates the object and says so.
validated_run :
    (handle_review_callback bot handler tap "t" (chat_with "proposed" "validate")).1.outbox
    ≡ answer 3 "Validado" ∷ edit 6 8 "✅ Marcado como validado." ∷ []
unfolding handle_review_callback take_row review_object find_by_id dispatch_review review_case
    run_review_case validate validate_tx validate_found within_tx find_by_id_for_update
    update_status log trim_space trim_left trim_right is_space normalize map_runes
validated_run = refl

handle_review_callback-guarded_example :
    ((handle_review_callback bot handler tap "t" (chat_with "proposed" "validate")).1.world.db
      ≡ (chat_with "proposed" "validate").world.db)
    ⊎ ((a : TelegramReviewAction) × ((given bot handler "t" (chat_with "proposed" "validate")).0
          ≡ ok a)
        × Allowed bot handler tap a
            (after_take bot handler "t" (chat_with "proposed" "validate"))
            (handle_review_callback bot handler tap "t" (chat_with "proposed" "validate")))
handle_review_callback-guarded_example =
    handle_review_callback-guarded bot handler tap "t" (chat_with "proposed" "validate")

abbrev columns : JsonColumns
columns = record {
  marshal_request = λ r. ok "";
  unmarshal_request = λ s. err not_found;
  marshal_collision = λ c. ok "";
  unmarshal_collision = λ s. err not_found;
}

-- The whole handler, without a detector.
abbrev pub intake : IntakeHandler
intake = record {
  review = handler;
  post_ingest = none;
  detector = none;
  has_raw_inputs = true;
  columns = columns;
  percent = λ n. "0";
}

abbrev detector_or : Option (String → String → Calls World (List Collision)) → Bool
detector_or none = true
detector_or (some f) = false

pub intake-QuietIntake : QuietIntake intake
intake-QuietIntake = record {
  review_quiet = quiet;
  hook_quiet = λ o w. done;
  detector_quiet = λ detect ws s w p. let no : true ≡ false = ap detector_or p in cc;
}

-- An empty desk, but for a stored action.
abbrev pub desk : Desk
desk = record {
  chat = record { world = world_of empty_db; actions = stored "validate" ∷ []; outbox = [] };
  pending = [];
  raw_inputs = [];
}

split_callback_data-review_action_payload_example :
    split_callback_data (review_action_payload "t") ≡ some ("rv", "t")
split_callback_data-review_action_payload_example =
    split_callback_data-review_action_payload "t" refl

backlog_buttons-review_case_example :
    offers "proposed" "debate" ≡ is_some (review_case "proposed" "debate")
backlog_buttons-review_case_example = backlog_buttons-review_case "proposed" "debate"

-- The chat after the token's only tap.
abbrev first : Chat
first = (handle_review_callback bot handler tap "t" (chat_with "proposed" "validate")).1

rows : backlog_rows steady "w" 9 (chat_with "proposed" "skip").world.db ≡ note_with "proposed" ∷ []
unfolding newest_first needs_attention normalize trim_space trim_left trim_right is_space map_runes
rows = refl

skipped : (given bot handler "t" (chat_with "proposed" "skip")).0 ≡ ok (stored "skip")
unfolding take_row
skipped = refl

skip-wraps_example :
    (o : Option KnowledgeObject) × (buttons : List (List InlineButton)) × ((handle_review_callback
        bot handler tap "t"
        (chat_with "proposed" "skip")).1.outbox
      ≡ answer 3 "Saltado"
        ∷ card 6 (render_backlog_card_text bot.decimal (item_of 9 (note_with "proposed")) o) buttons
        ∷ [])
skip-wraps_example =
    skip-wraps bot (λ n. refl) (λ n. refl) handler 9 tap "t" (stored "skip")
      (chat_with "proposed" "skip") (note_with "proposed") [] (λ n. refl) refl skipped refl refl
      refl refl rows

abbrev note_message : Message
note_message = record { id = 1; chat_id = 6; from_id = 5; content = "note" }

-- A detector that finds the note in every workspace.
abbrev alarmed : IntakeHandler
alarmed = record intake {
  detector = some (λ ws content w. (
    ok (record { object = note_with "active"; similarity = 95; verdict = "duplicate" } ∷ []),
    w,
  ));
}

abbrev detector_in :
    Option (String → String → Calls World (List Collision))
    → String
    → String
    → Calls World (List Collision)
detector_in none ws content = λ w. (ok [], w)
detector_in (some f) ws content = f ws content

-- The message waits in a row, and the question about it was sent.
parked_run : length (handle_message bot alarmed note_message desk).1.pending ≡ 1
unfolding handle_message stage_raw_input ask_human create_raw_input save_pending
    set_collision_summary
parked_run = refl
