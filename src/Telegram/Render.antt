-- ===== src/Telegram/Render.antt =====
-- telegram/handler_render.go, and the callback data of telegram/handler.go.
use Prim.Native.Char.{code}
use Prim.Native.String.{[], ◌∷◌, ◌++◌}
use project_brain.Base.{
  ℕ, zero, suc, String, Option, none, some, List, eqb, leb, ◌==◌, if◌then◌else◌,
}
use project_brain.Base.Text.{is_empty}
use project_brain.Domain.{KnowledgeObject, proposed, debating}
use project_brain.Backlog.Query.{BacklogItem}
use project_brain.Telegram.Chat.{InlineButton}

abbrev pub validate_action : String
validate_action = "validate"

abbrev pub deprecate_action : String
deprecate_action = "deprecate"

abbrev pub debate_action : String
debate_action = "debate"

abbrev pub skip_action : String
skip_action = "skip"

abbrev pub namespace : String
namespace = "rv"

unfoldable pub review_action_payload : String → String
review_action_payload token = namespace ++ ":" ++ token

-- `strings.Cut` at the first colon
unfoldable pub cut_colon : String → Option (String × String)
cut_colon [] = none
cut_colon (c ∷ s) =
    let rest = cut_colon s in
    if eqb (code c) 0x3a
    then some ([], s)
    else elim rest [ none ↦ none | some (a, b) ↦ some (c ∷ a, b) ]

abbrev pub both_full : Option (String × String) → Option (String × String)
both_full none = none
both_full (some (action, token)) =
    if is_empty action then none else if is_empty token then none else some (action, token)

unfoldable pub split_callback_data : String → Option (String × String)
split_callback_data callback = both_full (cut_colon callback)

abbrev rune_count : String → ℕ
rune_count [] = 0
rune_count (c ∷ s) = suc (rune_count s)

abbrev first_runes : ℕ → String → String
first_runes zero s = []
first_runes (suc n) [] = []
first_runes (suc n) (c ∷ s) = c ∷ first_runes n s

unfoldable pub truncate : String → ℕ → String
truncate s max = if leb (rune_count s) max then s else first_runes max s ++ "…"

pub record BacklogButtonSpec : Type 0 where
  pub action : String
  pub label : String

abbrev validate_spec : BacklogButtonSpec
validate_spec = record { action = validate_action; label = "✅ Validate" }

abbrev debate_spec : BacklogButtonSpec
debate_spec = record { action = debate_action; label = "💬 Debate" }

abbrev deprecate_spec : BacklogButtonSpec
deprecate_spec = record { action = deprecate_action; label = "🗑 Deprecate" }

abbrev skip_spec : BacklogButtonSpec
skip_spec = record { action = skip_action; label = "⏭ Skip" }

unfoldable pub backlog_buttons_for_status : String → List BacklogButtonSpec
backlog_buttons_for_status status =
    if status == proposed
    then List.◌∷◌ validate_spec
        (List.◌∷◌ debate_spec (List.◌∷◌ deprecate_spec (List.◌∷◌ skip_spec List.[])))
    else if status == debating
    then List.◌∷◌ validate_spec (List.◌∷◌ deprecate_spec (List.◌∷◌ skip_spec List.[]))
    else List.◌∷◌ skip_spec List.[]

abbrev pub button : BacklogButtonSpec → String → InlineButton
button spec token = record { text = spec.label; callback_data = review_action_payload token }

-- Two buttons a row. The lists are as long as each other, or the code panics: a token more or less
-- is left out here.
unfoldable pub assemble_backlog_rows :
    List BacklogButtonSpec → List String → List (List InlineButton)
assemble_backlog_rows (List.◌∷◌ a (List.◌∷◌ b specs)) (List.◌∷◌ s (List.◌∷◌ t tokens)) =
    List.◌∷◌ (List.◌∷◌ (button a s) (List.◌∷◌ (button b t) List.[]))
      (assemble_backlog_rows specs tokens)
assemble_backlog_rows (List.◌∷◌ a specs) (List.◌∷◌ s tokens) =
    List.◌∷◌ (List.◌∷◌ (button a s) List.[]) List.[]
assemble_backlog_rows specs tokens = List.[]

abbrev when_full : String → String → String
when_full title s = if is_empty s then "" else title ++ s

abbrev preview : Option KnowledgeObject → String
preview none = ""
preview (some o) = if is_empty o.content then "" else "\n\nContenido:\n" ++ truncate o.content 400

-- `decimal` is %d of fmt.
unfoldable pub format_stale_marker : (ℕ → String) → ℕ → String
format_stale_marker decimal days = "⚠ stale " ++ decimal days ++ " days"

unfoldable pub render_backlog_card_text :
    (ℕ → String) → BacklogItem → Option KnowledgeObject → String
render_backlog_card_text decimal item hydrated =
    "📋 Pendiente de revisión ("
    ++ item.status
    ++ ")\n\n"
    ++ "Título: "
    ++ item.title
    ++ when_full "\nResumen: " item.summary
    ++ preview hydrated
    ++ (if item.is_stale then "\n\n" ++ format_stale_marker decimal item.stale_for_days else "")
