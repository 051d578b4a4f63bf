-- ===== src/Tests/Tokens.antt =====
-- The stores of review actions at concrete inputs: one button that is pressed twice.
use project_brain.Base.{[], ◌∷◌, ◌≡◌, refl, ok, err, not_found}
use project_brain.Tokens.Memory.{TelegramReviewAction, stamped, save, take}
use project_brain.Tokens.Agree.{Run, saving, taking, memory_answers, take-save}

abbrev button : TelegramReviewAction
button = record {
  token = "t";
  workspace_id = "default";
  actor_id = 5;
  chat_id = 1;
  object_id = 77;
  action = "accept";
  expected_status = "proposed";
  next_cursor = "";
  created_at = 0;
  expires_at = 100;
}

-- Pressed twice, then saved again and pressed too late.
abbrev presses : Run
presses =
    (1, saving button)
    ∷ ((2, taking "t") ∷ ((3, taking "t") ∷ ((4, saving button) ∷ ((100, taking "t") ∷ []))))

pressed : memory_answers presses [] ≡ ok (stamped 1 button) ∷ (err not_found ∷ (err not_found ∷ []))
unfolding memory_answers
pressed = refl

take-save_example :
    let after = take 2 "t" (save 1 button []) in
    (after.0 ≡ ok (stamped 1 button)) × ((take 3 "t" after.1).0 ≡ err not_found)
take-save_example = take-save 1 2 3 button [] refl
