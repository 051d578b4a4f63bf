-- ===== src/Tokens/Memory.antt =====
-- app/inmem/inmem.go: `TelegramReviewActionStore`. The map is a list of the entries, newest first;
-- `now` is the reading of the clock.
use project_brain.Base.{
  ℕ, String, Bool, not, ◌&&◌, Option, none, some, List, ◌∷◌, first, select, length, eqb, leb, ◌==◌,
  if◌then◌else◌, Outcome, ok, err, not_found,
}

pub record TelegramReviewAction : Type 0 where
  pub token : String
  pub workspace_id : String
  pub actor_id : ℕ  -- the 64 bits of an int64, as the next
  pub chat_id : ℕ
  pub object_id : ℕ
  pub action : String
  pub expected_status : String
  pub next_cursor : String
  pub created_at : ℕ
  pub expires_at : ℕ

abbrev pub Actions : Type 0
Actions = List TelegramReviewAction

abbrev pub has_token : String → TelegramReviewAction → Bool
has_token token a = a.token == token

abbrev pub expired : ℕ → TelegramReviewAction → Bool
expired now a = not (eqb a.expires_at 0) && leb a.expires_at now

abbrev pub stamped : ℕ → TelegramReviewAction → TelegramReviewAction
stamped now a = if eqb a.created_at 0 then record a { created_at = now } else a

-- delete(s.data, token)
abbrev pub without : String → Actions → Actions
without token = select (λ a. not (has_token token a))

-- The entry that Take deletes and returns, unless it is expired.
abbrev pub returned : ℕ → Option TelegramReviewAction → Outcome TelegramReviewAction
returned now none = err not_found
returned now (some a) = if expired now a then err not_found else ok a

unfoldable pub save : ℕ → TelegramReviewAction → Actions → Actions
save now a entries = stamped now a ∷ without a.token entries

unfoldable pub take : ℕ → String → Actions → Outcome TelegramReviewAction × Actions
take now token entries = (returned now (first (has_token token) entries), without token entries)

unfoldable pub sweep_expired : ℕ → Actions → ℕ × Actions
sweep_expired now entries =
    (length (select (expired now) entries), select (λ a. not (expired now a)) entries)
