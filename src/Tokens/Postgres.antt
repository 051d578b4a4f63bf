-- ===== src/Tokens/Postgres.antt =====
-- postgres/telegram_review_actions.go, with `fault` for a statement that the database refuses and
-- `now` for now() in SQL. A zero `ExpiresAt` is NULL.
use project_brain.Base.{
  ℕ, String, Bool, not, ◌&&◌, Option, none, some, ◌∷◌, first, select, length, if◌then◌else◌,
  Outcome, ok, err, not_found, failure,
}
use project_brain.Tokens.Memory.{
  TelegramReviewAction, Actions, has_token, expired, stamped, without,
}

-- WHERE token = $1 AND (expires_at IS NULL OR expires_at > now())
abbrev pub live : ℕ → String → TelegramReviewAction → Bool
live now token a = has_token token a && not (expired now a)

abbrev pub scanned : Option TelegramReviewAction → Outcome TelegramReviewAction
scanned none = err not_found
scanned (some a) = ok a

-- INSERT ... ON CONFLICT (token) DO UPDATE
unfoldable pub save_row : Bool → ℕ → TelegramReviewAction → Actions → Outcome (Unit {0}) × Actions
save_row fault now a rows =
    if fault then (err (failure 0), rows) else (ok tt, stamped now a ∷ without a.token rows)

-- DELETE ... RETURNING
unfoldable pub take_row : Bool → ℕ → String → Actions → Outcome TelegramReviewAction × Actions
take_row fault now token rows =
    if fault
    then (err (failure 0), rows)
    else (scanned (first (live now token) rows), select (λ a. not (live now token a)) rows)

unfoldable pub sweep_rows : Bool → ℕ → Actions → Outcome ℕ × Actions
sweep_rows fault now rows =
    if fault
    then (err (failure 0), rows)
    else (ok (length (select (expired now) rows)), select (λ a. not (expired now a)) rows)
