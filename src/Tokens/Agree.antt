-- ===== src/Tokens/Agree.antt =====
-- The two stores of review actions give the same answers.
use project_brain.Base.{
  ℕ, ◌≤◌, String, false, not, none, List, [], ◌∷◌, first, select, eq_iff, ◌≡◌, refl, ap, arith,
  Outcome, ok, err, not_found,
}
use project_brain.Tokens.Memory.{
  TelegramReviewAction, Actions, has_token, expired, stamped, without, returned, save, take,
}
use project_brain.Tokens.Postgres.{live, scanned, save_row, take_row}

first-gone : (t : String) (l : Actions) → first (has_token t) (without t l) ≡ none
first-gone t [] = refl
first-gone t (a ∷ l) = ground (arith, first-gone t l)

-- What a Take leaves of its token is expired, and stays so.
pub first-taken :
    (now later : ℕ) (t : String) (l : Actions)
    → now ≤ later
    → first (live later t) (select (λ a. not (live now t a)) l) ≡ none
first-taken now later t [] h = refl
first-taken now later t (a ∷ l) h = ground (arith, first-taken now later t l)

-- One store answers a Take as the other, at the instant `now` and later.
unfoldable pub Agree : ℕ → Actions → Actions → Type 0
Agree now entries rows =
    (later : ℕ) (token : String)
    → now ≤ later
    → returned later (first (has_token token) entries) ≡ scanned (first (live later token) rows)

pub data Operation : Type 0 where
  saving : TelegramReviewAction → Operation
  taking : String → Operation

-- Operations with the instants at which they run.
abbrev pub Run : Type 0
Run = List (ℕ × Operation)

-- The clock does not go back.
abbrev pub Ordered : ℕ → Run → Type 0
Ordered now [] = Unit
Ordered now ((t, o) ∷ run) = (now ≤ t) × Ordered t run

-- The answers to the Takes of a run.
unfoldable pub memory_answers : Run → Actions → List (Outcome TelegramReviewAction)
unfolding save take
memory_answers [] entries = []
memory_answers ((t, saving a) ∷ run) entries = memory_answers run (save t a entries)
memory_answers ((t, taking token) ∷ run) entries =
    (take t token entries).0 ∷ memory_answers run (take t token entries).1

unfoldable pub postgres_answers : Run → Actions → List (Outcome TelegramReviewAction)
unfolding save_row take_row
postgres_answers [] rows = []
postgres_answers ((t, saving a) ∷ run) rows = postgres_answers run (save_row false t a rows).1
postgres_answers ((t, taking token) ∷ run) rows =
    (take_row false t token rows).0 ∷ postgres_answers run (take_row false t token rows).1

-- In memory, an action that was saved and has not expired is taken once: the first Take gives it
-- back, stamped if it had no time, and the second finds nothing.
pub take-save :
    (now later last : ℕ) (a : TelegramReviewAction) (entries : Actions)
    → expired later a ≡ false
    → let after = take later a.token (save now a entries) in
      (after.0 ≡ ok (stamped now a)) × ((take last a.token after.1).0 ≡ err not_found)
unfolding save take
take-save now later last a entries h = (
  ground (arith, eq_iff a.token a.token),
  ap (returned last) (first-gone a.token (stamped now a ∷ without a.token entries)),
)
