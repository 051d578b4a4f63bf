-- ===== src/Telegram/Pending.antt =====
-- The two stores of pending messages beside the statements of Telegram.Desk: the sweep of
-- postgres/pending_validations.go, and `PendingValidationStore` of app/inmem/inmem.go, whose map is
-- a list of the entries, newest first, and `now` the reading of the clock.
use project_brain.Base.{
  ◌≡◌, refl, ap, arith, true, false, eq_iff, ℕ, String, Bool, not, ◌&&◌, Option, none, some, List,
  ◌∷◌, first, select, length, eqb, leb, ◌==◌, if◌then◌else◌, Outcome, ok, err, not_found, Calls,
}
use project_brain.Store.State.{Env}
use project_brain.Telegram.Desk.{PendingValidation, PendingRow, Desk, desk_statement, is_live}

abbrev pub is_overdue : ℕ → ℕ → Bool
is_overdue now expires_at = not (eqb expires_at 0) && leb expires_at now

-- `SweepExpired`: the number of rows deleted
unfoldable pub sweep_pending : Env → Calls Desk ℕ
sweep_pending env = desk_statement env λ now d. (
  ok (length (select (λ row. is_overdue now row.expires_at) d.pending)),
  record d { pending = select (λ row. not (is_overdue now row.expires_at)) d.pending },
)

abbrev pub is_entry_of : String → PendingValidation → Bool
is_entry_of token e = e.token == token

abbrev pub without_entry : String → List PendingValidation → List PendingValidation
without_entry token = select (λ e. not (is_entry_of token e))

abbrev pub live_entry : ℕ → Option PendingValidation → Outcome PendingValidation
live_entry now none = err not_found
live_entry now (some e) = if is_overdue now e.expires_at then err not_found else ok e

unfoldable pub save_entry : PendingValidation → List PendingValidation → List PendingValidation
save_entry e entries = e ∷ without_entry e.token entries

-- An expired entry is removed too.
unfoldable pub take_entry :
    ℕ → String → List PendingValidation → Outcome PendingValidation × List PendingValidation
take_entry now token entries =
    (live_entry now (first (is_entry_of token) entries), without_entry token entries)

-- A sweep takes no row that a button could still act on: the DELETE of Take finds the same row.
pub sweep_keeps_live :
    (env : Env) (now : ℕ) (token : String) (rows : List PendingRow)
    → first (is_live env now token) (select (λ row. not (is_overdue now row.expires_at)) rows)
      ≡ first (is_live env now token) rows
sweep_keeps_live env now token List.[] = refl
sweep_keeps_live env now token (row ∷ rows) = ground (arith, sweep_keeps_live env now token rows)

taken_twice :
    (token : String) (entries : List PendingValidation)
    → first (is_entry_of token) (without_entry token (without_entry token entries)) ≡ none
taken_twice token List.[] = refl
taken_twice token (e ∷ entries) = ground (arith, taken_twice token entries)

-- What was saved is taken back until it expires, and a second time not at all.
pub take_entry-save_entry :
    (now : ℕ) (e : PendingValidation) (entries : List PendingValidation)
    → is_overdue now e.expires_at ≡ false
    → let saved = save_entry e entries in
      ((take_entry now e.token saved).0 ≡ ok e)
      × ((take_entry now e.token (take_entry now e.token saved).1).0 ≡ err not_found)
unfolding take_entry save_entry
take_entry-save_entry now e entries live =
    let own : is_entry_of e.token e ≡ true = (eq_iff e.token e.token).1 refl in
    (rw (own, live) refl, rw own (ap (live_entry now) (taken_twice e.token entries)))
