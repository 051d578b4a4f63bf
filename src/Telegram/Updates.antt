-- ===== src/Telegram/Updates.antt =====
-- Any updates of the bot, one after another.
use project_brain.Base.{List, [], ◌∷◌}
use project_brain.Lifecycle.Write.{Writes, done, Writes-trans}
use project_brain.Lifecycle.Trail.{Trail, Writes-Trail}
use project_brain.Telegram.Chat.{Bot}
use project_brain.Telegram.Desk.{Desk}
use project_brain.Telegram.Intake.{IntakeHandler, Update, process_update}
use project_brain.Telegram.Writing.{tables, QuietIntake}
use project_brain.Telegram.Handling.{process_update-Writing}

module _ (bot : Bot) (h : IntakeHandler) where
  -- The desk after the updates; an error of one does not end the next.
  unfoldable pub process_updates : List Update → Desk → Desk
  process_updates [] d = d
  process_updates (u ∷ us) d = process_updates us (process_update bot h u d).1

  process_updates-Writes :
      QuietIntake h
      → (us : List Update) (d : Desk) → Writes (tables d) (tables (process_updates us d))
  unfolding process_updates
  process_updates-Writes quiet [] d = done
  process_updates-Writes quiet (u ∷ us) d =
      Writes-trans (process_update-Writing bot h quiet u d)
        (process_updates-Writes quiet us (process_update bot h u d).1)

  -- Whatever updates reach the bot, in any order, messages, commands and taps on any button, with
  -- any failure of the database, of Telegram, of the detector or of the JSON columns: if the audit
  -- trail explained the status of each object before, it does after, and each change of a status
  -- took an edge of the lifecycle. The hooks make legal, logged writes and the detector makes none.
  pub process_updates-Trail :
      (us : List Update) (d : Desk)
      → QuietIntake h
      → Trail (tables d)
      → Trail (tables (process_updates us d))
  process_updates-Trail us d quiet t = Writes-Trail (process_updates-Writes quiet us d) t
