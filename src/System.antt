-- ===== src/System.antt =====
-- The HTTP API of internal/runtime/server.go and the bot of internal/telegram over one database:
-- requests and updates in any order.
use project_brain.Base.{ℕ, String, List, [], ◌∷◌, All, Calls}
use project_brain.Store.State.{World}
use project_brain.Lifecycle.Write.{Writes, done, Writes-trans}
use project_brain.Lifecycle.Trail.{Trail, Writes-Trail}
use project_brain.Lifecycle.Accounts.{Accounted, Writes-Accounted}
use project_brain.Lifecycle.Refine.{Quiet}
use project_brain.Telegram.Chat.{Bot}
use project_brain.Telegram.Desk.{Desk}
use project_brain.Telegram.Intake.{IntakeHandler, Update, process_update}
use project_brain.Telegram.Writing.{QuietIntake}
use project_brain.Telegram.Handling.{process_update-Writing}
use project_brain.Http.Message.{HttpRequest, Outside}
use project_brain.Http.Handlers.{HttpServices}
use project_brain.Http.Limit.{Api, Bucket, Limiter}
use project_brain.Http.Server.{Mux, Config, build_server}
use project_brain.Http.Gate.{Reads}
use project_brain.Http.Reading.{QuietReads}
use project_brain.Http.Tables.{build_server-Writes}

-- The two processes share the tables, the clock and the source of IDs.
pub record System : Type 0 where
  pub desk : Desk
  pub buckets : List Bucket

pub data Event : Type 0 where
  requested : HttpRequest → Event
  updated : Update → Event

module _ (bot : Bot) (h : IntakeHandler) (out : Outside) (s : HttpServices) (mux : Mux)
    (bytes : String → List ℕ) (l : Limiter) (cfg : Config)
    (probes : List (Calls World (Unit {0}))) where
  abbrev pub after_request : Api → Desk → System
  after_request api desk = record {
    desk = record desk { chat = record desk.chat { world = api.world } };
    buckets = api.buckets;
  }

  unfoldable pub step : Event → System → System
  step (requested r) x =
      after_request
        (build_server bot.env out s mux bytes l cfg probes r []
          (record { world = x.desk.chat.world; buckets = x.buckets })).1
        x.desk
  step (updated u) x = record x { desk = (process_update bot h u x.desk).1 }

  unfoldable pub run : List Event → System → System
  unfolding step
  run [] x = x
  run (e ∷ es) x = run es (step e x)

  module _ (quiet_bot : QuietIntake h) (quiet_hook : Quiet s.post_ingest) (quiet : QuietReads s)
      (reads : All Reads probes) where
    step-Writes :
        (e : Event) (x : System) → Writes x.desk.chat.world.db (step e x).desk.chat.world.db
    unfolding step
    step-Writes (requested r) x =
        build_server-Writes bot.env out s mux bytes l cfg probes r [] _ quiet reads quiet_hook
    step-Writes (updated u) x = process_update-Writing bot h quiet_bot u x.desk

    run-Writes :
        (es : List Event) (x : System) → Writes x.desk.chat.world.db (run es x).desk.chat.world.db
    unfolding run
    run-Writes [] x = done
    run-Writes (e ∷ es) x = Writes-trans (step-Writes e x) (run-Writes es (step e x))

    -- When the hooks make legal, logged writes and the searches and probes only read, then from a
    -- database that the audit trail agrees with, as in `serve-Trail`, it agrees with the database
    -- after any HTTP requests and updates of the bot, in any order. Audit rows are only added, and
    -- every object that was there before is there after, with the status to which the added
    -- status_changed rows of this object lead from the old one, edge by edge: the old status if
    -- there are none.
    pub run-Trail :
        (es : List Event) (x : System)
        → Trail x.desk.chat.world.db
        → Trail (run es x).desk.chat.world.db
          × Accounted x.desk.chat.world.db (run es x).desk.chat.world.db
    run-Trail es x t =
        let writes = run-Writes es x in (Writes-Trail writes t, Writes-Accounted writes)
