-- ===== src/Store/State.antt =====
-- The state that the services share, and the calls that read or change it.
use Prim.Native.Char.{Char}
use project_brain.Base.{ℕ, ◌+◌, String, Bool, List, if◌then◌else◌, Outcome, ok, err, failure, Calls}
use project_brain.Base.Text.{map_runes, trim_space}
use project_brain.Domain.{Source, KnowledgeObject, ObjectSource, AuditEvent, SddDocument}

-- How a COMMIT ends: done, refused with an error, or done while the answer is lost.
pub data Commit : Type 0 where
  committed refused lost : Commit

-- How a ROLLBACK ends: pgx reports `ErrTxClosed` if the transaction had ended before.
pub data Rollback : Type 0 where
  rolled_back tx_closed broken : Rollback

-- Each question is answered by its position in the run.
pub record Env : Type 0 where
  pub lower : Char → Char  -- unicode.ToLower
  pub sha256_hex : String → String
  pub uuid_text : ℕ → String  -- uuid.UUID.String
  pub quoted : String → String  -- %q of fmt
  pub float_text : ℕ → String  -- %v of fmt at a float64
  pub uuid_at : ℕ → ℕ
  pub clock_at : ℕ → ℕ  -- time.Now
  pub sql_now : ℕ → ℕ  -- now() in SQL
  pub fault : ℕ → Bool  -- whether a call to the database fails
  pub commit_at : ℕ → Commit
  pub rollback_at : ℕ → Rollback

-- The tables, newest row first.
pub record Db : Type 0 where
  pub objects : List KnowledgeObject
  pub sources : List Source
  pub links : List ObjectSource
  pub events : List AuditEvent
  pub documents : List SddDocument

pub record World : Type 0 where
  pub db : Db
  pub calls : ℕ  -- calls made to the database
  pub ids : ℕ  -- UUIDs drawn
  pub readings : ℕ  -- readings of the clock

abbrev pub tick : World → World
tick w = record w { calls = w.calls + 1 }

-- strings.ToLower(strings.TrimSpace(s)), with which every service reads a workspace ID
unfoldable pub normalize : Env → String → String
unfolding map_runes trim_space
normalize env s = map_runes env.lower (trim_space s)

module _ (env : Env) where
  abbrev pub new_id : Calls World ℕ
  new_id w = (ok (env.uuid_at w.ids), record w { ids = w.ids + 1 })

  abbrev pub read_clock : Calls World ℕ
  read_clock w = (ok (env.clock_at w.readings), record w { readings = w.readings + 1 })

  -- One SQL statement: it fails as a whole, or acts on the tables.
  abbrev pub statement : {A : Type 0} → (ℕ → Db → Outcome A × Db) → Calls World A
  statement run w =
      if env.fault w.calls
      then (err (failure w.calls), tick w)
      else let (r, d) = run (env.sql_now w.calls) w.db in (r, record (tick w) { db = d })
