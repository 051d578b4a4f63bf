-- ===== src/Tests/Runtime.antt =====
-- The start and the end of the process at concrete settings.
use project_brain.Base.{
  ℕ, ◌<◌, true, false, none, some, List, [], ◌∷◌, ltb, ◌==◌, ◌≡◌, refl, ok, err, not_found,
  if◌then◌else◌,
}
use project_brain.Http.Message.{number}
use project_brain.Runtime.Config.{
  Config, Process, rejected, Usable, from_environment, check_config, load_config,
}
use project_brain.Store.State.{committed}
use project_brain.Runtime.Bounds.{load_config-loaded}
use project_brain.Runtime.Shutdown.{ShutdownStep, step_timeout, run_one_step, run_shutdown}
use project_brain.Runtime.Atomic.{AllOrNothing, run_migrations-AllOrNothing}
use project_brain.Runtime.Migrations.{
  Schema, Migrator, run_migrations, probe, baseline, insert_versions, versions_of, version_from,
  has_suffix,
}

-- The port is read as a number; no other variable but it is set.
abbrev process : ℕ → Process
process port = record {
  getenv = λ key. if key == "PROJECT_BRAIN_API_PORT" then "port" else "";
  atoi = λ s. number port;
  parse_float = λ s. none;
  greater = λ a b. ltb b a;
  float_of = λ n. n;
  float_text = λ n. "f";
}

bad_port_run :
    load_config (process 70000) ≡ rejected "PROJECT_BRAIN_API_PORT must be a valid TCP port"
unfolding load_config check_config from_environment
bad_port_run = refl

abbrev config : Config
config = record {
  environment = "development";
  port = "port";
  database_dsn = "";
  telegram_bot_token = "";
  auth_token = "";
  gemini_api_key = "";
  shutdown_secs = 5;
  rate_limit_rps = 5;
  rate_limit_burst = 10;
  trust_proxy = false;
  ingest_max_bytes = 1048576;
  read_header_timeout = 5000000000;
  read_timeout = 10000000000;
  write_timeout = 10000000000;
  idle_timeout = 60000000000;
  security_headers_enabled = true;
  tls_enabled = false;
}

load_config-loaded_example :
    (config ≡ config)
    × Usable (process 8050) config
    × (0 < config.shutdown_secs)
    × (0 < config.ingest_max_bytes)
unfolding load_config check_config from_environment
load_config-loaded_example = load_config-loaded (process 8050) config refl

-- The second step runs although the first one timed out.
abbrev shutdown_steps : List (ShutdownStep ℕ)
shutdown_steps =
    record { name = "http server"; budget = 9; run = λ b n. (err not_found, n) }
    ∷ (record { name = "db closer"; budget = 0; run = λ b n. (ok tt, 7) } ∷ [])

shutdown_run : run_shutdown (λ e. true) shutdown_steps 0 ≡ (some (step_timeout "http server"), 7)
unfolding run_shutdown run_one_step
shutdown_run = refl

abbrev migrator : Migrator
migrator = record {
  fault = λ n. false;
  commit_at = λ n. committed;
  goose_up = λ s. (ok tt, s);
  entries = ok (
      record { name = "00002_b.sql"; is_dir = false }
      ∷ (record { name = "00001_a.sql"; is_dir = false }
          ∷ (record { name = "notes.txt"; is_dir = false } ∷ [])));
}

-- A database from before the version table is marked as migrated.
baseline_run :
    (run_migrations migrator (record { sentinel = true; versions = some []; calls = 0 })).1.versions
    ≡ some (2 ∷ (1 ∷ []))
unfolding run_migrations probe baseline insert_versions versions_of version_from has_suffix
baseline_run = refl

abbrev old_schema : Schema
old_schema = record { sentinel = true; versions = some []; calls = 0 }

run_migrations-AllOrNothing_example :
    AllOrNothing migrator old_schema.versions (run_migrations migrator old_schema)
run_migrations-AllOrNothing_example =
    run_migrations-AllOrNothing migrator (λ n e. cc) old_schema refl refl
