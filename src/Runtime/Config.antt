-- ===== src/Runtime/Config.antt =====
-- internal/config/config.go. An int64 is its value modulo 2 ^ 64, and positive if it is below 2 ^ 63
-- and not 0. A float64 is its bits. The environment of the process, strconv and fmt are parameters.
use Prim.Native.String.{◌++◌}
use project_brain.Base.{
  ℕ, ◌*◌, ◌^◌, ◌%◌, String, Bool, true, false, ◌&&◌, ◌||◌, not, Option, none, some, ltb, leb, ◌==◌,
  if◌then◌else◌, ◌≡◌, ◌<◌, ◌≤◌,
}
use project_brain.Base.Text.{is_empty}
use project_brain.Http.Message.{Parsed, not_a_number, negative, number}

pub record Config : Type 0 where
  pub environment : String
  pub port : String
  pub database_dsn : String
  pub telegram_bot_token : String
  pub auth_token : String
  pub gemini_api_key : String
  pub shutdown_secs : ℕ
  pub rate_limit_rps : ℕ
  pub rate_limit_burst : ℕ
  pub trust_proxy : Bool
  pub ingest_max_bytes : ℕ
  pub read_header_timeout : ℕ
  pub read_timeout : ℕ
  pub write_timeout : ℕ
  pub idle_timeout : ℕ
  pub security_headers_enabled : Bool
  pub tls_enabled : Bool

pub record Process : Type 0 where
  pub getenv : String → String
  pub atoi : String → Parsed
  pub parse_float : String → Option ℕ
  pub greater : ℕ → ℕ → Bool  -- > on float64
  pub float_of : ℕ → ℕ
  pub float_text : ℕ → String  -- %g

pub data Loaded : Type 0 where
  loaded : Config → Loaded
  rejected : String → Loaded

abbrev pub nanoseconds : ℕ
nanoseconds = 1000000000

-- time.Duration(n) * time.Second
abbrev pub seconds : ℕ → ℕ
seconds n = (n * nanoseconds) % 2 ^ 64

abbrev pub is_positive : ℕ → Bool
is_positive d = ltb 0 d && ltb d (2 ^ 63)

abbrev pub default_shutdown_secs : ℕ
default_shutdown_secs = 5

unfoldable pub shutdown_timeout : Config → ℕ
shutdown_timeout cfg =
    seconds (if is_positive cfg.shutdown_secs then cfg.shutdown_secs else default_shutdown_secs)

abbrev pub positive_or : ℕ → Parsed → ℕ
positive_or fallback not_a_number = fallback
positive_or fallback negative = fallback
positive_or fallback (number n) = if ltb 0 n then n else fallback

abbrev pub duration_or : ℕ → Parsed → ℕ
duration_or fallback not_a_number = fallback
duration_or fallback negative = fallback
duration_or fallback (number n) = if ltb 0 n then seconds n else fallback

abbrev pub is_port : Parsed → Bool
is_port not_a_number = false
is_port negative = false
is_port (number n) = leb 1 n && leb n 65535

module _ (p : Process) where
  abbrev pub value_or_default : String → String → String
  value_or_default key fallback = if is_empty (p.getenv key) then fallback else p.getenv key

  -- `intEnvOrDefault` and `int64EnvOrDefault`
  abbrev pub int_env_or_default : String → ℕ → ℕ
  int_env_or_default key fallback =
      if is_empty (p.getenv key) then fallback else positive_or fallback (p.atoi (p.getenv key))

  abbrev pub float_or : ℕ → Option ℕ → ℕ
  float_or fallback none = fallback
  float_or fallback (some n) = if p.greater n (p.float_of 0) then n else fallback

  abbrev pub float_env_or_default : String → ℕ → ℕ
  float_env_or_default key fallback =
      if is_empty (p.getenv key) then fallback else float_or fallback (p.parse_float (p.getenv key))

  abbrev pub bool_env_or_default : String → Bool → Bool
  bool_env_or_default key fallback =
      let v = p.getenv key in
      if is_empty v then fallback else v == "1" || v == "true" || v == "TRUE" || v == "yes"

  abbrev pub duration_env_or_default : String → ℕ → ℕ
  duration_env_or_default key fallback =
      if is_empty (p.getenv key) then fallback else duration_or fallback (p.atoi (p.getenv key))

  unfoldable pub from_environment : Config
  from_environment = record {
    environment = value_or_default "PROJECT_BRAIN_ENV" "development";
    port = value_or_default "PROJECT_BRAIN_API_PORT" "8050";
    database_dsn = p.getenv "PROJECT_BRAIN_DATABASE_DSN";
    telegram_bot_token = p.getenv "PROJECT_BRAIN_TELEGRAM_BOT_TOKEN";
    auth_token = p.getenv "PROJECT_BRAIN_AUTH_TOKEN";
    gemini_api_key = p.getenv "PROJECT_BRAIN_GEMINI_API_KEY";
    shutdown_secs = int_env_or_default "PROJECT_BRAIN_SHUTDOWN_SECS" default_shutdown_secs;
    rate_limit_rps = float_env_or_default "PROJECT_BRAIN_RATE_LIMIT_RPS" (p.float_of 5);
    rate_limit_burst = float_env_or_default "PROJECT_BRAIN_RATE_LIMIT_BURST" (p.float_of 10);
    trust_proxy = bool_env_or_default "PROJECT_BRAIN_TRUST_PROXY" false;
    ingest_max_bytes = int_env_or_default "PROJECT_BRAIN_INGEST_MAX_BYTES" (2 ^ 20);
    read_header_timeout =
        duration_env_or_default "PROJECT_BRAIN_HTTP_READ_HEADER_TIMEOUT_SECS" (seconds 5);
    read_timeout = duration_env_or_default "PROJECT_BRAIN_HTTP_READ_TIMEOUT_SECS" (seconds 10);
    write_timeout = duration_env_or_default "PROJECT_BRAIN_HTTP_WRITE_TIMEOUT_SECS" (seconds 10);
    idle_timeout = duration_env_or_default "PROJECT_BRAIN_HTTP_IDLE_TIMEOUT_SECS" (seconds 60);
    security_headers_enabled = bool_env_or_default "PROJECT_BRAIN_SECURITY_HEADERS" true;
    tls_enabled = bool_env_or_default "PROJECT_BRAIN_TLS" false;
  }

  abbrev pub cap_error : String → ℕ → String → String
  cap_error key value cap = key ++ "=" ++ p.float_text value ++ " exceeds sanity cap of " ++ cap

  -- The checks of `Load`, in order.
  unfoldable pub check_config : Config → Loaded
  check_config cfg =
      if not (is_port (p.atoi cfg.port))
      then rejected "PROJECT_BRAIN_API_PORT must be a valid TCP port"
      else if p.greater cfg.rate_limit_rps (p.float_of 1000)
      then rejected (cap_error "PROJECT_BRAIN_RATE_LIMIT_RPS" cfg.rate_limit_rps "1000")
      else if p.greater cfg.rate_limit_burst (p.float_of 10000)
      then rejected (cap_error "PROJECT_BRAIN_RATE_LIMIT_BURST" cfg.rate_limit_burst "10000")
      else if not (is_positive cfg.read_header_timeout)
      then rejected "PROJECT_BRAIN_HTTP_READ_HEADER_TIMEOUT_SECS must be > 0"
      else if not (is_positive cfg.read_timeout)
      then rejected "PROJECT_BRAIN_HTTP_READ_TIMEOUT_SECS must be > 0"
      else if not (is_positive cfg.write_timeout)
      then rejected "PROJECT_BRAIN_HTTP_WRITE_TIMEOUT_SECS must be > 0"
      else if not (is_positive cfg.idle_timeout)
      then rejected "PROJECT_BRAIN_HTTP_IDLE_TIMEOUT_SECS must be > 0"
      else loaded cfg

  unfoldable pub load_config : Loaded
  load_config = check_config from_environment

-- A duration that is positive as an int64.
abbrev pub Positive : ℕ → Type 0
Positive t = (0 < t) × (t < 2 ^ 63)

-- What the server relies on: a TCP port, rates up to their caps, and positive timeouts.
abbrev pub Usable : Process → Config → Type 0
Usable p cfg =
    ((n : ℕ) × (p.atoi cfg.port ≡ number n) × (1 ≤ n) × (n ≤ 65535))
    × (p.greater cfg.rate_limit_rps (p.float_of 1000) ≡ false)
    × (p.greater cfg.rate_limit_burst (p.float_of 10000) ≡ false)
    × Positive cfg.read_header_timeout
    × Positive cfg.read_timeout
    × Positive cfg.write_timeout
    × Positive cfg.idle_timeout
