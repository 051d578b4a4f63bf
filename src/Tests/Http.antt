-- ===== src/Tests/Http.antt =====
-- The HTTP server at concrete requests, alone and beside the bot.
use Prim.Native.Char.{code}
use Prim.Native.String
use text.Mathlib.TextEquality.{Char-path}
use project_brain.Base.{
  Bool, ℕ, ◌+◌, ◌-◌, ◌*◌, String, true, false, none, some, List, [], ◌∷◌, any, ltb, ◌==◌, ◌≡◌, refl,
  ap, ok, err, not_found, if◌then◌else◌,
}
use project_brain.Base.Text.{trim_space, trim_left, trim_right, is_space}
use project_brain.Store.State.{normalize}
use project_brain.Lifecycle.Write.{done}
use project_brain.Ingest.Once.{Noted}
use project_brain.Lifecycle.Accounts.{Accounted}
use project_brain.Lifecycle.Trail.{Trail}
use project_brain.Ingest.Prepare.{PreparedIngestText, prepare_ingest_text}
use project_brain.Domain.{IngestTextResult}
use project_brain.Ingest.Service.{ingest}
use project_brain.Http.Message.{
  HttpRequest, Outside, decoded, malformed, number, write_error, get_header,
}
use project_brain.Http.Handlers.{HttpServices, ingest_text, request_id}
use project_brain.Http.Auth.{auth_middleware, strip_prefix}
use project_brain.Http.Secret.{constant_time_equal, diff_bytes}
use project_brain.Http.Limit.{Limiter, Api, limit_middleware, allow, client_ip, refilled}
use project_brain.Http.Problem.{
  problem_middleware, wants_problem_json, security_middleware, baseline_headers, set_if_absent,
  split_at, write_problem, from_code,
}
use project_brain.Http.Server.{Mux, Config, serve_mux, protected_chain, build_server}
use project_brain.Http.Gate.{Gated, build_server-Gated}
use project_brain.Http.Reading.{QuietReads}
use project_brain.Http.Once.{PreparedAs, build_server-once}
use project_brain.Http.Tables.{build_server-error}
use project_brain.Telegram.Intake.{received}
use project_brain.System.{Event, requested, updated, run, run-Trail}
use project_brain.Tests.World.{test_env, empty_db, world_of, text_request, empty-Trail}
use project_brain.Tests.Backlog.{unary}
use project_brain.Tests.Telegram.{bot, intake, desk, intake-QuietIntake}

abbrev code_points : String → List ℕ
code_points Prim.Native.String.[] = []
code_points (Prim.Native.String.◌∷◌ c s) = code c ∷ code_points s

abbrev head_or : List ℕ → ℕ
head_or [] = 0
head_or (x ∷ xs) = x

abbrev tail_of : List ℕ → List ℕ
tail_of [] = []
tail_of (x ∷ xs) = xs

code_points-injective : (a b : String) → code_points a ≡ code_points b → a ≡ b
code_points-injective Prim.Native.String.[] Prim.Native.String.[] h = refl
code_points-injective Prim.Native.String.[] (Prim.Native.String.◌∷◌ d t) h = cc
code_points-injective (Prim.Native.String.◌∷◌ c s) Prim.Native.String.[] h = cc
code_points-injective (Prim.Native.String.◌∷◌ c s) (Prim.Native.String.◌∷◌ d t) h =
    rw (Char-path c d (ap head_or h), code_points-injective s t (ap tail_of h)) refl

-- Every body is the text "hello" with a status that is not known.
abbrev out : Outside
out = record {
  decode_ingest = λ n s. decoded (record {
    workspace_id = "w";
    content = s;
    source = (text_request s "").source;
    object = (text_request s "").object;
  });
  decode_collision = λ n s. malformed;
  parse_uuid = λ s. none;
  atoi = λ s. number 1;
  path_id = λ r. "";
  status_text = λ n. "status";
  error_text = λ e. "error";
  equal_fold = λ a b. a == b;
  split_host_port = λ s. none;
}

abbrev services : HttpServices
services = record {
  post_ingest = none;
  codec = unary;
  retriever = λ q w. (ok [], w);
  find_by_id = λ ws id w. (err not_found, w);
  detect = λ ws content exclude w. (ok [], w);
  ingest_max = 100;
  collision_max = 100;
}

services-QuietReads : QuietReads services
services-QuietReads = record {
  retriever_reads = λ q w. refl;
  find_reads = λ ws id w. refl;
  detect_reads = λ ws content exclude w. refl;
}

-- The path of a test request is its pattern.
abbrev mux : Mux
mux = record {
  route = λ patterns r. some (if any (λ p. p == r.path) patterns then r.path else "/");
  unmatched = λ patterns r headers. write_error out 404 "" "" headers;
}

abbrev limiter : Limiter
limiter = record {
  float = record {
    seconds = λ now last. now - last;
    plus = λ a b. a + b;
    minus = λ a b. a - b;
    times = λ a b. a * b;
    less = ltb;
    unit = 1;
  };
  rate = 1;
  burst = 5;
  idle_ttl = 600;
  trust_proxy = false;
}

abbrev config : Config
config = record {
  auth_token = "secret";
  security_headers_enabled = true;
  tls_enabled = false;
  search_enabled = true;
  collision_enabled = true;
  backlog_enabled = true;
  sdd_enabled = true;
}

-- A POST with a content and a header `Authorization`.
abbrev post : String → String → HttpRequest
post authorization content = record {
  method = "POST";
  path = "POST /v1/ingest-text";
  remote_addr = "10.0.0.1:5";
  body = content;
  header = λ key. if key == "Authorization" then authorization else "";
  accept = "application/problem+json" ∷ [];
  query = λ key. "";
}

abbrev api : Api
api = record { world = world_of empty_db; buckets = [] }

-- A note is stored for the holder of the token, and not for others.
stored_run :
    (build_server test_env out services mux code_points limiter config []
      (post "Bearer secret" "hello")
      []
      api).0.status
    ≡ 201
unfolding build_server protected_chain serve_mux problem_middleware security_middleware
    baseline_headers set_if_absent get_header wants_problem_json auth_middleware strip_prefix
    constant_time_equal diff_bytes limit_middleware allow client_ip refilled ingest_text request_id
    ingest prepare_ingest_text trim_space trim_left trim_right is_space normalize
stored_run = refl

build_server-Gated_example :
    Gated test_env out services mux code_points limiter config code_points-injective refl [] tt
      (post "Bearer other" "hello")
      api
      (build_server test_env out services mux code_points limiter config []
        (post "Bearer other" "hello")
        []
        api)
build_server-Gated_example =
    build_server-Gated test_env out services mux code_points limiter config code_points-injective
      refl [] tt (post "Bearer other" "hello") [] api

-- An empty note is answered 400.
build_server-error_example :
    (build_server test_env out services mux code_points limiter config []
      (post "Bearer secret" "")
      []
      api).1.world.db
    ≡ empty_db
unfolding build_server protected_chain serve_mux problem_middleware security_middleware
    baseline_headers set_if_absent get_header wants_problem_json auth_middleware strip_prefix
    constant_time_equal diff_bytes limit_middleware allow client_ip refilled ingest_text request_id
    ingest prepare_ingest_text trim_space trim_left trim_right is_space normalize write_error
    split_at write_problem from_code
build_server-error_example =
    build_server-error test_env out services mux code_points limiter config []
      (post "Bearer secret" "") [] api services-QuietReads tt (λ n e. cc) refl

-- A note over HTTP, and one to the bot.
abbrev events : List Event
events =
    requested (post "Bearer secret" "hello")
    ∷ (updated (received (record { id = 1; chat_id = 6; from_id = 5; content = "note" })) ∷ [])

run-Trail_example :
    let after =
      (run bot intake out services mux code_points limiter config [] events
        (record { desk = desk; buckets = [] })).desk.chat.world.db in
    Trail after × Accounted desk.chat.world.db after
run-Trail_example =
    run-Trail bot intake out services mux code_points limiter config [] intake-QuietIntake
      (λ o w. done) services-QuietReads tt events (record { desk = desk; buckets = [] }) empty-Trail

abbrev prepared : PreparedIngestText
prepared = record {
  workspace_id = "w";
  content = "hello";
  content_checksum = "hello";
  identity_key = "sha256:w\0text\0\0hello";
  source_type = "text";
  object_type = "document";
  object_status = "active";
  source = (text_request "hello" "").source;
  object = (text_request "hello" "").object;
  tags = [];
}

accepted : PreparedAs test_env out services (post "Bearer secret" "hello") prepared
unfolding prepare_ingest_text trim_space trim_left trim_right is_space normalize
accepted = (_, refl, λ id. refl)

-- The first ID is that of the request.
abbrev result : Bool → IngestTextResult
result duplicate = record {
  source_id = 2;
  object_id = 3;
  audit_event_id = 4;
  content_checksum = "hello";
  identity_key = prepared.identity_key;
  duplicate = duplicate;
}

abbrev once : Api
once =
    (build_server test_env out services mux code_points limiter config []
      (post "Bearer secret" "hello") [] api).1

build_server-once_example :
    let after =
      (build_server test_env out services mux code_points limiter config []
        (post "Bearer secret" "hello")
        []
        once).1.world.db in
    ((result true).duplicate ≡ true)
    × ((result true).object_id ≡ (result false).object_id)
    × Noted (result false).object_id once.world.db after
unfolding build_server protected_chain serve_mux problem_middleware security_middleware
    baseline_headers set_if_absent get_header wants_problem_json auth_middleware strip_prefix
    constant_time_equal diff_bytes limit_middleware allow client_ip refilled ingest_text request_id
    ingest prepare_ingest_text trim_space trim_left trim_right is_space normalize write_error
build_server-once_example =
    build_server-once test_env out services mux code_points limiter config [] services-QuietReads tt
      (λ patterns r headers. refl) (post "Bearer secret" "hello") (post "Bearer secret" "hello") []
      [] api once prepared prepared (result false) (result true) (λ id h. refl) (λ o w. refl)
      accepted accepted refl refl refl refl refl
