-- ===== src/Http/Message.antt =====
-- internal/httpapi: requests, responses and their headers, and what the handlers share. The keys of
-- the headers are canonical in the source. net/http, net/url, encoding/json, uuid and strconv are
-- parameters.
use project_brain.Base.{
  ℕ, ◌+◌, String, Bool, Option, List, ◌∷◌, not, select, first, none, some, ◌==◌, if◌then◌else◌, Err,
}
use project_brain.Base.Text.{is_empty}
use project_brain.Domain.{KnowledgeObject, SourceInput, ObjectInput, IngestTextResult}
use project_brain.Store.State.{World}
use project_brain.Backlog.Query.{BacklogItem}
use project_brain.Telegram.Desk.{Collision}
use project_brain.Search.Query.{SearchResult}

pub record HttpRequest : Type 0 where
  pub method : String
  pub path : String
  pub remote_addr : String
  pub body : String
  pub header : String → String  -- r.Header.Get
  pub accept : List String  -- r.Header.Values("Accept")
  pub query : String → String  -- r.URL.Query().Get

abbrev pub Headers : Type 0
Headers = List (String × String)

abbrev pub has_key_name : String → String × String → Bool
has_key_name key h = h.0 == key

-- h.Set
unfoldable pub set_header : String → String → Headers → Headers
set_header key value h = (key, value) ∷ select (λ x. not (has_key_name key x)) h

abbrev pub value_of : Option (String × String) → String
value_of none = ""
value_of (some h) = h.1

-- h.Get
unfoldable pub get_header : String → Headers → String
get_header key h = value_of (first (has_key_name key) h)

pub record ProbeResult : Type 0 where
  pub index : ℕ
  pub is_ok : Bool
  pub message : String

pub record Problem : Type 0 where
  pub type : String
  pub title : String
  pub status : ℕ
  pub detail : String
  pub instance_path : String

-- A body before it is encoded. `error_response` has the fields error, message and code of
-- `errorResponse` and of the `errorBody` of auth; `rejection` has error and code only.
pub data Body : Type 0 where
  error_response : String → String → String → Body
  rejection : String → String → Body
  problem_body : Problem → Body
  plain : String → Body
  ingested : IngestTextResult → Body
  found_results : List SearchResult → String → ℕ → Body
  found_object : KnowledgeObject → Body
  found_collisions : List Collision → ℕ → Body
  found_backlog : List BacklogItem → String → Body
  markdown : String → Body
  alive : String → Body
  readiness : String → ℕ → List ProbeResult → Body

pub record Response : Type 0 where
  pub status : ℕ
  pub headers : Headers
  pub body : Body

-- A handler finds the headers that the middleware outside it has set.
abbrev pub HttpHandler : Type 0 → Type 0
HttpHandler S = HttpRequest → Headers → S → Response × S

-- What encoding/json makes of a body behind http.MaxBytesReader.
pub data Decoded (A : Type 0) : Type 0 where
  too_large malformed : Decoded A
  decoded : A → Decoded A

-- What strconv.Atoi makes of a text. Of a negative number the code uses the sign only.
pub data Parsed : Type 0 where
  not_a_number negative : Parsed
  number : ℕ → Parsed

pub record IngestBody : Type 0 where
  pub workspace_id : String
  pub content : String
  pub source : SourceInput
  pub object : ObjectInput

pub record CollisionBody : Type 0 where
  pub workspace_id : String
  pub content : String

pub record Outside : Type 0 where
  pub decode_ingest : ℕ → String → Decoded IngestBody
  pub decode_collision : ℕ → String → Decoded CollisionBody
  pub parse_uuid : String → Option ℕ
  pub atoi : String → Parsed
  pub path_id : HttpRequest → String  -- r.PathValue("id")
  pub status_text : ℕ → String
  pub error_text : Err → String
  pub equal_fold : String → String → Bool
  pub split_host_port : String → Option String  -- the host

-- time.Now and time.Since, for the log
abbrev pub clocked : World → World
clocked w = record w { readings = w.readings + 1 }

abbrev pub json_response : ℕ → Headers → Body → Response
json_response status headers body = record {
  status = status;
  headers = set_header "Content-Type" "application/json" headers;
  body = body;
}

module _ (out : Outside) where
  unfoldable pub write_error : ℕ → String → String → Headers → Response
  write_error status code message headers =
      json_response status headers (error_response (out.status_text status) message code)

  -- A blank parameter is 0, as the handlers start from.
  abbrev pub parse_count : String → Parsed
  parse_count raw = if is_empty raw then number 0 else out.atoi raw
