-- ===== src/Http/Handlers.antt =====
-- internal/httpapi: the handlers of the API.
use Prim.Native.String.{◌++◌}
use project_brain.Base.{
  ℕ, String, Option, none, some, List, length, ◌==◌, if◌then◌else◌, Outcome, ok, err, Err,
  is_not_found, is_validation, is_invalid_cursor, Calls,
}
use project_brain.Base.Text.{trim_space, is_empty}
use project_brain.Domain.{KnowledgeObject, SddDocument, IngestTextRequest, IngestTextResult}
use project_brain.Store.State.{Env, World, new_id}
use project_brain.Lifecycle.Validate.{Hook}
use project_brain.Ingest.Service.{ingest}
use project_brain.Backlog.Cursor.{CursorCodec}
use project_brain.Backlog.Query.{BacklogPage, list_human_backlog}
use project_brain.Sdd.Service.{get_document}
use project_brain.Sdd.Render.{render_sdd_document_markdown}
use project_brain.Telegram.Desk.{Collision}
use project_brain.Search.Query.{SearchResult, Retriever}
use project_brain.Http.Message.{
  HttpRequest, Headers, Response, HttpHandler, Decoded, too_large, malformed, decoded, Parsed,
  not_a_number, negative, number, IngestBody, CollisionBody, Outside, clocked, json_response,
  write_error, parse_count, ingested, found_results, found_object, found_collisions, found_backlog,
  markdown, set_header,
}

-- The collaborators of the handlers.
pub record HttpServices : Type 0 where
  pub post_ingest : Hook
  pub codec : CursorCodec
  pub retriever : Retriever
  pub find_by_id : String → ℕ → Calls World KnowledgeObject
  pub detect : String → String → Option ℕ → Calls World (List Collision)
  pub ingest_max : ℕ  -- Config.IngestMaxBytes
  pub collision_max : ℕ

abbrev pub missing_workspace : String
missing_workspace = "workspace_id query parameter is required"

abbrev no_document : String → String
no_document workspace_id = "no SDD document found for workspace " ++ workspace_id

module _ (env : Env) (out : Outside) (s : HttpServices) where
  abbrev pub invalid : String → Headers → Response
  invalid message headers = write_error out 400 "VALIDATION_ERROR" message headers

  abbrev pub internal : String → Headers → Response
  internal message headers = write_error out 500 "INTERNAL_ERROR" message headers

  abbrev pub id_or_new : Option ℕ → World → ℕ × World
  id_or_new (some id) w = (id, w)
  id_or_new none w = (env.uuid_at w.ids, (new_id env w).1)

  unfoldable pub request_id : HttpRequest → World → ℕ × World
  request_id r w =
      let v = r.header "X-Request-ID" in id_or_new (if is_empty v then none else out.parse_uuid v) w

  abbrev pub to_domain : IngestBody → ℕ → IngestTextRequest
  to_domain b id = record {
    workspace_id = b.workspace_id;
    content = b.content;
    source = b.source;
    object = b.object;
    request_id = some id;
  }

  abbrev pub ingest_error : Err → Headers → Response
  ingest_error e headers =
      if is_validation e
      then write_error out 400 "VALIDATION_ERROR" (out.error_text e) headers
      else if is_not_found e
      then write_error out 404 "NOT_FOUND" (out.error_text e) headers
      else write_error out 500 "INTERNAL_ERROR" "Internal server error" headers

  abbrev pub ingest_answer : Headers → Outcome IngestTextResult × World → Response × World
  ingest_answer headers (ok result, w) = (json_response 201 headers (ingested result), clocked w)
  ingest_answer headers (err e, w) = (ingest_error e headers, clocked w)

  abbrev pub ingest_decoded : HttpRequest → Decoded IngestBody → Headers → World → Response × World
  ingest_decoded r too_large headers w =
      (write_error out 413 "PAYLOAD_TOO_LARGE" "Request body exceeds size limit" headers, w)
  ingest_decoded r malformed headers w = (invalid "Invalid request body" headers, w)
  ingest_decoded r (decoded b) headers w =
      let (id, w') = request_id r w in
      ingest_answer headers (ingest env s.post_ingest (to_domain b id) w')

  unfoldable pub ingest_text : HttpHandler World
  ingest_text r headers w =
      ingest_decoded r (out.decode_ingest s.ingest_max r.body) headers (clocked w)

  abbrev pub search_answer :
      String → Headers → Outcome (List SearchResult) × World → Response × World
  search_answer q headers (ok rs, w) =
      (json_response 200 headers (found_results rs q (length rs)), w)
  search_answer q headers (err e, w) = (internal "search failed" headers, w)

  abbrev pub search_limited : HttpRequest → Parsed → Headers → World → Response × World
  search_limited r not_a_number headers w =
      (invalid "limit must be a non-negative integer" headers, w)
  search_limited r negative headers w = (invalid "limit must be a non-negative integer" headers, w)
  search_limited r (number n) headers w = search_answer (r.query "q") headers (
      s.retriever
        (record { query_text = r.query "q"; workspace_id = r.query "workspace_id"; limit = n }) w)

  unfoldable pub search_knowledge : HttpHandler World
  search_knowledge r headers w =
      if is_empty (r.query "workspace_id")
      then (invalid missing_workspace headers, w)
      else search_limited r (parse_count out (r.query "limit")) headers w

  -- The repository returns an object or an error, never neither.
  abbrev pub object_answer : Headers → Outcome KnowledgeObject × World → Response × World
  object_answer headers (ok o, w) = (json_response 200 headers (found_object o), w)
  object_answer headers (err e, w) = (
    if is_not_found e
        then write_error out 404 "NOT_FOUND" "object not found" headers
        else internal "object lookup failed" headers,
    w,
  )

  abbrev pub object_parsed : HttpRequest → Option ℕ → Headers → World → Response × World
  object_parsed r none headers w = (invalid "id path segment must be a valid UUID" headers, w)
  object_parsed r (some id) headers w =
      object_answer headers (s.find_by_id (r.query "workspace_id") id w)

  unfoldable pub show_object : HttpHandler World
  show_object r headers w =
      if is_empty (r.query "workspace_id")
      then (invalid missing_workspace headers, w)
      else object_parsed r (out.parse_uuid (out.path_id r)) headers w

  abbrev pub collision_answer : Headers → Outcome (List Collision) × World → Response × World
  collision_answer headers (ok cs, w) =
      (json_response 200 headers (found_collisions cs (length cs)), w)
  collision_answer headers (err e, w) = (internal "collision check failed" headers, w)

  abbrev pub collision_decoded : Decoded CollisionBody → Headers → World → Response × World
  collision_decoded too_large headers w = (invalid "invalid JSON body" headers, w)
  collision_decoded malformed headers w = (invalid "invalid JSON body" headers, w)
  collision_decoded (decoded b) headers w =
      if trim_space b.workspace_id == ""
      then (invalid "workspace_id is required" headers, w)
      else if trim_space b.content == ""
      then (invalid "content is required" headers, w)
      else collision_answer headers (s.detect b.workspace_id b.content none w)

  unfoldable pub check_collision : HttpHandler World
  check_collision r headers w =
      collision_decoded (out.decode_collision s.collision_max r.body) headers w

  abbrev pub backlog_answer : Headers → Outcome BacklogPage × World → Response × World
  backlog_answer headers (ok page, w) =
      (json_response 200 headers (found_backlog page.items page.next_cursor), clocked w)
  backlog_answer headers (err e, w) =
      if is_invalid_cursor e
      then (write_error out 400 "INVALID_CURSOR" "cursor is malformed" headers, w)
      else (internal "backlog list failed" headers, clocked w)

  -- The service reads a page size below 1 as the default.
  abbrev pub backlog_page : HttpRequest → Parsed → Headers → World → Response × World
  backlog_page r not_a_number headers w = (invalid "page_size must be an integer" headers, w)
  backlog_page r negative headers w = backlog_answer headers (
      list_human_backlog env s.codec
        (record { workspace_id = r.query "workspace_id"; page_size = 0; cursor = r.query "cursor" })
        w)
  backlog_page r (number n) headers w = backlog_answer headers (
      list_human_backlog env s.codec
        (record { workspace_id = r.query "workspace_id"; page_size = n; cursor = r.query "cursor" })
        w)

  unfoldable pub backlog : HttpHandler World
  backlog r headers w =
      if is_empty (r.query "workspace_id")
      then (invalid missing_workspace headers, clocked w)
      else backlog_page r (parse_count out (r.query "page_size")) headers (clocked w)

  abbrev pub document_answer : String → Headers → Outcome SddDocument × World → Response × World
  document_answer workspace_id headers (ok doc, w) = (
    record {
      status = 200;
      headers = set_header "Content-Type" "text/markdown; charset=utf-8" headers;
      body = markdown (render_sdd_document_markdown doc);
    },
    clocked w,
  )
  document_answer workspace_id headers (err e, w) =
      if is_not_found e
      then (write_error out 404 "NOT_FOUND" (no_document workspace_id) headers, w)
      else (internal "failed to retrieve SDD document" headers, clocked w)

  unfoldable pub sdd_document : HttpHandler World
  sdd_document r headers w =
      let workspace_id = trim_space (r.query "workspace_id") in
      if workspace_id == ""
      then (invalid missing_workspace headers, clocked w)
      else document_answer workspace_id headers (get_document env workspace_id (clocked w))
