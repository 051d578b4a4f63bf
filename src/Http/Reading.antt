-- ===== src/Http/Reading.antt =====
-- What the handlers of internal/httpapi do to the tables: all but one only read.
use project_brain.Base.{
  ℕ, String, Bool, true, false, Option, none, some, List, ◌≡◌, ◌∙◌, refl, arith, if◌then◌else◌,
  ◌==◌, Outcome, ok, err,
}
use project_brain.Base.Text.{trim_space, is_empty}
use project_brain.Domain.{KnowledgeObject, SddDocument, IngestTextResult}
use project_brain.Store.State.{Env, Db, World}
use project_brain.Backlog.Query.{BacklogFilter, BacklogPage, list_human_backlog}
use project_brain.Sdd.Storage.{find_by_workspace}
use project_brain.Sdd.Service.{get_document}
use project_brain.Search.Query.{SearchQuery, SearchResult}
use project_brain.Telegram.Desk.{Collision}
use project_brain.Telegram.Still.{list_human_backlog-db}
use project_brain.Http.Message.{
  Body, ingested, write_error, HttpRequest, Headers, Response, HttpHandler, Outside, Decoded,
  too_large, malformed, decoded, Parsed, not_a_number, negative, number, CollisionBody, clocked,
  parse_count,
}
use project_brain.Http.Handlers.{
  HttpServices, search_knowledge, search_limited, search_answer, show_object, object_parsed,
  object_answer, check_collision, collision_decoded, collision_answer, backlog, backlog_page,
  backlog_answer, sdd_document, document_answer,
}

-- The result in the body of an answer, if it is that of an ingestion.
abbrev pub result_of : Body → Option IngestTextResult
result_of (ingested r) = some r
result_of _ = none

-- The tables are these, and the answer is not that of an ingestion.
abbrev pub Quietly : Response × World → Db → Type 0
Quietly x d = (x.1.db ≡ d) × (result_of x.0.body ≡ none)

-- A handler that leaves the tables alone.
abbrev pub Looks : HttpHandler World → Type 0
Looks h = (r : HttpRequest) (headers : Headers) (w : World) → Quietly (h r headers w) w.db

-- The searches of the API only read.
pub record QuietReads (s : HttpServices) : Type 0 where
  pub retriever_reads : (q : SearchQuery) (w : World) → (s.retriever q w).1.db ≡ w.db
  pub find_reads : (ws : String) (id : ℕ) (w : World) → (s.find_by_id ws id w).1.db ≡ w.db
  pub detect_reads :
      (ws content : String) (exclude : Option ℕ) (w : World)
      → (s.detect ws content exclude w).1.db ≡ w.db

if-Quietly :
    (b : Bool) (x y : Response × World) (d : Db)
    → Quietly x d
    → Quietly y d
    → Quietly (if b then x else y) d
if-Quietly true x y d h k = h
if-Quietly false x y d h k = k

module _ (env : Env) (out : Outside) (s : HttpServices) (quiet : QuietReads s) where
  search_answer-db :
      (q : String) (headers : Headers) (x : Outcome (List SearchResult) × World)
      → Quietly (search_answer env out s q headers x) x.1.db
  unfolding write_error
  search_answer-db q headers (ok rs, w) = (refl, refl)
  search_answer-db q headers (err e, w) = (refl, refl)

  search_limited-db :
      (r : HttpRequest) (limit : Parsed) (headers : Headers) (w : World)
      → Quietly (search_limited env out s r limit headers w) w.db
  unfolding write_error
  search_limited-db r not_a_number headers w = (refl, refl)
  search_limited-db r negative headers w = (refl, refl)
  search_limited-db r (number n) headers w =
      let q : SearchQuery = record {
        query_text = r.query "q";
        workspace_id = r.query "workspace_id";
        limit = n;
      } in
      let (same, other) = search_answer-db (r.query "q") headers (s.retriever q w) in
      (same ∙ quiet.retriever_reads q w, other)

  pub search_knowledge-Looks : Looks (search_knowledge env out s)
  unfolding search_knowledge write_error
  search_knowledge-Looks r headers w =
      if-Quietly (is_empty (r.query "workspace_id")) _ _ w.db (refl, refl)
        (search_limited-db r (parse_count out (r.query "limit")) headers w)

  object_answer-db :
      (headers : Headers) (x : Outcome KnowledgeObject × World)
      → Quietly (object_answer env out s headers x) x.1.db
  unfolding write_error
  object_answer-db headers (ok o, w) = (refl, refl)
  object_answer-db headers (err e, w) = (refl, ground arith)

  object_parsed-db :
      (r : HttpRequest) (id : Option ℕ) (headers : Headers) (w : World)
      → Quietly (object_parsed env out s r id headers w) w.db
  unfolding write_error
  object_parsed-db r none headers w = (refl, refl)
  object_parsed-db r (some id) headers w =
      let (same, other) = object_answer-db headers (s.find_by_id (r.query "workspace_id") id w) in
      (same ∙ quiet.find_reads (r.query "workspace_id") id w, other)

  pub show_object-Looks : Looks (show_object env out s)
  unfolding show_object write_error
  show_object-Looks r headers w =
      if-Quietly (is_empty (r.query "workspace_id")) _ _ w.db (refl, refl)
        (object_parsed-db r (out.parse_uuid (out.path_id r)) headers w)

  collision_answer-db :
      (headers : Headers) (x : Outcome (List Collision) × World)
      → Quietly (collision_answer env out s headers x) x.1.db
  unfolding write_error
  collision_answer-db headers (ok cs, w) = (refl, refl)
  collision_answer-db headers (err e, w) = (refl, refl)

  collision_decoded-db :
      (d : Decoded CollisionBody) (headers : Headers) (w : World)
      → Quietly (collision_decoded env out s d headers w) w.db
  unfolding write_error
  collision_decoded-db too_large headers w = (refl, refl)
  collision_decoded-db malformed headers w = (refl, refl)
  collision_decoded-db (decoded b) headers w =
      let (same, other) = collision_answer-db headers (s.detect b.workspace_id b.content none w) in
      if-Quietly (trim_space b.workspace_id == "") _ _ w.db (refl, refl)
        (if-Quietly (trim_space b.content == "") _ _ w.db (refl, refl)
          (same ∙ quiet.detect_reads b.workspace_id b.content none w, other))

  pub check_collision-Looks : Looks (check_collision env out s)
  unfolding check_collision write_error
  check_collision-Looks r headers w =
      collision_decoded-db (out.decode_collision s.collision_max r.body) headers w

  backlog_answer-db :
      (headers : Headers) (x : Outcome BacklogPage × World)
      → Quietly (backlog_answer env out s headers x) x.1.db
  unfolding write_error
  backlog_answer-db headers (ok page, w) = (refl, refl)
  backlog_answer-db headers (err e, w) = (ground arith, ground arith)

  backlog_page-db :
      (r : HttpRequest) (size : Parsed) (headers : Headers) (w : World)
      → Quietly (backlog_page env out s r size headers w) w.db
  unfolding write_error
  backlog_page-db r not_a_number headers w = (refl, refl)
  backlog_page-db r negative headers w =
      let filter : BacklogFilter = record {
        workspace_id = r.query "workspace_id";
        page_size = 0;
        cursor = r.query "cursor";
      } in
      let (same, other) = backlog_answer-db headers (list_human_backlog env s.codec filter w) in
      (same ∙ list_human_backlog-db env s.codec filter w, other)
  backlog_page-db r (number n) headers w =
      let filter : BacklogFilter = record {
        workspace_id = r.query "workspace_id";
        page_size = n;
        cursor = r.query "cursor";
      } in
      let (same, other) = backlog_answer-db headers (list_human_backlog env s.codec filter w) in
      (same ∙ list_human_backlog-db env s.codec filter w, other)

  pub backlog-Looks : Looks (backlog env out s)
  unfolding backlog write_error
  backlog-Looks r headers w =
      if-Quietly (is_empty (r.query "workspace_id")) _ _ w.db (refl, refl)
        (backlog_page-db r (parse_count out (r.query "page_size")) headers (clocked w))

  document_answer-db :
      (workspace_id : String) (headers : Headers) (x : Outcome SddDocument × World)
      → Quietly (document_answer env out s workspace_id headers x) x.1.db
  unfolding write_error
  document_answer-db workspace_id headers (ok doc, w) = (refl, refl)
  document_answer-db workspace_id headers (err e, w) = (ground arith, ground arith)

  get_document-db : (ws : String) (w : World) → (get_document env ws w).1.db ≡ w.db
  unfolding get_document find_by_workspace
  get_document-db ws w = ground arith

  pub sdd_document-Looks : Looks (sdd_document env out s)
  unfolding sdd_document write_error
  sdd_document-Looks r headers w =
      let ws = trim_space (r.query "workspace_id") in
      let (same, other) = document_answer-db ws headers (get_document env ws (clocked w)) in
      if-Quietly (ws == "") _ _ w.db (refl, refl) (same ∙ get_document-db ws (clocked w), other)
