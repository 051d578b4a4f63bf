-- ===== src/Ingest/Service.antt =====
-- `IngestTextService.Ingest`.
use project_brain.Base.{
  ℕ, ◌+◌, String, Bool, true, false, Option, none, some, [], ◌∷◌, eqb, if◌then◌else◌, Outcome, ok,
  err, is_not_found, Calls, pure, ◌>>=◌, ◌>>◌,
}
use project_brain.Base.Text.{trim_space}
use project_brain.Domain.{
  Source, KnowledgeObject, ObjectSource, AuditEvent, IngestTextRequest, IngestTextResult, Metadata,
  text, knowledge_ingested, duplicate_detected, target_knowledge_object,
}
use project_brain.Store.State.{Env, World, new_id, read_clock}
use project_brain.Store.Objects.{create_object, create_link}
use project_brain.Store.Sources.{find_ingestion_result, create_source}
use project_brain.Store.Audit.{create_event}
use project_brain.Store.Tx.{within_tx}
use project_brain.Lifecycle.Validate.{Hook, fire}
use project_brain.Ingest.Prepare.{PreparedIngestText, prepare_ingest_text}

-- The callback's result, with the created object for the hook.
abbrev pub Ingested : Type 0
Ingested = IngestTextResult × Option KnowledgeObject

abbrev pub source_row : PreparedIngestText → ℕ → ℕ → Source
source_row p id created_at = record {
  id = id;
  workspace_id = p.workspace_id;
  type = p.source_type;
  uri = trim_space p.source.uri;
  external_id = trim_space p.source.external_id;
  title = trim_space p.source.title;
  checksum = p.content_checksum;
  identity_key = p.identity_key;
  metadata = p.source.metadata;
  captured_at = if eqb p.source.captured_at 0 then created_at else p.source.captured_at;
}

abbrev pub object_row : PreparedIngestText → ℕ → ℕ → KnowledgeObject
object_row p id created_at = record {
  id = id;
  workspace_id = p.workspace_id;
  type = p.object_type;
  title = trim_space p.object.title;
  summary = trim_space p.object.summary;
  content = p.content;
  status = p.object_status;
  metadata = p.object.metadata;
  created_by = trim_space p.object.created_by;
  created_at = created_at;
  updated_at = created_at;
  project_id = p.object.project_id;
  tags = p.tags;
  confidence = p.object.confidence;
  importance = p.object.importance;
}

-- `Relevance: 1`, as a bit pattern
abbrev pub link_row : ℕ → ℕ → ObjectSource
link_row object_id source_id = record {
  object_id = object_id;
  source_id = source_id;
  relevance = 0x3ff0000000000000;
}

abbrev pub ingest_event : PreparedIngestText → Option ℕ → String → ℕ → Metadata → ℕ → ℕ → AuditEvent
ingest_event p request_id action target_id after id created_at = record {
  id = id;
  workspace_id = p.workspace_id;
  actor_id = trim_space p.object.created_by;
  action = action;
  target_type = target_knowledge_object;
  target_id = target_id;
  before = [];
  after = after;
  reason = "";
  request_id = request_id;
  metadata = [];
  created_at = created_at;
}

-- The hook runs on the new object only, and its error is dropped.
abbrev pub run_hook : Hook → Bool → Option KnowledgeObject → World → World
run_hook hook false (some object) w = fire hook object w
run_hook hook _ _ w = w

-- The reading of the clock is for the log line, on success and on error.
abbrev pub finish_ingest : Hook → Outcome Ingested × World → Outcome IngestTextResult × World
finish_ingest hook (err e, w) = (err e, record w { readings = w.readings + 1 })
finish_ingest hook (ok (result, object), w) =
    (ok result, run_hook hook result.duplicate object (record w { readings = w.readings + 1 }))

module _ (env : Env) where
  -- The text was ingested before: one audit row, and the earlier result.
  unfoldable pub ingest_duplicate :
      PreparedIngestText → Option ℕ → IngestTextResult → Calls World Ingested
  unfolding create_event
  ingest_duplicate p request_id existing = do
    id ← new_id env
    now ← read_clock env
    create_event env (
        ingest_event p request_id duplicate_detected existing.object_id
          (("identity_key", text p.identity_key)
            ∷ (("original_audit_id", text (env.uuid_text existing.audit_event_id)) ∷ []))
          id now)
    pure (record existing { duplicate = true }, none)

  -- The four writes.
  unfoldable pub ingest_fresh : PreparedIngestText → Option ℕ → Calls World Ingested
  ingest_fresh p request_id = do
    created_at ← read_clock env
    source_id ← new_id env
    object_id ← new_id env
    audit_event_id ← new_id env
    create_source env (source_row p source_id created_at)
    create_object env (object_row p object_id created_at)
    create_link env (link_row object_id source_id)
    create_event env (
        ingest_event p request_id knowledge_ingested object_id
          (("source_id", text (env.uuid_text source_id))
            ∷ (("content_checksum", text p.content_checksum)
                ∷ (("identity_key", text p.identity_key) ∷ [])))
          audit_event_id created_at)
    pure (
      record {
        source_id = source_id;
        object_id = object_id;
        audit_event_id = audit_event_id;
        content_checksum = p.content_checksum;
        identity_key = p.identity_key;
        duplicate = false;
      },
      some (object_row p object_id created_at),
    )

  abbrev pub ingest_found :
      PreparedIngestText → Option ℕ → Outcome IngestTextResult × World → Outcome Ingested × World
  ingest_found p request_id (ok existing, w) = ingest_duplicate p request_id existing w
  ingest_found p request_id (err e, w) =
      if is_not_found e then ingest_fresh p request_id w else (err e, w)

  unfoldable pub ingest_tx : PreparedIngestText → Option ℕ → Calls World Ingested
  unfolding find_ingestion_result
  ingest_tx p request_id w =
      ingest_found p request_id (find_ingestion_result env p.workspace_id p.identity_key w)

  abbrev pub ingest_prepared :
      Hook
      → IngestTextRequest
      → Outcome PreparedIngestText
      → World
      → Outcome IngestTextResult × World
  ingest_prepared hook req (err e) w = (err e, w)
  ingest_prepared hook req (ok p) w =
      finish_ingest hook (within_tx env (ingest_tx p req.request_id) w)

  unfoldable pub ingest : Hook → IngestTextRequest → World → Outcome IngestTextResult × World
  unfolding prepare_ingest_text ingest_tx ingest_duplicate ingest_fresh create_source create_object
      create_link create_event within_tx
  ingest hook req w =
      ingest_prepared hook req (prepare_ingest_text env req)
        (record w { readings = w.readings + 1 })
