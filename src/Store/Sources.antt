-- ===== src/Store/Sources.antt =====
-- postgres/source_repo.go: the sources, and the lookup of an earlier ingestion.
use project_brain.Base.{
  ℕ, String, Bool, ◌&&◌, Option, none, some, List, [], ◌∷◌, first, select, any, eqb, leb, ◌==◌,
  if◌then◌else◌, false, ok, err, not_found, Calls,
}
use project_brain.Domain.{
  Source, ObjectSource, AuditEvent, IngestTextResult, knowledge_ingested, target_knowledge_object,
}
use project_brain.Store.State.{Env, Db, World, statement}
use project_brain.Store.Objects.{unique_violation}

abbrev pub has_key : String → String → Source → Bool
has_key workspace_id identity_key s =
    s.workspace_id == workspace_id && s.identity_key == identity_key

-- ORDER BY os.object_id LIMIT 1
abbrev lesser : ObjectSource → Option ObjectSource → ObjectSource
lesser l none = l
lesser l (some m) = if leb l.object_id m.object_id then l else m

abbrev pub least_link : List ObjectSource → Option ObjectSource
least_link [] = none
least_link (l ∷ ls) = some (lesser l (least_link ls))

-- The LEFT JOIN with its COALESCE: the ingestion event of the object, or the zero UUID.
abbrev is_ingestion_of : ℕ → AuditEvent → Bool
is_ingestion_of object_id e =
    e.target_type == target_knowledge_object
    && eqb e.target_id object_id
    && e.action == knowledge_ingested

abbrev event_id : Option AuditEvent → ℕ
event_id none = 0
event_id (some e) = e.id

abbrev pub joined_row : Db → Source → Option ObjectSource → Option IngestTextResult
joined_row db s none = none
joined_row db s (some l) = some (record {
  source_id = s.id;
  object_id = l.object_id;
  audit_event_id = event_id (first (is_ingestion_of l.object_id) db.events);
  content_checksum = s.checksum;
  identity_key = s.identity_key;
  duplicate = false;
})

abbrev pub row_of_source : Db → Option Source → Option IngestTextResult
row_of_source db none = none
row_of_source db (some s) =
    joined_row db s (least_link (select (λ l. eqb l.source_id s.id) db.links))

abbrev pub ingestion_of : String → String → Db → Option IngestTextResult
ingestion_of workspace_id identity_key db =
    row_of_source db (first (has_key workspace_id identity_key) db.sources)

module _ (env : Env) where
  -- `FindIngestionResultByIdentityKey`
  unfoldable pub find_ingestion_result : String → String → Calls World IngestTextResult
  find_ingestion_result workspace_id identity_key = statement env λ now db. (
    elim (ingestion_of workspace_id identity_key db) [ none ↦ err not_found | some r ↦ ok r ],
    db,
  )

  -- `Create` of the source repository, with the UNIQUE constraints of the table
  unfoldable pub create_source : Source → Calls World (Unit {0})
  create_source s = statement env λ now db.
      if any (λ x. eqb x.id s.id) db.sources
      then (err unique_violation, db)
      else if any (has_key s.workspace_id s.identity_key) db.sources
      then (err unique_violation, db)
      else (ok tt, record db { sources = s ∷ db.sources })
