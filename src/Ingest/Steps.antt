-- ===== src/Ingest/Steps.antt =====
-- What the callback of the ingestion transaction does when it succeeds.
use project_brain.Base.{
  ℕ, ◌+◌, true, false, Option, none, some, [], ◌∷◌, any, eqb, ◌≡◌, refl, ◌⊎◌, inl, inr, arith, ok,
  err, Err, is_not_found, not_found, failure, Bool-cases, Option-cases,
}
use project_brain.Domain.{
  Source, KnowledgeObject, ObjectSource, AuditEvent, IngestTextResult, Metadata, text,
  knowledge_ingested, duplicate_detected,
}
use project_brain.Store.State.{Env, Db, World, tick}
use project_brain.Store.Objects.{create_object, create_link, passes_checks}
use project_brain.Store.Sources.{find_ingestion_result, create_source, has_key, ingestion_of}
use project_brain.Store.Audit.{create_event}
use project_brain.Ingest.Prepare.{PreparedIngestText}
use project_brain.Ingest.Service.{
  Ingested, source_row, object_row, link_row, ingest_event, ingest_duplicate, ingest_fresh,
  ingest_tx,
}

module _ (env : Env) (w : World) where
  create_source-cases :
      (s : Source)
      → ((e : Err) × ((create_source env s w).0 ≡ err e))
        ⊎ ((create_source env s w
              ≡ (ok tt, record (tick w) { db = record w.db { sources = s ∷ w.db.sources } }))
            × (any (λ x. eqb x.id s.id) w.db.sources ≡ false)
            × (any (has_key s.workspace_id s.identity_key) w.db.sources ≡ false))
  unfolding create_source
  create_source-cases s = ground arith

  create_object-cases :
      (o : KnowledgeObject)
      → ((e : Err) × ((create_object env o w).0 ≡ err e))
        ⊎ ((create_object env o w
              ≡ (ok tt, record (tick w) { db = record w.db { objects = o ∷ w.db.objects } }))
            × (any (λ x. eqb x.id o.id) w.db.objects ≡ false)
            × (passes_checks o ≡ true))
  unfolding create_object
  create_object-cases o = ground arith

  create_link-cases :
      (l : ObjectSource)
      → ((e : Err) × ((create_link env l w).0 ≡ err e))
        ⊎ (create_link env l w
            ≡ (ok tt, record (tick w) { db = record w.db { links = l ∷ w.db.links } }))
  unfolding create_link
  create_link-cases l = ground arith

  create_event-cases :
      (e : AuditEvent)
      → ((x : Err) × ((create_event env e w).0 ≡ err x))
        ⊎ (create_event env e w
            ≡ (ok tt, record (tick w) { db = record w.db { events = e ∷ w.db.events } }))
  unfolding create_event
  create_event-cases e = ground arith

abbrev fresh_metadata : Env → PreparedIngestText → ℕ → Metadata
fresh_metadata env p source_id =
    ("source_id", text (env.uuid_text source_id))
    ∷ (("content_checksum", text p.content_checksum) ∷ (("identity_key", text p.identity_key) ∷ []))

abbrev duplicate_metadata : Env → PreparedIngestText → IngestTextResult → Metadata
duplicate_metadata env p existing =
    ("identity_key", text p.identity_key)
    ∷ (("original_audit_id", text (env.uuid_text existing.audit_event_id)) ∷ [])

module _ (env : Env) (p : PreparedIngestText) (request_id : Option ℕ) (w : World) where
  abbrev pub new_source : Source
  new_source = source_row p (env.uuid_at w.ids) (env.clock_at w.readings)

  abbrev pub new_object : KnowledgeObject
  new_object = object_row p (env.uuid_at (w.ids + 1)) (env.clock_at w.readings)

  abbrev pub new_link : ObjectSource
  new_link = link_row (env.uuid_at (w.ids + 1)) (env.uuid_at w.ids)

  abbrev pub new_event : AuditEvent
  new_event =
      ingest_event p request_id knowledge_ingested (env.uuid_at (w.ids + 1))
        (fresh_metadata env p (env.uuid_at w.ids)) (env.uuid_at (w.ids + 1 + 1))
        (env.clock_at w.readings)

  abbrev pub duplicate_event : IngestTextResult → AuditEvent
  duplicate_event existing =
      ingest_event p request_id duplicate_detected existing.object_id
        (duplicate_metadata env p existing) (env.uuid_at w.ids) (env.clock_at w.readings)

  abbrev pub after_fresh : Db
  after_fresh = record w.db {
    objects = new_object ∷ w.db.objects;
    sources = new_source ∷ w.db.sources;
    links = new_link ∷ w.db.links;
    events = new_event ∷ w.db.events;
  }

  abbrev drawn : World
  drawn = record w { ids = w.ids + 1 + 1 + 1; readings = w.readings + 1 }

  abbrev with_source : World
  with_source = record (tick drawn) { db = record w.db { sources = new_source ∷ w.db.sources } }

  abbrev with_object : World
  with_object = record (tick with_source) {
    db = record with_source.db { objects = new_object ∷ w.db.objects };
  }

  abbrev with_link : World
  with_link = record (tick with_object) {
    db = record with_object.db { links = new_link ∷ w.db.links };
  }

  -- A success of the four writes: no source had the key and no object the ID, and each table has
  -- one more row.
  pub ingest_fresh-ok :
      (r : Ingested)
      → (ingest_fresh env p request_id w).0 ≡ ok r
      → (any (has_key p.workspace_id p.identity_key) w.db.sources ≡ false)
        × (any (λ x. eqb x.id new_source.id) w.db.sources ≡ false)
        × (any (λ x. eqb x.id new_object.id) w.db.objects ≡ false)
        × (r.1 ≡ some new_object)
        × (r.0.duplicate ≡ false)
        × (r.0.source_id ≡ new_source.id)
        × (r.0.object_id ≡ new_object.id)
        × ((ingest_fresh env p request_id w).1.db ≡ after_fresh)
  unfolding ingest_fresh
  ingest_fresh-ok r h = ground (
    arith,
    create_source-cases env drawn new_source,
    create_object-cases env with_source new_object,
    create_link-cases env with_object new_link,
    create_event-cases env with_link new_event,
  )

  pub ingest_duplicate-ok :
      (existing : IngestTextResult) (r : Ingested)
      → (ingest_duplicate env p request_id existing w).0 ≡ ok r
      → (r ≡ (record existing { duplicate = true }, none))
        × ((ingest_duplicate env p request_id existing w).1.db
            ≡ record w.db { events = duplicate_event existing ∷ w.db.events })
  unfolding ingest_duplicate
  ingest_duplicate-ok existing r h = ground (
    arith,
    create_event-cases env (record w { ids = w.ids + 1; readings = w.readings + 1 })
        (duplicate_event existing),
  )

  -- The lookup of an earlier ingestion fails, finds one, or finds none.
  find_ingestion-cases :
      ((e : Err) × (is_not_found e ≡ false)
        × ((find_ingestion_result env p.workspace_id p.identity_key w).0 ≡ err e))
      ⊎ (((existing : IngestTextResult) × (ingestion_of p.workspace_id p.identity_key w.db
              ≡ some existing)
            × (find_ingestion_result env p.workspace_id p.identity_key w ≡ (ok existing, tick w)))
          ⊎ ((ingestion_of p.workspace_id p.identity_key w.db ≡ none)
              × (find_ingestion_result env p.workspace_id p.identity_key w
                  ≡ (err not_found, tick w))))
  unfolding find_ingestion_result
  find_ingestion-cases = elim (Bool-cases (env.fault w.calls)) [
    | inl broken ↦ inl (failure w.calls, refl, rw broken)
    | inr works ↦ elim (Option-cases (ingestion_of p.workspace_id p.identity_key w.db)) [
      | inl e ↦ inr (inr (e, rw (works, e)))
      | inr (existing, e) ↦ inr (inl (existing, e, rw (works, e)))
    ]
  ]

module _ (env : Env) (p : PreparedIngestText) (request_id : Option ℕ) (w : World) where
  -- A success either logged a duplicate of an ingestion that was found, or made the four writes
  -- after none was found.
  pub ingest_tx-ok :
      (r : Ingested)
      → (ingest_tx env p request_id w).0 ≡ ok r
      → ((existing : IngestTextResult) × (ingestion_of p.workspace_id p.identity_key w.db
            ≡ some existing)
          × (r ≡ (record existing { duplicate = true }, none))
          × ((ingest_tx env p request_id w).1.db ≡ record w.db {
            events = duplicate_event env p request_id (tick w) existing ∷ w.db.events;
          }))
        ⊎ ((ingestion_of p.workspace_id p.identity_key w.db ≡ none)
            × (any (has_key p.workspace_id p.identity_key) w.db.sources ≡ false)
            × (any (λ x. eqb x.id (env.uuid_at w.ids)) w.db.sources ≡ false)
            × (any (λ x. eqb x.id (env.uuid_at (w.ids + 1))) w.db.objects ≡ false)
            × (r.1 ≡ some (new_object env p request_id (tick w)))
            × (r.0.duplicate ≡ false)
            × (r.0.source_id ≡ env.uuid_at w.ids)
            × (r.0.object_id ≡ env.uuid_at (w.ids + 1))
            × ((ingest_tx env p request_id w).1.db ≡ after_fresh env p request_id (tick w)))
  unfolding ingest_tx
  ingest_tx-ok r h = elim (find_ingestion-cases env p request_id w) [
    | inl (e, other, q) ↦ absurd (ground arith)
    | inr (inl (existing, found, q)) ↦
        let (a, b) = ingest_duplicate-ok env p request_id (tick w) existing r (rw q at h) in
        inl (existing, found, a, rw q b)
    | inr (inr (none_found, q)) ↦
        let (a, b, c, d, e, f, g, k) = ingest_fresh-ok env p request_id (tick w) r (rw q at h) in
        inr (none_found, a, b, c, d, e, f, g, rw q k)
  ]
