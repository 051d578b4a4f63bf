-- ===== src/Store/Objects.antt =====
-- postgres/knowledge_objects_repo.go: the statements on knowledge_objects and object_sources.
use project_brain.Base.{
  ℕ, String, Bool, true, not, ◌&&◌, ◌||◌, Option, none, some, List, ◌∷◌, map, first, any, eqb, leb,
  ◌==◌, if◌then◌else◌, ok, err, Err, not_found, failure, Calls,
}
use project_brain.Domain.{
  KnowledgeObject, ObjectSource, validate_knowledge_object_status, lt_zero, gt_one, is_nan,
}
use project_brain.Store.State.{Env, World, statement}

abbrev pub unique_violation : Err
unique_violation = failure 23505

abbrev pub foreign_key_violation : Err
foreign_key_violation = failure 23503

abbrev pub check_violation : Err
check_violation = failure 23514

-- WHERE workspace_id = $1 AND id = $2
abbrev pub is_row : String → ℕ → KnowledgeObject → Bool
is_row workspace_id id o = o.workspace_id == workspace_id && eqb o.id id

abbrev pub find : String → ℕ → List KnowledgeObject → Option KnowledgeObject
find workspace_id id = first (is_row workspace_id id)

abbrev pub restate : String → ℕ → KnowledgeObject → KnowledgeObject
restate status now o = record o { status = status; updated_at = now }

-- SET status = $3, updated_at = now()
abbrev pub set_status : String → ℕ → String → ℕ → List KnowledgeObject → List KnowledgeObject
set_status workspace_id id status now =
    map (λ o. if is_row workspace_id id o then restate status now o else o)

-- `BETWEEN 0 AND 1` in PostgreSQL, where a NaN is above every number.
abbrev in_unit_range : Option ℕ → Bool
in_unit_range none = true
in_unit_range (some c) = not (lt_zero c || gt_one c || is_nan c)

-- `BETWEEN 0 AND 100` on the 64 bits of an int: a negative one has bits from 2 ^ 63 on.
abbrev in_percent_range : Option ℕ → Bool
in_percent_range none = true
in_percent_range (some i) = leb i 100

-- The CHECK constraints on a row of knowledge_objects.
abbrev pub passes_checks : KnowledgeObject → Bool
passes_checks o =
    validate_knowledge_object_status o.status
    && in_unit_range o.confidence
    && in_percent_range o.importance

module _ (env : Env) where
  -- `Create` of the knowledge object repository
  unfoldable pub create_object : KnowledgeObject → Calls World (Unit {0})
  create_object o = statement env λ now db.
      if any (λ x. eqb x.id o.id) db.objects
      then (err unique_violation, db)
      else if passes_checks o
      then (ok tt, record db { objects = o ∷ db.objects })
      else (err check_violation, db)

  -- `UpdateStatus`; no row affected is `ErrNotFound`
  unfoldable pub update_status : String → ℕ → String → Calls World (Unit {0})
  update_status workspace_id id status = statement env λ now db.
      if any (is_row workspace_id id) db.objects
      then (if validate_knowledge_object_status status
          then (ok tt, record db { objects = set_status workspace_id id status now db.objects })
          else (err check_violation, db))
      else (err not_found, db)

  -- `FindByIDForUpdate`
  unfoldable pub find_by_id_for_update : String → ℕ → Calls World KnowledgeObject
  find_by_id_for_update workspace_id id = statement env λ now db.
      (elim (find workspace_id id db.objects) [ none ↦ err not_found | some o ↦ ok o ], db)

  -- `Create` of the object source repository
  unfoldable pub create_link : ObjectSource → Calls World (Unit {0})
  create_link link = statement env λ now db.
      if any (λ x. eqb x.object_id link.object_id && eqb x.source_id link.source_id) db.links
      then (err unique_violation, db)
      else if any (λ o. eqb o.id link.object_id) db.objects
          && any (λ s. eqb s.id link.source_id) db.sources
      then (ok tt, record db { links = link ∷ db.links })
      else (err foreign_key_violation, db)
