-- ===== src/Sdd/Storage.antt =====
-- postgres/sdd_documents.go. `marshalSections` keeps the seconds of an instant (RFC 3339), and each
-- other field is read back as it was written.
use project_brain.Base.{
  ℕ, ◌*◌, ◌/◌, String, Bool, none, some, List, [], ◌∷◌, map, first, ◌==◌, if◌then◌else◌, ok, err,
  not_found, Calls,
}
use project_brain.Domain.{SddEntry, Sections, SddDocument}
use project_brain.Store.State.{Env, World, statement}

abbrev pub whole_seconds : ℕ → ℕ
whole_seconds t = (t / 1000000000) * 1000000000

abbrev pub stored_entry : SddEntry → SddEntry
stored_entry e = record e { updated_at = whole_seconds e.updated_at }

-- What `unmarshalSections` gives of what `marshalSections` wrote.
abbrev pub stored_sections : Sections → Sections
stored_sections s = record {
  context = map stored_entry s.context;
  decisions = map stored_entry s.decisions;
  constraints = map stored_entry s.constraints;
  open_questions = map stored_entry s.open_questions;
}

abbrev pub stored : SddDocument → SddDocument
stored doc = record doc { sections = stored_sections doc.sections }

abbrev pub of_workspace : String → SddDocument → Bool
of_workspace workspace_id doc = doc.workspace_id == workspace_id

-- ON CONFLICT (workspace_id) DO UPDATE
abbrev pub put_document : SddDocument → List SddDocument → List SddDocument
put_document doc [] = doc ∷ []
put_document doc (d ∷ ds) =
    let rest = put_document doc ds in if of_workspace doc.workspace_id d then doc ∷ ds else d ∷ rest

module _ (env : Env) where
  -- `FindByWorkspace`
  unfoldable pub find_by_workspace : String → Calls World SddDocument
  find_by_workspace workspace_id = statement env λ now db. (
    elim (first (of_workspace workspace_id) db.documents) [ none ↦ err not_found | some d ↦ ok d ],
    db,
  )

  -- `Upsert` of the document repository
  unfoldable pub upsert_document : SddDocument → Calls World (Unit {0})
  upsert_document doc =
      statement env
        λ now db. (ok tt, record db { documents = put_document (stored doc) db.documents })
