-- ===== src/Sdd/Service.antt =====
-- `SddDocumentService`.
use project_brain.Base.{
  String, Bool, true, false, some, ◌==◌, if◌then◌else◌, ok, err, Err, not_found, Calls, pure, raise,
  attempt, ◌>>=◌,
}
use project_brain.Domain.{KnowledgeObject, SddDocument, validated, deprecated}
use project_brain.Store.State.{Env, World, read_clock}
use project_brain.Store.Tx.{within_tx}
use project_brain.Lifecycle.Validate.{ValidateObjectService}
use project_brain.Sdd.Document.{empty_document, remove_by_object_id, merge_validated}
use project_brain.Sdd.Storage.{find_by_workspace, upsert_document}

-- err != ErrNotFound, which does not look into a wrapped error
abbrev pub is_plain_not_found : Err → Bool
is_plain_not_found not_found = true
is_plain_not_found _ = false

module _ (env : Env) where
  -- The callback on the document that was found, or on the empty one.
  unfoldable pub merge_object : KnowledgeObject → SddDocument → Calls World (Unit {0})
  merge_object o doc =
      if o.status == validated
      then (do
        now ← read_clock env
        now' ← read_clock env
        upsert_document env (merge_validated o now now' doc))
      else if o.status == deprecated
      then (let (removed, rest) = remove_by_object_id o.id doc.sections in
          if removed
          then (do
            now ← read_clock env
            upsert_document env (record doc { sections = rest; updated_at = now }))
          else pure tt)
      else pure tt

  unfoldable pub append_tx : KnowledgeObject → Calls World (Unit {0})
  append_tx o = do
    found ← attempt (find_by_workspace env o.workspace_id)
    elim found [
      | ok doc ↦ merge_object o doc
      | err e ↦
          if is_plain_not_found e then merge_object o (empty_document o.workspace_id) else raise e
    ]

  unfoldable pub append_validated_object : KnowledgeObject → Calls World (Unit {0})
  append_validated_object o = within_tx env (append_tx o)

  unfoldable pub get_document : String → Calls World SddDocument
  get_document workspace_id = find_by_workspace env workspace_id

  -- The validation service as the composition root wires it over PostgreSQL.
  abbrev pub wired : ValidateObjectService
  wired = record {
    post_validation_hook = some append_validated_object;
    post_deprecation_hook = some append_validated_object;
  }
