-- ===== src/Sdd/Race.antt =====
-- Two first validations of a workspace at once. `SELECT ... FOR UPDATE` locks no row where there is
-- none, so both callbacks may read before either writes; the second INSERT waits for the COMMIT of
-- the first and then updates its row.
use project_brain.Base.{
  ℕ, ◌+◌, String, true, some, ◌==◌, ◌≡◌, ◌≢◌, ◌∙◌, ap, arith, err, ok, not_found, eq_iff,
}
use project_brain.Domain.{KnowledgeObject, SddDocument, validated}
use project_brain.Store.State.{Env, World}
use project_brain.Sdd.Document.{SddSectionKey, empty_document, is_entry, merge_validated}
use project_brain.Sdd.Storage.{stored, find_by_workspace}
use project_brain.Sdd.Service.{merge_object}
use project_brain.Sdd.Steps.{merge_object-validated}
use project_brain.Sdd.Content.{first-put_document}
use project_brain.Sdd.Merge.{entries, document_of, merged-Placed, merged-workspace}

nothing :
    (k : SddSectionKey) (ws : String) (id : ℕ) → entries (is_entry id) k (empty_document ws) ≡ 0
nothing k ws id = ground arith

module _ (env : Env) (o o' : KnowledgeObject) (w : World) where
  -- The worlds after both reads, after the write of the first and after that of the second.
  abbrev pub both_read : World
  both_read = (find_by_workspace env o'.workspace_id (find_by_workspace env o.workspace_id w).1).1

  abbrev pub first_wrote : World
  first_wrote = (merge_object env o (empty_document o.workspace_id) both_read).1

  abbrev pub second_wrote : World
  second_wrote = (merge_object env o' (empty_document o'.workspace_id) first_wrote).1

  -- If two validated objects of one workspace are appended at once, both read that there is no
  -- document before either writes, and both writes succeed, then the document of the workspace
  -- lacks the object that was written first.
  pub merge_object-lost :
      o.workspace_id ≡ o'.workspace_id
      → o.id ≢ o'.id
      → (o'.status == validated) ≡ true
      → (find_by_workspace env o.workspace_id w).0 ≡ err not_found
      → (find_by_workspace env o'.workspace_id (find_by_workspace env o.workspace_id w).1).0
        ≡ err not_found
      → (merge_object env o (empty_document o.workspace_id) both_read).0 ≡ ok tt
      → (merge_object env o' (empty_document o'.workspace_id) first_wrote).0 ≡ ok tt
      → (doc : SddDocument) × (document_of o.workspace_id second_wrote.db ≡ some doc)
        × ((k : SddSectionKey) → entries (is_entry o.id) k doc ≡ 0)
  merge_object-lost ws id v read read' wrote wrote' =
      let t = env.clock_at first_wrote.readings in
      let t' = env.clock_at (first_wrote.readings + 1) in
      let empty = empty_document o'.workspace_id in
      let doc = stored (merge_validated o' t t' empty) in
      let d = merge_object-validated env o' empty first_wrote v wrote' in
      let own =
        merged-workspace o' t t' o'.workspace_id empty
          (ground (arith, eq_iff o'.workspace_id o'.workspace_id)) in
      (
        doc,
        ap (λ s. document_of s second_wrote.db) ws
            ∙ (ap (document_of o'.workspace_id) d
                ∙ first-put_document o'.workspace_id doc first_wrote.db.documents own),
        λ k. (merged-Placed o' t t' empty).others k o.id id ∙ nothing k o'.workspace_id o.id,
      )
