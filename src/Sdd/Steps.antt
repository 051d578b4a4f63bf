-- ===== src/Sdd/Steps.antt =====
-- The callback of `AppendValidatedObject`, branch by branch.
use project_brain.Base.{
  ◌+◌, String, true, false, Option, none, some, first, ◌==◌, ◌≡◌, ◌⊎◌, refl, inl, inr, arith,
  Bool-cases, Option-cases, ok, err, Err, failure,
}
use project_brain.Domain.{KnowledgeObject, SddDocument, validated, deprecated}
use project_brain.Store.State.{Env, Db, World, tick}
use project_brain.Sdd.Document.{empty_document, remove_by_object_id, merge_validated}
use project_brain.Sdd.Storage.{
  of_workspace, put_document, stored, find_by_workspace, upsert_document,
}
use project_brain.Sdd.Service.{merge_object, append_tx}

-- The document that the callback starts from.
abbrev pub or_empty : String → Option SddDocument → SddDocument
or_empty ws none = empty_document ws
or_empty ws (some d) = d

abbrev pub current : String → Db → SddDocument
current ws db = or_empty ws (first (of_workspace ws) db.documents)

module _ (env : Env) where
  upsert-cases :
      (doc : SddDocument) (w : World)
      → (((e : Err) × ((upsert_document env doc w).0 ≡ err e))
          × ((upsert_document env doc w).1.db ≡ w.db))
        ⊎ ((upsert_document env doc w).1.db
            ≡ record w.db { documents = put_document (stored doc) w.db.documents })
  unfolding upsert_document
  upsert-cases doc w = elim (Bool-cases (env.fault w.calls)) [
    | inl p ↦ inl ((failure w.calls, rw p refl), rw p refl)
    | inr p ↦ inr (rw p refl)
  ]

  -- The lookup failed and nothing was written, or the rest runs on the current document.
  pub append_tx-cases :
      (o : KnowledgeObject) (w : World)
      → (((e : Err) × ((append_tx env o w).0 ≡ err e)) × ((append_tx env o w).1.db ≡ w.db))
        ⊎ (append_tx env o w ≡ merge_object env o (current o.workspace_id w.db) (tick w))
  unfolding append_tx find_by_workspace
  append_tx-cases o w = elim (Bool-cases (env.fault w.calls)) [
    | inl p ↦ inl ((failure w.calls, rw p refl), rw p refl)
    | inr p ↦ elim (Option-cases (first (of_workspace o.workspace_id) w.db.documents)) [
      | inl n ↦ inr (rw p (rw n refl))
      | inr (d, f) ↦ inr (rw p (rw f refl))
    ]
  ]

  -- A success on a validated object stored the merged document.
  pub merge_object-validated :
      (o : KnowledgeObject) (doc : SddDocument) (w : World)
      → (o.status == validated) ≡ true
      → (merge_object env o doc w).0 ≡ ok tt
      → (merge_object env o doc w).1.db ≡ record w.db {
        documents =
            put_document
              (stored
                (merge_validated o (env.clock_at w.readings) (env.clock_at (w.readings + 1)) doc))
              w.db.documents;
      }
  unfolding merge_object
  merge_object-validated o doc w v h =
      let u : World = record w { readings = w.readings + 1 + 1 } in
      let merged =
        merge_validated o (env.clock_at w.readings) (env.clock_at (w.readings + 1)) doc in
      elim (upsert-cases merged u) [ inl ((e, f), s) ↦ absurd (ground arith) | inr s ↦ rw v s ]

  -- A success on a deprecated object stored the rest of the document, or there was nothing to drop.
  pub merge_object-deprecated :
      (o : KnowledgeObject) (doc : SddDocument) (w : World)
      → (o.status == validated) ≡ false
      → (o.status == deprecated) ≡ true
      → (merge_object env o doc w).0 ≡ ok tt
      → (((remove_by_object_id o.id doc.sections).0 ≡ false)
          × ((merge_object env o doc w).1.db ≡ w.db))
        ⊎ ((merge_object env o doc w).1.db ≡ record w.db {
          documents =
              put_document
                (stored (record doc {
                  sections = (remove_by_object_id o.id doc.sections).1;
                  updated_at = env.clock_at w.readings;
                }))
                w.db.documents;
        })
  unfolding merge_object
  merge_object-deprecated o doc w v d h =
      let rest : SddDocument = record doc {
        sections = (remove_by_object_id o.id doc.sections).1;
        updated_at = env.clock_at w.readings;
      } in
      elim (Bool-cases (remove_by_object_id o.id doc.sections).0) [
        | inr r ↦ inl (r, rw (v, d, r) refl)
        | inl r ↦ elim (upsert-cases rest (record w { readings = w.readings + 1 })) [
          | inl ((e, f), s) ↦ absurd (ground arith)
          | inr s ↦ inr (rw (v, d, r) s)
        ]
      ]
