-- ===== src/Sdd/Placement.antt =====
-- Where `AppendValidatedObject` puts an object, and what it leaves of the rest of the document.
use mathlib.Core.Path.{subst}
use project_brain.Base.{◌+◌, true, some, ◌==◌, ◌≡◌, ◌∙◌, sym, ap, inl, inr, arith, ok}
use project_brain.Domain.{KnowledgeObject, SddDocument, validated, deprecated}
use project_brain.Store.State.{Env, World, tick}
use project_brain.Store.Atomic.{within_tx-ok}
use project_brain.Sdd.Document.{merge_validated}
use project_brain.Sdd.Storage.{stored}
use project_brain.Sdd.Service.{append_tx, append_validated_object}
use project_brain.Sdd.Steps.{
  or_empty, current, append_tx-cases, merge_object-validated, merge_object-deprecated,
}
use project_brain.Sdd.Content.{first-put_document}
use project_brain.Sdd.Merge.{
  rest_of, current-workspace, document_of, Placed, Dropped, merged-Placed, merged-workspace,
  removed-Dropped, kept-Dropped, not_validated,
}

module _ (env : Env) (o : KnowledgeObject) (w : World) where
  -- A successful `AppendValidatedObject` of a validated object leaves the workspace a document in
  -- which the object stands once, with its title and summary, in the section of its type and in no
  -- other; every other object stands where it stood; and that section is ordered by the stored
  -- times, newest first.
  pub append-validated :
      (append_validated_object env o w).0 ≡ ok tt
      → (o.status == validated) ≡ true
      → (new : SddDocument) × (document_of o.workspace_id (append_validated_object env o w).1.db
          ≡ some new)
        × Placed o (current o.workspace_id w.db) new
  unfolding append_validated_object
  append-validated h v =
      let (a, b) = within_tx-ok env (append_tx env o) w tt h in
      let old = current o.workspace_id w.db in
      elim (append_tx-cases env o (tick w)) [
        | inl ((e, f), s) ↦ absurd (ground arith)
        | inr s ↦
            let t = env.clock_at w.readings in
            let t' = env.clock_at (w.readings + 1) in
            let new = stored (merge_validated o t t' old) in
            let m =
              merge_object-validated env o old (tick (tick w)) v (ap (λ x. x.0) (sym s) ∙ a) in
            (
              new,
              ap (document_of o.workspace_id) (b ∙ (ap (λ x. x.1.db) s ∙ m))
                  ∙ first-put_document o.workspace_id new w.db.documents (
                      merged-workspace o t t' o.workspace_id old
                        (current-workspace o.workspace_id w.db)),
              merged-Placed o t t' old,
            )
      ]

  -- A successful one of a deprecated object leaves the workspace a document without the object,
  -- where every other object stands where it stood.
  pub append-deprecated :
      (append_validated_object env o w).0 ≡ ok tt
      → (o.status == deprecated) ≡ true
      → Dropped o
          (current o.workspace_id w.db)
          (current o.workspace_id (append_validated_object env o w).1.db)
  unfolding append_validated_object rest_of
  append-deprecated h v =
      let (a, b) = within_tx-ok env (append_tx env o) w tt h in
      let old = current o.workspace_id w.db in
      let ws = o.workspace_id in
      elim (append_tx-cases env o (tick w)) [
        | inl ((e, f), s) ↦ absurd (ground arith)
        | inr s ↦
            elim (merge_object-deprecated env o old (tick (tick w)) (not_validated o v) v
              (ap (λ x. x.0) (sym s) ∙ a)) [
                | inl (n, m) ↦
                    subst (Dropped o old) (sym (ap (current ws) (b ∙ (ap (λ x. x.1.db) s ∙ m))))
                      (kept-Dropped o old n)
                | inr m ↦
                    subst (Dropped o old)
                      (sym (
                        ap (current ws) (b ∙ (ap (λ x. x.1.db) s ∙ m))
                        ∙ ap (or_empty ws) (
                            first-put_document ws (stored (rest_of o (env.clock_at w.readings) old))
                              w.db.documents (current-workspace ws w.db))))
                      (removed-Dropped o (env.clock_at w.readings) old)
              ]
      ]
