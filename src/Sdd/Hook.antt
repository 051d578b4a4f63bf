-- ===== src/Sdd/Hook.antt =====
-- The hook of the composition root writes documents only, so the lifecycle theorems hold with it.
use project_brain.Base.{◌==◌, ◌≡◌, refl, inl, inr, arith, Bool-cases, Calls, List, some}
use project_brain.Domain.{KnowledgeObject, SddDocument, validated, deprecated}
use project_brain.Store.State.{Env, World, tick}
use project_brain.Store.Atomic.{within_tx_rule}
use project_brain.Lifecycle.Validate.{Hook}
use project_brain.Lifecycle.Write.{Writes, aside, done, next}
use project_brain.Lifecycle.Refine.{Quiet}
use project_brain.Lifecycle.Trail.{Trail}
use project_brain.Lifecycle.Accounts.{Accounted}
use project_brain.Session.{Request, serve, serve-Trail}
use project_brain.Sdd.Document.{remove_by_object_id}
use project_brain.Sdd.Steps.{current, append_tx-cases}
use project_brain.Sdd.Storage.{upsert_document}
use project_brain.Sdd.Service.{merge_object, append_tx, append_validated_object, wired}

-- A call that leaves every table but the documents as it is.
abbrev OnlyDocuments : {A : Type 0} → Calls World A → Type 0
OnlyDocuments m = (w : World) → (m w).1.db ≡ record w.db { documents = (m w).1.db.documents }

module _ (env : Env) where
  upsert-OnlyDocuments : (doc : SddDocument) → OnlyDocuments (upsert_document env doc)
  unfolding upsert_document
  upsert-OnlyDocuments doc w = ground arith

  merge-OnlyDocuments :
      (o : KnowledgeObject) (doc : SddDocument) → OnlyDocuments (merge_object env o doc)
  unfolding merge_object
  merge-OnlyDocuments o doc w = elim (Bool-cases (o.status == validated)) [
    | inl p ↦ rw p (upsert-OnlyDocuments _ _)
    | inr p ↦ elim (Bool-cases (o.status == deprecated)) [
      | inr q ↦ rw (p, q) refl
      | inl q ↦ elim (Bool-cases (remove_by_object_id o.id doc.sections).0) [
        | inl r ↦ rw (p, q, r) (upsert-OnlyDocuments _ _)
        | inr r ↦ rw (p, q, r) refl
      ]
    ]
  ]

  append-OnlyDocuments : (o : KnowledgeObject) → OnlyDocuments (append_tx env o)
  append-OnlyDocuments o w = elim (append_tx-cases env o w) [
    | inl (_, s) ↦ rw s refl
    | inr s ↦ rw s (merge-OnlyDocuments o (current o.workspace_id w.db) (tick w))
  ]

  -- `AppendValidatedObject` as a hook makes only legal, logged writes.
  pub append-Quiet : Quiet (some (append_validated_object env))
  unfolding append_validated_object
  append-Quiet o w = within_tx_rule env (append_tx env o) w (Writes w.db) done λ a h.
      let e = append-OnlyDocuments o (tick w) in
      rw e (next done (aside w.db.sources w.db.links (append_tx env o (tick w)).1.db.documents))

  -- With the hooks that the composition root wires, and an ingestion hook that makes only legal,
  -- logged writes, the trail agrees with the database after any calls, as in `serve-Trail`, if it
  -- did before. Audit rows are only added, and every object that was there before is there
  -- after, with the status to which the added status_changed rows of this object lead from the old
  -- one, edge by edge: the old status if there are none.
  pub serve-wired-Trail :
      (post_ingest : Hook) (qs : List Request) (w : World)
      → Quiet post_ingest
      → Trail w.db
      → let after =
          (serve env
            (record { validate_service = wired env; post_ingest = post_ingest })
            qs
            w).db in
        Trail after × Accounted w.db after
  serve-wired-Trail post_ingest qs w quiet t =
      serve-Trail env (record { validate_service = wired env; post_ingest = post_ingest }) qs w
        (append-Quiet, append-Quiet, quiet) t
