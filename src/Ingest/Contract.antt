-- ===== src/Ingest/Contract.antt =====
-- What an ingestion returns and writes, on success and on error.
use project_brain.Base.{
  ℕ, ◌+◌, Bool, true, false, Option, none, some, ◌∷◌, ◌≡◌, ◌≢◌, refl, ap, ◌∙◌, inl, inr, arith,
  Outcome, ok, err, Err, ok-injective,
}
use project_brain.Domain.{KnowledgeObject, IngestTextRequest, IngestTextResult}
use project_brain.Store.State.{Env, Db, World, tick, lost}
use project_brain.Store.Tx.{within_tx}
use project_brain.Store.Atomic.{within_tx-err, within_tx_rule}
use project_brain.Lifecycle.Validate.{Hook}
use project_brain.Lifecycle.Write.{Writes, note, create, aside, done, next, Writes-trans}
use project_brain.Lifecycle.Refine.{Quiet}
use project_brain.Ingest.Prepare.{PreparedIngestText, prepare_ingest_text}
use project_brain.Ingest.Service.{
  Ingested, ingest_tx, ingest, ingest_prepared, finish_ingest, run_hook,
}
use project_brain.Ingest.Steps.{
  ingest_tx-ok, new_source, new_object, new_link, new_event, duplicate_event,
}

abbrev pub counted : World → World
counted w = record w { readings = w.readings + 1 }

pub finish_ingest-ok :
    (hook : Hook) (x : Outcome Ingested × World) (r : IngestTextResult)
    → (finish_ingest hook x).0 ≡ ok r
    → (o : Option KnowledgeObject) × (x.0 ≡ ok (r, o))
      × ((finish_ingest hook x).1 ≡ run_hook hook r.duplicate o (counted x.1))
finish_ingest-ok hook (ok (r', o), w) r h =
    let e = ok-injective h in
    (o, ap (λ x. ok (x, o)) e, ap (λ x. run_hook hook x.duplicate o (counted w)) e)
finish_ingest-ok hook (err e, w) r h = cc

finish_ingest-err :
    (hook : Hook) (x : Outcome Ingested × World) (e : Err)
    → (finish_ingest hook x).0 ≡ err e
    → (x.0 ≡ err e) × ((finish_ingest hook x).1.db ≡ x.1.db)
finish_ingest-err hook (ok (r, o), w) e h = cc
finish_ingest-err hook (err e', w) e h = (ground arith, refl)

module _ (hook : Hook) (quiet : Quiet hook) where
  run_hook-Writes :
      (duplicate : Bool) (o : Option KnowledgeObject) (w : World)
      → Writes w.db (run_hook hook duplicate o w).db
  run_hook-Writes false (some o) w = quiet o w
  run_hook-Writes true _ w = done
  run_hook-Writes false none w = done

  finish_ingest-Writes :
      (x : Outcome Ingested × World) (d : Db)
      → Writes d x.1.db
      → Writes d (finish_ingest hook x).1.db
  finish_ingest-Writes (ok (r, o), w) d h =
      Writes-trans h (run_hook-Writes r.duplicate o (counted w))
  finish_ingest-Writes (err e, w) d h = h

module _ (env : Env) (p : PreparedIngestText) (request_id : Option ℕ) (w : World) where
  ingest_tx-Writes : Writes w.db (within_tx env (ingest_tx env p request_id) w).1.db
  ingest_tx-Writes = within_tx_rule env (ingest_tx env p request_id) w (Writes w.db) done λ r h.
      elim (ingest_tx-ok env p request_id (tick w) r h) [
        | inl (existing, _, _, e) ↦
            rw e (next done (note (duplicate_event env p request_id (tick (tick w)) existing) refl))
        | inr (_, _, _, unused, _, _, _, _, e) ↦ rw e (
            next
              (next
                (next done (
                  aside (new_source env p request_id (tick (tick w)) ∷ w.db.sources)
                    (new_link env p request_id (tick (tick w)) ∷ w.db.links) w.db.documents))
                (create (new_object env p request_id (tick (tick w))) unused))
              (note (new_event env p request_id (tick (tick w))) refl))
      ]

-- The whole `Ingest`, after the clock was read for the log.
module _ (env : Env) (hook : Hook) (req : IngestTextRequest) (w : World) where
  -- Under a hook that makes legal, logged writes, `Ingest` makes only such writes.
  pub ingest-Writes : Quiet hook → Writes w.db (ingest env hook req w).1.db
  unfolding ingest
  ingest-Writes quiet = go (prepare_ingest_text env req)
    where
      go :
          (x : Outcome PreparedIngestText)
          → Writes w.db (ingest_prepared env hook req x (counted w)).1.db
      go (err e) = done
      go (ok p) =
          finish_ingest-Writes hook quiet
            (within_tx env (ingest_tx env p req.request_id) (counted w)) w.db
            (ingest_tx-Writes env p req.request_id (counted w))

  -- Unless the answer to a COMMIT is lost, a failed `Ingest` leaves the tables as they were.
  pub ingest-err :
      ((n : ℕ) → env.commit_at n ≢ lost)
      → (e : Err) → (ingest env hook req w).0 ≡ err e
      → (ingest env hook req w).1.db ≡ w.db
  unfolding ingest
  ingest-err kept e h = go (prepare_ingest_text env req) h
    where
      go :
          (x : Outcome PreparedIngestText)
          → (ingest_prepared env hook req x (counted w)).0 ≡ err e
          → (ingest_prepared env hook req x (counted w)).1.db ≡ w.db
      go (err e') q = refl
      go (ok p) q =
          let (failed, same) =
            finish_ingest-err hook (within_tx env (ingest_tx env p req.request_id) (counted w)) e
              q in
          same ∙ within_tx-err env (ingest_tx env p req.request_id) (counted w) kept e failed
