-- ===== src/Http/Storing.antt =====
-- What the ingestion endpoint of internal/httpapi/handler.go does to the tables.
use mathlib.Core.Path.{subst}
use project_brain.Base.{
  sym, ℕ, true, Option, none, some, ◌≡◌, ◌≢◌, ◌∙◌, refl, arith, leb, Outcome, ok, err, Err,
}
use project_brain.Domain.{IngestTextResult}
use project_brain.Store.State.{Env, World, lost}
use project_brain.Lifecycle.Write.{Writes, done}
use project_brain.Lifecycle.Refine.{Quiet}
use project_brain.Ingest.Service.{ingest}
use project_brain.Ingest.Contract.{ingest-err, ingest-Writes}
use project_brain.Http.Message.{
  HttpRequest, Headers, Outside, Decoded, too_large, malformed, decoded, IngestBody, clocked,
}
use project_brain.Http.Handlers.{
  HttpServices, ingest_text, ingest_decoded, ingest_answer, to_domain, request_id, id_or_new,
}

module _ (env : Env) (out : Outside) (s : HttpServices) where
  pub request_id-db : (r : HttpRequest) (w : World) → (request_id env out s r w).1.db ≡ w.db
  unfolding request_id
  request_id-db r w = go _
    where
      go : (o : Option ℕ) → (id_or_new env out s o w).1.db ≡ w.db
      go none = refl
      go (some id) = refl

  pub ingest_answer-db :
      (headers : Headers) (x : Outcome IngestTextResult × World)
      → (ingest_answer env out s headers x).1.db ≡ x.1.db
  ingest_answer-db headers (ok r, w) = refl
  ingest_answer-db headers (err e, w) = refl

  ingest_answer-error :
      (headers : Headers) (x : Outcome IngestTextResult × World)
      → leb 400 (ingest_answer env out s headers x).0.status ≡ true
      → (e : Err) × (x.0 ≡ err e)
  ingest_answer-error headers (ok r, w) h = absurd (ground arith)
  ingest_answer-error headers (err e, w) h = (e, refl)

  ingest_decoded-error :
      (r : HttpRequest) (d : Decoded IngestBody) (headers : Headers) (w : World)
      → ((n : ℕ) → env.commit_at n ≢ lost)
      → leb 400 (ingest_decoded env out s r d headers w).0.status ≡ true
      → (ingest_decoded env out s r d headers w).1.db ≡ w.db
  ingest_decoded-error r too_large headers w kept h = refl
  ingest_decoded-error r malformed headers w kept h = refl
  ingest_decoded-error r (decoded b) headers w kept h =
      let (id, w') = request_id env out s r w in
      let run = ingest env s.post_ingest (to_domain env out s b id) w' in
      let (e, failed) = ingest_answer-error headers run h in
      ingest_answer-db headers run
      ∙ (ingest-err env s.post_ingest (to_domain env out s b id) w' kept e failed
          ∙ request_id-db r w)

  -- Unless the answer to a COMMIT is lost, an error of the endpoint means that nothing was stored.
  pub ingest_text-error :
      (r : HttpRequest) (headers : Headers) (w : World)
      → ((n : ℕ) → env.commit_at n ≢ lost)
      → leb 400 (ingest_text env out s r headers w).0.status ≡ true
      → (ingest_text env out s r headers w).1.db ≡ w.db
  unfolding ingest_text
  ingest_text-error r headers w kept h =
      ingest_decoded-error r (out.decode_ingest s.ingest_max r.body) headers (clocked w) kept h

  ingest_decoded-Writes :
      (r : HttpRequest) (d : Decoded IngestBody) (headers : Headers) (w : World)
      → Quiet s.post_ingest
      → Writes w.db (ingest_decoded env out s r d headers w).1.db
  ingest_decoded-Writes r too_large headers w quiet = done
  ingest_decoded-Writes r malformed headers w quiet = done
  ingest_decoded-Writes r (decoded b) headers w quiet =
      let (id, w') = request_id env out s r w in
      let run = ingest env s.post_ingest (to_domain env out s b id) w' in
      subst (λ d. Writes d (ingest_answer env out s headers run).1.db) (request_id-db r w)
        (subst (Writes w'.db) (sym (ingest_answer-db headers run))
          (ingest-Writes env s.post_ingest (to_domain env out s b id) w' quiet))

  pub ingest_text-Writes :
      (r : HttpRequest) (headers : Headers) (w : World)
      → Quiet s.post_ingest
      → Writes w.db (ingest_text env out s r headers w).1.db
  unfolding ingest_text
  ingest_text-Writes r headers w quiet =
      ingest_decoded-Writes r (out.decode_ingest s.ingest_max r.body) headers (clocked w) quiet
