-- ===== src/Session.antt =====
-- The write paths of internal/app together: any calls of the four services, in any order, over one
-- database, each under an environment that decides which statements fail.
use project_brain.Base.{
  ℕ, String, true, some, List, [], ◌∷◌, ◌≡◌, ◌≢◌, refl, arith, Outcome, ok, err, Err,
}
use project_brain.Domain.{KnowledgeObject, IngestTextRequest}
use project_brain.Store.State.{Env, World, lost}
use project_brain.Store.Objects.{find}
use project_brain.Lifecycle.Validate.{ValidateObjectService, ValidateObjectRequest, Hook, validate}
use project_brain.Lifecycle.Debate.{
  MarkDebatingRequest, ResolveDebateRequest, mark_debating, resolve_debate,
}
use project_brain.Lifecycle.Write.{Writes, done, Writes-trans}
use project_brain.Lifecycle.Refine.{
  Quiet, validate-Writes, mark_debating-Writes, resolve_debate-Writes,
}
use project_brain.Lifecycle.Trail.{Trail, Writes-Trail}
use project_brain.Lifecycle.Accounts.{Accounted, Writes-Accounted}
use project_brain.Lifecycle.Terminal.{is_settled, Writes-settled}
use project_brain.Lifecycle.Contract.{validate-err, mark_debating-err, resolve_debate-err}
use project_brain.Ingest.Service.{ingest}
use project_brain.Ingest.Contract.{ingest-Writes, ingest-err}

-- The services that the composition root builds.
pub record Services : Type 0 where
  pub validate_service : ValidateObjectService
  pub post_ingest : Hook

pub data Request : Type 0 where
  validating : ValidateObjectRequest → Request
  marking : MarkDebatingRequest → Request
  resolving : ResolveDebateRequest → Request
  ingesting : IngestTextRequest → Request

abbrev map_ok : {A : Type 0} → (A → ℕ) → Outcome A × World → Outcome ℕ × World
map_ok f (ok a, w) = (ok (f a), w)
map_ok f (err e, w) = (err e, w)

map_ok-db : {A : Type 0} (f : A → ℕ) (x : Outcome A × World) → (map_ok f x).1 ≡ x.1
map_ok-db f (ok a, w) = refl
map_ok-db f (err e, w) = refl

map_ok-err :
    {A : Type 0} (f : A → ℕ) (x : Outcome A × World) (e : Err)
    → (map_ok f x).0 ≡ err e
    → x.0 ≡ err e
map_ok-err f (ok a, w) e h = cc
map_ok-err f (err e', w) e h = ground arith

abbrev pub QuietServices : Services → Type 0
QuietServices s =
    Quiet s.validate_service.post_validation_hook
    × Quiet s.validate_service.post_deprecation_hook
    × Quiet s.post_ingest

module _ (env : Env) (s : Services) where
  -- The ID of the audit event that the call reports.
  unfoldable pub handle : Request → World → Outcome ℕ × World
  handle (validating req) w = map_ok (λ r. r.audit_event_id) (validate env s.validate_service req w)
  handle (marking req) w = map_ok (λ r. r.audit_event_id) (mark_debating env req w)
  handle (resolving req) w = map_ok (λ r. r.audit_event_id) (resolve_debate env req w)
  handle (ingesting req) w = map_ok (λ r. r.audit_event_id) (ingest env s.post_ingest req w)

  -- An error ends only its own call.
  unfoldable pub serve : List Request → World → World
  unfolding handle
  serve [] w = w
  serve (q ∷ qs) w = serve qs (handle q w).1

  handle-Writes : QuietServices s → (q : Request) (w : World) → Writes w.db (handle q w).1.db
  unfolding handle
  handle-Writes quiet (validating req) w =
      rw map_ok-db (validate-Writes env w s.validate_service quiet.0 quiet.1 req)
  handle-Writes quiet (marking req) w = rw map_ok-db (mark_debating-Writes env w req)
  handle-Writes quiet (resolving req) w = rw map_ok-db (resolve_debate-Writes env w req)
  handle-Writes quiet (ingesting req) w =
      rw map_ok-db (ingest-Writes env s.post_ingest req w quiet.2)

  serve-Writes : QuietServices s → (qs : List Request) (w : World) → Writes w.db (serve qs w).db
  unfolding serve
  serve-Writes quiet [] w = done
  serve-Writes quiet (q ∷ qs) w =
      Writes-trans (handle-Writes quiet q w) (serve-Writes quiet qs (handle q w).1)

  -- Under hooks that make legal, logged writes, and from a database that the trail agrees with, the
  -- trail agrees with the database after any calls: the newest status_changed row of each object, if
  -- there is one, leads to the object's status, and each such row takes an edge of the lifecycle
  -- from the status where the row before it ended. Audit rows are only added, and every object
  -- that was there before is there after, with the status to which the added status_changed rows
  -- of this object lead from the old one, edge by edge: the old status if there are none.
  pub serve-Trail :
      (qs : List Request) (w : World)
      → QuietServices s
      → Trail w.db
      → Trail (serve qs w).db × Accounted w.db (serve qs w).db
  serve-Trail qs w quiet t =
      let writes = serve-Writes quiet qs w in (Writes-Trail writes t, Writes-Accounted writes)

  -- Under hooks that make legal, logged writes, no calls change the row of an object whose status
  -- is neither proposed nor debating: status, content and all else stay.
  pub serve-settled :
      (qs : List Request) (w : World) (ws : String) (id : ℕ) (o : KnowledgeObject)
      → QuietServices s
      → is_settled o.status ≡ true
      → find ws id w.db.objects ≡ some o
      → find ws id (serve qs w).db.objects ≡ some o
  serve-settled qs w ws id o quiet settled f =
      Writes-settled ws id o settled (serve-Writes quiet qs w) f

  -- Unless the answer to a COMMIT is lost, a call that returns an error leaves every table as it was.
  pub handle-err :
      (q : Request) (w : World) (e : Err)
      → ((n : ℕ) → env.commit_at n ≢ lost)
      → (handle q w).0 ≡ err e
      → (handle q w).1.db ≡ w.db
  unfolding handle
  handle-err (validating req) w e kept h =
      rw map_ok-db (validate-err env kept w s.validate_service req e (map_ok-err _ _ e h))
  handle-err (marking req) w e kept h =
      rw map_ok-db (mark_debating-err env kept w req e (map_ok-err _ _ e h))
  handle-err (resolving req) w e kept h =
      rw map_ok-db (resolve_debate-err env kept w req e (map_ok-err _ _ e h))
  handle-err (ingesting req) w e kept h =
      rw map_ok-db (ingest-err env s.post_ingest req w kept e (map_ok-err _ _ e h))
