-- ===== src/Lifecycle/Steps/Validate.antt =====
-- `Validate` inside its transaction.
use project_brain.Base.{ℕ, ◌+◌, String, true, some, [], ◌==◌, ◌≡◌, inl, inr, arith, ok}
use project_brain.Domain.{KnowledgeObject, AuditEvent, proposed, status_changed}
use project_brain.Store.State.{Env, World, tick}
use project_brain.Store.Objects.{find, restate}
use project_brain.Lifecycle.Log.{audit_row}
use project_brain.Lifecycle.Validate.{
  ValidateObjectRequest, ValidateObjectResult, validate_found, validate_tx,
}
use project_brain.Lifecycle.Steps.Common.{
  after_log, log-cases, after_update, update_status-cases, find_for_update-cases,
}

module _ (env : Env) (ws : String) where
  abbrev pub validate_row : String → ValidateObjectRequest → String → ℕ → ℕ → AuditEvent
  validate_row target req before =
      audit_row ws req.object_id req.actor_id req.reason req.request_id status_changed before target
        []

  abbrev pub after_validate : String → ValidateObjectRequest → String → World → World
  after_validate target req before w =
      let u =
        after_log env (validate_row target req before)
          (after_update env ws req.object_id target w) in
      record u { readings = u.readings + 1 }

  validate_found-ok :
      (target : String) (req : ValidateObjectRequest) (o : KnowledgeObject) (w : World)
      (r : ValidateObjectResult × KnowledgeObject)
      → (validate_found env ws target req o w).0 ≡ ok r
      → ((o.status == proposed) ≡ true)
        × (r.0 ≡ record {
          object_id = req.object_id;
          status = target;
          audit_event_id = env.uuid_at w.ids;
        })
        × (r.1 ≡ restate target (env.clock_at (w.readings + 1)) o)
        × ((validate_found env ws target req o w).1 ≡ after_validate target req o.status w)
  unfolding validate_found
  validate_found-ok target req o w r h = ground (
    arith,
    update_status-cases env ws req.object_id target w,
    log-cases env (validate_row target req o.status) (after_update env ws req.object_id target w),
  )

  -- A success found a proposed row, restated it and logged that.
  pub validate_tx-ok :
      (target : String) (req : ValidateObjectRequest) (w : World)
      (r : ValidateObjectResult × KnowledgeObject)
      → (validate_tx env ws target req w).0 ≡ ok r
      → (o : KnowledgeObject) × (find ws req.object_id w.db.objects ≡ some o)
        × ((o.status == proposed) ≡ true)
        × (r.0 ≡ record {
          object_id = req.object_id;
          status = target;
          audit_event_id = env.uuid_at w.ids;
        })
        × (r.1 ≡ restate target (env.clock_at (w.readings + 1)) o)
        × ((validate_tx env ws target req w).1 ≡ after_validate target req o.status (tick w))
  unfolding validate_tx
  validate_tx-ok target req w r h = elim (find_for_update-cases env ws req.object_id w) [
    | inl (e, q) ↦ absurd (ground arith)
    | inr (o, f, q) ↦
        let (p, a, b, c) = validate_found-ok target req o (tick w) r (rw q at h) in
        (o, f, p, a, b, rw q c)
  ]
