-- ===== src/Store/Audit.antt =====
-- postgres/audit_event_repo.go: the audit trail only grows.
use project_brain.Base.{◌∷◌, any, eqb, if◌then◌else◌, ok, err, Calls}
use project_brain.Domain.{AuditEvent}
use project_brain.Store.State.{Env, World, statement}
use project_brain.Store.Objects.{unique_violation}

module _ (env : Env) where
  -- `Create` of the audit event repository
  unfoldable pub create_event : AuditEvent → Calls World (Unit {0})
  create_event e = statement env λ now db.
      if any (λ x. eqb x.id e.id) db.events
      then (err unique_violation, db)
      else (ok tt, record db { events = e ∷ db.events })
