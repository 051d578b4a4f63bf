-- ===== src/Lifecycle/Log.antt =====
-- The rows of the audit trail that the lifecycle services write (validate_object.go and
-- object_debate_*.go of internal/app).
use project_brain.Base.{ℕ, String, Option, [], ◌∷◌, Calls, pure, ◌>>=◌, ◌>>◌}
use project_brain.Base.Text.{trim_space}
use project_brain.Domain.{AuditEvent, Metadata, text, target_knowledge_object}
use project_brain.Store.State.{Env, World, new_id, read_clock}
use project_brain.Store.Audit.{create_event}

abbrev pub status_metadata : String → Metadata
status_metadata status = ("status", text status) ∷ []

-- The row from what the requests of the services share.
abbrev pub audit_row :
    String
    → ℕ
    → String
    → String
    → Option ℕ
    → String
    → String
    → String
    → Metadata
    → ℕ
    → ℕ
    → AuditEvent
audit_row workspace_id object_id actor_id reason request_id action before after metadata id now =
    record {
      id = id;
      workspace_id = workspace_id;
      actor_id = trim_space actor_id;
      action = action;
      target_type = target_knowledge_object;
      target_id = object_id;
      before = status_metadata before;
      after = status_metadata after;
      reason = trim_space reason;
      request_id = request_id;
      metadata = metadata;
      created_at = now;
    }

module _ (env : Env) where
  -- A fresh ID, the clock and the INSERT of the row; the ID is the result.
  unfoldable pub log : (ℕ → ℕ → AuditEvent) → Calls World ℕ
  unfolding create_event
  log row = do id ← new_id env; now ← read_clock env; create_event env (row id now); pure id

  -- The generic row of the status change, then the row of the debate, whose ID is the result.
  unfoldable pub log_change : (ℕ → ℕ → AuditEvent) → (ℕ → ℕ → AuditEvent) → Calls World ℕ
  unfolding log
  log_change changed debate = do log changed; log debate
