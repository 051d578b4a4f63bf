-- ===== src/Lifecycle/Validate.antt =====
-- internal/app/validate_object.go: `Validate`, the transition of a proposed object.
use project_brain.Base.{
  ℕ, String, Bool, ◌||◌, Option, none, some, [], ◌==◌, if◌then◌else◌, Outcome, ok, err,
  invalid_transition, Calls, pure, map_err, plain_not_found, fail_unless, ◌>>=◌, ◌>>◌,
}
use project_brain.Base.Text.{trim_space}
use project_brain.Domain.{KnowledgeObject, proposed, validated, deprecated, status_changed}
use project_brain.Store.State.{Env, World, normalize, read_clock}
use project_brain.Store.Objects.{find_by_id_for_update, update_status, restate}
use project_brain.Lifecycle.Log.{audit_row, log}
use project_brain.Store.Tx.{within_tx}

-- `PostValidationHook` and `PostDeprecationHook`; `none` is a nil hook
abbrev pub Hook : Type 0
Hook = Option (KnowledgeObject → Calls World (Unit {0}))

pub record ValidateObjectService : Type 0 where
  pub post_validation_hook : Hook
  pub post_deprecation_hook : Hook

pub record ValidateObjectRequest : Type 0 where
  pub workspace_id : String
  pub object_id : ℕ
  pub target_status : String
  pub actor_id : String
  pub reason : String
  pub request_id : Option ℕ

pub record ValidateObjectResult : Type 0 where
  pub object_id : ℕ
  pub status : String
  pub audit_event_id : ℕ

abbrev pub is_allowed_validation_target : String → Bool
is_allowed_validation_target status = status == validated || status == deprecated

-- An error of a hook is logged and dropped; what it wrote stays.
abbrev pub fire : Hook → KnowledgeObject → World → World
fire none object w = w
fire (some hook) object w = (hook object w).1

abbrev pub dispatch : ValidateObjectService → String → KnowledgeObject → World → World
dispatch s target object w =
    if target == validated
    then fire s.post_validation_hook object w
    else if target == deprecated
    then fire s.post_deprecation_hook object w
    else w

abbrev pub after_commit :
    ValidateObjectService
    → String
    → Outcome (ValidateObjectResult × KnowledgeObject) × World
    → Outcome ValidateObjectResult × World
after_commit s target (ok (result, object), w) = (ok result, dispatch s target object w)
after_commit s target (err e, w) = (err e, w)

module _ (env : Env) where
  -- The callback after the row was read, with the object captured for the hook.
  unfoldable pub validate_found :
      String
      → String
      → ValidateObjectRequest
      → KnowledgeObject
      → Calls World (ValidateObjectResult × KnowledgeObject)
  unfolding update_status
  validate_found workspace_id target req object = do
    fail_unless (object.status == proposed) invalid_transition
    update_status env workspace_id req.object_id target
    audit_event_id ← log env (
        audit_row workspace_id req.object_id req.actor_id req.reason req.request_id status_changed
          object.status target [])
    updated_at ← read_clock env
    pure (
      record { object_id = req.object_id; status = target; audit_event_id = audit_event_id },
      restate target updated_at object,
    )

  unfoldable pub validate_tx :
      String → String → ValidateObjectRequest → Calls World (ValidateObjectResult × KnowledgeObject)
  unfolding find_by_id_for_update
  validate_tx workspace_id target req = do
    object ← map_err plain_not_found (find_by_id_for_update env workspace_id req.object_id)
    validate_found workspace_id target req object

  unfoldable pub validate :
      ValidateObjectService → ValidateObjectRequest → World → Outcome ValidateObjectResult × World
  unfolding validate_tx validate_found log within_tx
  validate s req w =
      let workspace_id = normalize env req.workspace_id in
      let target = trim_space req.target_status in
      if is_allowed_validation_target target
      then after_commit s target (within_tx env (validate_tx workspace_id target req) w)
      else (err invalid_transition, w)
