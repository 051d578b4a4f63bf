-- ===== src/Lifecycle/Debate.antt =====
-- internal/app/object_debate_*.go: `MarkDebating` and `ResolveDebate`.
use project_brain.Base.{
  ℕ, String, Bool, true, false, not, ◌&&◌, ◌||◌, Option, [], ◌∷◌, ◌==◌, if◌then◌else◌, err,
  invalid_transition, Calls, pure, map_err, plain_not_found, fail_unless, ◌>>=◌, ◌>>◌,
}
use project_brain.Base.Text.{trim_space}
use project_brain.Domain.{
  Metadata, text, flag, proposed, debating, validated, deprecated, status_changed, debate_opened,
  debate_resolved, trigger_system, trigger_human, contradiction_detector,
}
use project_brain.Store.State.{Env, World, normalize}
use project_brain.Store.Objects.{find_by_id_for_update, update_status}
use project_brain.Store.Tx.{within_tx}
use project_brain.Lifecycle.Log.{audit_row, log, log_change}

pub record MarkDebatingRequest : Type 0 where
  pub workspace_id : String
  pub object_id : ℕ
  pub triggered_by : String
  pub suggested_by : String
  pub actor_id : String
  pub reason : String
  pub request_id : Option ℕ

pub record MarkDebatingResult : Type 0 where
  pub object_id : ℕ
  pub status : String
  pub audit_event_id : ℕ
  pub duplicate : Bool

pub record ResolveDebateRequest : Type 0 where
  pub workspace_id : String
  pub object_id : ℕ
  pub target_status : String
  pub actor_id : String
  pub reason : String
  pub request_id : Option ℕ

pub record ResolveDebateResult : Type 0 where
  pub object_id : ℕ
  pub status : String
  pub audit_event_id : ℕ

abbrev pub is_allowed_resolve_target : String → Bool
is_allowed_resolve_target status = status == validated || status == deprecated

abbrev pub is_known_debate_suggestion : String → Bool
is_known_debate_suggestion id = id == contradiction_detector

abbrev pub is_valid_debate_trigger : String → String → Bool
is_valid_debate_trigger triggered_by suggested_by =
    if triggered_by == trigger_system
    then not (suggested_by == "") && is_known_debate_suggestion suggested_by
    else if triggered_by == trigger_human
    then suggested_by == ""
    else false

abbrev pub build_debate_audit_metadata : MarkDebatingRequest → Bool → Metadata
build_debate_audit_metadata req true = ("duplicate", flag true) ∷ []
build_debate_audit_metadata req false =
    if req.triggered_by == trigger_system then ("suggested_by", text req.suggested_by) ∷ [] else []

module _ (env : Env) where
  -- The object is debating already: one audit row, and no status change.
  unfoldable pub mark_duplicate : String → MarkDebatingRequest → Calls World MarkDebatingResult
  unfolding log
  mark_duplicate workspace_id req = do
    id ← log env (
        audit_row workspace_id req.object_id req.actor_id req.reason req.request_id debate_opened
          debating debating (build_debate_audit_metadata req true))
    pure (record {
      object_id = req.object_id;
      status = debating;
      audit_event_id = id;
      duplicate = true;
    })

  unfoldable pub mark_proposed :
      String → MarkDebatingRequest → String → Calls World MarkDebatingResult
  unfolding update_status
  mark_proposed workspace_id req status = do
    fail_unless (status == proposed) invalid_transition
    update_status env workspace_id req.object_id debating
    opened_id ←
        log_change env
          (audit_row workspace_id req.object_id req.actor_id req.reason req.request_id
            status_changed status debating [])
          (audit_row workspace_id req.object_id req.actor_id req.reason req.request_id debate_opened
            status debating (build_debate_audit_metadata req false))
    pure (record {
      object_id = req.object_id;
      status = debating;
      audit_event_id = opened_id;
      duplicate = false;
    })

  unfoldable pub mark_tx : String → MarkDebatingRequest → Calls World MarkDebatingResult
  unfolding find_by_id_for_update
  mark_tx workspace_id req = do
    object ← map_err plain_not_found (find_by_id_for_update env workspace_id req.object_id)
    if object.status == debating
        then mark_duplicate workspace_id req
        else mark_proposed workspace_id req object.status

  unfoldable pub mark_debating : MarkDebatingRequest → Calls World MarkDebatingResult
  unfolding mark_tx mark_duplicate mark_proposed log_change within_tx
  mark_debating req w =
      let workspace_id = normalize env req.workspace_id in
      if is_valid_debate_trigger req.triggered_by req.suggested_by
      then within_tx env (mark_tx workspace_id req) w
      else (err invalid_transition, w)

  unfoldable pub resolve_found :
      String → String → ResolveDebateRequest → String → Calls World ResolveDebateResult
  unfolding update_status
  resolve_found workspace_id target req status = do
    fail_unless (status == debating) invalid_transition
    update_status env workspace_id req.object_id target
    resolved_id ←
        log_change env
          (audit_row workspace_id req.object_id req.actor_id req.reason req.request_id
            status_changed status target [])
          (audit_row workspace_id req.object_id req.actor_id req.reason req.request_id
            debate_resolved status target [])
    pure (record { object_id = req.object_id; status = target; audit_event_id = resolved_id })

  unfoldable pub resolve_tx :
      String → String → ResolveDebateRequest → Calls World ResolveDebateResult
  unfolding find_by_id_for_update
  resolve_tx workspace_id target req = do
    object ← map_err plain_not_found (find_by_id_for_update env workspace_id req.object_id)
    resolve_found workspace_id target req object.status

  unfoldable pub resolve_debate : ResolveDebateRequest → Calls World ResolveDebateResult
  unfolding resolve_tx resolve_found log_change within_tx
  resolve_debate req w =
      let workspace_id = normalize env req.workspace_id in
      let target = trim_space req.target_status in
      if is_allowed_resolve_target target
      then within_tx env (resolve_tx workspace_id target req) w
      else (err invalid_transition, w)
