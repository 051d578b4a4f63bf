-- ===== src/Tests/Lifecycle.antt =====
-- The lifecycle services at concrete inputs.
use project_brain.Base.{
  ℕ, String, Bool, true, false, none, some, List, [], ◌∷◌, ◌≡◌, refl, ok, err, invalid_transition,
}
use project_brain.Base.Text.{trim_space}
use project_brain.Store.Rows.{status_in}
use project_brain.Store.State.{normalize}
use project_brain.Store.Objects.{find}
use project_brain.Lifecycle.Validate.{ValidateObjectRequest, ValidateObjectResult, validate}
use project_brain.Lifecycle.Debate.{
  MarkDebatingRequest, MarkDebatingResult, ResolveDebateRequest, ResolveDebateResult, mark_debating,
  resolve_debate,
}
use project_brain.Lifecycle.Accounts.{Accounted}
use project_brain.Lifecycle.Trail.{Trail, last_status}
use project_brain.Lifecycle.Contract.{validate_ignores_hooks}
use project_brain.Lifecycle.Success.{
  Validated, Marked, Resolved, validate-ok, mark_debating-ok, resolve_debate-ok,
}
use project_brain.Ingest.Service.{ingest}
use project_brain.Session.{
  Request, marking, resolving, ingesting, handle, serve, serve-Trail, serve-settled, handle-err,
}
use project_brain.Tests.World.{
  test_env, empty_db, world_of, note_with, one, no_hooks, loud_hooks, plain, plain-QuietServices,
  empty-Trail, text_request,
}

abbrev pub validate_to : String → ValidateObjectRequest
validate_to target = record {
  workspace_id = " w";
  object_id = 77;
  target_status = target;
  actor_id = "me";
  reason = "";
  request_id = none;
}

abbrev pub mark_of : ℕ → MarkDebatingRequest
mark_of id = record {
  workspace_id = "w";
  object_id = id;
  triggered_by = "human";
  suggested_by = "";
  actor_id = "me";
  reason = "";
  request_id = none;
}

abbrev pub resolve_of : ℕ → ResolveDebateRequest
resolve_of id = record {
  workspace_id = "w";
  object_id = id;
  target_status = "validated";
  actor_id = "me";
  reason = "";
  request_id = none;
}

abbrev validated_77 : ValidateObjectResult
validated_77 = record { object_id = 77; status = "validated"; audit_event_id = 1 }

validated_once :
    (validate test_env no_hooks (validate_to " validated ") (one "proposed")).0 ≡ ok validated_77
unfolding validate trim_space normalize
validated_once = refl

-- A debate cannot be decided by `Validate`.
validate_debating :
    (validate test_env no_hooks (validate_to "validated") (one "debating")).0
    ≡ err invalid_transition
unfolding validate trim_space normalize
validate_debating = refl

validate-ok_example :
    Validated test_env (one "proposed") no_hooks (validate_to " validated ") validated_77
validate-ok_example =
    validate-ok test_env (one "proposed") no_hooks (validate_to " validated ") validated_77
      validated_once

abbrev marked_77 : Bool → ℕ → MarkDebatingResult
marked_77 duplicate id = record {
  object_id = 77;
  status = "debating";
  audit_event_id = id;
  duplicate = duplicate;
}

marked_once : (mark_debating test_env (mark_of 77) (one "proposed")).0 ≡ ok (marked_77 false 2)
unfolding mark_debating trim_space normalize
marked_once = refl

marked_twice : (mark_debating test_env (mark_of 77) (one "debating")).0 ≡ ok (marked_77 true 1)
unfolding mark_debating trim_space normalize
marked_twice = refl

mark_debating-ok_example : Marked test_env (one "proposed") (mark_of 77) (marked_77 false 2)
mark_debating-ok_example =
    mark_debating-ok test_env (one "proposed") (mark_of 77) (marked_77 false 2) marked_once

abbrev resolved_77 : ResolveDebateResult
resolved_77 = record { object_id = 77; status = "validated"; audit_event_id = 2 }

resolved_once : (resolve_debate test_env (resolve_of 77) (one "debating")).0 ≡ ok resolved_77
unfolding resolve_debate trim_space normalize
resolved_once = refl

resolve_debate-ok_example : Resolved test_env (one "debating") (resolve_of 77) resolved_77
resolve_debate-ok_example =
    resolve_debate-ok test_env (one "debating") (resolve_of 77) resolved_77 resolved_once

validate_ignores_hooks_example :
    (validate test_env no_hooks (validate_to "validated") (one "proposed")).0
    ≡ (validate test_env loud_hooks (validate_to "validated") (one "proposed")).0
validate_ignores_hooks_example =
    validate_ignores_hooks test_env no_hooks loud_hooks (validate_to "validated") (one "proposed")

-- An ingestion, a debate about its object, and the decision.
abbrev pub script : List Request
script =
    ingesting (text_request "hello" "proposed")
    ∷ (marking (mark_of 2) ∷ (resolving (resolve_of 2) ∷ []))

script_status :
    status_in (find "w" 2 (serve test_env plain script (world_of empty_db)).db.objects)
    ≡ some "validated"
unfolding serve ingest mark_debating resolve_debate trim_space normalize
script_status = refl

script_trail :
    last_status "w" 2 (serve test_env plain script (world_of empty_db)).db.events ≡ some "validated"
unfolding serve ingest mark_debating resolve_debate trim_space normalize
script_trail = refl

serve-Trail_example :
    let after = (serve test_env plain script (world_of empty_db)).db in
    Trail after × Accounted empty_db after
serve-Trail_example =
    serve-Trail test_env plain script (world_of empty_db) plain-QuietServices empty-Trail

serve-settled_example :
    find "w" 77 (serve test_env plain script (one "validated")).db.objects
    ≡ some (note_with "validated")
serve-settled_example =
    serve-settled test_env plain script (one "validated") "w" 77 (note_with "validated")
      plain-QuietServices refl refl

refused :
    (handle test_env plain (resolving (resolve_of 77)) (one "proposed")).0 ≡ err invalid_transition
unfolding handle resolve_debate trim_space normalize
refused = refl

handle-err_example :
    (handle test_env plain (resolving (resolve_of 77)) (one "proposed")).1.db ≡ (one "proposed").db
handle-err_example =
    handle-err test_env plain (resolving (resolve_of 77)) (one "proposed") invalid_transition
      (λ n e. cc e) refused
