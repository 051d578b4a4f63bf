-- ===== src/Lifecycle/Contract.antt =====
-- What an error of the three services leaves behind, and what the hooks cannot change.
use project_brain.Base.{
  ℕ, String, ◌≡◌, ◌≢◌, refl, inl, inr, arith, Bool-cases, Outcome, ok, err, Err,
}
use project_brain.Base.Text.{trim_space}
use project_brain.Domain.{KnowledgeObject}
use project_brain.Store.State.{Env, World, normalize, lost}
use project_brain.Store.Tx.{within_tx}
use project_brain.Store.Atomic.{within_tx-err}
use project_brain.Lifecycle.Validate.{
  ValidateObjectService, ValidateObjectRequest, ValidateObjectResult, validate_tx, validate,
  dispatch, after_commit, is_allowed_validation_target,
}
use project_brain.Lifecycle.Debate.{
  MarkDebatingRequest, ResolveDebateRequest, mark_tx, mark_debating, resolve_tx, resolve_debate,
  is_allowed_resolve_target, is_valid_debate_trigger,
}

after_commit-err :
    (s : ValidateObjectService) (t : String)
    (p : Outcome (ValidateObjectResult × KnowledgeObject) × World) (e : Err)
    → (after_commit s t p).0 ≡ err e
    → (p.0 ≡ err e) × ((after_commit s t p).1 ≡ p.1)
after_commit-err s t (ok (r, o), w) e h = cc
after_commit-err s t (err e', w) e h = (ground arith, refl)

pub after_commit-ok :
    (s : ValidateObjectService) (t : String)
    (p : Outcome (ValidateObjectResult × KnowledgeObject) × World) (r : ValidateObjectResult)
    → (after_commit s t p).0 ≡ ok r
    → (o : KnowledgeObject) × (p.0 ≡ ok (r, o)) × ((after_commit s t p).1 ≡ dispatch s t o p.1)
after_commit-ok s t (ok (r', o), w) r h = (o, ground arith, refl)
after_commit-ok s t (err e, w) r h = cc

-- The result of `Validate` does not depend on the hooks.
after_commit-same :
    (s s' : ValidateObjectService) (t : String)
    (p : Outcome (ValidateObjectResult × KnowledgeObject) × World)
    → (after_commit s t p).0 ≡ (after_commit s' t p).0
after_commit-same s s' t (ok x, w) = refl
after_commit-same s s' t (err e, w) = refl

module _ (env : Env) where
  -- Whatever the hooks do, errors included, `Validate` returns what it would return under other hooks.
  pub validate_ignores_hooks :
      (s s' : ValidateObjectService) (req : ValidateObjectRequest) (w : World)
      → (validate env s req w).0 ≡ (validate env s' req w).0
  unfolding validate
  validate_ignores_hooks s s' req w =
      let target = trim_space req.target_status in
      elim (Bool-cases (is_allowed_validation_target target)) [
        | inl p ↦ rw p (
            after_commit-same s s' target
              (within_tx env (validate_tx env (normalize env req.workspace_id) target req) w))
        | inr p ↦ rw p
      ]

module _ (env : Env) (kept : (n : ℕ) → env.commit_at n ≢ lost) (w : World) where
  pub validate-err :
      (s : ValidateObjectService) (req : ValidateObjectRequest) (e : Err)
      → (validate env s req w).0 ≡ err e
      → (validate env s req w).1.db ≡ w.db
  unfolding validate
  validate-err s req e h =
      let target = trim_space req.target_status in
      let body = validate_tx env (normalize env req.workspace_id) target req in
      elim (Bool-cases (is_allowed_validation_target target)) [
        | inl p ↦
            let (failed, same) = after_commit-err s target (within_tx env body w) e (rw p at h) in
            rw (p, same) (within_tx-err env body w kept e failed)
        | inr p ↦ rw p
      ]

  pub mark_debating-err :
      (req : MarkDebatingRequest) (e : Err)
      → (mark_debating env req w).0 ≡ err e
      → (mark_debating env req w).1.db ≡ w.db
  unfolding mark_debating
  mark_debating-err req e h =
      elim (Bool-cases (is_valid_debate_trigger req.triggered_by req.suggested_by)) [
        | inl p ↦ rw p (
            within_tx-err env (mark_tx env (normalize env req.workspace_id) req) w kept e
              (rw p at h))
        | inr p ↦ rw p
      ]

  pub resolve_debate-err :
      (req : ResolveDebateRequest) (e : Err)
      → (resolve_debate env req w).0 ≡ err e
      → (resolve_debate env req w).1.db ≡ w.db
  unfolding resolve_debate
  resolve_debate-err req e h =
      let target = trim_space req.target_status in
      elim (Bool-cases (is_allowed_resolve_target target)) [
        | inl p ↦ rw p (
            within_tx-err env (resolve_tx env (normalize env req.workspace_id) target req) w kept e
              (rw p at h))
        | inr p ↦ rw p
      ]
