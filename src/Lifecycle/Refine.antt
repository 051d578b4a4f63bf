-- ===== src/Lifecycle/Refine.antt =====
-- The three lifecycle services make legal, logged writes and nothing else.
use project_brain.Base.{
  ◌+◌, String, true, false, ◌==◌, ◌≡◌, refl, inl, inr, arith, Bool-cases, Outcome, ok, err,
}
use project_brain.Base.Text.{trim_space}
use project_brain.Domain.{
  KnowledgeObject, debating, validated, deprecated, status_changed, debate_resolved,
}
use project_brain.Store.State.{Env, Db, World, normalize, tick}
use project_brain.Store.Tx.{within_tx}
use project_brain.Store.Atomic.{within_tx_rule}
use project_brain.Lifecycle.Validate.{
  Hook, ValidateObjectService, ValidateObjectRequest, ValidateObjectResult, validate_tx, validate,
  fire, dispatch, after_commit, is_allowed_validation_target,
}
use project_brain.Lifecycle.Debate.{
  MarkDebatingRequest, ResolveDebateRequest, mark_tx, mark_debating, resolve_tx, resolve_debate,
  is_allowed_resolve_target, is_valid_debate_trigger,
}
use project_brain.Lifecycle.Write.{Writes, note, move, done, next, Writes-trans}
use project_brain.Lifecycle.Steps.Validate.{validate_tx-ok, validate_row}
use project_brain.Lifecycle.Steps.Mark.{mark_tx-ok, mark_opened, mark_changed}
use project_brain.Lifecycle.Steps.Resolve.{resolve_tx-ok, resolve_row}

-- A hook that writes nothing but legal, logged writes.
abbrev pub Quiet : Hook → Type 0
Quiet h = (o : KnowledgeObject) (w : World) → Writes w.db (fire h o w).db

module _ (s : ValidateObjectService) (validated_quiet : Quiet s.post_validation_hook)
    (deprecated_quiet : Quiet s.post_deprecation_hook) where
  dispatch-Writes :
      (target : String) (o : KnowledgeObject) (w : World) → Writes w.db (dispatch s target o w).db
  dispatch-Writes target o w = elim (Bool-cases (target == validated)) [
    | inl p ↦ rw p (validated_quiet o w)
    | inr p ↦ elim (Bool-cases (target == deprecated)) [
      | inl q ↦ rw (p, q) (deprecated_quiet o w)
      | inr q ↦ rw (p, q) done
    ]
  ]

  after_commit-Writes :
      (target : String) (p : Outcome (ValidateObjectResult × KnowledgeObject) × World) (d : Db)
      → Writes d p.1.db
      → Writes d (after_commit s target p).1.db
  after_commit-Writes target (ok (r, o), w) d h = Writes-trans h (dispatch-Writes target o w)
  after_commit-Writes target (err e, w) d h = h

module _ (env : Env) (ws : String) (w : World) where
  validate_tx-Writes :
      (target : String) (req : ValidateObjectRequest)
      → is_allowed_validation_target target ≡ true
      → Writes w.db (within_tx env (validate_tx env ws target req) w).1.db
  validate_tx-Writes target req allowed =
      within_tx_rule env (validate_tx env ws target req) w (Writes w.db) done λ r h.
        let (o, f, p, _, _, e) = validate_tx-ok env ws target req (tick w) r h in
        rw e (
          next done (
            move o
              (validate_row env ws target req o.status (env.uuid_at w.ids)
                (env.clock_at w.readings))
              target (env.sql_now (w.calls + 1 + 1)) f (ground arith) refl refl refl))

  mark_tx-Writes :
      (req : MarkDebatingRequest) → Writes w.db (within_tx env (mark_tx env ws req) w).1.db
  mark_tx-Writes req = within_tx_rule env (mark_tx env ws req) w (Writes w.db) done λ r h.
      let (o, f, split) = mark_tx-ok env ws req (tick w) r h in
      elim split [
        | inl (p, _, _, e) ↦ rw e (
            next done (
              note
                (mark_opened env ws req true debating (env.uuid_at w.ids) (env.clock_at w.readings))
                refl))
        | inr (p, _, _, e) ↦ rw e (
            next
              (next done (
                move o
                  (mark_changed env ws req o.status (env.uuid_at w.ids) (env.clock_at w.readings))
                  debating (env.sql_now (w.calls + 1 + 1)) f (ground arith) refl refl refl))
              (note
                (mark_opened env ws req false o.status (env.uuid_at (w.ids + 1))
                  (env.clock_at (w.readings + 1)))
                refl))
      ]

  resolve_tx-Writes :
      (target : String) (req : ResolveDebateRequest)
      → is_allowed_resolve_target target ≡ true
      → Writes w.db (within_tx env (resolve_tx env ws target req) w).1.db
  resolve_tx-Writes target req allowed =
      within_tx_rule env (resolve_tx env ws target req) w (Writes w.db) done λ r h.
        let (o, f, p, _, e) = resolve_tx-ok env ws target req (tick w) r h in
        rw e (
          next
            (next done (
              move o
                (resolve_row env ws status_changed target req o.status (env.uuid_at w.ids)
                  (env.clock_at w.readings))
                target (env.sql_now (w.calls + 1 + 1)) f (ground arith) refl refl refl))
            (note
              (resolve_row env ws debate_resolved target req o.status (env.uuid_at (w.ids + 1))
                (env.clock_at (w.readings + 1)))
              refl))

module _ (env : Env) (w : World) where
  -- `Validate` under hooks that make legal, logged writes makes only such writes.
  pub validate-Writes :
      (s : ValidateObjectService)
      → Quiet s.post_validation_hook
      → Quiet s.post_deprecation_hook
      → (req : ValidateObjectRequest) → Writes w.db (validate env s req w).1.db
  unfolding validate
  validate-Writes s v d req =
      let target = trim_space req.target_status in
      elim (Bool-cases (is_allowed_validation_target target)) [
        | inl p ↦ rw p (
            after_commit-Writes s v d target
              (within_tx env (validate_tx env (normalize env req.workspace_id) target req) w) w.db
              (validate_tx-Writes env (normalize env req.workspace_id) w target req p))
        | inr p ↦ rw p done
      ]

  -- `MarkDebating` makes only legal, logged writes, whether it returns a result or an error.
  pub mark_debating-Writes :
      (req : MarkDebatingRequest) → Writes w.db (mark_debating env req w).1.db
  unfolding mark_debating
  mark_debating-Writes req =
      elim (Bool-cases (is_valid_debate_trigger req.triggered_by req.suggested_by)) [
        | inl p ↦ rw p (mark_tx-Writes env (normalize env req.workspace_id) w req)
        | inr p ↦ rw p done
      ]

  -- `ResolveDebate` makes only legal, logged writes, whether it returns a result or an error.
  pub resolve_debate-Writes :
      (req : ResolveDebateRequest) → Writes w.db (resolve_debate env req w).1.db
  unfolding resolve_debate
  resolve_debate-Writes req =
      let target = trim_space req.target_status in
      elim (Bool-cases (is_allowed_resolve_target target)) [
        | inl p ↦ rw p (resolve_tx-Writes env (normalize env req.workspace_id) w target req p)
        | inr p ↦ rw p done
      ]
