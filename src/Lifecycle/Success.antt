-- ===== src/Lifecycle/Success.antt =====
-- What a success of the three services says of the tables: the exact rows before and after.
use project_brain.Base.{
  ◌+◌, true, false, some, ◌∷◌, ◌==◌, ◌≡◌, ap, ◌∙◌, ◌⊎◌, inl, inr, Bool-cases, ok,
}
use project_brain.Base.Text.{trim_space}
use project_brain.Domain.{KnowledgeObject, proposed, debating, status_changed, debate_resolved}
use project_brain.Store.State.{Env, World, normalize, tick}
use project_brain.Store.Objects.{find, restate, set_status}
use project_brain.Store.Tx.{within_tx}
use project_brain.Store.Atomic.{within_tx-ok}
use project_brain.Lifecycle.Validate.{
  ValidateObjectService, ValidateObjectRequest, ValidateObjectResult, validate_tx, validate,
  dispatch, is_allowed_validation_target,
}
use project_brain.Lifecycle.Debate.{
  MarkDebatingRequest, MarkDebatingResult, ResolveDebateRequest, ResolveDebateResult, mark_tx,
  mark_debating, resolve_tx, resolve_debate, is_allowed_resolve_target, is_valid_debate_trigger,
}
use project_brain.Lifecycle.Steps.{after_update, after_log}
use project_brain.Lifecycle.Steps.Validate.{validate_tx-ok, validate_row}
use project_brain.Lifecycle.Steps.Mark.{mark_tx-ok, mark_opened, mark_changed}
use project_brain.Lifecycle.Steps.Resolve.{resolve_tx-ok, resolve_row}
use project_brain.Lifecycle.Contract.{after_commit-ok}

module _ (env : Env) (w : World) where
  abbrev pub Validated :
      ValidateObjectService → ValidateObjectRequest → ValidateObjectResult → Type 0
  Validated s req r =
      let ws = normalize env req.workspace_id in
      let target = trim_space req.target_status in
      (o : KnowledgeObject) × (find ws req.object_id w.db.objects ≡ some o)
      × (is_allowed_validation_target target ≡ true)
      × ((o.status == proposed) ≡ true)
      × (r ≡ record {
        object_id = req.object_id;
        status = target;
        audit_event_id = env.uuid_at w.ids;
      })
      × (u : World) × (u.db ≡ record w.db {
        objects = set_status ws req.object_id target (env.sql_now (w.calls + 1 + 1)) w.db.objects;
        events =
            validate_row env ws target req o.status (env.uuid_at w.ids) (env.clock_at w.readings)
            ∷ w.db.events;
      })
      × ((validate env s req w).1
          ≡ dispatch s target (restate target (env.clock_at (w.readings + 1)) o) u)

  abbrev pub Marked : MarkDebatingRequest → MarkDebatingResult → Type 0
  Marked req r =
      let ws = normalize env req.workspace_id in
      (o : KnowledgeObject) × (find ws req.object_id w.db.objects ≡ some o)
      × (is_valid_debate_trigger req.triggered_by req.suggested_by ≡ true)
      × ((((o.status == debating) ≡ true)
            × (r.duplicate ≡ true)
            × (r.audit_event_id ≡ env.uuid_at w.ids)
            × ((mark_debating env req w).1.db
                ≡ (after_log env (mark_opened env ws req true debating) (tick (tick w))).db))
          ⊎ (((o.status == proposed) ≡ true)
              × (r.duplicate ≡ false)
              × (r.audit_event_id ≡ env.uuid_at (w.ids + 1))
              × ((mark_debating env req w).1.db
                  ≡ (after_log env (mark_opened env ws req false o.status) (
                      after_log env (mark_changed env ws req o.status)
                        (after_update env ws req.object_id debating (tick (tick w))))).db)))

  abbrev pub Resolved : ResolveDebateRequest → ResolveDebateResult → Type 0
  Resolved req r =
      let ws = normalize env req.workspace_id in
      let target = trim_space req.target_status in
      (o : KnowledgeObject) × (find ws req.object_id w.db.objects ≡ some o)
      × (is_allowed_resolve_target target ≡ true)
      × ((o.status == debating) ≡ true)
      × (r.audit_event_id ≡ env.uuid_at (w.ids + 1))
      × ((resolve_debate env req w).1.db
          ≡ (after_log env (resolve_row env ws debate_resolved target req o.status) (
              after_log env (resolve_row env ws status_changed target req o.status)
                (after_update env ws req.object_id target (tick (tick w))))).db)
      × ((resolve_debate env req w).1.db.documents ≡ w.db.documents)

  -- If `Validate` succeeds, the target is validated or deprecated, the row of the object in the
  -- normalised workspace was proposed, and it now has the target status; exactly one row was
  -- logged, whose ID is returned; and the hook of the target ran on the restated object.
  pub validate-ok :
      (s : ValidateObjectService) (req : ValidateObjectRequest) (r : ValidateObjectResult)
      → (validate env s req w).0 ≡ ok r
      → Validated s req r
  unfolding validate
  validate-ok s req r h =
      let ws = normalize env req.workspace_id in
      let target = trim_space req.target_status in
      let body = validate_tx env ws target req in
      elim (Bool-cases (is_allowed_validation_target target)) [
        | inl p ↦
            let (hooked, good, after) =
              after_commit-ok s target (within_tx env body w) r (rw p at h) in
            let (inner, same) = within_tx-ok env body w (r, hooked) good in
            let (o, f, was, fst, snd, e) =
              validate_tx-ok env ws target req (tick w) (r, hooked) inner in
            (
              o,
              f,
              p,
              was,
              fst,
              (within_tx env body w).1,
              same ∙ ap (λ x. x.db) e,
              rw p (after ∙ ap (λ x. dispatch s target x (within_tx env body w).1) snd),
            )
        | inr p ↦ absurd (cc (rw p at h))
      ]

  -- If `MarkDebating` succeeds, the trigger was valid, and either the object was debating, no object
  -- changed and one debate_opened row was logged, or it was proposed, it is debating now, and a
  -- status_changed and then a debate_opened row were logged. The returned ID is the ID of the
  -- debate_opened row. Nothing else changed.
  pub mark_debating-ok :
      (req : MarkDebatingRequest) (r : MarkDebatingResult)
      → (mark_debating env req w).0 ≡ ok r
      → Marked req r
  unfolding mark_debating
  mark_debating-ok req r h =
      let ws = normalize env req.workspace_id in
      let body = mark_tx env ws req in
      elim (Bool-cases (is_valid_debate_trigger req.triggered_by req.suggested_by)) [
        | inl p ↦
            let (inner, same) = within_tx-ok env body w r (rw p at h) in
            let (o, f, split) = mark_tx-ok env ws req (tick w) r inner in
            (
              o,
              f,
              p,
              elim split [
                | inl (was, dup, id, e) ↦ inl (was, dup, id, rw p (same ∙ ap (λ x. x.db) e))
                | inr (was, dup, id, e) ↦ inr (was, dup, id, rw p (same ∙ ap (λ x. x.db) e))
              ],
            )
        | inr p ↦ absurd (cc (rw p at h))
      ]

  -- If `ResolveDebate` succeeds, the target is validated or deprecated, the object was debating, it
  -- now has the target status, and a status_changed and then a debate_resolved row were logged, whose
  -- ID is returned. Nothing else changed: the SDD documents are those from before.
  pub resolve_debate-ok :
      (req : ResolveDebateRequest) (r : ResolveDebateResult)
      → (resolve_debate env req w).0 ≡ ok r
      → Resolved req r
  unfolding resolve_debate
  resolve_debate-ok req r h =
      let ws = normalize env req.workspace_id in
      let target = trim_space req.target_status in
      let body = resolve_tx env ws target req in
      elim (Bool-cases (is_allowed_resolve_target target)) [
        | inl p ↦
            let (inner, same) = within_tx-ok env body w r (rw p at h) in
            let (o, f, was, id, e) = resolve_tx-ok env ws target req (tick w) r inner in
            let after = same ∙ ap (λ x. x.db) e in
            (o, f, p, was, id, rw p after, rw p (ap (λ x. x.documents) after))
        | inr p ↦ absurd (cc (rw p at h))
      ]
