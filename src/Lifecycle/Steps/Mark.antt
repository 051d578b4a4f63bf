-- ===== src/Lifecycle/Steps/Mark.antt =====
-- `MarkDebating` inside its transaction.
use project_brain.Base.{
  ℕ, ◌+◌, String, Bool, true, false, some, [], ◌==◌, ◌≡◌, ◌⊎◌, inl, inr, arith, ok,
}
use project_brain.Domain.{
  KnowledgeObject, AuditEvent, proposed, debating, status_changed, debate_opened,
}
use project_brain.Store.State.{Env, World, tick}
use project_brain.Store.Objects.{find}
use project_brain.Lifecycle.Log.{audit_row}
use project_brain.Lifecycle.Debate.{
  MarkDebatingRequest, MarkDebatingResult, mark_duplicate, mark_proposed, mark_tx,
  build_debate_audit_metadata,
}
use project_brain.Lifecycle.Steps.Common.{
  after_log, log_change-cases, after_update, update_status-cases, find_for_update-cases,
}

module _ (env : Env) (ws : String) where
  abbrev pub mark_changed : MarkDebatingRequest → String → ℕ → ℕ → AuditEvent
  mark_changed req before =
      audit_row ws req.object_id req.actor_id req.reason req.request_id status_changed before
        debating []

  abbrev pub mark_opened : MarkDebatingRequest → Bool → String → ℕ → ℕ → AuditEvent
  mark_opened req duplicate before =
      audit_row ws req.object_id req.actor_id req.reason req.request_id debate_opened before
        debating (build_debate_audit_metadata req duplicate)

  abbrev pub after_mark : MarkDebatingRequest → String → World → World
  after_mark req before w =
      after_log env (mark_opened req false before)
        (after_log env (mark_changed req before) (after_update env ws req.object_id debating w))

  mark_duplicate-ok :
      (req : MarkDebatingRequest) (w : World) (r : MarkDebatingResult)
      → (mark_duplicate env ws req w).0 ≡ ok r
      → (r.duplicate ≡ true)
        × (r.audit_event_id ≡ env.uuid_at w.ids)
        × ((mark_duplicate env ws req w).1 ≡ after_log env (mark_opened req true debating) w)
  unfolding mark_duplicate
  mark_duplicate-ok req w r h = ground arith

  mark_proposed-ok :
      (req : MarkDebatingRequest) (w : World) (r : MarkDebatingResult) (before : String)
      → (mark_proposed env ws req before w).0 ≡ ok r
      → ((before == proposed) ≡ true)
        × (r.duplicate ≡ false)
        × (r.audit_event_id ≡ env.uuid_at (w.ids + 1))
        × ((mark_proposed env ws req before w).1 ≡ after_mark req before w)
  unfolding mark_proposed
  mark_proposed-ok req w r before h = ground (
    arith,
    update_status-cases env ws req.object_id debating w,
    log_change-cases env (mark_changed req before) (mark_opened req false before)
        (after_update env ws req.object_id debating w),
  )

  -- A success found the row, and marked it or logged a duplicate.
  pub mark_tx-ok :
      (req : MarkDebatingRequest) (w : World) (r : MarkDebatingResult)
      → (mark_tx env ws req w).0 ≡ ok r
      → (o : KnowledgeObject) × (find ws req.object_id w.db.objects ≡ some o)
        × ((((o.status == debating) ≡ true)
              × (r.duplicate ≡ true)
              × (r.audit_event_id ≡ env.uuid_at w.ids)
              × ((mark_tx env ws req w).1 ≡ after_log env (mark_opened req true debating) (tick w)))
            ⊎ (((o.status == proposed) ≡ true)
                × (r.duplicate ≡ false)
                × (r.audit_event_id ≡ env.uuid_at (w.ids + 1))
                × ((mark_tx env ws req w).1 ≡ after_mark req o.status (tick w))))
  unfolding mark_tx
  mark_tx-ok req w r h = elim (find_for_update-cases env ws req.object_id w) [
    | inl (e, q) ↦ absurd (ground arith)
    | inr (o, f, q) ↦ (
      o,
      f,
      ground (arith, mark_duplicate-ok req (tick w) r, mark_proposed-ok req (tick w) r o.status),
    )
  ]
