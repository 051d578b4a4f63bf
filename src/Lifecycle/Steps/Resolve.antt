-- ===== src/Lifecycle/Steps/Resolve.antt =====
-- `ResolveDebate` inside its transaction.
use project_brain.Base.{ℕ, ◌+◌, String, true, some, [], ◌==◌, ◌≡◌, inl, inr, arith, ok}
use project_brain.Domain.{KnowledgeObject, AuditEvent, debating, status_changed, debate_resolved}
use project_brain.Store.State.{Env, World, tick}
use project_brain.Store.Objects.{find}
use project_brain.Lifecycle.Log.{audit_row}
use project_brain.Lifecycle.Debate.{
  ResolveDebateRequest, ResolveDebateResult, resolve_found, resolve_tx,
}
use project_brain.Lifecycle.Steps.Common.{
  after_log, log_change-cases, after_update, update_status-cases, find_for_update-cases,
}

module _ (env : Env) (ws : String) where
  abbrev pub resolve_row : String → String → ResolveDebateRequest → String → ℕ → ℕ → AuditEvent
  resolve_row action target req before =
      audit_row ws req.object_id req.actor_id req.reason req.request_id action before target []

  abbrev pub after_resolve : String → ResolveDebateRequest → String → World → World
  after_resolve target req before w =
      after_log env (resolve_row debate_resolved target req before) (
        after_log env (resolve_row status_changed target req before)
          (after_update env ws req.object_id target w))

  resolve_found-ok :
      (target : String) (req : ResolveDebateRequest) (before : String) (w : World)
      (r : ResolveDebateResult)
      → (resolve_found env ws target req before w).0 ≡ ok r
      → ((before == debating) ≡ true)
        × (r.audit_event_id ≡ env.uuid_at (w.ids + 1))
        × ((resolve_found env ws target req before w).1 ≡ after_resolve target req before w)
  unfolding resolve_found
  resolve_found-ok target req before w r h = ground (
    arith,
    update_status-cases env ws req.object_id target w,
    log_change-cases env (resolve_row status_changed target req before)
        (resolve_row debate_resolved target req before)
        (after_update env ws req.object_id target w),
  )

  -- A success found a debating row, restated it and logged both rows.
  pub resolve_tx-ok :
      (target : String) (req : ResolveDebateRequest) (w : World) (r : ResolveDebateResult)
      → (resolve_tx env ws target req w).0 ≡ ok r
      → (o : KnowledgeObject) × (find ws req.object_id w.db.objects ≡ some o)
        × ((o.status == debating) ≡ true)
        × (r.audit_event_id ≡ env.uuid_at (w.ids + 1))
        × ((resolve_tx env ws target req w).1 ≡ after_resolve target req o.status (tick w))
  unfolding resolve_tx
  resolve_tx-ok target req w r h = elim (find_for_update-cases env ws req.object_id w) [
    | inl (e, q) ↦ absurd (ground arith)
    | inr (o, f, q) ↦
        let (p, a, b) = resolve_found-ok target req o.status (tick w) r (rw q at h) in
        (o, f, p, a, rw q b)
  ]
