-- ===== src/Lifecycle/Steps/Common.antt =====
-- What one statement or one logged row of the lifecycle services does, and with which result.
use project_brain.Base.{
  ℕ, ◌+◌, String, some, ◌∷◌, ◌≡◌, refl, ap, ◌⊎◌, inl, inr, arith, Bool-cases, Option-cases, Outcome,
  ok, err, Err, not_found, failure, map_err, plain_not_found, proceed-ok,
}
use project_brain.Domain.{KnowledgeObject, AuditEvent}
use project_brain.Store.State.{Env, World, tick}
use project_brain.Store.Objects.{find, set_status, update_status, find_by_id_for_update}
use project_brain.Lifecycle.Log.{log, log_change}

-- The tables and the counters after a row was logged.
abbrev pub after_log : Env → (ℕ → ℕ → AuditEvent) → World → World
after_log env row w = record w {
  db = record w.db { events = row (env.uuid_at w.ids) (env.clock_at w.readings) ∷ w.db.events };
  calls = w.calls + 1;
  ids = w.ids + 1;
  readings = w.readings + 1;
}

module _ (env : Env) where
  pub log-ok :
      (row : ℕ → ℕ → AuditEvent) (w : World) (id : ℕ)
      → (log env row w).0 ≡ ok id
      → (id ≡ env.uuid_at w.ids) × ((log env row w).1 ≡ after_log env row w)
  unfolding log
  log-ok row w id h = ground arith

  pub log-cases :
      (row : ℕ → ℕ → AuditEvent) (w : World)
      → ((e : Err) × ((log env row w).0 ≡ err e))
        ⊎ (log env row w ≡ (ok (env.uuid_at w.ids), after_log env row w))
  unfolding log
  log-cases row w = ground arith

  log_change-ok :
      (changed debate : ℕ → ℕ → AuditEvent) (w : World) (id : ℕ)
      → (log_change env changed debate w).0 ≡ ok id
      → (id ≡ env.uuid_at (w.ids + 1))
        × ((log_change env changed debate w).1 ≡ after_log env debate (after_log env changed w))
  unfolding log_change
  log_change-ok changed debate w id h =
      let (a, first, second, e) = proceed-ok (log env changed w) (λ _. log env debate) h in
      let (_, s1) = log-ok changed w a first in
      let (fresh, s2) = log-ok debate (after_log env changed w) id (rw s1 at second) in
      (fresh, rw (e, s1) s2)

  pub log_change-cases :
      (changed debate : ℕ → ℕ → AuditEvent) (w : World)
      → ((e : Err) × ((log_change env changed debate w).0 ≡ err e))
        ⊎ (log_change env changed debate w
            ≡ (ok (env.uuid_at (w.ids + 1)), after_log env debate (after_log env changed w)))
  log_change-cases changed debate w = go (log_change env changed debate w) refl
    where
      go :
          (p : Outcome ℕ × World)
          → log_change env changed debate w ≡ p
          → ((e : Err) × ((log_change env changed debate w).0 ≡ err e))
            ⊎ (log_change env changed debate w
                ≡ (ok (env.uuid_at (w.ids + 1)), after_log env debate (after_log env changed w)))
      go (ok id, s) q =
          let (fresh, e) = log_change-ok changed debate w id (ap (λ x. x.0) q) in
          inr (cc (q, fresh, e, ap (λ x. x.1) q))
      go (err e, s) q = inl (e, ap (λ x. x.0) q)

module _ (env : Env) (ws : String) where
  abbrev pub after_update : ℕ → String → World → World
  after_update id t w = record w {
    db = record w.db { objects = set_status ws id t (env.sql_now w.calls) w.db.objects };
    calls = w.calls + 1;
  }

  pub update_status-cases :
      (id : ℕ) (t : String) (w : World)
      → ((e : Err) × ((update_status env ws id t w).0 ≡ err e))
        ⊎ (update_status env ws id t w ≡ (ok tt, after_update id t w))
  unfolding update_status
  update_status-cases id t w = ground arith

  -- A result of `FindByIDForUpdate` that is handed on is the row of the table.
  pub find_for_update-cases :
      (id : ℕ) (w : World)
      → ((e : Err) × ((map_err plain_not_found (find_by_id_for_update env ws id) w).0 ≡ err e))
        ⊎ ((o : KnowledgeObject) × (find ws id w.db.objects ≡ some o)
            × (map_err plain_not_found (find_by_id_for_update env ws id) w ≡ (ok o, tick w)))
  unfolding find_by_id_for_update
  find_for_update-cases id w = elim (Option-cases (find ws id w.db.objects)) [
    | inl f ↦ elim (Bool-cases (env.fault w.calls)) [
      | inl broken ↦ inl (plain_not_found (failure w.calls), rw broken)
      | inr works ↦ inl (not_found, rw (works, f))
    ]
    | inr (o, f) ↦ elim (Bool-cases (env.fault w.calls)) [
      | inl broken ↦ inl (plain_not_found (failure w.calls), rw broken)
      | inr works ↦ inr (o, f, rw (works, f))
    ]
  ]
