-- ===== src/Store/Tx.antt =====
-- postgres/db.go: `WithinIngestionTx` and its literal mirrors, begin, callback, commit or rollback.
use project_brain.Base.{if◌then◌else◌, Outcome, ok, err, Err, failure, joined, Calls}
use project_brain.Store.State.{
  Env, Db, World, Commit, committed, refused, lost, Rollback, rolled_back, tx_closed, broken, tick,
}

abbrev restore : Db → World → World
restore before w = record (tick w) { db = before }

abbrev end_commit {ℓ} : {A : Type ℓ} → Commit → Db → A → World → Outcome A × World
end_commit committed before a w = (ok a, tick w)
end_commit refused before a w = (err (failure w.calls), restore before w)
end_commit lost before a w = (err (failure w.calls), tick w)

-- A broken ROLLBACK leaves nothing either: the server ends the transaction with the connection.
abbrev end_rollback {ℓ} : {A : Type ℓ} → Rollback → Db → Err → World → Outcome A × World
end_rollback rolled_back before e w = (err e, restore before w)
end_rollback tx_closed before e w = (err e, restore before w)
end_rollback broken before e w = (err (joined e (failure w.calls)), restore before w)

module _ (env : Env) where
  abbrev end_tx : {A : Type 0} → Db → Outcome A × World → Outcome A × World
  end_tx before (ok a, w) = end_commit (env.commit_at w.calls) before a w
  end_tx before (err e, w) = end_rollback (env.rollback_at w.calls) before e w

  unfoldable pub within_tx : {A : Type 0} → Calls World A → Calls World A
  within_tx body w =
      if env.fault w.calls then (err (failure w.calls), tick w) else end_tx w.db (body (tick w))
