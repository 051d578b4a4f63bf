-- ===== src/Store/Atomic.antt =====
-- What the transactions of db.go guarantee, whatever the callback does.
use project_brain.Base.{ℕ, ◌≡◌, ◌≢◌, ◌⊎◌, inl, inr, arith, ok, err, Err, Calls}
use project_brain.Store.State.{Env, Db, World, lost, tick}
use project_brain.Store.Tx.{within_tx}

module _ (env : Env) {A : Type 0} (body : Calls World A) (w : World) where
  -- All or nothing: the tables are as before, or the callback succeeded and they are as it left them.
  within_tx-cases :
      ((within_tx env body w).1.db ≡ w.db)
      ⊎ ((a : A) × ((body (tick w)).0 ≡ ok a)
          × ((within_tx env body w).1.db ≡ (body (tick w)).1.db))
  unfolding within_tx
  within_tx-cases = ground arith

  -- Unless the answer to a COMMIT was lost, an error means that nothing was written.
  pub within_tx-err :
      ((n : ℕ) → env.commit_at n ≢ lost)
      → (e : Err) → (within_tx env body w).0 ≡ err e
      → (within_tx env body w).1.db ≡ w.db
  unfolding within_tx
  within_tx-err kept e h = ground (arith, kept (body (tick w)).1.calls)

  -- A success was committed, with the result of the callback.
  pub within_tx-ok :
      (a : A)
      → (within_tx env body w).0 ≡ ok a
      → ((body (tick w)).0 ≡ ok a) × ((within_tx env body w).1.db ≡ (body (tick w)).1.db)
  unfolding within_tx
  within_tx-ok a h = ground arith

  -- A relation to the tables before, which holds if nothing changed and after the callback's
  -- success, holds after the transaction.
  pub within_tx_rule :
      (P : Db → Type 0)
      → P w.db
      → ((a : A) → (body (tick w)).0 ≡ ok a → P (body (tick w)).1.db)
      → P (within_tx env body w).1.db
  within_tx_rule P same done = elim within_tx-cases [
    | inl e ↦ rw e same
    | inr (a, h, e) ↦ rw e (done a h)
  ]
