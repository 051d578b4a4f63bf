-- ===== src/Lifecycle/Terminal.antt =====
-- A decision stands: no write touches an object that is active, validated or deprecated.
use project_brain.Base.{
  ℕ, String, Bool, true, not, ◌||◌, some, List, ◌==◌, ◌≡◌, sym, arith, eq_iff, eqb_iff, Bool-cases,
  ◌∙◌, inl, inr,
}
use project_brain.Domain.{KnowledgeObject, proposed, debating}
use project_brain.Store.State.{Db}
use project_brain.Store.Objects.{find, is_row}
use project_brain.Store.Rows.{find-is_row, find-set_status, find-fresh}
use project_brain.Lifecycle.Write.{Write, Writes, note, move, create, aside, done, next}

abbrev pub is_settled : String → Bool
is_settled status = not (status == proposed || status == debating)

-- A row that is found by both keys is one row.
one_row :
    (ws ws' : String) (id id' : ℕ) (l : List KnowledgeObject) (o o' : KnowledgeObject)
    → find ws id l ≡ some o
    → find ws' id' l ≡ some o'
    → is_row ws' id' o ≡ true
    → o ≡ o'
one_row ws ws' id id' l o o' f f' r =
    let here = find-is_row ws id l o f in
    let w : ws ≡ ws' =
      sym ((eq_iff o.workspace_id ws).0 (ground arith))
      ∙ (eq_iff o.workspace_id ws').0 (ground arith) in
    let i : id ≡ id' =
      sym ((eqb_iff o.id id).0 (ground arith)) ∙ (eqb_iff o.id id').0 (ground arith) in
    cc (f, f', w, i)

module _ (ws : String) (id : ℕ) (o : KnowledgeObject) (settled : is_settled o.status ≡ true) where
  Write-settled :
      {d e : Db} → Write d e → find ws id d.objects ≡ some o → find ws id e.objects ≡ some o
  Write-settled (note e n) f = f
  Write-settled (aside s l p) f = f
  Write-settled {d} (move o' e t now f' edge a b r) f =
      elim (Bool-cases (is_row e.workspace_id e.target_id o)) [
        | inl c ↦
            let same : o ≡ o' = one_row ws e.workspace_id id e.target_id d.objects o o' f f' c in
            absurd (ground arith)
        | inr c ↦ rw (find-set_status e.workspace_id ws e.target_id id t now d.objects, f, c)
      ]
  Write-settled {d} (create o' n) f = elim (Bool-cases (is_row ws id o')) [
    | inl c ↦
        let i : o'.id ≡ id = (eqb_iff o'.id id).0 (ground arith) in
        let none_found = find-fresh ws id d.objects (rw i at n) in absurd (cc)
    | inr c ↦ rw c f
  ]

  -- Whatever the writes are, the row of a settled object stays what it is.
  pub Writes-settled :
      {d e : Db} → Writes d e → find ws id d.objects ≡ some o → find ws id e.objects ≡ some o
  Writes-settled done f = f
  Writes-settled (next r x) f = Write-settled x (Writes-settled r f)
