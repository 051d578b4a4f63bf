-- ===== src/Lifecycle/Accounts.antt =====
-- What the audit rows of a run of writes say of the objects that were there before it.
use mathlib.Core.Option.{some-injective}
use project_brain.Base.{
  ℕ, String, true, false, Option, none, some, List, [], ◌∷◌, ◌++◌, any, eqb, ◌==◌, ◌≡◌, refl, sym,
  ap, ◌∙◌, inl, inr, arith, eq_iff, eqb_iff, Bool-cases,
}
use project_brain.Domain.{KnowledgeObject, AuditEvent, status_changed}
use project_brain.Store.State.{Db}
use project_brain.Store.Objects.{find, set_status, is_row, restate}
use project_brain.Store.Rows.{restated, find-is_row, find-set_status, find-fresh}
use project_brain.Lifecycle.Log.{status_metadata}
use project_brain.Lifecycle.Write.{Write, Writes, note, move, create, aside, done, next, is_edge}
use project_brain.Lifecycle.Trail.{is_change_of}

-- The rows lead an object from a status to a status: its status_changed rows, read from the oldest
-- to the newest, each take an edge of the lifecycle from where the one before ended.
pub data Leads (ws : String) (id : ℕ) (from : String) : List AuditEvent → String → Type 0 where
  stays : Leads ws id from [] from
  passes :
      {t : String} {es : List AuditEvent} (e : AuditEvent)
      → is_change_of ws id e ≡ false
      → Leads ws id from es t
      → Leads ws id from (e ∷ es) t
  takes :
      {t : String} {es : List AuditEvent} (e : AuditEvent) (u : String)
      → is_change_of ws id e ≡ true
      → e.before ≡ status_metadata t
      → e.after ≡ status_metadata u
      → is_edge t u ≡ true
      → Leads ws id from es t
      → Leads ws id from (e ∷ es) u

-- What became of the row that a lookup found.
abbrev pub Kept :
    String → ℕ → Option KnowledgeObject → List AuditEvent → List KnowledgeObject → Type 0
Kept ws id none rows objects = Unit
Kept ws id (some o) rows objects =
    (o' : KnowledgeObject) × (find ws id objects ≡ some o') × Leads ws id o.status rows o'.status

-- The trail grew by some rows, and they lead each object that was there to the status it has now.
pub record Accounted (d e : Db) : Type 0 where
  pub rows : List AuditEvent
  pub grown : e.events ≡ rows ++ d.events
  pub kept : (ws : String) (id : ℕ) → Kept ws id (find ws id d.objects) rows e.objects

-- A row of (ws, id) is the row of another pair only if the pairs are the same.
other_pair :
    (ws : String) (id : ℕ) (o : KnowledgeObject) (e : AuditEvent)
    → is_row ws id o ≡ true
    → e.action ≡ status_changed
    → is_change_of ws id e ≡ false
    → is_row e.workspace_id e.target_id o ≡ false
other_pair ws id o e at a c = ground (
  arith,
  eq_iff o.workspace_id ws,
  eq_iff o.workspace_id e.workspace_id,
  eq_iff e.workspace_id ws,
  eq_iff e.action status_changed,
)

same_pair :
    (ws : String) (id : ℕ) (e : AuditEvent)
    → is_change_of ws id e ≡ true
    → (e.workspace_id ≡ ws) × (e.target_id ≡ id)
same_pair ws id e c =
    ((eq_iff e.workspace_id ws).0 (ground arith), (eqb_iff e.target_id id).0 (ground arith))

Kept-move :
    (ws : String) (id : ℕ) (t : String) (now : ℕ) (o : Option KnowledgeObject) (x : KnowledgeObject)
    (e : AuditEvent) (rows : List AuditEvent) (l : List KnowledgeObject)
    → find e.workspace_id e.target_id l ≡ some x
    → is_edge x.status t ≡ true
    → e.action ≡ status_changed
    → e.before ≡ status_metadata x.status
    → e.after ≡ status_metadata t
    → Kept ws id o rows l
    → Kept ws id o (e ∷ rows) (set_status e.workspace_id e.target_id t now l)
Kept-move ws id t now none x e rows l f edge a b r k = tt
Kept-move ws id t now (some o) x e rows l f edge a b r (o', g, leads) =
    let seen : find ws id (set_status e.workspace_id e.target_id t now l)
        ≡ restated e.workspace_id e.target_id t now (some o') =
      find-set_status e.workspace_id ws e.target_id id t now l
      ∙ ap (restated e.workspace_id e.target_id t now) g in
    elim (Bool-cases (is_change_of ws id e)) [
      | inl c ↦
          let (w, i) = same_pair ws id e c in
          let same : o' ≡ x = some-injective o' x (
            sym g
            ∙ (ap (λ y. find y id l) (sym w) ∙ (ap (λ y. find e.workspace_id y l) (sym i) ∙ f))) in
          let hit : is_row e.workspace_id e.target_id o' ≡ true =
            ap (is_row e.workspace_id e.target_id) same
            ∙ find-is_row e.workspace_id e.target_id l x f in
          (
            restate t now o',
            seen ∙ rw hit refl,
            takes e t c (b ∙ ap (λ y. status_metadata y.status) (sym same)) r
                (ap (λ y. is_edge y.status t) same ∙ edge) leads,
          )
      | inr c ↦ (
        o',
        seen ∙ rw (other_pair ws id o' e (find-is_row ws id l o' g) a c) refl,
        passes e c leads,
      )
    ]

Kept-note :
    (ws : String) (id : ℕ) (o : Option KnowledgeObject) (e : AuditEvent) (rows : List AuditEvent)
    (l : List KnowledgeObject)
    → (e.action == status_changed) ≡ false
    → Kept ws id o rows l
    → Kept ws id o (e ∷ rows) l
Kept-note ws id none e rows l n k = tt
Kept-note ws id (some o) e rows l n (o', g, leads) = (o', g, passes e (ground arith) leads)

none≢some : {A : Type 0} {a : A} → none ≡ some a → ⊥
none≢some h = cc

Kept-create :
    (ws : String) (id : ℕ) (o : Option KnowledgeObject) (x : KnowledgeObject)
    (rows : List AuditEvent) (l : List KnowledgeObject)
    → any (λ y. eqb y.id x.id) l ≡ false
    → Kept ws id o rows l
    → Kept ws id o rows (x ∷ l)
Kept-create ws id none x rows l n k = tt
Kept-create ws id (some o) x rows l n (o', g, leads) = elim (Bool-cases (is_row ws id x)) [
  | inl c ↦
      let i : x.id ≡ id = (eqb_iff x.id id).0 (ground arith) in
      absurd (none≢some (sym (find-fresh ws x.id l n) ∙ (ap (λ y. find ws y l) i ∙ g)))
  | inr c ↦ (o', rw c g, leads)
]

untouched :
    (ws : String) (id : ℕ) (o : Option KnowledgeObject) (l : List KnowledgeObject)
    → find ws id l ≡ o
    → Kept ws id o [] l
untouched ws id none l h = tt
untouched ws id (some o) l h = (o, h, stays)

Write-Accounted : {d e f : Db} → Write e f → Accounted d e → Accounted d f
Write-Accounted {d} {e} (note x n) t = record {
  rows = x ∷ t.rows;
  grown = ap (λ l. x ∷ l) t.grown;
  kept = λ ws id. Kept-note ws id (find ws id d.objects) x t.rows e.objects n (t.kept ws id);
}
Write-Accounted {d} {e} (move o x to now f edge a b r) t = record {
  rows = x ∷ t.rows;
  grown = ap (λ l. x ∷ l) t.grown;
  kept = λ ws id.
      Kept-move ws id to now (find ws id d.objects) o x t.rows e.objects f edge a b r
        (t.kept ws id);
}
Write-Accounted {d} {e} (create o n) t = record {
  rows = t.rows;
  grown = t.grown;
  kept = λ ws id. Kept-create ws id (find ws id d.objects) o t.rows e.objects n (t.kept ws id);
}
Write-Accounted (aside s l p) t = record { rows = t.rows; grown = t.grown; kept = t.kept }

-- Whatever the writes were, the rows that they added account for every object.
pub Writes-Accounted : {d e : Db} → Writes d e → Accounted d e
Writes-Accounted {d} done = record {
  rows = [];
  grown = refl;
  kept = λ ws id. untouched ws id (find ws id d.objects) d.objects refl;
}
Writes-Accounted (next r x) = Write-Accounted x (Writes-Accounted r)
