-- ===== src/Lifecycle/Trail.antt =====
-- The newest row of an object in the audit trail leads to its status, and the rows take only edges
-- of the lifecycle.
use project_brain.Base.{
  ℕ, String, Bool, true, false, ◌&&◌, Option, none, some, List, [], ◌∷◌, eqb, ◌==◌, ◌≡◌, refl, ◌⊎◌,
  inl, inr, arith, eq_iff, eqb_iff, Bool-cases, if◌then◌else◌,
}
use project_brain.Domain.{KnowledgeObject, AuditEvent, Metadata, Value, text, status_changed}
use project_brain.Store.State.{Db}
use project_brain.Store.Objects.{find, set_status, is_row}
use project_brain.Store.Rows.{status_in, restated, find-is_row, find-set_status, find-fresh}
use project_brain.Lifecycle.Log.{status_metadata}
use project_brain.Lifecycle.Write.{Write, Writes, note, move, create, aside, done, next, is_edge}

abbrev text_of : Value → Option String
text_of (text s) = some s
text_of _ = none

-- The entry "status" of a `before` or `after` column.
abbrev pub status_of : Metadata → Option String
status_of [] = none
status_of ((k, v) ∷ m) = if k == "status" then text_of v else status_of m

abbrev pub is_change_of : String → ℕ → AuditEvent → Bool
is_change_of ws id e = e.workspace_id == ws && eqb e.target_id id && e.action == status_changed

-- The status that the newest status_changed row of an object leads to.
abbrev pub last_status : String → ℕ → List AuditEvent → Option String
last_status ws id [] = none
last_status ws id (e ∷ es) =
    if is_change_of ws id e then status_of e.after else last_status ws id es

-- A status_changed row takes an edge from the status that the row before it led to.
pub record Legal (e : AuditEvent) (es : List AuditEvent) : Type 0 where
  pub from : String
  pub to : String
  pub before : e.before ≡ status_metadata from
  pub after : e.after ≡ status_metadata to
  pub edge : is_edge from to ≡ true
  pub linked :
      (last_status e.workspace_id e.target_id es ≡ none)
      ⊎ (last_status e.workspace_id e.target_id es ≡ some from)

abbrev pub Chained : List AuditEvent → Type 0
Chained [] = Unit
Chained (e ∷ es) = (e.action ≡ status_changed → Legal e es) × Chained es

pub record Trail (d : Db) : Type 0 where
  pub explained :
      (ws : String) (id : ℕ)
      → (last_status ws id d.events ≡ none)
        ⊎ (last_status ws id d.events ≡ status_in (find ws id d.objects))
  pub chained : Chained d.events

-- What `explained` says of one object.
abbrev Explains : String → ℕ → List AuditEvent → List KnowledgeObject → Type 0
Explains ws id events objects =
    (last_status ws id events ≡ none) ⊎ (last_status ws id events ≡ status_in (find ws id objects))

-- The row of the moved object is the one that its event names.
same_row :
    (ws : String) (id : ℕ) (o : KnowledgeObject) (e : AuditEvent) (l : List KnowledgeObject)
    → find e.workspace_id e.target_id l ≡ some o
    → is_change_of ws id e ≡ true
    → find ws id l ≡ some o
same_row ws id o e l f c =
    let w : e.workspace_id ≡ ws = (eq_iff e.workspace_id ws).0 (ground arith) in
    let i : e.target_id ≡ id = (eqb_iff e.target_id id).0 (ground arith) in rw (← w, ← i) f

other_row :
    (ws : String) (id : ℕ) (t : String) (now : ℕ) (e : AuditEvent) (x : Option KnowledgeObject)
    → ((o : KnowledgeObject) → x ≡ some o → is_row ws id o ≡ true)
    → e.action ≡ status_changed
    → is_change_of ws id e ≡ false
    → status_in (restated e.workspace_id e.target_id t now x) ≡ status_in x
other_row ws id t now e none at a c = refl
other_row ws id t now e (some o) at a c = ground (
  arith,
  at o refl,
  eq_iff o.workspace_id ws,
  eq_iff o.workspace_id e.workspace_id,
  eq_iff e.workspace_id ws,
  eq_iff e.action status_changed,
)

Explains-move :
    (ws : String) (id : ℕ) (t : String) (now : ℕ) (o : KnowledgeObject) (e : AuditEvent) (d : Db)
    → find e.workspace_id e.target_id d.objects ≡ some o
    → e.action ≡ status_changed
    → e.after ≡ status_metadata t
    → Explains ws id d.events d.objects
    → Explains ws id (e ∷ d.events) (set_status e.workspace_id e.target_id t now d.objects)
Explains-move ws id t now o e d f a r h =
    rw (find-set_status e.workspace_id ws e.target_id id t now d.objects, r)
      (elim (Bool-cases (is_change_of ws id e)) [
        | inl c ↦ inr (
            rw (
              c,
              same_row ws id o e d.objects f c,
              find-is_row e.workspace_id e.target_id d.objects o f,
            ))
        | inr c ↦
            rw
              (
                c,
                other_row ws id t now e (find ws id d.objects) (λ x. find-is_row ws id d.objects x)
                    a c,
              )
              h
      ])

Explains-note :
    (ws : String) (id : ℕ) (e : AuditEvent) (d : Db)
    → (e.action == status_changed) ≡ false
    → Explains ws id d.events d.objects
    → Explains ws id (e ∷ d.events) d.objects
Explains-note ws id e d n h = ground arith

Explains-create :
    (ws : String) (id : ℕ) (o : KnowledgeObject) (d : Db)
    → (find ws o.id d.objects ≡ none)
    → Explains ws id d.events d.objects
    → Explains ws id d.events (o ∷ d.objects)
Explains-create ws id o d n h = elim (Bool-cases (is_row ws id o)) [
  | inl c ↦
      let i : o.id ≡ id = (eqb_iff o.id id).0 (ground arith) in inl (ground (arith, rw i at n, h))
  | inr c ↦ rw c h
]

Write-Trail : {d e : Db} → Write d e → Trail d → Trail e
Write-Trail {d} (note e n) t = record {
  explained = λ ws id. Explains-note ws id e d n (t.explained ws id);
  chained = (λ c. absurd (ground (arith, eq_iff e.action status_changed)), t.chained);
}
Write-Trail {d} (move o e to now f edge a b r) t = record {
  explained = λ ws id. Explains-move ws id to now o e d f a r (t.explained ws id);
  chained = (
    λ c. record {
      from = o.status;
      to = to;
      before = b;
      after = r;
      edge = edge;
      linked = rw f at (t.explained e.workspace_id e.target_id);
    },
    t.chained,
  );
}
Write-Trail {d} (create o n) t = record {
  explained =
      λ ws id. Explains-create ws id o d (find-fresh ws o.id d.objects n) (t.explained ws id);
  chained = t.chained;
}
Write-Trail {d} (aside s l p) t = record { explained = t.explained; chained = t.chained }

-- Whatever the writes were, the trail still agrees with every status.
pub Writes-Trail : {d e : Db} → Writes d e → Trail d → Trail e
Writes-Trail done t = t
Writes-Trail (next r x) t = Write-Trail x (Writes-Trail r t)
