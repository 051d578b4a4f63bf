-- ===== src/Lifecycle/Write.antt =====
-- What the write paths may do to the tables, one row of the audit trail or one new row at a time.
use project_brain.Base.{
  ℕ, String, Bool, true, false, ◌&&◌, ◌||◌, some, List, ◌∷◌, any, eqb, ◌==◌, ◌≡◌,
}
use project_brain.Domain.{
  KnowledgeObject, AuditEvent, Source, ObjectSource, SddDocument, proposed, debating, validated,
  deprecated, status_changed,
}
use project_brain.Store.State.{Db}
use project_brain.Store.Objects.{find, set_status}
use project_brain.Lifecycle.Log.{status_metadata}

-- The lifecycle: proposed is decided or debated, a debate is decided, and decisions stand.
abbrev pub is_edge : String → String → Bool
is_edge s t =
    (s == proposed && (t == debating || t == validated || t == deprecated))
    || (s == debating && (t == validated || t == deprecated))

-- One write. `move` changes the status of an object and logs it in the same breath.
pub data Write (d : Db) : Db → Type 0 where
  note :
      (e : AuditEvent)
      → (e.action == status_changed) ≡ false
      → Write d (record d { events = e ∷ d.events })
  move :
      (o : KnowledgeObject) (e : AuditEvent) (t : String) (now : ℕ)
      → find e.workspace_id e.target_id d.objects ≡ some o
      → is_edge o.status t ≡ true
      → e.action ≡ status_changed
      → e.before ≡ status_metadata o.status
      → e.after ≡ status_metadata t
      → Write d (record d {
        objects = set_status e.workspace_id e.target_id t now d.objects;
        events = e ∷ d.events;
      })
  create :
      (o : KnowledgeObject)
      → any (λ x. eqb x.id o.id) d.objects ≡ false
      → Write d (record d { objects = o ∷ d.objects })
  aside :
      (s : List Source) (l : List ObjectSource) (p : List SddDocument)
      → Write d (record d { sources = s; links = l; documents = p })

pub data Writes (d : Db) : Db → Type 0 where
  done : Writes d d
  next : {e f : Db} → Writes d e → Write e f → Writes d f

pub Writes-trans : {d e f : Db} → Writes d e → Writes e f → Writes d f
Writes-trans r done = r
Writes-trans r (next s x) = next (Writes-trans r s) x
