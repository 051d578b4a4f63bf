-- ===== src/Store/Rows.antt =====
-- What the statements on knowledge_objects do to the row that a later lookup finds.
use project_brain.Base.{
  ℕ, String, true, false, Option, none, some, List, [], ◌∷◌, any, eqb, ◌≡◌, refl, arith,
  if◌then◌else◌,
}
use project_brain.Domain.{KnowledgeObject}
use project_brain.Store.Objects.{is_row, find, restate, set_status}

abbrev pub status_in : Option KnowledgeObject → Option String
status_in none = none
status_in (some o) = some o.status

-- The row after the UPDATE.
abbrev pub restated : String → ℕ → String → ℕ → Option KnowledgeObject → Option KnowledgeObject
restated ws id t now none = none
restated ws id t now (some o) = some (if is_row ws id o then restate t now o else o)

pub find-is_row :
    (ws : String) (id : ℕ) (l : List KnowledgeObject) (o : KnowledgeObject)
    → find ws id l ≡ some o
    → is_row ws id o ≡ true
find-is_row ws id [] o h = cc
find-is_row ws id (x ∷ l) o h = ground (arith, find-is_row ws id l o)

-- An UPDATE of one row is seen by the lookups of that row only.
pub find-set_status :
    (ws ws' : String) (id id' : ℕ) (t : String) (now : ℕ) (l : List KnowledgeObject)
    → find ws' id' (set_status ws id t now l) ≡ restated ws id t now (find ws' id' l)
find-set_status ws ws' id id' t now [] = refl
find-set_status ws ws' id id' t now (x ∷ l) = ground (arith, find-set_status ws ws' id id' t now l)

-- No row has the primary key, so no lookup by it finds one.
pub find-fresh :
    (ws : String) (id : ℕ) (l : List KnowledgeObject)
    → any (λ x. eqb x.id id) l ≡ false
    → find ws id l ≡ none
find-fresh ws id [] h = refl
find-fresh ws id (x ∷ l) h = ground (arith, find-fresh ws id l)
