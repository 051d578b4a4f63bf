-- ===== src/Sdd/Document.antt =====
-- app/sdd_document.go and domain/sdd_document.go: the entries of a document and their sections.
use project_brain.Base.{
  ℕ, String, Bool, not, ◌||◌, List, [], ◌∷◌, ◌++◌, any, select, eqb, ltb, ◌==◌, if◌then◌else◌,
}
use project_brain.Domain.{KnowledgeObject, SddEntry, Sections, SddDocument}

pub data SddSectionKey : Type 0 where
  context decisions constraints open_questions : SddSectionKey

unfoldable pub classify_section : KnowledgeObject → SddSectionKey
classify_section o =
    if o.type == "decision"
    then decisions
    else if o.type == "constraint"
    then constraints
    else if o.type == "open_question"
    then open_questions
    else context

abbrev pub section : SddSectionKey → Sections → List SddEntry
section context s = s.context
section decisions s = s.decisions
section constraints s = s.constraints
section open_questions s = s.open_questions

abbrev pub with_section : SddSectionKey → List SddEntry → Sections → Sections
with_section context l s = record s { context = l }
with_section decisions l s = record s { decisions = l }
with_section constraints l s = record s { constraints = l }
with_section open_questions l s = record s { open_questions = l }

abbrev pub init_sections : Sections
init_sections = record { context = []; decisions = []; constraints = []; open_questions = [] }

abbrev pub empty_document : String → SddDocument
empty_document workspace_id = record {
  workspace_id = workspace_id;
  sections = init_sections;
  updated_at = 0;
}

abbrev pub is_entry : ℕ → SddEntry → Bool
is_entry id e = eqb e.object_id id

abbrev pub other_entries : ℕ → List SddEntry → List SddEntry
other_entries id = select (λ e. not (is_entry id e))

abbrev pub holds : ℕ → Sections → Bool
holds id s =
    any (is_entry id) s.context
    || any (is_entry id) s.decisions
    || any (is_entry id) s.constraints
    || any (is_entry id) s.open_questions

-- `removeByObjectID`: whether an entry was removed, and what is left.
unfoldable pub remove_by_object_id : ℕ → Sections → Bool × Sections
remove_by_object_id id s = (
  holds id s,
  record {
    context = other_entries id s.context;
    decisions = other_entries id s.decisions;
    constraints = other_entries id s.constraints;
    open_questions = other_entries id s.open_questions;
  },
)

-- The `less` of the sort. The canonical texts of two UUIDs are ordered as their numbers.
abbrev pub before : SddEntry → SddEntry → Bool
before a b =
    if eqb a.updated_at b.updated_at
    then ltb b.object_id a.object_id
    else ltb b.updated_at a.updated_at

abbrev pub insert_entry : SddEntry → List SddEntry → List SddEntry
insert_entry e [] = e ∷ []
insert_entry e (x ∷ xs) =
    let rest = insert_entry e xs in if before x e then x ∷ rest else e ∷ (x ∷ xs)

-- `sort.SliceStable`: an entry comes before the later ones that are not less than it.
unfoldable pub sort_section_desc : List SddEntry → List SddEntry
sort_section_desc [] = []
sort_section_desc (e ∷ es) = insert_entry e (sort_section_desc es)

abbrev pub entry_of : KnowledgeObject → ℕ → SddEntry
entry_of o now = record { object_id = o.id; title = o.title; summary = o.summary; updated_at = now }

-- The branch of a validated object, with the two readings of the clock.
unfoldable pub merge_validated : KnowledgeObject → ℕ → ℕ → SddDocument → SddDocument
unfolding remove_by_object_id classify_section sort_section_desc
merge_validated o now now' doc =
    let rest = (remove_by_object_id o.id doc.sections).1 in
    let key = classify_section o in
    record doc {
      sections =
          with_section key (sort_section_desc (section key rest ++ (entry_of o now ∷ []))) rest;
      updated_at = now';
    }
