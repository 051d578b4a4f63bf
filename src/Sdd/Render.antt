-- ===== src/Sdd/Render.antt =====
-- app/sdd_document_render.go.
use Prim.Native.String.{◌++◌}
use project_brain.Base.{String, List, [], ◌∷◌}
use project_brain.Domain.{SddEntry, SddDocument}
use project_brain.Sdd.Document.{
  SddSectionKey, context, decisions, constraints, open_questions, section,
}

abbrev pub section_heading : SddSectionKey → String
section_heading context = "Context"
section_heading decisions = "Decisions"
section_heading constraints = "Constraints"
section_heading open_questions = "Open Questions"

abbrev pub sdd_ordered_sections : List SddSectionKey
sdd_ordered_sections = context ∷ (decisions ∷ (constraints ∷ (open_questions ∷ [])))

abbrev pub render_entries : List SddEntry → String
render_entries [] = ""
render_entries (e ∷ es) = "\n### " ++ e.title ++ "\n\n" ++ e.summary ++ "\n" ++ render_entries es

abbrev pub render_section : List SddEntry → String
render_section [] = "\n_(none)_\n"
render_section (e ∷ es) = render_entries (e ∷ es)

abbrev pub render_sections : SddDocument → List SddSectionKey → String
render_sections doc [] = ""
render_sections doc (key ∷ keys) =
    "\n## "
    ++ section_heading key
    ++ "\n"
    ++ render_section (section key doc.sections)
    ++ render_sections doc keys

-- `RenderSddDocumentMarkdown`
unfoldable pub render_sdd_document_markdown : SddDocument → String
render_sdd_document_markdown doc =
    "# SDD Document — " ++ doc.workspace_id ++ "\n" ++ render_sections doc sdd_ordered_sections
