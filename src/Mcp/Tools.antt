-- ===== src/Mcp/Tools.antt =====
-- internal/mcp/tools.go.
use Prim.Native.String.{◌++◌}
use project_brain.Base.{ℕ, String, Option, none, some, [], ◌∷◌, first, ◌==◌, if◌then◌else◌}
use project_brain.Base.Text.{is_empty}
use project_brain.Mcp.Server.{
  Argument, word, float, value, Arguments, Answer, done, failed, ToolHandler, ToolDef, Server,
  add_tool,
}
use project_brain.Mcp.Client.{Client, search_api, collision_api, ingest_api, get_sdd_document}

abbrev pub word_or : String → Option (String × Argument) → String
word_or default (some (key, word v)) = if is_empty v then default else v
word_or default (some (key, float n)) = default
word_or default (some (key, value)) = default
word_or default none = default

unfoldable pub string_arg : Arguments → String → String → String
string_arg args key default = word_or default (first (λ a. a.0 == key) args)

-- int(v) of a float64 is a parameter, with `none` for a negative number.
abbrev pub int_or : (ℕ → Option ℕ) → ℕ → Option (String × Argument) → Option ℕ
int_or truncate default (some (key, float n)) = truncate n
int_or truncate default (some (key, word v)) = some default
int_or truncate default (some (key, value)) = some default
int_or truncate default none = some default

unfoldable pub int_arg : (ℕ → Option ℕ) → Arguments → String → ℕ → Option ℕ
int_arg truncate args key default = int_or truncate default (first (λ a. a.0 == key) args)

abbrev workspace_prop : String → String × String × String
workspace_prop workspace =
    ("workspace_id", "string", "Tenant/workspace scope. Defaults to '" ++ workspace ++ "'.")

abbrev pub search_def : String → ToolDef
search_def workspace = record {
  name = "search_knowledge";
  description =
      "Search the team's knowledge base by meaning (not just keywords). Use this to recall prior decisions, facts, or context before answering.";
  properties =
      ("query", "string", "What to search_api for, in natural language.")
      ∷ (workspace_prop workspace
          ∷ (("limit", "integer", "Max results to return (default 10).") ∷ []));
  required = "query" ∷ [];
}

abbrev pub collision_def : String → ToolDef
collision_def workspace = record {
  name = "check_collision";
  description =
      "Check whether a statement, decision, or claim would collide with existing knowledge BEFORE asserting it. Returns conflicting items with a verdict (duplicate / strong_overlap / related). Use this to avoid contradicting decisions the team already made.";
  properties =
      ("content", "string", "The statement or decision to check for collisions.")
      ∷ (workspace_prop workspace ∷ []);
  required = "content" ∷ [];
}

abbrev pub save_def : String → ToolDef
save_def workspace = record {
  name = "save_knowledge";
  description =
      "Persist a new fact, decision, or note into the team's knowledge base so it can be recalled and collision-checked later. Idempotent on retries: re-invoking with the same content in the same workspace returns the existing object with duplicate=true (no new rows written). The MCP layer derives a content+workspace dedup key, not an agent-controlled idempotency key.";
  properties =
      ("content", "string", "The knowledge to store.")
      ∷ (workspace_prop workspace
          ∷ (("type", "string", "Object type, e.g. 'decision', 'fact', 'document'. Optional.")
              ∷ (("title", "string", "Short title. Optional.") ∷ [])));
  required = "content" ∷ [];
}

abbrev pub document_def : String → ToolDef
document_def workspace = record {
  name = "get_sdd_document";
  description =
      "Retrieve the living SDD document for a workspace as Markdown. The document captures all validated knowledge objects organised into Context, Decisions, Constraints, and Open Questions sections.";
  properties = workspace_prop workspace ∷ [];
  required = [];
}

module _ {S : Type 0} (truncate : ℕ → Option ℕ) (api : Client S) (workspace : String) where
  unfoldable pub search_tool : ToolHandler S
  search_tool args s =
      let query = string_arg args "query" "" in
      if is_empty query
      then (failed "query is required", s)
      else search_api api (string_arg args "workspace_id" workspace) query
          (int_arg truncate args "limit" 0) s

  unfoldable pub collision_tool : ToolHandler S
  collision_tool args s =
      let content = string_arg args "content" "" in
      if is_empty content
      then (failed "content is required", s)
      else collision_api api (string_arg args "workspace_id" workspace) content s

  unfoldable pub save_tool : ToolHandler S
  save_tool args s =
      let content = string_arg args "content" "" in
      if is_empty content
      then (failed "content is required", s)
      else ingest_api api (string_arg args "workspace_id" workspace) content
          (string_arg args "type" "") (string_arg args "title" "") s

  -- Any error is reported as a missing document.
  abbrev pub document_or : String → Answer × S → Answer × S
  document_or workspace_id (done text, s) = (done text, s)
  document_or workspace_id (failed e, s) =
      (done ("no SDD document found for workspace " ++ workspace_id), s)

  unfoldable pub document_tool : ToolHandler S
  document_tool args s =
      let workspace_id = string_arg args "workspace_id" workspace in
      document_or workspace_id (get_sdd_document api workspace_id s)

  -- `RegisterDefaultTools`
  unfoldable pub register_default_tools : Server S → Server S
  unfolding add_tool
  register_default_tools s = add_tool (document_def workspace) document_tool (
      add_tool (save_def workspace) save_tool (
        add_tool (collision_def workspace) collision_tool
          (add_tool (search_def workspace) search_tool s)))
