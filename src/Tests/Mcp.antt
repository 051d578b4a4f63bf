-- ===== src/Tests/Mcp.antt =====
-- The MCP server at concrete lines.
use project_brain.Base.{
  ℕ, String, false, Option, none, some, List, [], ◌∷◌, map, ◌==◌, ◌≡◌, refl, if◌then◌else◌,
}
use project_brain.Base.Text.{trim_space, trim_left, trim_right, is_space}
use project_brain.Mcp.Server.{
  RpcRequest, Wire, Server, done, ToolDef, serve, answer_line, handle, call_tool,
  parse_error_response,
}
use project_brain.Mcp.Replies.{Answers, owed, serve-Answers}

-- A line is a method; "quiet" has no ID, and "?" is no request.
abbrev read : String → Option RpcRequest
read line =
    if line == "?"
    then none
    else some (record { id = if line == "quiet" then "" else "7"; method = line; params = "" })

abbrev wire : Wire
wire = record {
  read_request = read;
  read_protocol_version = λ s. none;
  read_call = λ s. some ("echo", []);
  cancelled_at = λ n. false;
  write_fails = λ n. false;
}

abbrev echo : ToolDef
echo = record { name = "echo"; description = ""; properties = []; required = [] }

abbrev server : Server ℕ
server = record {
  name = "project-brain";
  version = "0.1.0";
  order = "echo" ∷ [];
  tools = ("echo", record { definition = echo; handler = λ args n. (done "hi", n) }) ∷ [];
}

abbrev lines : List String
lines = "tools/call" ∷ ("quiet" ∷ (" " ∷ ("?" ∷ ("nothing" ∷ []))))

replies_run : map (λ r. r.id) (serve wire server 0 lines 0).0 ≡ "7" ∷ ("null" ∷ ("7" ∷ []))
unfolding serve answer_line handle call_tool parse_error_response trim_space trim_left trim_right
    is_space
replies_run = refl

serve-Answers_example : Answers wire server (owed wire lines) (serve wire server 0 lines 0).0
serve-Answers_example = serve-Answers wire server 0 lines 0
