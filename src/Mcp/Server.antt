-- ===== src/Mcp/Server.antt =====
-- internal/mcp/server.go. The lines that bufio.Scanner reads are the input, and encoding/json is a
-- parameter. An ID is its raw JSON, empty when the field is absent.
use Prim.Native.String.{◌++◌}
use project_brain.Base.{
  ℕ, suc, String, Bool, true, false, not, Option, none, some, List, [], ◌∷◌, first, select, any,
  ◌==◌, if◌then◌else◌,
}
use project_brain.Base.Text.{trim_space, is_empty}

pub record RpcRequest : Type 0 where
  pub id : String
  pub method : String
  pub params : String

-- An argument of a tool: a text, a float64 by its bits, or another JSON value.
pub data Argument : Type 0 where
  word : String → Argument
  float : ℕ → Argument
  value : Argument

abbrev pub Arguments : Type 0
Arguments = List (String × Argument)

-- The result of a tool, or the text of its error.
pub data Answer : Type 0 where
  done failed : String → Answer

abbrev pub ToolHandler : Type 0 → Type 0
ToolHandler S = Arguments → S → Answer × S

-- `properties` are names with a type and a description.
pub record ToolDef : Type 0 where
  pub name : String
  pub description : String
  pub properties : List (String × String × String)
  pub required : List String

pub record Tool (S : Type 0) : Type 0 where
  pub definition : ToolDef
  pub handler : ToolHandler S

pub record Server (S : Type 0) : Type 0 where
  pub name : String
  pub version : String
  pub order : List String
  pub tools : List (String × Tool S)

pub data RpcResult : Type 0 where
  initialized : String → String → String → RpcResult
  empty_result : RpcResult
  tool_list : List ToolDef → RpcResult
  text_content error_content : String → RpcResult

pub data RpcBody : Type 0 where
  result : RpcResult → RpcBody
  rpc_error : ℕ → String → RpcBody  -- the code is the number with a minus sign

pub record RpcResponse : Type 0 where
  pub id : String
  pub body : RpcBody

-- json.Unmarshal, with `none` for an error, and what the surroundings do while the server runs.
pub record Wire : Type 0 where
  pub read_request : String → Option RpcRequest
  pub read_protocol_version : String → Option String
  pub read_call : String → Option (String × Arguments)
  pub cancelled_at : ℕ → Bool  -- ctx.Done before a line
  pub write_fails : ℕ → Bool  -- the encoder at a line

pub data Ending : Type 0 where
  exhausted cancelled broken : Ending

abbrev pub protocol_version : String
protocol_version = "2024-11-05"

unfoldable pub parse_error_response : RpcResponse
parse_error_response = record { id = "null"; body = rpc_error 32700 "parse error" }

abbrev append_name : String → List String → List String
append_name name [] = name ∷ []
append_name name (x ∷ xs) = x ∷ append_name name xs

abbrev pub rpc_ok : String → RpcResult → RpcResponse
rpc_ok id r = record { id = id; body = result r }

abbrev pub rpc_fail : String → ℕ → String → RpcResponse
rpc_fail id code message = record { id = id; body = rpc_error code message }

abbrev pub full_or : String → Option String → String
full_or default none = default
full_or default (some v) = if is_empty v then default else v

module _ {S : Type 0} where
  abbrev pub new_server : String → String → Server S
  new_server name version = record { name = name; version = version; order = []; tools = [] }

  abbrev pub is_tool : String → String × Tool S → Bool
  is_tool name t = t.0 == name

  -- A second tool with the name takes the place of the first.
  unfoldable pub add_tool : ToolDef → ToolHandler S → Server S → Server S
  add_tool definition h s = record s {
    order =
        if any (is_tool definition.name) s.tools
        then s.order
        else append_name definition.name s.order;
    tools =
        (definition.name, record { definition = definition; handler = h })
        ∷ select (λ t. not (is_tool definition.name t)) s.tools;
  }

  abbrev pub defs_of : List String → List (String × Tool S) → List ToolDef
  defs_of [] tools = []
  defs_of (name ∷ names) tools = elim (first (is_tool name) tools) [
    | none ↦ defs_of names tools
    | some t ↦ t.1.definition ∷ defs_of names tools
  ]

  module _ (wire : Wire) (s : Server S) where
    unfoldable pub initialize_result : String → RpcResult
    initialize_result params =
        initialized
          (if is_empty params
            then protocol_version
            else full_or protocol_version (wire.read_protocol_version params))
          s.name s.version

    unfoldable pub listed_tools : List ToolDef
    listed_tools = defs_of s.order s.tools

    abbrev pub content_of : String → Answer × S → RpcResponse × S
    content_of id (done text, st) = (rpc_ok id (text_content text), st)
    content_of id (failed message, st) = (rpc_ok id (error_content message), st)

    abbrev pub call_named :
        String → String → Arguments → Option (String × Tool S) → S → RpcResponse × S
    call_named id name args none st = (rpc_ok id (error_content ("unknown tool: " ++ name)), st)
    call_named id name args (some t) st = content_of id (t.1.handler args st)

    abbrev pub call_read : String → Option (String × Arguments) → S → RpcResponse × S
    call_read id none st = (rpc_fail id 32602 "invalid tools/call params", st)
    call_read id (some call) st = call_named id call.0 call.1 (first (is_tool call.0) s.tools) st

    unfoldable pub call_tool : RpcRequest → S → RpcResponse × S
    call_tool req st = call_read req.id (wire.read_call req.params) st

    abbrev pub reply : RpcResponse × S → Option RpcResponse × S
    reply (r, st) = (some r, st)

    -- `handle`, where `none` is that no response is due.
    unfoldable pub handle : RpcRequest → S → Option RpcResponse × S
    handle req st =
        if req.method == "initialize"
        then (some (rpc_ok req.id (initialize_result req.params)), st)
        else if req.method == "notifications/initialized"
        then (none, st)
        else if req.method == "ping"
        then (some (rpc_ok req.id empty_result), st)
        else if req.method == "tools/list"
        then (some (rpc_ok req.id (tool_list listed_tools)), st)
        else if req.method == "tools/call"
        then reply (call_tool req st)
        else if is_empty req.id
        then (none, st)
        else (some (rpc_fail req.id 32601 ("method not found: " ++ req.method)), st)

    abbrev pub answer_read : Option RpcRequest → S → Option RpcResponse × S
    answer_read none st = (some parse_error_response, st)
    answer_read (some req) st = handle req st

    -- What one line is answered with.
    unfoldable pub answer_line : String → S → Option RpcResponse × S
    unfolding handle call_tool
    answer_line line st =
        let text = trim_space line in
        if is_empty text then (none, st) else answer_read (wire.read_request text) st

    abbrev pub written :
        Bool
        → Option RpcResponse
        → S
        → (List RpcResponse × Ending × S)
        → List RpcResponse × Ending × S
    written fails none st rest = rest
    written true (some r) st rest = ([], broken, st)
    written false (some r) st rest = (r ∷ rest.0, rest.1, rest.2)

    -- `Serve` from the n-th line on: the responses written, how it ended, and the state.
    unfoldable pub serve : ℕ → List String → S → List RpcResponse × Ending × S
    unfolding answer_line
    serve n [] st = ([], exhausted, st)
    serve n (line ∷ lines) st =
        let (r, st') = answer_line line st in
        let rest = serve (suc n) lines st' in
        if wire.cancelled_at n then ([], cancelled, st) else written (wire.write_fails n) r st' rest
