-- ===== src/Mcp/Client.antt =====
-- internal/mcp/client.go. net/http, net/url, encoding/json and strconv are parameters.
use Prim.Native.String.{◌++◌}
use project_brain.Base.{
  ℕ, String, Bool, ◌&&◌, Option, none, some, List, [], ◌∷◌, ltb, leb, eqb, if◌then◌else◌,
}
use project_brain.Base.Text.{trim_space, is_empty}
use project_brain.Mcp.Server.{Answer, done, failed}

-- A request of the client. `body` is JSON, and a request with a body says so.
pub record ApiCall : Type 0 where
  pub method : String
  pub url : String
  pub body : Option String
  pub authorization : Option String

-- Where a call ended: in a bad URL, in the network, in reading the body, or in a response.
pub data Exchange : Type 0 where
  bad_url unreachable unread : String → Exchange
  answered : ℕ → String → Exchange

pub record Client (S : Type 0) : Type 0 where
  pub base_url : String
  pub token : String
  pub send : ApiCall → S → Exchange × S
  pub encode_query : List (String × String) → String  -- url.Values.Encode
  pub itoa : ℕ → String
  pub marshal_collision : String → String → String  -- workspace_id, content
  pub marshal_ingest : String → String → String → String → String  -- and object type, title
  pub trim_slashes : String → String  -- strings.TrimRight(s, "/")

module _ {S : Type 0} where
  -- `NewClient`, with the rest of the client as it is wired.
  abbrev pub new_client : Client S → String → String → Client S
  new_client outside base_url token = record outside {
    base_url = outside.trim_slashes base_url;
    token = token;
  }

  module _ (c : Client S) where
    abbrev pub bearer : Option String
    bearer = if is_empty c.token then none else some ("Bearer " ++ c.token)

    abbrev pub is_success : ℕ → Bool
    is_success status = leb 200 status && ltb status 300

    abbrev pub status_error : String → String → ℕ → String → Answer
    status_error method path status body = failed (
        "API " ++ method ++ " " ++ path ++ " returned " ++ c.itoa status ++ ": " ++ trim_space body)

    abbrev pub answer_of : String → String → Exchange × S → Answer × S
    answer_of method path (bad_url e, s) = (failed e, s)
    answer_of method path (unreachable e, s) =
        (failed ("call " ++ method ++ " " ++ path ++ ": " ++ e), s)
    answer_of method path (unread e, s) = (failed ("read response: " ++ e), s)
    answer_of method path (answered status body, s) =
        (if is_success status then done body else status_error method path status body, s)

    -- `do`
    unfoldable pub call_api : String → String → Option String → S → Answer × S
    call_api method path body s = answer_of method path (
        c.send
          (record {
            method = method;
            url = c.base_url ++ path;
            body = body;
            authorization = bearer;
          })
          s)

    abbrev pub limit_parameter : Option ℕ → List (String × String)
    limit_parameter none = []
    limit_parameter (some n) = if eqb n 0 then [] else ("limit", c.itoa n) ∷ []

    -- A negative limit is `none`.
    unfoldable pub search_api : String → String → Option ℕ → S → Answer × S
    search_api workspace_id query limit =
        call_api "GET"
          ("/v1/search?"
            ++ c.encode_query
                (("workspace_id", workspace_id) ∷ (("q", query) ∷ limit_parameter limit)))
          none

    unfoldable pub collision_api : String → String → S → Answer × S
    collision_api workspace_id content =
        call_api "POST" "/v1/check-collision" (some (c.marshal_collision workspace_id content))

    unfoldable pub ingest_api : String → String → String → String → S → Answer × S
    ingest_api workspace_id content type title =
        call_api "POST" "/v1/ingest-text" (some (c.marshal_ingest workspace_id content type title))

    -- A 404 is app.ErrNotFound.
    abbrev pub document_answer_of : String → Exchange × S → Answer × S
    document_answer_of path (answered status body, s) =
        if eqb status 404
        then (failed "not found", s)
        else answer_of "GET" path (answered status body, s)
    document_answer_of path (bad_url e, s) = answer_of "GET" path (bad_url e, s)
    document_answer_of path (unreachable e, s) = answer_of "GET" path (unreachable e, s)
    document_answer_of path (unread e, s) = answer_of "GET" path (unread e, s)

    unfoldable pub get_sdd_document : String → S → Answer × S
    get_sdd_document workspace_id s =
        let path = "/v1/sdd-document?" ++ c.encode_query (("workspace_id", workspace_id) ∷ []) in
        document_answer_of path (
          c.send
            (record {
              method = "GET";
              url = c.base_url ++ path;
              body = none;
              authorization = bearer;
            })
            s)
