-- ===== src/Http/Auth.antt =====
-- internal/httpapi/auth/auth.go. `bytes` are the bytes of a text, as Go holds it.
use Prim.Native.Char.{code}
use Prim.Native.String.{[], ◌∷◌}
use project_brain.Base.{ℕ, String, Option, none, some, List, eqb, if◌then◌else◌}
use project_brain.Base.Text.{trim_space, is_empty}
use project_brain.Http.Message.{Headers, Response, HttpHandler, json_response, error_response}
use project_brain.Http.Secret.{constant_time_equal}

-- What follows the prefix: `strings.HasPrefix` and the slice after it.
unfoldable pub strip_prefix : String → String → Option String
strip_prefix [] s = some s
strip_prefix (c ∷ p) [] = none
strip_prefix (c ∷ p) (d ∷ s) =
    let rest = strip_prefix p s in if eqb (code c) (code d) then rest else none

unfoldable pub unauthorized : String → Headers → Response
unauthorized message headers =
    json_response 401 headers (error_response "Unauthorized" message "AUTH_REQUIRED")

module _ {S : Type 0} (bytes : String → List ℕ) (expected : String) (next : HttpHandler S) where
  abbrev pub check_token : String → HttpHandler S
  check_token token r headers s =
      if is_empty token
      then (unauthorized "empty bearer token" headers, s)
      else if constant_time_equal (bytes token) (bytes expected)
      then next r headers s
      else (unauthorized "invalid bearer token" headers, s)

  abbrev pub check_scheme : Option String → HttpHandler S
  check_scheme none r headers s = (unauthorized "Authorization must use Bearer scheme" headers, s)
  check_scheme (some rest) r headers s = check_token (trim_space rest) r headers s

  -- `Middleware`
  unfoldable pub auth_middleware : HttpHandler S
  auth_middleware r headers s =
      if is_empty expected
      then next r headers s
      else if is_empty (r.header "Authorization")
      then (unauthorized "missing Authorization header" headers, s)
      else check_scheme (strip_prefix "Bearer " (r.header "Authorization")) r headers s
