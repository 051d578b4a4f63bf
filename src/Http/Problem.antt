-- ===== src/Http/Problem.antt =====
-- internal/httpapi/problem and internal/httpapi/security: the middlewares that change responses.
use Prim.Native.Char.{Char, code}
use Prim.Native.String.{[], ◌∷◌, ◌++◌}
use project_brain.Base.{ℕ, String, Bool, ◌&&◌, List, any, eqb, leb, ◌==◌, if◌then◌else◌}
use project_brain.Base.Text.{trim_space, is_empty, map_runes}
use project_brain.Store.State.{Env}
use project_brain.Http.Message.{
  HttpRequest, Headers, Response, HttpHandler, Outside, Body, Problem, error_response, rejection,
  problem_body, set_header, get_header,
}

abbrev pub problem_content_type : String
problem_content_type = "application/problem+json"

abbrev pub problem_type_base : String
problem_type_base = "https://project-brain.example/problems/"

-- The texts between the separators, as `strings.Split` at one character.
abbrev pub push_rune : Char → List String → List String
push_rune c List.[] = List.◌∷◌ (c ∷ []) List.[]
push_rune c (List.◌∷◌ p ps) = List.◌∷◌ (c ∷ p) ps

unfoldable pub split_at : ℕ → String → List String
split_at sep [] = List.◌∷◌ [] List.[]
split_at sep (c ∷ s) =
    let rest = split_at sep s in if eqb (code c) sep then List.◌∷◌ [] rest else push_rune c rest

abbrev pub first_part : List String → String
first_part List.[] = []
first_part (List.◌∷◌ p ps) = p

abbrev pub dashed : Char → Char
dashed c = if eqb (code c) 0x5f then "-" else c

abbrev pub legacy_title : String → String → String
legacy_title code other =
    if code == "VALIDATION_ERROR"
    then "Validation Error"
    else if code == "PAYLOAD_TOO_LARGE"
    then "Payload Too Large"
    else if code == "NOT_FOUND"
    then "Not Found"
    else if code == "INTERNAL_ERROR"
    then "Internal Server Error"
    else if code == "INVALID_CURSOR"
    then "Invalid Cursor"
    else if code == "UNAUTHORIZED"
    then "Unauthorized"
    else other

-- What the fields error and code of an error body give. Other bodies have no error status.
abbrev pub legacy_error_body : Body → String × String
legacy_error_body (error_response e message code) = (e, code)
legacy_error_body (rejection e code) = (e, code)
legacy_error_body _ = ("", "")

module _ (env : Env) (out : Outside) where
  unfoldable pub to_kebab : String → String
  to_kebab s = map_runes env.lower (map_runes dashed s)

  unfoldable pub type_for : String → String
  type_for code = if is_empty code then "about:blank" else problem_type_base ++ to_kebab code

  -- The part before a parameter, trimmed.
  abbrev pub is_problem_type : String → Bool
  is_problem_type part =
      out.equal_fold (trim_space (first_part (split_at 0x3b (trim_space part))))
        problem_content_type

  unfoldable pub wants_problem_json : HttpRequest → Bool
  wants_problem_json r = any (λ accept. any is_problem_type (split_at 0x2c accept)) r.accept

  unfoldable pub title_for : String → ℕ → String
  title_for code status = legacy_title code (out.status_text status)

  unfoldable pub from_code : String → String → String → ℕ → Problem
  from_code code detail instance_path status = record {
    type = type_for code;
    title = title_for code status;
    status = status;
    detail = detail;
    instance_path = instance_path;
  }

  -- `Write`
  unfoldable pub write_problem : Headers → Problem → Response
  write_problem headers p =
      let q = record p {
        type = if is_empty p.type then "about:blank" else p.type;
        status = if eqb p.status 0 then 500 else p.status;
      } in
      record {
        status = q.status;
        headers = set_header "Content-Type" problem_content_type headers;
        body = problem_body q;
      }

  abbrev pub as_problem : String → Headers → Response → Response
  as_problem path headers captured =
      let (e, code) = legacy_error_body captured.body in
      write_problem headers (from_code code e path captured.status)

  -- `problem.Middleware`: the captured headers go with the captured response.
  unfoldable pub problem_middleware : {S : Type 0} → HttpHandler S → HttpHandler S
  problem_middleware next r headers s =
      let (captured, s') = next r headers s in
      (
        if leb 400 captured.status && wants_problem_json r
            then as_problem r.path headers captured
            else captured,
        s',
      )

unfoldable pub set_if_absent : String → String → Headers → Headers
set_if_absent key value h = if is_empty (get_header key h) then set_header key value h else h

unfoldable pub baseline_headers : Bool → Headers → Headers
unfolding set_if_absent
baseline_headers enable_hsts headers =
    let h = set_if_absent "Cache-Control" "no-store, max-age=0" (
      set_if_absent "Cross-Origin-Resource-Policy" "same-site" (
        set_if_absent "Permissions-Policy"
          "accelerometer=(), camera=(), geolocation=(), gyroscope=(), magnetometer=(), microphone=(), payment=(), usb=()"
          (set_if_absent "Referrer-Policy" "no-referrer" (
            set_if_absent "X-Frame-Options" "DENY"
              (set_if_absent "X-Content-Type-Options" "nosniff" headers))))) in
    if enable_hsts
    then set_if_absent "Strict-Transport-Security" "max-age=63072000; includeSubDomains" h
    else h

-- `security.Middleware`
unfoldable pub security_middleware : {S : Type 0} → Bool → HttpHandler S → HttpHandler S
security_middleware enable_hsts next r headers s = next r (baseline_headers enable_hsts headers) s
