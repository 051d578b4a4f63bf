-- ===== src/Http/Server.antt =====
-- internal/runtime/server.go: the server that `BuildServer` wires, with the health handlers of
-- internal/httpapi. What http.ServeMux does with a path is a parameter.
use project_brain.Base.{
  ℕ, zero, suc, String, Bool, not, true, false, Option, none, some, List, [], ◌∷◌, ◌++◌, map, first,
  select, length, ◌==◌, if◌then◌else◌, Outcome, ok, err, Calls,
}
use project_brain.Store.State.{Env, World}
use project_brain.Http.Message.{
  HttpRequest, Headers, Response, HttpHandler, Outside, ProbeResult, json_response, alive,
  readiness,
}
use project_brain.Http.Handlers.{
  HttpServices, ingest_text, search_knowledge, show_object, check_collision, backlog, sdd_document,
}
use project_brain.Http.Auth.{auth_middleware}
use project_brain.Http.Limit.{Limiter, Api, limit_middleware}
use project_brain.Http.Problem.{problem_middleware, security_middleware}

-- `route` picks a registered pattern; `unmatched` answers when none serves the request.
pub record Mux : Type 0 where
  pub route : List String → HttpRequest → Option String
  pub unmatched : List String → HttpRequest → Headers → Response

-- The parts that are there or not, as the composition root decides.
pub record Config : Type 0 where
  pub auth_token : String
  pub security_headers_enabled : Bool
  pub tls_enabled : Bool
  pub search_enabled : Bool
  pub collision_enabled : Bool
  pub backlog_enabled : Bool
  pub sdd_enabled : Bool

abbrev pub Routes : Type 0
Routes = List (String × HttpHandler Api)

abbrev pub when : Bool → Routes → Routes
when b routes = if b then routes else []

abbrev pub at_world : HttpHandler World → HttpHandler Api
at_world h r headers api =
    let (response, w) = h r headers api.world in (response, record api { world = w })

-- `HealthHandler` and `LivenessHandler`
abbrev pub health : HttpHandler Api
health r headers api = (json_response 200 headers (alive "ok"), api)

abbrev pub probe_result : (Outside × ℕ) → Outcome (Unit {0}) → ProbeResult
probe_result (out, i) (ok u) = record { index = i; is_ok = true; message = "" }
probe_result (out, i) (err e) = record { index = i; is_ok = false; message = out.error_text e }

abbrev pub run_probes :
    Outside → ℕ → List (Calls World (Unit {0})) → World → List ProbeResult × World
run_probes out i [] w = ([], w)
run_probes out i (probe ∷ probes) w =
    let (r, w') = probe w in
    let (rs, w'') = run_probes out (suc i) probes w' in (probe_result (out, i) r ∷ rs, w'')

abbrev pub failed_probes : List ProbeResult → ℕ
failed_probes rs = length (select (λ r. not r.is_ok) rs)

abbrev pub ready_response : ℕ → Headers → List ProbeResult → Response
ready_response zero headers rs = json_response 200 headers (readiness "ready" 0 rs)
ready_response (suc n) headers rs = json_response 503 headers (readiness "not-ready" (suc n) rs)

-- `ReadinessHandler`
unfoldable pub readiness_handler : Outside → List (Calls World (Unit {0})) → HttpHandler World
readiness_handler out probes r headers w =
    let (rs, w') = run_probes out 0 probes w in (ready_response (failed_probes rs) headers rs, w')

module _ (mux : Mux) where
  abbrev pub dispatch_route : List String → Option (String × HttpHandler Api) → HttpHandler Api
  dispatch_route patterns none r headers api = (mux.unmatched patterns r headers, api)
  dispatch_route patterns (some route) r headers api = route.1 r headers api

  abbrev pub routed : Routes → Option String → Option (String × HttpHandler Api)
  routed routes none = none
  routed routes (some pattern) = first (λ route. route.0 == pattern) routes

  unfoldable pub serve_mux : Routes → HttpHandler Api
  serve_mux routes r headers api =
      let patterns = map (λ route. route.0) routes in
      dispatch_route patterns (routed routes (mux.route patterns r)) r headers api

module _ (env : Env) (out : Outside) (s : HttpServices) where
  abbrev pub protected_routes : Config → Routes
  protected_routes cfg =
      ("POST /v1/ingest-text", at_world (ingest_text env out s))
      ∷ (when cfg.search_enabled (
            ("GET /v1/search", at_world (search_knowledge env out s))
            ∷ (("GET /v1/objects/{id}", at_world (show_object env out s)) ∷ []))
          ++ (when cfg.collision_enabled
                (("POST /v1/check-collision", at_world (check_collision env out s)) ∷ [])
              ++ (when cfg.backlog_enabled (("GET /v1/backlog", at_world (backlog env out s)) ∷ [])
                  ++ when cfg.sdd_enabled
                      (("GET /v1/sdd-document", at_world (sdd_document env out s)) ∷ []))))

  abbrev pub public_routes : List (Calls World (Unit {0})) → Routes
  public_routes probes =
      ("GET /v1/health", health)
      ∷ (("GET /v1/liveness", health)
          ∷ (("GET /v1/readiness", at_world (readiness_handler out probes)) ∷ []))

  module _ (mux : Mux) (bytes : String → List ℕ) (l : Limiter) (cfg : Config) where
    unfoldable pub protected_chain : HttpHandler Api
    unfolding serve_mux
    protected_chain = problem_middleware env out (
        auth_middleware bytes cfg.auth_token
          (limit_middleware l env out (serve_mux mux (protected_routes cfg))))

    abbrev pub root_routes : List (Calls World (Unit {0})) → Routes
    root_routes probes =
        let public = serve_mux mux (public_routes probes) in
        ("GET /v1/health", public)
        ∷ (("GET /v1/liveness", public)
            ∷ (("GET /v1/readiness", public) ∷ (("/", protected_chain) ∷ [])))

    -- `BuildServer`: the handler of the server.
    unfoldable pub build_server : List (Calls World (Unit {0})) → HttpHandler Api
    unfolding serve_mux protected_chain
    build_server probes =
        if cfg.security_headers_enabled
        then security_middleware cfg.tls_enabled (serve_mux mux (root_routes probes))
        else serve_mux mux (root_routes probes)
