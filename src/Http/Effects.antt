-- ===== src/Http/Effects.antt =====
-- From the handlers to the server: what each handler may do to the tables, `BuildServer` may do.
use mathlib.Core.Path.{subst}
use project_brain.Base.{
  refl, ◌≡◌, zero, suc, leb, ◌&&◌, arith, inl, inr, Bool-cases, ℕ, String, Option, none, some, Bool,
  true, false, List, All, ◌≡◌, sym, Calls, if◌then◌else◌,
}
use project_brain.Base.Text.{is_empty, trim_space}
use project_brain.Store.State.{Env, Db, World}
use project_brain.Http.Message.{
  Headers, ProbeResult, HttpRequest, Response, HttpHandler, Outside, clocked,
}
use project_brain.Http.Handlers.{
  HttpServices, ingest_text, search_knowledge, show_object, check_collision, backlog, sdd_document,
}
use project_brain.Http.Auth.{auth_middleware, check_scheme, check_token, strip_prefix, unauthorized}
use project_brain.Http.Secret.{constant_time_equal}
use project_brain.Http.Limit.{Api, Limiter, limit_middleware, let_through, allow, client_ip}
use project_brain.Http.Problem.{
  problem_middleware, as_problem, write_problem, from_code, wants_problem_json, security_middleware,
  baseline_headers,
}
use project_brain.Http.Server.{
  run_probes, ready_response, failed_probes, Mux, Config, serve_mux, when, at_world,
  readiness_handler, public_routes, protected_routes, protected_chain, root_routes, build_server,
}
use project_brain.Http.Routing.{
  Serves, AllServe, when-AllServe, append-AllServe, if-Serves, serve_mux-Serves,
}
use project_brain.Http.Gate.{Reads, run_probes-db}
use project_brain.Http.Reading.{
  result_of, Looks, QuietReads, search_knowledge-Looks, show_object-Looks, check_collision-Looks,
  backlog-Looks, sdd_document-Looks,
}

ready_response-result :
    (n : ℕ) (headers : Headers) (rs : List ProbeResult)
    → result_of (ready_response n headers rs).body ≡ none
ready_response-result zero headers rs = refl
ready_response-result (suc n) headers rs = refl

-- A relation between a request, its answer, and the tables before and after it: one that holds of an
-- answer that stored nothing, and that the rewriting of an error keeps.
module _ (P : HttpRequest → Response → Db → Db → Type 0)
    (same : (r : HttpRequest) (x : Response) (d : Db) → result_of x.body ≡ none → P r x d d)
    (rewritten : (r : HttpRequest) (x y : Response) (d e : Db)
      → y.status ≡ x.status
      → result_of y.body ≡ none
      → P r x d e
      → P r y d e) where
  abbrev Result : HttpRequest → Api → Response × Api → Type 0
  Result r api x = P r x.0 api.world.db x.1.world.db

  abbrev pub Acts : HttpHandler Api → Type 0
  Acts = Serves Result

  Looks-Acts : (h : HttpHandler World) → Looks h → Acts (at_world h)
  Looks-Acts h looks r headers api =
      let (kept, none_there) = looks r headers api.world in
      subst (P r (h r headers api.world).0 api.world.db) (sym kept)
        (same r (h r headers api.world).0 api.world.db none_there)

  if-Result :
      (b : Bool) (r : HttpRequest) (api : Api) (x y : Response × Api)
      → Result r api x
      → Result r api y
      → Result r api (if b then x else y)
  if-Result true r api x y h k = h
  if-Result false r api x y h k = k

  module _ (bytes : String → List ℕ) (expected : String) (next : HttpHandler Api)
      (h : Acts next) where
    check_token-Acts : (token : String) → Acts (check_token bytes expected next token)
    unfolding unauthorized
    check_token-Acts token r headers api =
        if-Result (is_empty token) r api _ _ (same r _ api.world.db refl) (
          if-Result (constant_time_equal (bytes token) (bytes expected)) r api _ _ (h r headers api)
            (same r _ api.world.db refl))

    check_scheme-Acts : (o : Option String) → Acts (check_scheme bytes expected next o)
    unfolding unauthorized
    check_scheme-Acts none r headers api = same r _ api.world.db refl
    check_scheme-Acts (some rest) r headers api = check_token-Acts (trim_space rest) r headers api

    auth_middleware-Acts : Acts (auth_middleware bytes expected next)
    unfolding auth_middleware unauthorized
    auth_middleware-Acts r headers api = if-Result (is_empty expected) r api _ _ (h r headers api) (
        if-Result (is_empty (r.header "Authorization")) r api _ _ (same r _ api.world.db refl)
          (check_scheme-Acts (strip_prefix "Bearer " (r.header "Authorization")) r headers api))

  module _ (env : Env) (out : Outside) where
    let_through-Acts :
        (l : Limiter) (next : HttpHandler Api) (allowed : Bool)
        → Acts next
        → Acts (let_through l next allowed)
    unfolding unauthorized
    let_through-Acts l next true h r headers api = h r headers api
    let_through-Acts l next false h r headers api = same r _ api.world.db refl

    limit_middleware-Acts :
        (l : Limiter) (next : HttpHandler Api) → Acts next → Acts (limit_middleware l env out next)
    unfolding limit_middleware
    limit_middleware-Acts l next h r headers api = let_through-Acts l next _ h r headers (record {
      world = clocked api.world;
      buckets = (allow l (client_ip l out r) (env.clock_at api.world.readings) api.buckets).1;
    })

    captured-Result :
        (b : Bool) (r : HttpRequest) (headers : Headers) (x : Response) (d e : Db)
        → P r x d e
        → P r (if leb 400 x.status && b then as_problem env out r.path headers x else x) d e
    unfolding write_problem from_code
    captured-Result b r headers x d e h = elim (Bool-cases (leb 400 x.status && b)) [
      | inl error ↦
          rw error (rewritten r x (as_problem env out r.path headers x) d e (ground arith) refl h)
      | inr other ↦ rw other h
    ]

    problem_middleware-Acts :
        (next : HttpHandler Api) → Acts next → Acts (problem_middleware env out next)
    unfolding problem_middleware
    problem_middleware-Acts next h r headers api =
        captured-Result (wants_problem_json env out r) r headers (next r headers api).0 api.world.db
          (next r headers api).1.world.db (h r headers api)

    module _ (s : HttpServices) (quiet : QuietReads s)
        (ingests : Acts (at_world (ingest_text env out s))) (mux : Mux) (bytes : String → List ℕ)
        (l : Limiter) (cfg : Config)
        (unmatched : (patterns : List String)
          → Acts λ r headers api. (mux.unmatched patterns r headers, api)) where
      protected_routes-Acts : AllServe Result (protected_routes env out s cfg)
      protected_routes-Acts = (
        ingests,
        append-AllServe Result (when cfg.search_enabled _) _
            (when-AllServe Result cfg.search_enabled _ (
              Looks-Acts (search_knowledge env out s) (search_knowledge-Looks env out s quiet),
              (Looks-Acts (show_object env out s) (show_object-Looks env out s quiet), tt),
            ))
            (append-AllServe Result (when cfg.collision_enabled _) _
              (when-AllServe Result cfg.collision_enabled _ (
                Looks-Acts (check_collision env out s) (check_collision-Looks env out s quiet),
                tt,
              ))
              (append-AllServe Result (when cfg.backlog_enabled _) _
                (when-AllServe Result cfg.backlog_enabled _
                  (Looks-Acts (backlog env out s) (backlog-Looks env out s quiet), tt))
                (when-AllServe Result cfg.sdd_enabled _
                  (Looks-Acts (sdd_document env out s) (sdd_document-Looks env out s quiet), tt)))),
      )

      protected_chain-Acts : Acts (protected_chain env out s mux bytes l cfg)
      unfolding protected_chain
      protected_chain-Acts = problem_middleware-Acts _ (
          auth_middleware-Acts bytes cfg.auth_token _ (
            limit_middleware-Acts l _ (
              serve_mux-Serves Result mux unmatched (protected_routes env out s cfg)
                protected_routes-Acts)))

      module _ (probes : List (Calls World (Unit {0}))) (reads : All Reads probes) where
        public-Acts : Acts (serve_mux mux (public_routes env out s probes))
        unfolding readiness_handler
        public-Acts = serve_mux-Serves Result mux unmatched (public_routes env out s probes) (
          λ r headers api. same r _ api.world.db refl,
          (
            λ r headers api. same r _ api.world.db refl,
            (
              Looks-Acts (readiness_handler out probes) (λ r headers w. (
                run_probes-db out 0 probes w reads,
                ready_response-result (failed_probes (run_probes out 0 probes w).0) headers
                    (run_probes out 0 probes w).0,
              )),
              tt,
            ),
          ),
        )

        root-Acts : Acts (serve_mux mux (root_routes env out s mux bytes l cfg probes))
        root-Acts =
            serve_mux-Serves Result mux unmatched (root_routes env out s mux bytes l cfg probes)
              (public-Acts, (public-Acts, (public-Acts, (protected_chain-Acts, tt))))

        pub build_server-Acts : Acts (build_server env out s mux bytes l cfg probes)
        unfolding build_server security_middleware
        build_server-Acts =
            if-Serves Result cfg.security_headers_enabled _ _
              (λ r headers api. root-Acts r (baseline_headers cfg.tls_enabled headers) api)
              root-Acts
