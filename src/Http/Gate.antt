-- ===== src/Http/Gate.antt =====
-- The whole server and the token: `BuildServer` of internal/runtime/server.go.
use mathlib.Core.Path.{subst}
use project_brain.Base.{
  ℕ, suc, String, Bool, false, none, some, List, All, ◌≡◌, ◌≢◌, ◌⊎◌, refl, sym, ap, ◌∙◌, ◌&&◌, inl,
  inr, arith, Option, Bool-cases, eq_iff, leb, ◌==◌, map, Calls, if◌then◌else◌,
}
use project_brain.Base.Text.{is_empty}
use project_brain.Store.State.{Env, World}
use project_brain.Http.Message.{HttpRequest, Headers, HttpHandler, Outside, Response}
use project_brain.Http.Handlers.{HttpServices}
use project_brain.Http.Auth.{auth_middleware}
use project_brain.Http.Limit.{Api, Limiter, limit_middleware}
use project_brain.Http.Problem.{
  problem_middleware, as_problem, write_problem, from_code, security_middleware, baseline_headers,
}
use project_brain.Http.Server.{
  Mux, Config, serve_mux, readiness_handler, run_probes, public_routes, protected_routes,
  protected_chain, root_routes, build_server, dispatch_route, routed,
}
use project_brain.Http.Routing.{Serves, serve_mux-Serves, if-Serves}
use project_brain.Http.Access.{Bearer, auth_middleware-cases}

-- The tables and the buckets of the rate limiter are as before.
abbrev pub Untouched : Api → Api → Type 0
Untouched api after = (after.world.db ≡ api.world.db) × (after.buckets ≡ api.buckets)

-- A probe reads: it does not change the tables.
abbrev pub Reads : Calls World (Unit {0}) → Type 0
Reads probe = (w : World) → (probe w).1.db ≡ w.db

pub run_probes-db :
    (out : Outside) (i : ℕ) (probes : List (Calls World (Unit {0}))) (w : World)
    → All Reads probes
    → (run_probes out i probes w).1.db ≡ w.db
run_probes-db out i List.[] w h = refl
run_probes-db out i (List.◌∷◌ probe probes) w (reads, h) =
    run_probes-db out (suc i) probes (probe w).1 h ∙ reads w

module _ {S : Type 0} (env : Env) (out : Outside) (next : HttpHandler S) where
  if-status :
      (wants : Bool) (x : Response) (r : HttpRequest) (headers : Headers)
      → (if leb 400 x.status && wants then as_problem env out r.path headers x else x).status
        ≡ x.status
  unfolding write_problem from_code
  if-status wants x r headers = ground arith

  -- The rewriting of an error keeps its status.
  pub problem_middleware-status :
      (r : HttpRequest) (headers : Headers) (s : S)
      → (problem_middleware env out next r headers s).0.status ≡ (next r headers s).0.status
  unfolding problem_middleware
  problem_middleware-status r headers s = if-status _ (next r headers s).0 r headers

  pub problem_middleware-state :
      (r : HttpRequest) (headers : Headers) (s : S)
      → (problem_middleware env out next r headers s).1 ≡ (next r headers s).1
  unfolding problem_middleware
  problem_middleware-state r headers s = refl

module _ (env : Env) (out : Outside) (s : HttpServices) (mux : Mux) (bytes : String → List ℕ)
    (l : Limiter) (cfg : Config) (faithful : (a b : String) → bytes a ≡ bytes b → a ≡ b)
    (set : is_empty cfg.auth_token ≡ false) where
  protected_chain-cases :
      (r : HttpRequest) (headers : Headers) (api : Api)
      → Bearer cfg.auth_token r
        ⊎ (((protected_chain env out s mux bytes l cfg r headers api).0.status ≡ 401)
            × ((protected_chain env out s mux bytes l cfg r headers api).1 ≡ api))
  unfolding protected_chain
  protected_chain-cases r headers api =
      let inner = limit_middleware l env out (serve_mux mux (protected_routes env out s cfg)) in
      let guarded = auth_middleware bytes cfg.auth_token inner in
      elim (auth_middleware-cases bytes cfg.auth_token inner faithful set r headers api) [
        | inl (b, passed) ↦ inl b
        | inr (refused, kept) ↦ inr (
          problem_middleware-status env out guarded r headers api ∙ refused,
          problem_middleware-state env out guarded r headers api ∙ kept,
        )
      ]

  abbrev Kept : HttpRequest → Api → Response × Api → Type 0
  Kept r api x = Bearer cfg.auth_token r ⊎ Untouched api x.1

  module _ (probes : List (Calls World (Unit {0}))) (reads : All Reads probes) where
    public-Kept : Serves Kept (serve_mux mux (public_routes env out s probes))
    unfolding readiness_handler
    public-Kept =
        serve_mux-Serves Kept mux (λ patterns r headers api. inr (refl, refl))
          (public_routes env out s probes)
          (
            λ r headers api. inr (refl, refl),
            (
              λ r headers api. inr (refl, refl),
              (λ r headers api. inr (run_probes-db out 0 probes api.world reads, refl), tt),
            ),
          )

    protected-Kept : Serves Kept (protected_chain env out s mux bytes l cfg)
    protected-Kept r headers api = elim (protected_chain-cases r headers api) [
      | inl b ↦ inl b
      | inr (refused, kept) ↦ inr (ap (λ a. a.world.db) kept, ap (λ a. a.buckets) kept)
    ]

    root-Kept : Serves Kept (serve_mux mux (root_routes env out s mux bytes l cfg probes))
    root-Kept =
        serve_mux-Serves Kept mux (λ patterns r headers api. inr (refl, refl))
          (root_routes env out s mux bytes l cfg probes)
          (public-Kept, (public-Kept, (public-Kept, (protected-Kept, tt))))

    abbrev pub root_patterns : List String
    root_patterns = map (λ route. route.0) (root_routes env out s mux bytes l cfg probes)

    abbrev Refused : HttpRequest → Response × Api → Type 0
    Refused r x =
        Bearer cfg.auth_token r ⊎ ((x.0.status ≡ 401) ⊎ (mux.route root_patterns r ≢ some "/"))

    abbrev answer_at : Option String → HttpRequest → Headers → Api → Response × Api
    answer_at o r headers api =
        dispatch_route mux root_patterns
          (routed mux (root_routes env out s mux bytes l cfg probes) o) r headers api

    slash-Refused :
        (r : HttpRequest) (headers : Headers) (api : Api)
        → Refused r (answer_at (some "/") r headers api)
    slash-Refused r headers api = elim (protected_chain-cases r headers api) [
      | inl b ↦ inl b
      | inr (refused, kept) ↦ inr (inl refused)
    ]

    answer_at-Refused :
        (o : Option String) (r : HttpRequest) (headers : Headers) (api : Api)
        → mux.route root_patterns r ≡ o
        → Refused r (answer_at o r headers api)
    answer_at-Refused none r headers api e = inr (inr λ f. cc)
    answer_at-Refused (some pattern) r headers api e = elim (Bool-cases (pattern == "/")) [
      | inl slash ↦
          subst (λ p. Refused r (answer_at (some p) r headers api))
            (sym ((eq_iff pattern "/").0 slash)) (slash-Refused r headers api)
      | inr other ↦ inr (inr λ f. ground (arith, eq_iff pattern "/", e, f, other))
    ]

    root-Refused :
        (r : HttpRequest) (headers : Headers) (api : Api)
        → Refused r (serve_mux mux (root_routes env out s mux bytes l cfg probes) r headers api)
    unfolding serve_mux
    root-Refused r headers api = answer_at-Refused (mux.route root_patterns r) r headers api refl

    abbrev pub Gated : HttpRequest → Api → Response × Api → Type 0
    Gated r api x =
        Bearer cfg.auth_token r
        ⊎ (Untouched api x.1 × ((x.0.status ≡ 401) ⊎ (mux.route root_patterns r ≢ some "/")))

    root-Gated : Serves Gated (serve_mux mux (root_routes env out s mux bytes l cfg probes))
    root-Gated r headers api = elim (root-Kept r headers api) [
      | inl b ↦ inl b
      | inr untouched ↦ elim (root-Refused r headers api) [
        | inl b ↦ inl b
        | inr refused ↦ inr (untouched, refused)
      ]
    ]

    -- With a token configured, texts that their bytes determine and probes that only read, a request
    -- either carries `Authorization: Bearer` and that token, white space at its ends aside, or
    -- changes neither the tables nor the buckets of the rate limiter, and is answered 401 unless
    -- the mux sent it elsewhere than to the protected routes.
    pub build_server-Gated :
        (r : HttpRequest) (headers : Headers) (api : Api)
        → Gated r api (build_server env out s mux bytes l cfg probes r headers api)
    unfolding build_server security_middleware
    build_server-Gated r headers api =
        if-Serves Gated cfg.security_headers_enabled _ _
          (λ r headers api. root-Gated r (baseline_headers cfg.tls_enabled headers) api) root-Gated
          r headers api
