-- ===== src/Http/Tables.antt =====
-- The tables after a request to the server.
use mathlib.Core.Path.{subst}
use project_brain.Base.{ℕ, true, String, List, All, ◌≡◌, ◌≢◌, refl, leb, Calls}
use project_brain.Store.State.{Env, World, lost}
use project_brain.Lifecycle.Write.{Writes, done}
use project_brain.Lifecycle.Refine.{Quiet}
use project_brain.Http.Message.{HttpRequest, Headers, Outside}
use project_brain.Http.Handlers.{HttpServices}
use project_brain.Http.Limit.{Api, Limiter}
use project_brain.Http.Server.{Mux, Config, build_server}
use project_brain.Http.Gate.{Reads}
use project_brain.Http.Reading.{QuietReads}
use project_brain.Http.Storing.{ingest_text-error, ingest_text-Writes}
use project_brain.Http.Effects.{build_server-Acts}

module _ (env : Env) (out : Outside) (s : HttpServices) (mux : Mux) (bytes : String → List ℕ)
    (l : Limiter) (cfg : Config) (probes : List (Calls World (Unit {0}))) where
  -- When the searches, the lookup and the probes only read and no answer to a COMMIT is lost, a
  -- request that is answered with a status of 400 or more leaves every table as it was.
  pub build_server-error :
      (r : HttpRequest) (headers : Headers) (api : Api)
      → QuietReads s
      → All Reads probes
      → ((n : ℕ) → env.commit_at n ≢ lost)
      → leb 400 (build_server env out s mux bytes l cfg probes r headers api).0.status ≡ true
      → (build_server env out s mux bytes l cfg probes r headers api).1.world.db ≡ api.world.db
  build_server-error r headers api quiet reads kept h =
      build_server-Acts (λ r x d e. leb 400 x.status ≡ true → e ≡ d) (λ r x d none_there h. refl)
        (λ r x y d e same none_there h bad. h (subst (λ n. leb 400 n ≡ true) same bad)) env out s
        quiet (λ r headers api. ingest_text-error env out s r headers api.world kept) mux bytes l
        cfg (λ patterns r headers api h. refl) probes reads r headers api h

  pub build_server-Writes :
      (r : HttpRequest) (headers : Headers) (api : Api)
      → QuietReads s
      → All Reads probes
      → Quiet s.post_ingest
      → Writes api.world.db (build_server env out s mux bytes l cfg probes r headers api).1.world.db
  build_server-Writes r headers api quiet reads hook_quiet =
      build_server-Acts (λ r x d e. Writes d e) (λ r x d none_there. done)
        (λ r x y d e same none_there h. h) env out s quiet
        (λ r headers api. ingest_text-Writes env out s r headers api.world hook_quiet) mux bytes l
        cfg (λ patterns r headers api. done) probes reads r headers api
