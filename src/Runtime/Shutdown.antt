-- ===== src/Runtime/Shutdown.antt =====
-- internal/runtime/shutdown.go. What a step does within its budget is a call of its own.
use project_brain.Base.{
  ℕ, ◌/◌, String, Bool, Option, none, some, List, [], ◌∷◌, eqb, if◌then◌else◌, Outcome, ok, err,
  Err, Calls, pure,
}
use project_brain.Runtime.Config.{Config, shutdown_timeout, is_positive, nanoseconds}

pub data ShutdownError : Type 0 where
  step_timeout : String → ShutdownError
  step_error : Err → ShutdownError

-- A budget of 0 is no deadline.
pub record ShutdownStep (S : Type 0) : Type 0 where
  pub name : String
  pub budget : ℕ
  pub run : ℕ → Calls S (Unit {0})

abbrev pub first_of : Option ShutdownError → Option ShutdownError → Option ShutdownError
first_of none e = e
first_of (some e) _ = some e

module _ {S : Type 0} (is_deadline : Err → Bool) where
  abbrev pub step_result : ShutdownStep S → Outcome (Unit {0}) → Option ShutdownError
  step_result step (ok u) = none
  step_result step (err e) =
      if eqb step.budget 0
      then some (step_error e)
      else if is_deadline e
      then some (step_timeout step.name)
      else some (step_error e)

  unfoldable pub run_one_step : ShutdownStep S → S → Option ShutdownError × S
  run_one_step step s = let (r, s') = step.run step.budget s in (step_result step r, s')

  -- Every step runs, and the first error is returned.
  unfoldable pub run_shutdown : List (ShutdownStep S) → S → Option ShutdownError × S
  unfolding run_one_step
  run_shutdown [] s = (none, s)
  run_shutdown (step ∷ steps) s =
      let (e, s') = run_one_step step s in
      let (e', s'') = run_shutdown steps s' in (first_of e e', s'')

-- A third of the grace period; a negative one is one nanoseconds.
unfoldable pub step_budget : Config → ℕ
unfolding shutdown_timeout
step_budget cfg =
    let budget = shutdown_timeout cfg / 3 in
    if is_positive (shutdown_timeout cfg)
    then (if eqb budget 0 then nanoseconds else budget)
    else nanoseconds

module _ {S : Type 0} where
  -- A part that was never started is a step that does nothing.
  abbrev pub step_or_nothing : Option (ℕ → Calls S (Unit {0})) → ℕ → Calls S (Unit {0})
  step_or_nothing none budget = pure tt
  step_or_nothing (some run) budget = run budget

  abbrev pub timed_step : Config → String → Option (ℕ → Calls S (Unit {0})) → ShutdownStep S
  timed_step cfg name run = record {
    name = name;
    budget = step_budget cfg;
    run = step_or_nothing run;
  }

  unfoldable pub compose_shutdown_steps :
      Config
      → Option (ℕ → Calls S (Unit {0}))
      → Option (ℕ → Calls S (Unit {0}))
      → Option (ℕ → Calls S (Unit {0}))
      → Calls S (Unit {0})
      → List (ShutdownStep S)
  compose_shutdown_steps cfg http_server bot_wait retry_wait db_closer =
      timed_step cfg "http server" http_server
      ∷ (timed_step cfg "telegram bot goroutine" bot_wait
          ∷ (timed_step cfg "embedding retry worker" retry_wait
              ∷ (record { name = "db closer"; budget = 0; run = λ budget. db_closer } ∷ [])))
