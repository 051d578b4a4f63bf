-- ===== src/Runtime/Bounds.antt =====
-- What holds of every configuration that `Load` of internal/config/config.go returns.
use mathlib.Core.Path.{subst}
use project_brain.Base.{
  ℕ, String, Bool, true, false, not, ◌≡◌, ◌<◌, ◌≤◌, ◌^◌, refl, ap, arith, Bool-cases, inl, inr,
  if◌then◌else◌,
}
use project_brain.Base.Text.{is_empty}
use project_brain.Http.Message.{Parsed, not_a_number, negative, number}
use project_brain.Runtime.Config.{
  Config, Process, Loaded, loaded, rejected, Usable, Positive, is_port, is_positive, check_config,
  load_config, from_environment, int_env_or_default, positive_or,
}

passed :
    (b : Bool) (message : String) (x : Loaded) (cfg : Config)
    → (if b then rejected message else x) ≡ loaded cfg
    → (b ≡ false) × (x ≡ loaded cfg)
passed true message x cfg h = cc
passed false message x cfg h = (refl, h)

not-false : (b : Bool) → not b ≡ false → b ≡ true
not-false b h = ground arith

port : (x : Parsed) → is_port x ≡ true → (n : ℕ) × (x ≡ number n) × (1 ≤ n) × (n ≤ 65535)
port not_a_number h = absurd (ground arith)
port negative h = absurd (ground arith)
port (number n) h = (n, refl, ground arith, ground arith)

positive : (t : ℕ) → not (is_positive t) ≡ false → Positive t
positive t h = (ground arith, ground arith)

abbrev config_or : Config → Loaded → Config
config_or d (loaded cfg) = cfg
config_or d (rejected message) = d

module _ (p : Process) where
  check_config-loaded :
      (cfg cfg' : Config) → check_config p cfg ≡ loaded cfg' → (cfg ≡ cfg') × Usable p cfg
  unfolding check_config
  check_config-loaded cfg cfg' h =
      let (a, h) = passed _ _ _ cfg' h in
      let (b, h) = passed _ _ _ cfg' h in
      let (c, h) = passed _ _ _ cfg' h in
      let (d, h) = passed _ _ _ cfg' h in
      let (e, h) = passed _ _ _ cfg' h in
      let (f, h) = passed _ _ _ cfg' h in
      let (g, h) = passed _ _ _ cfg' h in
      (
        ap (config_or cfg) h,
        (port _ (not-false _ a), b, c, positive _ d, positive _ e, positive _ f, positive _ g),
      )

  positive_or-positive : (fallback : ℕ) (x : Parsed) → 0 < fallback → 0 < positive_or fallback x
  positive_or-positive fallback not_a_number h = h
  positive_or-positive fallback negative h = h
  positive_or-positive fallback (number n) h = ground arith

  int_env-positive :
      (key : String) (fallback : ℕ) → 0 < fallback → 0 < int_env_or_default p key fallback
  int_env-positive key fallback h = elim (Bool-cases (is_empty (p.getenv key))) [
    | inl blank ↦ rw blank h
    | inr full ↦ rw full (positive_or-positive fallback (p.atoi (p.getenv key)) h)
  ]

  -- A configuration that is loaded is the one the environment describes, and in it the port is from
  -- 1 to 65535, the rate and the burst are not above their caps, the four transport timeouts are
  -- positive, so that the server does not refuse to start, and so are the number of
  -- seconds to shut down and the bound on a body.
  pub load_config-loaded :
      (cfg : Config)
      → load_config p ≡ loaded cfg
      → (from_environment p ≡ cfg)
        × Usable p cfg
        × (0 < cfg.shutdown_secs)
        × (0 < cfg.ingest_max_bytes)
  unfolding load_config from_environment
  load_config-loaded cfg h =
      let (same, usable) = check_config-loaded (from_environment p) cfg h in
      (
        same,
        subst (Usable p) same usable,
        subst (λ c. 0 < c.shutdown_secs) same
            (int_env-positive "PROJECT_BRAIN_SHUTDOWN_SECS" 5 (omega arith)),
        subst (λ c. 0 < c.ingest_max_bytes) same
            (int_env-positive "PROJECT_BRAIN_INGEST_MAX_BYTES" (2 ^ 20) (omega arith)),
      )
