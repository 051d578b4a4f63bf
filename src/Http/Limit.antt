-- ===== src/Http/Limit.antt =====
-- internal/httpapi/ratelimit/ratelimit.go. An instant is a reading of the clock, a float64 its bits.
use Prim.Native.Char.{code}
use Prim.Native.String.{[], ◌∷◌}
use project_brain.Base.{
  ℕ, ◌+◌, String, Bool, not, true, false, Option, none, some, List, ◌∷◌, select, first, eqb, ltb,
  ◌==◌, if◌then◌else◌,
}
use project_brain.Base.Text.{trim_space, is_empty}
use project_brain.Store.State.{Env, World}
use project_brain.Http.Message.{
  HttpRequest, Headers, Response, HttpHandler, Outside, clocked, json_response, set_header,
  rejection,
}

pub record Bucket : Type 0 where
  pub ip : String
  pub tokens : ℕ
  pub last : ℕ

-- The arithmetic of float64. `seconds now last` is now.Sub(last).Seconds().
pub record FloatMath : Type 0 where
  pub seconds : ℕ → ℕ → ℕ
  pub plus : ℕ → ℕ → ℕ
  pub minus : ℕ → ℕ → ℕ
  pub times : ℕ → ℕ → ℕ
  pub less : ℕ → ℕ → Bool
  pub unit : ℕ  -- 1

pub record Limiter : Type 0 where
  pub float : FloatMath
  pub rate : ℕ
  pub burst : ℕ
  pub idle_ttl : ℕ
  pub trust_proxy : Bool

-- What the requests share.
pub record Api : Type 0 where
  pub world : World
  pub buckets : List Bucket

abbrev pub is_bucket : String → Bucket → Bool
is_bucket ip b = b.ip == ip

-- xff[:i] at the first comma, or all of it
unfoldable pub before_comma : String → String
before_comma [] = []
before_comma (c ∷ s) = let rest = before_comma s in if eqb (code c) 0x2c then [] else c ∷ rest

module _ (l : Limiter) where
  abbrev pub bucket_or_new : String → ℕ → Option Bucket → Bucket
  bucket_or_new ip now none = record { ip = ip; tokens = l.burst; last = now }
  bucket_or_new ip now (some b) = b

  abbrev pub at_most : ℕ → ℕ → ℕ
  at_most cap tokens = if l.float.less cap tokens then cap else tokens

  -- What a bucket holds at `now`.
  unfoldable pub refilled : ℕ → Bucket → ℕ
  refilled now b =
      at_most l.burst (l.float.plus b.tokens (l.float.times (l.float.seconds now b.last) l.rate))

  abbrev pub put_bucket : Bucket → List Bucket → List Bucket
  put_bucket b bs = b ∷ select (λ x. not (is_bucket b.ip x)) bs

  abbrev pub spend : String → ℕ → ℕ → List Bucket → Bool × List Bucket
  spend ip now tokens bs =
      if l.float.less tokens l.float.unit
      then (false, put_bucket (record { ip = ip; tokens = tokens; last = now }) bs)
      else (
        true,
        put_bucket (record { ip = ip; tokens = l.float.minus tokens l.float.unit; last = now }) bs,
      )

  unfoldable pub allow : String → ℕ → List Bucket → Bool × List Bucket
  allow ip now bs = spend ip now (refilled now (bucket_or_new ip now (first (is_bucket ip) bs))) bs

  -- One tick of `gcLoop`.
  unfoldable pub collect_idle : ℕ → List Bucket → List Bucket
  collect_idle now = select (λ b. not (ltb (b.last + l.idle_ttl) now))

  abbrev pub host_of : HttpRequest → Option String → String
  host_of r none = r.remote_addr
  host_of r (some host) = host

  unfoldable pub client_ip : Outside → HttpRequest → String
  client_ip out r =
      let host = host_of r (out.split_host_port r.remote_addr) in
      if l.trust_proxy
      then (let xff = r.header "X-Forwarded-For" in
          if is_empty xff then host else trim_space (before_comma xff))
      else host

  abbrev pub too_many : Headers → Response
  too_many headers =
      json_response 429 (set_header "Retry-After" "1" headers)
        (rejection "Too Many Requests" "RATE_LIMITED")

  abbrev pub let_through : HttpHandler Api → Bool → HttpHandler Api
  let_through next true r headers api = next r headers api
  let_through next false r headers api = (too_many headers, api)

  -- `Middleware`
  unfoldable pub limit_middleware : Env → Outside → HttpHandler Api → HttpHandler Api
  limit_middleware env out next r headers api =
      let (allowed, bs) = allow (client_ip out r) (env.clock_at api.world.readings) api.buckets in
      let_through next allowed r headers (record { world = clocked api.world; buckets = bs })
