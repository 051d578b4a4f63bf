-- ===== src/Http/Routing.antt =====
-- What every handler of a mux has, the mux has.
use project_brain.Base.{
  String, Bool, Option, none, some, List, [], ◌∷◌, ◌++◌, map, All, ◌==◌, first, if◌then◌else◌, true,
  false,
}
use project_brain.Http.Message.{HttpRequest, Headers, Response, HttpHandler}
use project_brain.Http.Limit.{Api}
use project_brain.Http.Server.{Mux, Routes, when, dispatch_route, routed, serve_mux}

-- What holds of each request, the state before it, and the answer with the state after it.
abbrev pub Serves : (HttpRequest → Api → Response × Api → Type 0) → HttpHandler Api → Type 0
Serves Q h = (r : HttpRequest) (headers : Headers) (api : Api) → Q r api (h r headers api)

module _ (Q : HttpRequest → Api → Response × Api → Type 0) where
  abbrev pub AllServe : Routes → Type 0
  AllServe routes = All (λ route. Serves Q route.1) routes

  pub when-AllServe : (b : Bool) (routes : Routes) → AllServe routes → AllServe (when b routes)
  when-AllServe true routes h = h
  when-AllServe false routes h = tt

  pub append-AllServe : (xs ys : Routes) → AllServe xs → AllServe ys → AllServe (xs ++ ys)
  append-AllServe [] ys h k = k
  append-AllServe (x ∷ xs) ys (a, h) k = (a, append-AllServe xs ys h k)

  pub if-Serves :
      (b : Bool) (m n : HttpHandler Api) → Serves Q m → Serves Q n → Serves Q (if b then m else n)
  if-Serves true m n h k = h
  if-Serves false m n h k = k

  module _ (mux : Mux)
      (refusal : (patterns : List String)
        → Serves Q λ r headers api. (mux.unmatched patterns r headers, api)) where
    dispatch-Serves :
        (patterns : List String) (routes : Routes) (pattern : String)
        → AllServe routes
        → Serves Q (dispatch_route mux patterns (first (λ route. route.0 == pattern) routes))
    dispatch-Serves patterns [] pattern h = refusal patterns
    dispatch-Serves patterns (x ∷ xs) pattern (a, h) =
        found (x.0 == pattern) (dispatch-Serves patterns xs pattern h)
      where
        found :
            (b : Bool)
            → Serves Q (dispatch_route mux patterns (first (λ route. route.0 == pattern) xs))
            → Serves Q (
                dispatch_route mux patterns
                  (if b then some x else first (λ route. route.0 == pattern) xs))
        found true k = a
        found false k = k

    pub serve_mux-Serves : (routes : Routes) → AllServe routes → Serves Q (serve_mux mux routes)
    unfolding serve_mux
    serve_mux-Serves routes h r headers api = picked (mux.route (map (λ route. route.0) routes) r)
      where
        picked :
            (o : Option String)
            → Q r api (
                dispatch_route mux
                  (map (λ route. route.0) routes)
                  (routed mux routes o)
                  r
                  headers
                  api)
        picked none = refusal _ r headers api
        picked (some pattern) = dispatch-Serves _ routes pattern h r headers api
