-- ===== src/Mcp/Replies.antt =====
-- Which responses the MCP server owes: one for each line that asks for one, in the order of the lines.
use mathlib.Core.Path.{subst}
use project_brain.Base.{
  ◌⊎◌, eq_iff, ℕ, suc, String, true, Option, none, some, List, [], ◌∷◌, ◌++◌, map, any, first, ◌==◌,
  ◌≡◌, refl, ap, inl, inr, Bool-cases, if◌then◌else◌,
}
use project_brain.Base.Text.{trim_space, is_empty}
use project_brain.Mcp.Server.{
  RpcRequest, RpcResponse, Wire, Server, Ending, Answer, done, failed, Arguments, Tool, is_tool,
  parse_error_response, content_of, call_named, call_read, call_tool, handle, answer_read,
  answer_line, written, serve,
}

-- The methods that are always answered.
abbrev pub answered_methods : List String
answered_methods = "initialize" ∷ ("ping" ∷ ("tools/list" ∷ ("tools/call" ∷ [])))

-- The ID of the response that a request asks for, if it asks for one.
abbrev pub owed_to : RpcRequest → List String
owed_to req =
    if any (λ m. req.method == m) answered_methods
    then req.id ∷ []
    else if req.method == "notifications/initialized"
    then []
    else if is_empty req.id
    then []
    else req.id ∷ []

abbrev pub owed_to_read : Option RpcRequest → List String
owed_to_read none = "null" ∷ []
owed_to_read (some req) = owed_to req

module _ (wire : Wire) where
  -- A blank line asks for nothing, and one that is no request for an error without an ID.
  unfoldable pub owed : List String → List String
  owed [] = []
  owed (line ∷ lines) =
      let text = trim_space line in
      (if is_empty text then [] else owed_to_read (wire.read_request text)) ++ owed lines

  module _ {S : Type 0} (s : Server S) where
    abbrev ids_of : Option RpcResponse → List String
    ids_of none = []
    ids_of (some r) = r.id ∷ []

    content_of-id : (id : String) (x : Answer × S) → (content_of wire s id x).0.id ≡ id
    content_of-id id (done text, st) = refl
    content_of-id id (failed message, st) = refl

    call_named-id :
        (id name : String) (args : Arguments) (o : Option (String × Tool S)) (st : S)
        → (call_named wire s id name args o st).0.id ≡ id
    call_named-id id name args none st = refl
    call_named-id id name args (some t) st = content_of-id id (t.1.handler args st)

    call_read-id :
        (id : String) (o : Option (String × Arguments)) (st : S)
        → (call_read wire s id o st).0.id ≡ id
    call_read-id id none st = refl
    call_read-id id (some call) st =
        call_named-id id call.0 call.1 (first (is_tool call.0) s.tools) st

    method-ids :
        (id method params : String) (st : S)
        → let req : RpcRequest = record { id = id; method = method; params = params } in
          ids_of (handle wire s req st).0 ≡ owed_to req
    unfolding handle call_tool
    method-ids id method params st = elim (Bool-cases (method == "initialize")) [
      | inl is ↦ rw ((eq_iff method "initialize").0 is) refl
      | inr a ↦ elim (Bool-cases (method == "notifications/initialized")) [
        | inl is ↦ rw ((eq_iff method "notifications/initialized").0 is) refl
        | inr b ↦ elim (Bool-cases (method == "ping")) [
          | inl is ↦ rw ((eq_iff method "ping").0 is) refl
          | inr c ↦ elim (Bool-cases (method == "tools/list")) [
            | inl is ↦ rw ((eq_iff method "tools/list").0 is) refl
            | inr d ↦ elim (Bool-cases (method == "tools/call")) [
              | inl is ↦
                  rw ((eq_iff method "tools/call").0 is)
                    (ap (λ i. i ∷ []) (call_read-id id (wire.read_call params) st))
              | inr e ↦ elim (Bool-cases (is_empty id)) [
                | inl blank ↦ rw (a, b, c, d, e, blank) refl
                | inr full ↦ rw (a, b, c, d, e, full) refl
              ]
            ]
          ]
        ]
      ]
    ]

    handle-ids : (req : RpcRequest) (st : S) → ids_of (handle wire s req st).0 ≡ owed_to req
    handle-ids req st = method-ids req.id req.method req.params st

    answer_line-ids :
        (line : String) (st : S)
        → ids_of (answer_line wire s line st).0 ≡ (
            let text = trim_space line in
            if is_empty text then [] else owed_to_read (wire.read_request text))
    unfolding answer_line parse_error_response
    answer_line-ids line st = elim (Bool-cases (is_empty (trim_space line))) [
      | inl blank ↦ rw blank refl
      | inr full ↦ rw full (read (wire.read_request (trim_space line)))
    ]
      where
        read : (o : Option RpcRequest) → ids_of (answer_read wire s o st).0 ≡ owed_to_read o
        read none = refl
        read (some req) = handle-ids req st

    -- Whether the server was stopped before a line, or while it wrote a response.
    abbrev Stopped : Type 0
    Stopped = (n : ℕ) × ((wire.cancelled_at n ≡ true) ⊎ (wire.write_fails n ≡ true))

    -- Of the IDs owed, those answered come first, and all are unless the server was stopped.
    abbrev pub Answers : List String → List RpcResponse → Type 0
    Answers due rs =
        (rest : List String) × (due ≡ map (λ r. r.id) rs ++ rest) × ((rest ≡ []) ⊎ Stopped)

    written-Answers :
        (n : ℕ) (r : Option RpcResponse) (st : S) (rest : List RpcResponse × Ending × S)
        (due : List String)
        → Answers due rest.0
        → Answers (ids_of r ++ due) (written wire s (wire.write_fails n) r st rest).0
    written-Answers n none st rest due h = h
    written-Answers n (some r) st rest due h = elim (Bool-cases (wire.write_fails n)) [
      | inl fails ↦ rw fails (r.id ∷ due, refl, inr (n, inr fails))
      | inr works ↦ let (left, e, why) = h in rw works (left, ap (λ x. r.id ∷ x) e, why)
    ]

    -- The IDs of the responses are, in order, those that the lines ask for: one for each request of
    -- the four methods that are always answered and each other request with an ID but for
    -- `notifications/initialized`, the request's own; `null` for a line that is no request. If some
    -- of them are missing, then the last ones, and the server was cancelled or could not write.
    pub serve-Answers :
        (n : ℕ) (lines : List String) (st : S) → Answers (owed lines) (serve wire s n lines st).0
    unfolding owed serve
    serve-Answers n [] st = ([], refl, inl refl)
    serve-Answers n (line ∷ lines) st = elim (Bool-cases (wire.cancelled_at n)) [
      | inl stop ↦ rw stop (_, refl, inr (n, inl stop))
      | inr go ↦ rw go (
          subst
            (λ due.
              Answers (due ++ owed lines)
                (written wire s (wire.write_fails n) (answer_line wire s line st).0
                  (answer_line wire s line st).1
                  (serve wire s (suc n) lines (answer_line wire s line st).1)).0)
            (answer_line-ids line st)
            (written-Answers n (answer_line wire s line st).0 (answer_line wire s line st).1 _
              (owed lines) (serve-Answers (suc n) lines (answer_line wire s line st).1)))
    ]
