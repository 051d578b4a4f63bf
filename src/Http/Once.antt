-- ===== src/Http/Once.antt =====
-- A text that is posted twice: the whole server over `Ingest`.
use mathlib.Core.Path.{subst}
use mathlib.Core.Option.{some-injective}
use project_brain.Base.{
  ℕ, String, true, none, some, List, ◌∷◌, All, ◌≡◌, refl, sym, ap, ◌∙◌, arith, Outcome, ok, err,
  Calls,
}
use project_brain.Domain.{IngestTextResult}
use project_brain.Store.State.{Env, Db, World}
use project_brain.Ingest.Prepare.{PreparedIngestText, prepare_ingest_text}
use project_brain.Ingest.Service.{ingest}
use project_brain.Ingest.Once.{LinksHaveSources, Idle, Noted, ingest_again}
use project_brain.Http.Message.{
  HttpRequest, Headers, Response, Outside, Decoded, too_large, malformed, decoded, IngestBody,
  clocked, ingested, write_error,
}
use project_brain.Http.Handlers.{
  HttpServices, ingest_text, ingest_decoded, ingest_answer, to_domain, request_id,
}
use project_brain.Http.Limit.{Api, Limiter}
use project_brain.Http.Server.{Mux, Config, build_server}
use project_brain.Http.Gate.{Reads}
use project_brain.Http.Reading.{QuietReads, result_of}
use project_brain.Http.Storing.{request_id-db, ingest_answer-db}
use project_brain.Http.Effects.{build_server-Acts}

none≢some : {A : Type 0} {a : A} → none ≡ some a → ⊥
none≢some h = cc

abbrev body_or : IngestBody → Decoded IngestBody → IngestBody
body_or d too_large = d
body_or d malformed = d
body_or d (decoded b) = b

module _ (env : Env) (out : Outside) (s : HttpServices) where
  -- The request was decoded, and its answer and the tables are those of `Ingest`.
  abbrev Ingests : HttpRequest → IngestTextResult → Db → Db → Type 0
  Ingests r res d e =
      (b : IngestBody) × (id : ℕ) × (w : World) × (out.decode_ingest s.ingest_max r.body
        ≡ decoded b)
      × (w.db ≡ d)
      × ((ingest env s.post_ingest (to_domain env out s b id) w).0 ≡ ok res)
      × (e ≡ (ingest env s.post_ingest (to_domain env out s b id) w).1.db)

  abbrev Answered : HttpRequest → Response → Db → Db → Type 0
  Answered r x d e = (res : IngestTextResult) → result_of x.body ≡ some res → Ingests r res d e

  ingest_answer-result :
      (headers : Headers) (x : Outcome IngestTextResult × World) (res : IngestTextResult)
      → result_of (ingest_answer env out s headers x).0.body ≡ some res
      → x.0 ≡ ok res
  unfolding write_error
  ingest_answer-result headers (ok r, w) res h = ap ok (some-injective r res h)
  ingest_answer-result headers (err e, w) res h = absurd (ground arith)

  ingest_decoded-Answered :
      (r : HttpRequest) (d : Decoded IngestBody) (headers : Headers) (w : World)
      → out.decode_ingest s.ingest_max r.body ≡ d
      → let x = ingest_decoded env out s r d headers w in Answered r x.0 w.db x.1.db
  unfolding write_error
  ingest_decoded-Answered r too_large headers w q res h = absurd (none≢some h)
  ingest_decoded-Answered r malformed headers w q res h = absurd (none≢some h)
  ingest_decoded-Answered r (decoded b) headers w q res h =
      let (id, w') = request_id env out s r w in
      let run = ingest env s.post_ingest (to_domain env out s b id) w' in
      (
        b,
        id,
        w',
        q,
        request_id-db env out s r w,
        ingest_answer-result headers run res h,
        ingest_answer-db env out s headers run,
      )

  ingest_text-Answered :
      (r : HttpRequest) (headers : Headers) (w : World)
      → let x = ingest_text env out s r headers w in Answered r x.0 w.db x.1.db
  unfolding ingest_text
  ingest_text-Answered r headers w =
      ingest_decoded-Answered r (out.decode_ingest s.ingest_max r.body) headers (clocked w) refl

  -- A mux that answers by itself does not answer as an ingestion does.
  abbrev pub Silent : Mux → Type 0
  Silent mux =
      (patterns : List String) (r : HttpRequest) (headers : Headers)
      → result_of (mux.unmatched patterns r headers).body ≡ none

  -- The body of the request decodes, and `Ingest` prepares it as `p` whatever the ID of the request.
  abbrev pub PreparedAs : HttpRequest → PreparedIngestText → Type 0
  PreparedAs r p =
      (b : IngestBody) × (out.decode_ingest s.ingest_max r.body ≡ decoded b)
      × ((id : ℕ) → prepare_ingest_text env (to_domain env out s b id) ≡ ok p)

  prepared :
      (r : HttpRequest) (p : PreparedIngestText) (b : IngestBody) (id : ℕ)
      → PreparedAs r p
      → out.decode_ingest s.ingest_max r.body ≡ decoded b
      → prepare_ingest_text env (to_domain env out s b id) ≡ ok p
  prepared r p b id (b', q, accepted) h =
      let same : b ≡ b' = ap (body_or b) (sym h ∙ q) in
      ap (λ x. prepare_ingest_text env (to_domain env out s x id)) same ∙ accepted id

  module _ (mux : Mux) (bytes : String → List ℕ) (l : Limiter) (cfg : Config)
      (probes : List (Calls World (Unit {0}))) (quiet : QuietReads s) (reads : All Reads probes)
      (silent : Silent mux) where
    build_server-Answered :
        (r : HttpRequest) (headers : Headers) (api : Api)
        → let x = build_server env out s mux bytes l cfg probes r headers api in
          Answered r x.0 api.world.db x.1.world.db
    build_server-Answered =
        build_server-Acts Answered (λ r x d h res g. absurd (none≢some (sym h ∙ g)))
          (λ r x y d e same h before res g. absurd (none≢some (sym h ∙ g))) env out s quiet
          (λ r headers api. ingest_text-Answered r headers api.world) mux bytes l cfg
          (λ patterns r headers api res g. absurd (none≢some (sym (silent patterns r headers) ∙ g)))
          probes reads

    -- Where the searches and probes only read, the mux itself answers nothing as an ingestion does, no
    -- link names a missing source and the hook leaves the tables alone: when the server answers a
    -- request with the result of an ingestion, and later, with the tables that this one left, so
    -- answers another whose body is prepared with the same workspace and identity key, the second
    -- result is marked as a duplicate and names the object of the first. The second request adds one
    -- row to the audit trail, a duplicate_detected of that object, and every other table stays as
    -- it is.
    pub build_server-once :
        (r r' : HttpRequest) (headers headers' : Headers) (api later : Api)
        (p p' : PreparedIngestText) (res res' : IngestTextResult)
        → LinksHaveSources api.world.db
        → Idle s.post_ingest
        → PreparedAs r p
        → PreparedAs r' p'
        → p'.workspace_id ≡ p.workspace_id
        → p'.identity_key ≡ p.identity_key
        → (build_server env out s mux bytes l cfg probes r headers api).0.body ≡ ingested res
        → later.world.db ≡ (build_server env out s mux bytes l cfg probes r headers api).1.world.db
        → (build_server env out s mux bytes l cfg probes r' headers' later).0.body ≡ ingested res'
        → let after =
            (build_server env out s mux bytes l cfg probes r' headers' later).1.world.db in
          (res'.duplicate ≡ true)
          × (res'.object_id ≡ res.object_id)
          × Noted res.object_id later.world.db after
    build_server-once r r' headers headers' api later p p' res res' links idle prep prep' same_ws
          same_key h left h' =
        let (b, id, w, q, e, f, g) = build_server-Answered r headers api res (ap result_of h) in
        let (b', id', w', q', e', f', g') =
          build_server-Answered r' headers' later res' (ap result_of h') in
        let (duplicate, object, (note, detected, target, noted)) =
          ingest_again env s.post_ingest (to_domain env out s b id) w (to_domain env out s b' id') p
            p' res res' w' (subst LinksHaveSources (sym e) links) idle (prepared r p b id prep q)
            (prepared r' p' b' id' prep' q') same_ws same_key f (e' ∙ (left ∙ g)) f' in
        (
          duplicate,
          object,
          (
            note,
            detected,
            target,
            g' ∙ (noted ∙ ap {A = Db} (λ d. record d { events = note ∷ d.events }) e'),
          ),
        )
