-- ===== src/Ingest/Once.antt =====
-- A text is stored once: what `Ingest` does when it succeeds, and a second time with the same key.
use project_brain.Base.{
  ℕ, ◌+◌, String, Bool, true, false, Option, none, some, List, [], ◌∷◌, ◌≡◌, ◌⊎◌, refl, ap, sym,
  ◌∙◌, inl, inr, arith, any, first, select, eqb, ◌&&◌, ◌==◌, eq_iff, ok, Option-cases,
}
use project_brain.Domain.{
  duplicate_detected, AuditEvent, KnowledgeObject, IngestTextRequest, IngestTextResult,
}
use project_brain.Store.State.{Env, Db, World, tick}
use project_brain.Store.Sources.{has_key, ingestion_of, least_link, row_of_source, joined_row}
use project_brain.Store.Tx.{within_tx}
use project_brain.Store.Atomic.{within_tx-ok}
use project_brain.Lifecycle.Validate.{Hook, fire}
use project_brain.Ingest.Prepare.{PreparedIngestText, prepare_ingest_text}
use project_brain.Ingest.Service.{ingest_tx, ingest, ingest_prepared, run_hook}
use project_brain.Ingest.Steps.{ingest_tx-ok, new_object, duplicate_event, after_fresh}
use project_brain.Ingest.Contract.{counted, finish_ingest-ok}

-- The foreign key of object_sources: no link names a source that is not there.
abbrev pub LinksHaveSources : Db → Type 0
LinksHaveSources db =
    (id : ℕ)
    → any (λ s. eqb s.id id) db.sources ≡ false
    → any (λ l. eqb l.source_id id) db.links ≡ false

-- A hook that leaves the tables alone, as the embedding hooks do.
abbrev pub Idle : Hook → Type 0
Idle hook = (o : KnowledgeObject) (w : World) → (fire hook o w).db ≡ w.db

-- All tables but the audit trail are as before, and the trail has one more row, which names the
-- object as a duplicate.
abbrev pub Noted : ℕ → Db → Db → Type 0
Noted object_id before after =
    (e : AuditEvent) × (e.action ≡ duplicate_detected)
    × (e.target_id ≡ object_id)
    × (after ≡ record before { events = e ∷ before.events })

own_key : (a b : String) → (a == a && b == b) ≡ true
own_key a b = ground (arith, eq_iff a a, eq_iff b b)

own_id : (n : ℕ) → eqb n n ≡ true
own_id n = ground arith

some≢none : {A : Type 0} {a : A} → some a ≡ none → ⊥
some≢none h = cc

abbrev object_or : ℕ → Option IngestTextResult → ℕ
object_or d none = d
object_or d (some x) = x.object_id

select-none {ℓ} : {A : Type ℓ} (p : A → Bool) (xs : List A) → any p xs ≡ false → select p xs ≡ []
select-none p [] h = refl
select-none p (x ∷ xs) h = ground (arith, select-none p xs)

run_hook-true :
    (hook : Hook) (d : Bool) (o : Option KnowledgeObject) (w : World)
    → d ≡ true
    → run_hook hook d o w ≡ w
run_hook-true hook d o w p = rw p refl

run_hook-some :
    (hook : Hook) (d : Bool) (o : Option KnowledgeObject) (x : KnowledgeObject) (w : World)
    → d ≡ false
    → o ≡ some x
    → run_hook hook d o w ≡ fire hook x w
run_hook-some hook d o x w p q = rw p (rw q refl)

module _ (env : Env) (hook : Hook) (req : IngestTextRequest) (w : World) where
  -- The rows are as the transaction left them, read at the world after its BEGIN.
  abbrev began : World
  began = tick (counted w)

  abbrev pub Repeated : PreparedIngestText → IngestTextResult → Type 0
  Repeated p r =
      (existing : IngestTextResult) × (ingestion_of p.workspace_id p.identity_key w.db
        ≡ some existing)
      × (r ≡ record existing { duplicate = true })
      × ((ingest env hook req w).1.db ≡ record w.db {
        events = duplicate_event env p req.request_id (tick began) existing ∷ w.db.events;
      })

  abbrev pub Stored : PreparedIngestText → IngestTextResult → Type 0
  Stored p r =
      (ingestion_of p.workspace_id p.identity_key w.db ≡ none)
      × (any (has_key p.workspace_id p.identity_key) w.db.sources ≡ false)
      × (any (λ x. eqb x.id (env.uuid_at w.ids)) w.db.sources ≡ false)
      × (any (λ x. eqb x.id (env.uuid_at (w.ids + 1))) w.db.objects ≡ false)
      × (r.duplicate ≡ false)
      × (r.source_id ≡ env.uuid_at w.ids)
      × (r.object_id ≡ env.uuid_at (w.ids + 1))
      × (v : World) × (v.db ≡ after_fresh env p req.request_id (tick began))
      × ((ingest env hook req w).1 ≡ fire hook (new_object env p req.request_id (tick began)) v)

  -- A success of `Ingest` on a request that was prepared as `p` is one of two. Either the lookup
  -- found an ingestion with its workspace and key: the result is that one, marked as a duplicate,
  -- one audit row is new and no hook ran. Or it found none, no source had the key: the result
  -- names the drawn IDs, the source, the object, the link and the audit row built from `p` are
  -- new, and the hook ran last, on that object.
  pub ingest-ok :
      (p : PreparedIngestText) (r : IngestTextResult)
      → prepare_ingest_text env req ≡ ok p
      → (ingest env hook req w).0 ≡ ok r
      → Repeated p r ⊎ Stored p r
  unfolding ingest
  ingest-ok p r prep h =
      let body = ingest_tx env p req.request_id in
      let (o, a, b) =
        finish_ingest-ok hook (within_tx env body (counted w)) r
          (ap (λ x. (ingest_prepared env hook req x (counted w)).0) (sym prep) ∙ h) in
      let (c, d) = within_tx-ok env body (counted w) (r, o) a in
      elim (ingest_tx-ok env p req.request_id began (r, o) c) [
        | inl (existing, f, e, k) ↦ inl (
          existing,
          f,
          ap (λ x. x.0) e,
          ap (λ x. (ingest_prepared env hook req x (counted w)).1.db) prep
              ∙ (ap (λ x. x.db) (b ∙ run_hook-true hook r.duplicate o _ (ap (λ x. x.0.duplicate) e))
                  ∙ (d ∙ k)),
        )
        | inr (f, u1, u2, u3, e, dup, s, i, k) ↦ inr (
          f,
          u1,
          u2,
          u3,
          dup,
          s,
          i,
          counted (within_tx env body (counted w)).1,
          d ∙ k,
          ap (λ x. (ingest_prepared env hook req x (counted w)).1) prep
              ∙ (b ∙ run_hook-some hook r.duplicate o _ _ dup e),
        )
      ]

module _ (env : Env) (hook : Hook) (req : IngestTextRequest) (w : World) where
  -- After the four writes, the lookup by the key finds the object that they created.
  ingestion_of-stored :
      (p : PreparedIngestText)
      → LinksHaveSources w.db
      → any (λ x. eqb x.id (env.uuid_at w.ids)) w.db.sources ≡ false
      → (x : IngestTextResult) × (ingestion_of p.workspace_id p.identity_key
            (after_fresh env p req.request_id (tick (began env hook req w)))
          ≡ some x)
        × (x.object_id ≡ env.uuid_at (w.ids + 1))
  ingestion_of-stored p links fresh =
      let id = env.uuid_at w.ids in
      rw (own_key p.workspace_id p.identity_key) (
        rw (own_id id)
          (rw (select-none (λ l. eqb l.source_id id) w.db.links (links id fresh)) (_, refl, refl)))

-- An audit row for a duplicate does not change which object the lookup finds.
ingestion_of-noted :
    (ws key : String) (e : AuditEvent) (db : Db) (x : IngestTextResult)
    → ingestion_of ws key db ≡ some x
    → (y : IngestTextResult) × (ingestion_of ws key (record db { events = e ∷ db.events }) ≡ some y)
      × (y.object_id ≡ x.object_id)
ingestion_of-noted ws key e db x h = elim (Option-cases (first (has_key ws key) db.sources)) [
  | inl n ↦ absurd (some≢none (sym h ∙ ap (row_of_source db) n))
  | inr (s, f) ↦ elim (Option-cases (least_link (select (λ l. eqb l.source_id s.id) db.links))) [
    | inl n ↦ absurd (some≢none (sym h ∙ (ap (row_of_source db) f ∙ ap (joined_row db s) n)))
    | inr (l, g) ↦
        let found = sym h ∙ (ap (row_of_source db) f ∙ ap (joined_row db s) g) in
        rw f (rw g (_, refl, ap (object_or 0) (sym found)))
  ]
]

module _ (env : Env) (hook : Hook) (req : IngestTextRequest) (w : World) where
  lookup-ingest :
      (p : PreparedIngestText) (r : IngestTextResult)
      → LinksHaveSources w.db
      → Idle hook
      → Repeated env hook req w p r ⊎ Stored env hook req w p r
      → (x : IngestTextResult) × (ingestion_of p.workspace_id p.identity_key
            (ingest env hook req w).1.db
          ≡ some x)
        × (x.object_id ≡ r.object_id)
  lookup-ingest p r links idle (inl (existing, f, e, d)) =
      let noted = duplicate_event env p req.request_id (tick (began env hook req w)) existing in
      let (y, g, i) = ingestion_of-noted p.workspace_id p.identity_key noted w.db existing f in
      (y, ap (ingestion_of p.workspace_id p.identity_key) d ∙ g, i ∙ sym (ap (λ x. x.object_id) e))
  lookup-ingest p r links idle (inr (_, _, fresh, _, _, _, i, v, d, h)) =
      let (x, g, j) = ingestion_of-stored env hook req w p links fresh in
      (
        x,
        ap (ingestion_of p.workspace_id p.identity_key) (ap (λ x. x.db) h ∙ (idle _ v ∙ d)) ∙ g,
        j ∙ sym i,
      )

  -- The same from any later world with the tables that the first ingestion left.
  pub ingest_again :
      (again : IngestTextRequest) (p p' : PreparedIngestText) (r r' : IngestTextResult) (v : World)
      → LinksHaveSources w.db
      → Idle hook
      → prepare_ingest_text env req ≡ ok p
      → prepare_ingest_text env again ≡ ok p'
      → p'.workspace_id ≡ p.workspace_id
      → p'.identity_key ≡ p.identity_key
      → (ingest env hook req w).0 ≡ ok r
      → v.db ≡ (ingest env hook req w).1.db
      → (ingest env hook again v).0 ≡ ok r'
      → let after = (ingest env hook again v).1.db in
        (r'.duplicate ≡ true) × (r'.object_id ≡ r.object_id) × Noted r.object_id v.db after
  ingest_again again p p' r r' v links idle prep prep' same_ws same_key h left h' =
      let (x, f, i) = lookup-ingest p r links idle (ingest-ok env hook req w p r prep h) in
      let g : ingestion_of p'.workspace_id p'.identity_key v.db ≡ some x =
        ap (ingestion_of p'.workspace_id p'.identity_key) left
        ∙ (ap (λ k. ingestion_of k p'.identity_key (ingest env hook req w).1.db) same_ws
            ∙ (ap (λ k. ingestion_of p.workspace_id k (ingest env hook req w).1.db) same_key
                ∙ f)) in
      elim (ingest-ok env hook again v p' r' prep' h') [
        | inl (y, q, e, d) ↦ (
          ap (λ z. z.duplicate) e,
          ap (λ z. z.object_id) e ∙ (ap (object_or 0) (sym q ∙ g) ∙ i),
          (
            duplicate_event env p' again.request_id (tick (began env hook again v)) y,
            refl,
            ap (object_or 0) (sym q ∙ g) ∙ i,
            d,
          ),
        )
        | inr (n, _, _, _, _, _, _, _, _, _) ↦ absurd (some≢none (sym g ∙ n))
      ]

  -- After a successful `Ingest`, with a hook that leaves the tables alone and no link to a missing
  -- source, a second successful one whose request has the same workspace and identity key reports
  -- a duplicate with the object of the first. It adds one row to the audit trail, a
  -- duplicate_detected of that object, and every other table stays as it is.
  pub ingest-once :
      (again : IngestTextRequest) (p p' : PreparedIngestText) (r r' : IngestTextResult)
      → LinksHaveSources w.db
      → Idle hook
      → prepare_ingest_text env req ≡ ok p
      → prepare_ingest_text env again ≡ ok p'
      → p'.workspace_id ≡ p.workspace_id
      → p'.identity_key ≡ p.identity_key
      → (ingest env hook req w).0 ≡ ok r
      → (ingest env hook again (ingest env hook req w).1).0 ≡ ok r'
      → let before = (ingest env hook req w).1.db in
        let after = (ingest env hook again (ingest env hook req w).1).1.db in
        (r'.duplicate ≡ true) × (r'.object_id ≡ r.object_id) × Noted r.object_id before after
  ingest-once again p p' r r' links idle prep prep' same_ws same_key h h' =
      ingest_again again p p' r r' (ingest env hook req w).1 links idle prep prep' same_ws same_key
        h refl h'
