-- ===== src/Retry/Queue.antt =====
-- postgres/embedding_jobs.go, with `Upsert` of postgres/embeddings.go and `FindByID` of
-- postgres/fts_retriever.go: the statements that the retry worker sends, each committed alone.
use project_brain.Base.{
  ℕ, ◌+◌, ◌*◌, String, Bool, not, ◌&&◌, none, some, List, ◌∷◌, map, take, any, select, length, eqb,
  leb, ◌==◌, if◌then◌else◌, Outcome, ok, err, Err, not_found, failure, Calls, raise, ◌>>=◌,
}
use project_brain.Domain.{KnowledgeObject}
use project_brain.Store.State.{Env, World, tick}
use project_brain.Store.Objects.{find, foreign_key_violation, check_violation}
use project_brain.Retry.Backoff.{second, default_embedding_retry_batch}

-- A Go string of any bytes, as the text of an error may be.
abbrev pub Bytes : Type 0
Bytes = List ℕ

pub record EmbeddingJob : Type 0 where
  pub object_id : ℕ
  pub workspace_id : String
  pub model : String
  pub attempts : ℕ
  pub last_error : Bytes
  pub next_retry_at : ℕ
  pub created_at : ℕ
  pub updated_at : ℕ

-- domain/embedding.go; the vector as the bit patterns of its float32 numbers
pub record Embedding : Type 0 where
  pub object_id : ℕ
  pub workspace_id : String
  pub model : String
  pub dimensions : ℕ
  pub vector : List ℕ
  pub created_at : ℕ
  pub updated_at : ℕ

pub record Queue : Type 0 where
  pub world : World
  pub jobs : List EmbeddingJob
  pub embeddings : List Embedding
  pub embeds : ℕ  -- requests sent to the embedder

-- What lies outside: the embedder, the texts of errors, PostgreSQL's check of a text, the order of
-- the rows that UPDATE ... RETURNING yields, and whether the context is cancelled, asked by the
-- calls made and the jobs left.
pub record Outside : Type 0 where
  pub env : Env
  pub model : String
  pub dimensions : ℕ
  pub embed : ℕ → String → Outcome (List ℕ)
  pub error_text : Err → Bytes
  pub valid_utf8 : Bytes → Bool
  pub returned : List EmbeddingJob → List EmbeddingJob
  pub cancelled_at : ℕ → ℕ → Bool

abbrev pub bump : Queue → Queue
bump q = record q { world = tick q.world }

-- The primary key of embedding_jobs.
abbrev pub is_job : ℕ → String → EmbeddingJob → Bool
is_job object_id model j = eqb j.object_id object_id && j.model == model

abbrev refreshed : EmbeddingJob → ℕ → EmbeddingJob → EmbeddingJob
refreshed job now old = record old {
  attempts = job.attempts;
  last_error = job.last_error;
  next_retry_at = job.next_retry_at;
  workspace_id = job.workspace_id;
  updated_at = now;
}

abbrev fresh : EmbeddingJob → ℕ → EmbeddingJob
fresh job now = record job { created_at = now; updated_at = now }

-- INSERT ... ON CONFLICT (object_id, model) DO UPDATE
abbrev pub put_job : EmbeddingJob → ℕ → List EmbeddingJob → List EmbeddingJob
put_job job now jobs =
    if any (is_job job.object_id job.model) jobs
    then map (λ j. if is_job job.object_id job.model j then refreshed job now j else j) jobs
    else fresh job now ∷ jobs

abbrev pub due : ℕ → EmbeddingJob → Bool
due now j = leb j.next_retry_at now

abbrev pub insert_due : EmbeddingJob → List EmbeddingJob → List EmbeddingJob
insert_due j List.[] = j ∷ List.[]
insert_due j (k ∷ ks) =
    let rest = insert_due j ks in
    if leb j.next_retry_at k.next_retry_at then j ∷ k ∷ ks else k ∷ rest

-- ORDER BY next_retry_at
abbrev pub by_next_retry : List EmbeddingJob → List EmbeddingJob
by_next_retry List.[] = List.[]
by_next_retry (j ∷ js) = insert_due j (by_next_retry js)

-- The rows of the CTE `due`.
abbrev pub picked : ℕ → ℕ → List EmbeddingJob → List EmbeddingJob
picked now limit jobs = take limit (by_next_retry (select (due now) jobs))

abbrev pub among : List EmbeddingJob → EmbeddingJob → Bool
among picks j = any (is_job j.object_id j.model) picks

abbrev pub embedding_job_lease : ℕ
embedding_job_lease = 300 * second

abbrev pub leased : ℕ → EmbeddingJob → EmbeddingJob
leased now j = record j { next_retry_at = now + embedding_job_lease; updated_at = now }

abbrev pub lease_all : ℕ → List EmbeddingJob → List EmbeddingJob → List EmbeddingJob
lease_all now picks = map (λ j. if among picks j then leased now j else j)

abbrev pub batch_of : ℕ → ℕ
batch_of limit = if eqb limit 0 then default_embedding_retry_batch else limit

abbrev pub failed_row : ℕ → Bytes → ℕ → ℕ → EmbeddingJob → EmbeddingJob
failed_row attempts last_error next_retry_at now j = record j {
  attempts = attempts;
  last_error = last_error;
  next_retry_at = next_retry_at;
  updated_at = now;
}

abbrev pub put_embedding : Embedding → List Embedding → List Embedding
put_embedding e List.[] = e ∷ List.[]
put_embedding e (x ∷ xs) =
    let rest = put_embedding e xs in
    if eqb x.object_id e.object_id
    then record x {
      model = e.model;
      dimensions = e.dimensions;
      vector = e.vector;
      updated_at = e.updated_at;
    }
      ∷ xs
    else x ∷ rest

module _ (out : Outside) where
  abbrev pub queue_clock : Calls Queue ℕ
  queue_clock q = (
    ok (out.env.clock_at q.world.readings),
    record q { world = record q.world { readings = q.world.readings + 1 } },
  )

  -- One statement outside a transaction.
  abbrev pub exec : {A : Type 0} → (Queue → Outcome A × Queue) → Calls Queue A
  exec run q =
      if out.env.fault q.world.calls then (err (failure q.world.calls), bump q) else run (bump q)

  -- `Enqueue`; a text that is not UTF-8 is refused
  unfoldable pub enqueue : EmbeddingJob → Calls Queue (Unit {0})
  enqueue job = do
    now ← queue_clock
    exec λ q.
        if not (out.valid_utf8 job.last_error)
        then (err check_violation, q)
        else if any (λ o. eqb o.id job.object_id) q.world.db.objects
        then (ok tt, record q { jobs = put_job job now q.jobs })
        else (err foreign_key_violation, q)

  -- `ClaimDue`
  unfoldable pub claim_due : ℕ → ℕ → Calls Queue (List EmbeddingJob)
  claim_due now limit = exec λ q.
      let picks = picked now (batch_of limit) q.jobs in
      let jobs = lease_all now picks q.jobs in
      (ok (out.returned (select (among picks) jobs)), record q { jobs = jobs })

  -- `MarkFailed`; that no row has the key is no error
  unfoldable pub mark_failed : ℕ → String → ℕ → Bytes → ℕ → Calls Queue (Unit {0})
  mark_failed object_id model attempts last_error next_retry_at = do
    now ← queue_clock
    exec λ q.
        if out.valid_utf8 last_error
        then (
          ok tt,
          record q {
            jobs =
                map
                  (λ j.
                    if is_job object_id model j
                    then failed_row attempts last_error next_retry_at now j
                    else j)
                  q.jobs;
          },
        )
        else (err check_violation, q)

  -- `Delete` of the job repository
  unfoldable pub delete_job : ℕ → String → Calls Queue (Unit {0})
  delete_job object_id model =
      exec λ q. (ok tt, record q { jobs = select (λ j. not (is_job object_id model j)) q.jobs })

  -- `Upsert` of the embedding repository: the column is vector(1536)
  unfoldable pub upsert_embedding : Embedding → Calls Queue (Unit {0})
  upsert_embedding e = if eqb (length e.vector) 0 then raise (failure 0) else do
    now ← queue_clock
    exec λ q.
        if not (eqb (length e.vector) 1536)
        then (err check_violation, q)
        else if any (λ o. eqb o.id e.object_id) q.world.db.objects
        then (
          ok tt,
          record q {
            embeddings =
                put_embedding (record e { created_at = now; updated_at = now }) q.embeddings;
          },
        )
        else (err foreign_key_violation, q)

  -- `FindByID`
  unfoldable pub find_by_id : String → ℕ → Calls Queue KnowledgeObject
  find_by_id workspace_id id = exec λ q.
      (elim (find workspace_id id q.world.db.objects) [ none ↦ err not_found | some o ↦ ok o ], q)
