-- ===== src/Retry/Service.antt =====
-- app/embedding_hook.go and app/embedding_retry.go: the hook that queues a failed embedding, and
-- the worker's pass over the jobs that are due.
use project_brain.Base.{
  ℕ, ◌+◌, ◌-◌, String, not, List, ◌∷◌, ◌++◌, take, length, leb, ◌==◌, if◌then◌else◌, Outcome, ok,
  err, Err, wrapped, is_not_found, Calls, pure, raise, attempt, map_err, ◌>>=◌,
}
use project_brain.Base.Text.{trim_space, is_empty, join}
use project_brain.Domain.{KnowledgeObject}
use project_brain.Retry.Backoff.{
  max_embedding_retry_attempts, paused_embedding_retry_backoff, embedding_retry_backoff,
}
use project_brain.Retry.Queue.{
  Bytes, EmbeddingJob, Queue, Outside, queue_clock, enqueue, claim_due, mark_failed, delete_job,
  upsert_embedding, find_by_id,
}

-- The parts that are not blank, trimmed.
abbrev parts : List String → List String
parts List.[] = List.[]
parts (p ∷ ps) =
    let s = trim_space p in let rest = parts ps in if is_empty s then rest else s ∷ rest

unfoldable pub embed_text : KnowledgeObject → String
embed_text o = join (parts (o.title ∷ o.summary ∷ o.content ∷ List.[])) "\n"

-- "…(truncated)" in UTF-8
abbrev pub suffix : Bytes
suffix = 0xe2 ∷ 0x80 ∷ 0xa6 ∷ 40 ∷ 116 ∷ 114 ∷ 117 ∷ 110 ∷ 99 ∷ 97 ∷ 116 ∷ 101 ∷ 100 ∷ 41 ∷ List.[]

unfoldable pub truncate_error : Bytes → Bytes
truncate_error s = if leb (length s) 2048 then s else take (2048 - length suffix) s ++ suffix

pub record EmbeddingRetryStats : Type 0 where
  pub claimed : ℕ
  pub succeeded : ℕ
  pub failed : ℕ
  pub skipped : ℕ

pub data RetryOutcome : Type 0 where
  success failure_recorded skip : RetryOutcome

abbrev pub count : RetryOutcome → EmbeddingRetryStats → EmbeddingRetryStats
count success s = record s { succeeded = s.succeeded + 1 }
count failure_recorded s = record s { failed = s.failed + 1 }
count skip s = record s { skipped = s.skipped + 1 }

module _ (out : Outside) where
  -- embedder.Embed
  abbrev call_embedder : String → Calls Queue (List ℕ)
  call_embedder text q = (out.embed q.embeds text, record q { embeds = q.embeds + 1 })

  unfoldable pub embed_and_upsert : KnowledgeObject → String → Calls Queue (Unit {0})
  embed_and_upsert o text = do
    vec ← map_err (wrapped "embed object") (call_embedder text)
    upsert_embedding out (record {
      object_id = o.id;
      workspace_id = o.workspace_id;
      model = out.model;
      dimensions = out.dimensions;
      vector = vec;
      created_at = 0;
      updated_at = 0;
    })

  unfoldable pub first_job : KnowledgeObject → Err → ℕ → EmbeddingJob
  first_job o e now = record {
    object_id = o.id;
    workspace_id = o.workspace_id;
    model = out.model;
    attempts = 1;
    last_error = truncate_error (out.error_text e);
    next_retry_at = now + embedding_retry_backoff 1;
    created_at = 0;
    updated_at = 0;
  }

  -- The hook fails with the error of the embedding, whether or not the job was stored.
  unfoldable pub retry_aware_embedding_hook : KnowledgeObject → Calls Queue (Unit {0})
  retry_aware_embedding_hook o =
      let text = embed_text o in
      if is_empty text then pure tt else do
        done ← attempt (embed_and_upsert o text)
        elim done [
          | ok u ↦ pure tt
          | err e ↦ do
            now ← queue_clock out
            stored ← attempt (enqueue out (first_job o e now))
            raise e
        ]

  unfoldable pub record_failure : EmbeddingJob → Err → Calls Queue (Outcome (Unit {0}))
  record_failure job cause = do
    now ← queue_clock out
    let next_attempts = job.attempts + 1
    let backoff =
        if leb max_embedding_retry_attempts next_attempts
        then paused_embedding_retry_backoff
        else embedding_retry_backoff next_attempts
    attempt (
        mark_failed out job.object_id job.model next_attempts
          (truncate_error (out.error_text cause)) (now + backoff))

  -- `processOne` from the embedding on.
  unfoldable pub retry_text : EmbeddingJob → KnowledgeObject → String → Calls Queue RetryOutcome
  retry_text job o text = do
    done ← attempt (embed_and_upsert o text)
    elim done [
      | err e ↦ do stored ← record_failure job e; pure failure_recorded
      | ok u ↦ do deleted ← attempt (delete_job out job.object_id job.model); pure success
    ]

  -- `processOne` on the object that was found.
  unfoldable pub retry_object : EmbeddingJob → KnowledgeObject → Calls Queue RetryOutcome
  retry_object job o =
      let text = embed_text o in
      if is_empty text
      then (do deleted ← attempt (delete_job out job.object_id job.model); pure skip)
      else retry_text job o text

  unfoldable pub process_one : EmbeddingJob → Calls Queue RetryOutcome
  process_one job = if not (job.model == out.model) then pure skip else do
    found ← attempt (find_by_id out job.workspace_id job.object_id)
    elim found [
      | ok o ↦ retry_object job o
      | err e ↦
          if is_not_found e
          then (do deleted ← attempt (delete_job out job.object_id job.model); pure skip)
          else do stored ← record_failure job (wrapped "lookup object" e); pure failure_recorded
    ]

  -- The loop over the jobs of a batch; the context is looked at before each.
  unfoldable pub process_jobs :
      List EmbeddingJob → EmbeddingRetryStats → Calls Queue EmbeddingRetryStats
  process_jobs List.[] stats q = (ok stats, q)
  process_jobs (job ∷ rest) stats q =
      if out.cancelled_at q.world.calls (length rest)
      then (ok stats, q)
      else (do one ← process_one job; process_jobs rest (count one stats)) q

  unfoldable pub process_due : ℕ → Calls Queue EmbeddingRetryStats
  process_due batch = do
    now ← queue_clock out
    jobs ← map_err (wrapped "claim due embedding jobs") (claim_due out now batch)
    process_jobs jobs (record { claimed = length jobs; succeeded = 0; failed = 0; skipped = 0 })
