-- ===== src/Retry/Contract.antt =====
-- The contracts of the queue: one claim per lease, the counts of a pass, and the hook.
use project_brain.Base.{
  ℕ, ◌+◌, String, Bool-cases, inl, inr, true, false, not, List, [], ◌∷◌, length, any, eqb, ◌==◌,
  ◌<◌, ◌≡◌, ◌⊎◌, ◌∙◌, refl, ap, arith, ok, err, Err, Outcome-cases, is_not_found,
}
use project_brain.Base.Text.{is_empty}
use project_brain.Domain.{KnowledgeObject}
use project_brain.Retry.Queue.{
  EmbeddingJob, Embedding, Queue, Outside, picked, batch_of, lease_all, queue_clock, enqueue,
  claim_due, upsert_embedding, find_by_id, is_job, embedding_job_lease,
}
use project_brain.Retry.Service.{
  EmbeddingRetryStats, RetryOutcome, embed_text, embed_and_upsert, retry_aware_embedding_hook,
  first_job, truncate_error, count, success, failure_recorded, skip, record_failure, retry_text,
  retry_object, process_one, process_jobs, process_due,
}
use project_brain.Retry.Keys.{picked-once, put_job-has}
use project_brain.Retry.Kept.{has_job, has_vector, embed_and_upsert-cases}

abbrev total : EmbeddingRetryStats → ℕ
total s = s.succeeded + s.failed + s.skipped

module _ (out : Outside) where
  abbrev claimed_jobs : ℕ → ℕ → Queue → List EmbeddingJob
  claimed_jobs now limit q = picked now (batch_of limit) q.jobs

  -- A claim that succeeds leases exactly the rows that it picked.
  claim_due-jobs :
      (now limit : ℕ) (q : Queue) (js : List EmbeddingJob)
      → (claim_due out now limit q).0 ≡ ok js
      → ((claim_due out now limit q).1.jobs ≡ lease_all now (claimed_jobs now limit q) q.jobs)
  unfolding claim_due
  claim_due-jobs now limit q js h = ground arith

  -- Two claims, the second with the clock still inside the lease of five minutes of the first: no
  -- job is picked by both.
  pub claim_due-once :
      (now limit later limit' : ℕ) (q : Queue) (js : List EmbeddingJob) (id : ℕ) (m : String)
      → later < now + embedding_job_lease
      → (claim_due out now limit q).0 ≡ ok js
      → any (is_job id m) (picked now (batch_of limit) q.jobs) ≡ true
      → any (is_job id m) (picked later (batch_of limit') (claim_due out now limit q).1.jobs)
        ≡ false
  claim_due-once now limit later limit' q js id m b h p =
      rw (claim_due-jobs now limit q js h)
        (picked-once now later (batch_of limit') id m (claimed_jobs now limit q) q.jobs b p)

  retry_object-ok :
      (job : EmbeddingJob) (o : KnowledgeObject) (q : Queue)
      → (r : RetryOutcome) × ((retry_object out job o q).0 ≡ ok r)
  unfolding retry_object retry_text record_failure
  retry_object-ok job o q = elim (Bool-cases (is_empty (embed_text o))) [
    | inl p ↦ rw p (skip, refl)
    | inr p ↦ elim (Outcome-cases (embed_and_upsert out o (embed_text o) q).0) [
      | inl (a, f) ↦ rw p (rw f (success, refl))
      | inr (e, f) ↦ rw p (rw f (failure_recorded, refl))
    ]
  ]

  process_one-ok :
      (job : EmbeddingJob) (q : Queue) → (r : RetryOutcome) × ((process_one out job q).0 ≡ ok r)
  unfolding process_one record_failure
  process_one-ok job q = elim (Bool-cases (not (job.model == out.model))) [
    | inl p ↦ rw p (skip, refl)
    | inr p ↦ elim (Outcome-cases (find_by_id out job.workspace_id job.object_id q).0) [
      | inl (o, f) ↦ rw p (rw f (retry_object-ok job o _))
      | inr (e, f) ↦ elim (Bool-cases (is_not_found e)) [
        | inl n ↦ rw p (rw f (rw n (skip, refl)))
        | inr n ↦ rw p (rw f (rw n (failure_recorded, refl)))
      ]
    ]
  ]

  count-total : (r : RetryOutcome) (s : EmbeddingRetryStats) → total (count r s) ≡ total s + 1
  count-total success s = omega arith
  count-total failure_recorded s = omega arith
  count-total skip s = omega arith

  count-claimed : (r : RetryOutcome) (s : EmbeddingRetryStats) → (count r s).claimed ≡ s.claimed
  count-claimed success s = refl
  count-claimed failure_recorded s = refl
  count-claimed skip s = refl

  -- Every job of the batch is counted once.
  process_jobs-total :
      (jobs : List EmbeddingJob) (s : EmbeddingRetryStats) (q : Queue)
      → ((n k : ℕ) → out.cancelled_at n k ≡ false)
      → (t : EmbeddingRetryStats) × ((process_jobs out jobs s q).0 ≡ ok t)
        × (t.claimed ≡ s.claimed)
        × (total t ≡ total s + length jobs)
  unfolding process_jobs
  process_jobs-total [] s q live = (s, refl, refl, omega arith)
  process_jobs-total (j ∷ js) s q live =
      let (r, p) = process_one-ok j q in
      let (t, a, b, c) = process_jobs-total js (count r s) (process_one out j q).1 live in
      rw (live q.world.calls (length js))
        (rw p (t, a, b ∙ count-claimed r s, omega (arith, c, count-total r s)))

  -- While the context is not cancelled, a pass whose claim succeeds ends without an error, and its
  -- counts of successes, failures and skips add up to the number of jobs claimed.
  pub process_due-total :
      (batch : ℕ) (q : Queue) (js : List EmbeddingJob)
      → ((n k : ℕ) → out.cancelled_at n k ≡ false)
      → (claim_due out (out.env.clock_at q.world.readings) batch (queue_clock out q).1).0 ≡ ok js
      → (t : EmbeddingRetryStats) × ((process_due out batch q).0 ≡ ok t)
        × (t.claimed ≡ length js)
        × (t.succeeded + t.failed + t.skipped ≡ t.claimed)
  unfolding process_due
  process_due-total batch q js live h =
      let q' = (claim_due out (out.env.clock_at q.world.readings) batch (queue_clock out q).1).1 in
      let zero_stats : EmbeddingRetryStats = record {
        claimed = length js;
        succeeded = 0;
        failed = 0;
        skipped = 0;
      } in
      let (t, a, b, c) = process_jobs-total js zero_stats q' live in
      rw h (t, a, b, omega (arith, b, c))

  upsert_embedding-db :
      (e : Embedding) (q : Queue) → (upsert_embedding out e q).1.world.db ≡ q.world.db
  unfolding upsert_embedding
  upsert_embedding-db e q = ground arith

  embed_and_upsert-db :
      (o : KnowledgeObject) (text : String) (q : Queue)
      → (embed_and_upsert out o text q).1.world.db ≡ q.world.db
  unfolding embed_and_upsert
  embed_and_upsert-db o text q = elim (Outcome-cases (out.embed q.embeds text)) [
    | inl (v, p) ↦ rw p (upsert_embedding-db _ _)
    | inr (e, p) ↦ rw p refl
  ]

  enqueue-has :
      (job : EmbeddingJob) (q : Queue)
      → ((n : ℕ) → out.env.fault n ≡ false)
      → out.valid_utf8 job.last_error ≡ true
      → any (λ o. eqb o.id job.object_id) q.world.db.objects ≡ true
      → has_job job.object_id job.model (enqueue out job q).1 ≡ true
  unfolding enqueue has_job
  enqueue-has job q live v f =
      rw (live q.world.calls)
        (rw v (rw f (put_job-has job (out.env.clock_at q.world.readings) q.jobs)))

  -- If no statement fails on its own, the truncated error texts are UTF-8 and the object is stored,
  -- the hook on an object with text leaves its vector, or ends with an error and a job to retry.
  pub hook-queues :
      (o : KnowledgeObject) (q : Queue)
      → ((n : ℕ) → out.env.fault n ≡ false)
      → ((e : Err) → out.valid_utf8 (truncate_error (out.error_text e)) ≡ true)
      → any (λ x. eqb x.id o.id) q.world.db.objects ≡ true
      → is_empty (embed_text o) ≡ false
      → (((retry_aware_embedding_hook out o q).0 ≡ ok tt)
          × (has_vector o.id out.model (retry_aware_embedding_hook out o q).1 ≡ true))
        ⊎ ((e : Err) × ((retry_aware_embedding_hook out o q).0 ≡ err e)
            × (has_job o.id out.model (retry_aware_embedding_hook out o q).1 ≡ true))
  unfolding retry_aware_embedding_hook first_job
  hook-queues o q live v f b = rw b (elim (embed_and_upsert-cases out o (embed_text o) q).1 [
    | inr (p, h) ↦ rw p (inl (refl, h))
    | inl (e, p) ↦ rw p (
        inr (
          e,
          refl,
          enqueue-has _ _ live (v e) (
              ap (λ d. any (λ x. eqb x.id o.id) d.objects) (embed_and_upsert-db o (embed_text o) q)
              ∙ f),
        ))
  ])
