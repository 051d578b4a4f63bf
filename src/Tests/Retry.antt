-- ===== src/Tests/Retry.antt =====
-- The retry queue at concrete inputs: an embedder that is down, and one object with one job.
use project_brain.Base.{
  ℕ, ◌+◌, true, false, List, [], ◌∷◌, ◌*◌, min, any, ◌≡◌, ◌⊎◌, refl, ok, err, Err, failure, arith,
}
use project_brain.Base.Text.{trim_space, join}
use project_brain.Retry.Backoff.{
  second, max_embedding_retry_backoff, embedding_retry_backoff, backoff_loop, doubled_times,
  embedding_retry_backoff-min,
}
use project_brain.Retry.Queue.{EmbeddingJob, Queue, Outside, claim_due, batch_of, picked, is_job}
use project_brain.Retry.Service.{
  EmbeddingRetryStats, embed_text, retry_aware_embedding_hook, process_one, process_due,
}
use project_brain.Retry.Kept.{Settled, has_job, has_vector, process_one-keeps}
use project_brain.Retry.Contract.{claim_due-once, process_due-total, hook-queues}
use project_brain.Tests.World.{test_env, note_with, one}

abbrev down : Outside
down = record {
  env = test_env;
  model = "m";
  dimensions = 1536;
  embed = λ n t. err (failure 1);
  error_text = λ e. [];
  valid_utf8 = λ b. true;
  returned = λ js. js;
  cancelled_at = λ n k. false;
}

abbrev job_of : ℕ → EmbeddingJob
job_of next_retry_at = record {
  object_id = 77;
  workspace_id = "w";
  model = "m";
  attempts = 1;
  last_error = [];
  next_retry_at = next_retry_at;
  created_at = 1;
  updated_at = 1;
}

abbrev queue_of : List EmbeddingJob → Queue
queue_of jobs = record { world = one "proposed"; jobs = jobs; embeddings = []; embeds = 0 }

abbrev waiting : Queue
waiting = queue_of (job_of 1 ∷ [])

third_delay : embedding_retry_backoff 3 ≡ 120 * second
unfolding embedding_retry_backoff backoff_loop
third_delay = refl

embedding_retry_backoff-min_example :
    embedding_retry_backoff 12 ≡ min (doubled_times 11 (30 * second)) max_embedding_retry_backoff
embedding_retry_backoff-min_example = embedding_retry_backoff-min 11

process_one-keeps_example :
    (has_job 77 "m" (process_one down (job_of 1) waiting).1 ≡ true)
    ⊎ Settled down (job_of 1) waiting (process_one down (job_of 1) waiting).1
unfolding has_job
process_one-keeps_example = process_one-keeps down (job_of 1) waiting refl

claim_due-once_example :
    any (is_job 77 "m") (picked 8 (batch_of 5) (claim_due down 7 5 waiting).1.jobs) ≡ false
unfolding claim_due
claim_due-once_example =
    claim_due-once down 7 5 8 5 waiting
      (record (job_of 1) { next_retry_at = 300000000007; updated_at = 7 } ∷ []) 77 "m" (omega arith)
      refl refl

process_due-total_example :
    (t : EmbeddingRetryStats) × ((process_due down 5 waiting).0 ≡ ok t)
    × (t.claimed ≡ 1)
    × (t.succeeded + t.failed + t.skipped ≡ t.claimed)
unfolding claim_due
process_due-total_example =
    process_due-total down 5 waiting
      (record (job_of 1) { next_retry_at = 300000000001; updated_at = 1 } ∷ []) (λ n k. refl) refl

hook-queues_example :
    (((retry_aware_embedding_hook down (note_with "proposed") (queue_of [])).0 ≡ ok tt)
      × (has_vector 77 "m" (retry_aware_embedding_hook down (note_with "proposed") (queue_of [])).1
          ≡ true))
    ⊎ ((e : Err) × ((retry_aware_embedding_hook down (note_with "proposed") (queue_of [])).0
          ≡ err e)
        × (has_job 77 "m" (retry_aware_embedding_hook down (note_with "proposed") (queue_of [])).1
            ≡ true))
unfolding embed_text trim_space join
hook-queues_example =
    hook-queues down (note_with "proposed") (queue_of []) (λ n. refl) (λ e. refl) refl refl
