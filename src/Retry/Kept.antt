-- ===== src/Retry/Kept.antt =====
-- What a retry and the hook leave behind: a job is given up only when it has nothing left to do.
use project_brain.Base.{
  ℕ, String, Bool, Bool-cases, inl, inr, true, ◌&&◌, some, none, List, [], ◌∷◌, length, any, eqb,
  eq_iff, ◌==◌, ◌≡◌, ◌⊎◌, ◌∙◌, ap, sym, refl, arith, if◌then◌else◌, ok, err, Err, Outcome-cases,
  is_not_found, not_found, failure, Option-cases,
}
use project_brain.Base.Text.{is_empty}
use project_brain.Domain.{KnowledgeObject}
use project_brain.Store.Objects.{find}
use project_brain.Store.Rows.{find-is_row}
use project_brain.Retry.Queue.{
  Bytes, EmbeddingJob, Embedding, Queue, Outside, bump, put_embedding, mark_failed, delete_job,
  upsert_embedding, find_by_id, is_job, failed_row,
}
use project_brain.Retry.Service.{
  embed_text, embed_and_upsert, record_failure, retry_text, retry_object, process_one,
}
use project_brain.Retry.Keys.{any-map-key, failed-KeepsKey}

unfoldable pub has_job : ℕ → String → Queue → Bool
has_job id m q = any (is_job id m) q.jobs

abbrev vector_of : ℕ → String → Embedding → Bool
vector_of id m e = eqb e.object_id id && e.model == m && eqb (length e.vector) 1536

-- A vector of this model and of the right length is stored for the object.
unfoldable pub has_vector : ℕ → String → Queue → Bool
has_vector id m q = any (vector_of id m) q.embeddings

vector_key :
    (a i : ℕ) (b m : String) (q : Queue)
    → a ≡ i
    → b ≡ m
    → has_vector a b q ≡ true
    → has_vector i m q ≡ true
vector_key a i b m q p r h = rw p at (rw r at h)

put_embedding-has :
    (e : Embedding) (l : List Embedding)
    → vector_of e.object_id e.model e ≡ true
    → any (vector_of e.object_id e.model) (put_embedding e l) ≡ true
put_embedding-has e [] h = ground arith
put_embedding-has e (x ∷ l) h = ground (arith, put_embedding-has e l h)

module _ (out : Outside) where
  find_by_id-cases :
      (ws : String) (id : ℕ) (q : Queue)
      → ((e : Err) × (find_by_id out ws id q ≡ (err e, bump q))
          × ((is_not_found e ≡ true) → find ws id q.world.db.objects ≡ none))
        ⊎ ((o : KnowledgeObject) × (find ws id q.world.db.objects ≡ some o)
            × (find_by_id out ws id q ≡ (ok o, bump q)))
  unfolding find_by_id
  find_by_id-cases ws id q = elim (Bool-cases (out.env.fault q.world.calls)) [
    | inl p ↦ inl (failure q.world.calls, rw p refl, λ h. cc)
    | inr p ↦ elim (Option-cases (find ws id q.world.db.objects)) [
      | inl n ↦ inl (not_found, rw p (rw n refl), λ h. n)
      | inr (o, f) ↦ inr (o, f, rw p (rw f refl))
    ]
  ]

  mark_failed-has :
      (i : ℕ) (m : String) (n : ℕ) (e : Bytes) (at : ℕ) (id : ℕ) (m' : String) (q : Queue)
      → has_job id m' (mark_failed out i m n e at q).1 ≡ has_job id m' q
  unfolding mark_failed has_job
  mark_failed-has i m n e at id m' q =
      let now = out.env.clock_at q.world.readings in
      let kept = failed-KeepsKey i m n e at now in
      ground (
        arith,
        any-map-key (λ j. if is_job i m j then failed_row n e at now j else j) id m' q.jobs kept,
      )

  upsert_embedding-cases :
      (e : Embedding) (q : Queue)
      → ((upsert_embedding out e q).1.jobs ≡ q.jobs)
        × (((x : Err) × ((upsert_embedding out e q).0 ≡ err x))
            ⊎ (((upsert_embedding out e q).0 ≡ ok tt)
                × (has_vector e.object_id e.model (upsert_embedding out e q).1 ≡ true)))
  unfolding upsert_embedding has_vector
  upsert_embedding-cases e q =
      let now = out.env.clock_at q.world.readings in
      let row : Embedding = record e { created_at = now; updated_at = now } in
      ground (arith, put_embedding-has row q.embeddings, eq_iff e.model e.model)

  -- Embedding leaves the jobs as they are, and ends with an error or a stored vector.
  pub embed_and_upsert-cases :
      (o : KnowledgeObject) (text : String) (q : Queue)
      → ((embed_and_upsert out o text q).1.jobs ≡ q.jobs)
        × (((e : Err) × ((embed_and_upsert out o text q).0 ≡ err e))
            ⊎ (((embed_and_upsert out o text q).0 ≡ ok tt)
                × (has_vector o.id out.model (embed_and_upsert out o text q).1 ≡ true)))
  unfolding embed_and_upsert
  embed_and_upsert-cases o text q = elim (Outcome-cases (out.embed q.embeds text)) [
    | inl (v, p) ↦ rw p (upsert_embedding-cases _ _)
    | inr (e, p) ↦ rw p (refl, inl (_, refl))
  ]

  delete_job-embeddings :
      (i : ℕ) (m : String) (q : Queue) → (delete_job out i m q).1.embeddings ≡ q.embeddings
  unfolding delete_job
  delete_job-embeddings i m q = ground arith

  -- Nothing is left to do for a job.
  pub data Settled (job : EmbeddingJob) (q q' : Queue) : Type 0 where
    embedded : has_vector job.object_id job.model q' ≡ true → Settled job q q'
    missing : find job.workspace_id job.object_id q.world.db.objects ≡ none → Settled job q q'
    blank :
        (o : KnowledgeObject)
        → find job.workspace_id job.object_id q.world.db.objects ≡ some o
        → is_empty (embed_text o) ≡ true
        → Settled job q q'

  record_failure-has :
      (job : EmbeddingJob) (e : Err) (q : Queue) (id : ℕ) (m : String)
      → has_job id m (record_failure out job e q).1 ≡ has_job id m q
  unfolding record_failure has_job
  record_failure-has job e q id m = mark_failed-has _ _ _ _ _ id m _

  found_id :
      (job : EmbeddingJob) (o : KnowledgeObject) (q : Queue)
      → find job.workspace_id job.object_id q.world.db.objects ≡ some o
      → o.id ≡ job.object_id
  found_id job o q f =
      let r = find-is_row job.workspace_id job.object_id q.world.db.objects o f in ground arith

  bumped :
      (job : EmbeddingJob) (q : Queue)
      → has_job job.object_id job.model q ≡ true
      → has_job job.object_id job.model (bump q) ≡ true
  unfolding has_job
  bumped job q h = h

  -- `processOne` from the embedding on: the job stays, or the vector is there.
  retry_text-keeps :
      (job : EmbeddingJob) (o : KnowledgeObject) (text : String) (q : Queue)
      → o.id ≡ job.object_id
      → out.model ≡ job.model
      → has_job job.object_id job.model q ≡ true
      → (has_job job.object_id job.model (retry_text out job o text q).1 ≡ true)
        ⊎ (has_vector job.object_id job.model (retry_text out job o text q).1 ≡ true)
  unfolding retry_text record_failure has_job has_vector
  retry_text-keeps job o text q i m h =
      let (same, cases) = embed_and_upsert-cases o text q in
      let key = is_job job.object_id job.model in
      elim cases [
        | inl (e, p) ↦
            inl (rw p (record_failure-has job e _ job.object_id job.model ∙ ap (any key) same ∙ h))
        | inr (p, v) ↦ inr (
            rw p (
              ap (any (vector_of job.object_id job.model)) (delete_job-embeddings _ _ _)
              ∙ vector_key _ _ _ _ (embed_and_upsert out o text q).1 i m v))
      ]

  retry_object-keeps :
      (job : EmbeddingJob) (o : KnowledgeObject) (q : Queue)
      → find job.workspace_id job.object_id q.world.db.objects ≡ some o
      → job.model ≡ out.model
      → has_job job.object_id job.model q ≡ true
      → (has_job job.object_id job.model (retry_object out job o (bump q)).1 ≡ true)
        ⊎ Settled job q (retry_object out job o (bump q)).1
  unfolding retry_object
  retry_object-keeps job o q f m h = elim (Bool-cases (is_empty (embed_text o))) [
    | inl b ↦ inr (blank o f b)
    | inr b ↦
        rw b
          (elim (retry_text-keeps job o (embed_text o) (bump q) (found_id job o q f) (sym m)
            (bumped job q h)) [ inl k ↦ inl k | inr v ↦ inr (embedded v) ])
  ]

  -- A retry removes a job that was queued only if the vector is stored then, or there is no object
  -- or no text to embed: no failure loses the job.
  pub process_one-keeps :
      (job : EmbeddingJob) (q : Queue)
      → has_job job.object_id job.model q ≡ true
      → (has_job job.object_id job.model (process_one out job q).1 ≡ true)
        ⊎ Settled job q (process_one out job q).1
  unfolding process_one record_failure
  process_one-keeps job q h = elim (Bool-cases (job.model == out.model)) [
    | inr p ↦ inl (rw p h)
    | inl p ↦ elim (find_by_id-cases job.workspace_id job.object_id q) [
      | inr (o, f, r) ↦
          rw p (rw r (retry_object-keeps job o q f ((eq_iff job.model out.model).0 p) h))
      | inl (e, r, n) ↦ elim (Bool-cases (is_not_found e)) [
        | inl b ↦ inr (missing (n b))
        | inr b ↦ inl (rw p (rw r (rw b (record_failure-has job _ (bump q) _ _ ∙ bumped job q h))))
      ]
    ]
  ]
