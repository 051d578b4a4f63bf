-- ===== src/Retry/Keys.antt =====
-- The primary key of embedding_jobs under the statements: what the rows' keys are afterwards.
use project_brain.Base.{
  ℕ, String, Bool, true, false, List, [], ◌∷◌, map, take, any, select, if◌then◌else◌, ◌≡◌, refl,
  arith, zero, suc, Bool-cases, inl, inr, ◌∙◌, eq_iff, ◌<◌, ◌+◌,
}
use project_brain.Retry.Queue.{
  EmbeddingJob, is_job, put_job, due, insert_due, by_next_retry, picked, among, lease_all,
  embedding_job_lease, failed_row,
}

-- A change of a row that keeps its key.
abbrev pub KeepsKey : (EmbeddingJob → EmbeddingJob) → Type 0
KeepsKey f = (j : EmbeddingJob) → ((f j).object_id ≡ j.object_id) × ((f j).model ≡ j.model)

pub any-map-key :
    (f : EmbeddingJob → EmbeddingJob) (i : ℕ) (m : String) (js : List EmbeddingJob)
    → KeepsKey f
    → any (is_job i m) (map f js) ≡ any (is_job i m) js
any-map-key f i m [] k = refl
any-map-key f i m (j ∷ js) k = rw (k j).0 (rw (k j).1 (rw (any-map-key f i m js k) refl))

pub failed-KeepsKey :
    (i : ℕ) (m : String) (n : ℕ) (e : List ℕ) (at now : ℕ)
    → KeepsKey (λ j. if is_job i m j then failed_row n e at now j else j)
failed-KeepsKey i m n e at now j = ground arith

key_of :
    (i : ℕ) (m : String) (j : EmbeddingJob)
    → is_job i m j ≡ true
    → (j.object_id ≡ i) × (j.model ≡ m)
key_of i m j h = ground (arith, eq_iff j.model m)

own_key : (j : EmbeddingJob) → is_job j.object_id j.model j ≡ true
own_key j = ground (arith, eq_iff j.model j.model)

-- After an upsert the key is there.
pub put_job-has :
    (job : EmbeddingJob) (now : ℕ) (js : List EmbeddingJob)
    → any (is_job job.object_id job.model) (put_job job now js) ≡ true
put_job-has job now js = elim (Bool-cases (any (is_job job.object_id job.model) js)) [
  | inl p ↦ rw p (any-map-key _ job.object_id job.model js (λ j. ground arith) ∙ p)
  | inr p ↦ rw p (ground (arith, own_key job))
]

any-take {ℓ} :
    {A : Type ℓ} (p : A → Bool) (n : ℕ) (xs : List A) → any p xs ≡ false → any p (take n xs) ≡ false
any-take p zero xs h = refl
any-take p (suc n) [] h = refl
any-take p (suc n) (x ∷ xs) h = ground (arith, any-take p n xs)

any-insert_due :
    (p : EmbeddingJob → Bool) (j : EmbeddingJob) (js : List EmbeddingJob)
    → any p (j ∷ js) ≡ false
    → any p (insert_due j js) ≡ false
any-insert_due p j [] h = h
any-insert_due p j (k ∷ ks) h = ground (arith, any-insert_due p j ks)

any-by_next_retry :
    (p : EmbeddingJob → Bool) (js : List EmbeddingJob)
    → any p js ≡ false
    → any p (by_next_retry js) ≡ false
any-by_next_retry p [] h = refl
any-by_next_retry p (j ∷ js) h =
    any-insert_due p j (by_next_retry js) (ground (arith, any-by_next_retry p js))

among-key :
    (i : ℕ) (m : String) (picks : List EmbeddingJob) (j : EmbeddingJob)
    → is_job i m j ≡ true
    → among picks j ≡ any (is_job i m) picks
among-key i m picks j h = let (p, q) = key_of i m j h in rw p (rw q refl)

-- No row that the first claim picked is due before its lease ends.
leased-not_due :
    (now later : ℕ) (i : ℕ) (m : String) (picks js : List EmbeddingJob)
    → later < now + embedding_job_lease
    → any (is_job i m) picks ≡ true
    → any (is_job i m) (select (due later) (lease_all now picks js)) ≡ false
leased-not_due now later i m picks [] b h = refl
leased-not_due now later i m picks (j ∷ js) b h =
    ground (arith, leased-not_due now later i m picks js b h, among-key i m picks j)

pub picked-once :
    (now later limit : ℕ) (i : ℕ) (m : String) (picks js : List EmbeddingJob)
    → later < now + embedding_job_lease
    → any (is_job i m) picks ≡ true
    → any (is_job i m) (picked later limit (lease_all now picks js)) ≡ false
picked-once now later limit i m picks js b h =
    any-take (is_job i m) limit _
      (any-by_next_retry (is_job i m) _ (leased-not_due now later i m picks js b h))
