-- ===== src/Runtime/Atomic.antt =====
-- A baseline of internal/migrations is all or nothing.
use mathlib.Core.Path.{subst}
use project_brain.Store.State.{Commit, committed, refused, lost}
use mathlib.Core.Option.{some-injective}
use project_brain.Base.{
  ℕ, ◌+◌, ok-injective, Bool, true, Option, none, some, List, [], ◌∷◌, ◌≡◌, ◌≢◌, ◌⊎◌, refl, sym, ap,
  ◌∙◌, inl, inr, arith, ◌&&◌, Outcome, ok, err, Err, failure, Bool-cases, Option-cases, Calls,
  proceed,
}
use project_brain.Runtime.Migrations.{
  Schema, Migrator, next_call, after_commit, is_none_or_empty, insert_row, checked_call,
  collect_on_disk_versions, probe, insert_versions, ended, baseline, baseline_read, migrate,
  run_migrations,
}

-- The rows after the versions are inserted, newest first.
abbrev pub pushed : List ℕ → List ℕ → List ℕ
pushed [] rows = rows
pushed (v ∷ vs) rows = pushed vs (v ∷ rows)

proceed-err :
    {S A B : Type 0} (p : Outcome A × S) (f : A → Calls S B) (e : Err)
    → p.0 ≡ err e
    → (proceed p f).0 ≡ err e
proceed-err (ok a, s) f e h = cc
proceed-err (err e', s) f e h = ground arith

module _ (m : Migrator) where
  -- An error, or success with these versions above the rows that were there.
  abbrev Outcomes : List ℕ → List ℕ → Outcome (Unit {0}) × Schema → Type 0
  Outcomes vs rows x =
      ((e : Err) × (x.0 ≡ err e)) ⊎ ((x.0 ≡ ok tt) × (x.1.versions ≡ some (pushed vs rows)))

  insert_one :
      (v : ℕ) (s : Schema)
      → ((e : Err) × ((checked_call m (insert_row v) s).0 ≡ err e))
        ⊎ ((rows : List ℕ) × (s.versions ≡ some rows)
            × (checked_call m (insert_row v) s
                ≡ (ok tt, record (next_call s) { versions = some (v ∷ rows) })))
  insert_one v s = elim (Bool-cases (m.fault s.calls)) [
    | inl broken ↦ inl (failure s.calls, rw broken refl)
    | inr works ↦ elim (Option-cases s.versions) [
      | inl n ↦ inl (failure s.calls, rw (works, n) refl)
      | inr (rows, q) ↦ inr (rows, q, rw (works, q) refl)
    ]
  ]

  insert_versions-cases :
      (vs : List ℕ) (s : Schema) (rows : List ℕ)
      → s.versions ≡ some rows
      → Outcomes vs rows (insert_versions m vs s)
  unfolding insert_versions
  insert_versions-cases [] s rows h = inr (refl, h)
  insert_versions-cases (v ∷ vs) s rows h = elim (insert_one v s) [
    | inl (e, failed) ↦ inl (e, proceed-err (checked_call m (insert_row v) s) _ e failed)
    | inr (rows', q, done) ↦
        let s' = record (next_call s) { versions = some (v ∷ rows') } in
        subst (Outcomes (v ∷ vs) rows) (sym (ap (λ x. proceed x (λ u. insert_versions m vs)) done))
          (subst (λ r. Outcomes vs (v ∷ r) (insert_versions m vs s'))
            (some-injective rows' rows (sym q ∙ h)) (insert_versions-cases vs s' (v ∷ rows') refl))
  ]

  -- The rows are as before an error, or a success recorded these versions in an empty table.
  abbrev pub Baselined : Option (List ℕ) → List ℕ → Outcome (Unit {0}) × Schema → Type 0
  Baselined before vs x =
      (((e : Err) × (x.0 ≡ err e)) × (x.1.versions ≡ before))
      ⊎ ((x.0 ≡ ok tt) × (before ≡ some []) × (x.1.versions ≡ some (pushed vs [])))

  -- Nothing recorded and an error, or every version on disk recorded.
  abbrev pub AllOrNothing : Option (List ℕ) → Outcome (Unit {0}) × Schema → Type 0
  AllOrNothing before x =
      (((e : Err) × (x.0 ≡ err e)) × (x.1.versions ≡ before))
      ⊎ ((vs : List ℕ) × (collect_on_disk_versions m m.entries ≡ ok vs)
          × (x.0 ≡ ok tt)
          × (before ≡ some [])
          × (x.1.versions ≡ some (pushed vs [])))

  module _ (kept : (n : ℕ) → m.commit_at n ≢ lost) where
    after_commit-cases :
        (before s : Schema) (c : Commit)
        → c ≢ lost
        → (((e : Err) × ((after_commit m before s c).0 ≡ err e))
            × ((after_commit m before s c).1.versions ≡ before.versions))
          ⊎ (((after_commit m before s c).0 ≡ ok tt)
              × ((after_commit m before s c).1.versions ≡ s.versions))
    after_commit-cases before s committed h = inr (refl, refl)
    after_commit-cases before s refused h = inl ((failure s.calls, refl), refl)
    after_commit-cases before s lost h = absurd (h refl)

    ended-cases :
        (before : Schema) (x : Outcome (Unit {0}) × Schema) (vs : List ℕ)
        → before.versions ≡ some []
        → Outcomes vs [] x
        → Baselined before.versions vs (ended m before x)
    ended-cases before (err e, s) vs q o = inl ((e, refl), refl)
    ended-cases before (ok u, s) vs q (inl (e, failed)) = cc
    ended-cases before (ok u, s) vs q (inr (works, rows)) =
        elim (after_commit-cases before s (m.commit_at s.calls) (kept s.calls)) [
          | inl (failed, same) ↦ inl (failed, same)
          | inr (good, same) ↦ inr (good, q, same ∙ rows)
        ]

    ended-err :
        (before : Schema) (x : Outcome (Unit {0}) × Schema) (vs : List ℕ) (e : Err)
        → x.0 ≡ err e
        → Baselined before.versions vs (ended m before x)
    ended-err before (err e', s) vs e h = inl ((e', refl), refl)
    ended-err before (ok u, s) vs e h = cc

    insert_versions-none :
        (v : ℕ) (vs : List ℕ) (s : Schema)
        → s.versions ≡ none
        → (e : Err) × ((insert_versions m (v ∷ vs) s).0 ≡ err e)
    unfolding insert_versions
    insert_versions-none v vs s n = elim (insert_one v s) [
      | inl (e, failed) ↦ (e, proceed-err (checked_call m (insert_row v) s) _ e failed)
      | inr (rows, q, done) ↦ cc
    ]

    empty-cases : (o : Option (List ℕ)) → is_none_or_empty o ≡ true → (o ≡ none) ⊎ (o ≡ some [])
    empty-cases none h = inl refl
    empty-cases (some []) h = inr refl
    empty-cases (some (v ∷ vs)) h = cc

    baseline-cases :
        (vs : List ℕ) (s : Schema)
        → is_none_or_empty s.versions ≡ true
        → Baselined s.versions vs (baseline m vs s)
    unfolding baseline
    baseline-cases [] s h = inl ((failure 0, refl), refl)
    baseline-cases (v ∷ vs) s h = elim (Bool-cases (m.fault s.calls)) [
      | inl broken ↦ rw broken (inl ((failure s.calls, refl), refl))
      | inr works ↦ rw works (elim (empty-cases s.versions h) [
        | inl n ↦
            let (e, failed) = insert_versions-none v vs (next_call s) n in
            ended-err s (insert_versions m (v ∷ vs) (next_call s)) (v ∷ vs) e failed
        | inr q ↦
            ended-cases s (insert_versions m (v ∷ vs) (next_call s)) (v ∷ vs) q
              (insert_versions-cases (v ∷ vs) (next_call s) [] q)
      ])
    ]

    probe-cases :
        (s : Schema)
        → (((e : Err) × ((probe m s).0 ≡ err e)) × ((probe m s).1.versions ≡ s.versions))
          ⊎ (((probe m s).0 ≡ ok (s.sentinel, is_none_or_empty s.versions))
              × ((probe m s).1.versions ≡ s.versions))
    unfolding probe
    probe-cases s = elim (Bool-cases (m.fault s.calls)) [
      | inl broken ↦ inl ((failure s.calls, rw broken refl), rw broken refl)
      | inr works ↦ elim (Bool-cases (m.fault (s.calls + 1))) [
        | inl broken ↦
            inl ((failure (s.calls + 1), rw (works, broken) refl), rw (works, broken) refl)
        | inr works' ↦ inr (rw (works, works') refl, rw (works, works') refl)
      ]
    ]

    baseline_read-cases :
        (r : Outcome (List ℕ)) (s : Schema)
        → collect_on_disk_versions m m.entries ≡ r
        → is_none_or_empty s.versions ≡ true
        → AllOrNothing s.versions (baseline_read m r s)
    baseline_read-cases (err e) s q h = inl ((e, refl), refl)
    baseline_read-cases (ok vs) s q h = elim (baseline-cases vs s h) [
      | inl nothing ↦ inl nothing
      | inr (good, empty, rows) ↦ inr (vs, q, good, empty, rows)
    ]

    probed :
        (x : Outcome (Bool × Bool) × Schema) (before : Option (List ℕ))
        → ((((e : Err) × (x.0 ≡ err e)) × (x.1.versions ≡ before))
            ⊎ ((x.0 ≡ ok (true, true)) × (x.1.versions ≡ before)))
        → is_none_or_empty before ≡ true
        → AllOrNothing before (proceed x (λ p. migrate m (p.0 && p.1)))
    probed (err e, s) before (inl (failed, same)) h = inl ((e, refl), same)
    probed (err e, s) before (inr (good, same)) h = cc
    probed (ok p, s) before (inl ((e, failed), same)) h = cc
    probed (ok p, s) before (inr (good, same)) h =
        subst (λ q. AllOrNothing before (migrate m (q.0 && q.1) s)) (sym (ok-injective good))
          (subst (λ b. AllOrNothing b (migrate m true s)) same
            (baseline_read-cases (collect_on_disk_versions m m.entries) s refl
              (ap is_none_or_empty same ∙ h)))

    -- Unless the answer to a COMMIT is lost, the start on a database that has the tables of the
    -- program and no recorded version ends in one of two ways: with an error, and the recorded
    -- versions are as before; or with success, which needs an empty version table, and exactly
    -- the versions on disk are recorded. A database without the version table always ends in
    -- the error.
    pub run_migrations-AllOrNothing :
        (s : Schema)
        → s.sentinel ≡ true
        → is_none_or_empty s.versions ≡ true
        → AllOrNothing s.versions (run_migrations m s)
    unfolding run_migrations
    run_migrations-AllOrNothing s old empty =
        probed (probe m s) s.versions
          (subst
            (λ b.
              (((e : Err) × ((probe m s).0 ≡ err e)) × ((probe m s).1.versions ≡ s.versions))
              ⊎ (((probe m s).0 ≡ ok b) × ((probe m s).1.versions ≡ s.versions)))
            (ap (λ b. (b, is_none_or_empty s.versions)) old ∙ ap (λ b. (true, b)) empty)
            (probe-cases s))
          empty
