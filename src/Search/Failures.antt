-- ===== src/Search/Failures.antt =====
-- What the composite retriever of app/composite_retriever.go returns when retrievers fail.
use mathlib.Core.List.{Memᴰ}
use mathlib.Core.List.Memᴰ.{head, tail}
use project_brain.Base.{
  ℕ, zero, suc, false, ◌≤◌, ◌<◌, String, Bool, true, take, any, ◌==◌, ltb, eq_iff, sym, Bool-cases,
  List, [], ◌∷◌, Option, none, some, All, length, length-take, ◌≡◌, ◌≢◌, ◌⊎◌, refl, ap, ◌∙◌, inl,
  inr, arith, Outcome, ok, err, Err, Calls, proceed, ok-injective,
}
use project_brain.Domain.{KnowledgeObject}
use project_brain.Store.State.{World}
use project_brain.Search.Query.{SearchQuery, SearchResult, ScoredSearchHit}
use project_brain.Search.Fused.{listed, finds, fuse-listed}
use project_brain.Search.Merge.{
  CompositeRetriever, Scored, HitMap, Answers, fan_out, hit_set, first_err, load, hydrate, fuse,
  hydrate_all, ranked, nothing_found, merge_answers, best_type, search,
}

abbrev pub Failed : String × Outcome (List ScoredSearchHit) → Type 0
Failed a = (e : Err) × (a.1 ≡ err e)

proceed-eq :
    {S A B : Type 0} (p : Outcome A × S) (f : A → Calls S B) (a : A)
    → p.0 ≡ ok a
    → proceed p f ≡ f a p.1
proceed-eq (ok a', s) f a h = ap (λ x. f x s) (ok-injective h)
proceed-eq (err e, s) f a h = cc

module _ (c : CompositeRetriever) where
  hit_set-nonempty :
      (answers : Answers c) (m : String × HitMap) (set : List (String × HitMap))
      → hit_set c answers (m ∷ set) ≢ []
  unfolding hit_set
  hit_set-nonempty [] m set h = cc
  hit_set-nonempty ((name, err e) ∷ rest) m set h = hit_set-nonempty rest m set h
  hit_set-nonempty ((name, ok hs) ∷ rest) m set h = hit_set-nonempty rest _ _ h

  -- No hits at all: every retriever failed.
  hit_set-empty : (answers : Answers c) → hit_set c answers [] ≡ [] → All Failed answers
  unfolding hit_set
  hit_set-empty [] h = tt
  hit_set-empty ((name, err e) ∷ rest) h = ((e, refl), hit_set-empty rest h)
  hit_set-empty ((name, ok hs) ∷ rest) h = absurd (hit_set-nonempty rest _ _ h)

  load-ok :
      (ws id : String) (find : Option (String → ℕ → Calls World KnowledgeObject)) (n : Option ℕ)
      (w : World)
      → (o : KnowledgeObject) × ((load c ws id find n w).0 ≡ ok o)
  load-ok ws id none n w = (_, refl)
  load-ok ws id (some find) none w = (_, refl)
  load-ok ws id (some find) (some n) w = (_, refl)

  -- What was loaded for the ID is among the results.
  abbrev pub Found : String → String → List SearchResult → Type 0
  Found ws id rs =
      (x : SearchResult) × (w : World) × Memᴰ x rs × ((hydrate c ws id w).0 ≡ ok x.object)

  Found-later :
      (ws id : String) (r : SearchResult) (rs : List SearchResult)
      → Found ws id rs
      → Found ws id (r ∷ rs)
  Found-later ws id r rs (x, w, m, e) = (x, w, tail m, e)

  -- Every score gets its result.
  hydrate_all-ok :
      (ws : String) (set : List (String × HitMap)) (ss : List Scored) (w : World)
      → (rs : List SearchResult) × ((hydrate_all c ws set ss w).0 ≡ ok rs)
        × (length rs ≡ length ss)
        × ((id : String) → listed id ss ≡ true → Found ws id rs)
  unfolding hydrate_all hydrate
  hydrate_all-ok ws set [] w = ([], refl, refl, λ id k. cc)
  hydrate_all-ok ws set (s ∷ ss) w =
      let (o, e) = load-ok ws s.id c.hydrator (c.parse_uuid s.id) w in
      let w' = (hydrate c ws s.id w).1 in
      let (rs, f, l, found) = hydrate_all-ok ws set ss w' in
      let r : SearchResult = record {
        object = o;
        score = s.score;
        match_type = best_type c s.id set (c.float.zero_bits, "hybrid");
      } in
      (
        r ∷ rs,
        ap (λ x. x.0) (proceed-eq (hydrate c ws s.id w) _ o e)
            ∙ ap (λ x. x.0) (proceed-eq (hydrate_all c ws set ss w') _ rs f),
        ap suc l,
        λ id k. elim (Bool-cases (s.id == id)) [
          | inl same ↦
              (r, w, head refl, ap (λ x. (hydrate c ws x w).0) (sym ((eq_iff s.id id).0 same)) ∙ e)
          | inr n ↦ Found-later ws id r rs (found id (rw n at k))
        ],
      )

  -- What `sort.Slice` does to a slice: it permutes it.
  abbrev pub Sorts : Type 0
  Sorts =
      ((p : ScoredSearchHit → Bool) (hs : List ScoredSearchHit) → any p (c.sort_hits hs) ≡ any p hs)
      × ((p : Scored → Bool) (ss : List Scored) → any p (c.sort_scored ss) ≡ any p ss)

  -- At most `limit` results, and unless there are `limit`, each ID that a retriever found is shown.
  abbrev pub Ranked : String → Answers c → Outcome (List SearchResult) → Type 0
  Ranked ws answers r =
      (rs : List SearchResult) × (r ≡ ok rs)
      × (length rs ≤ c.limit)
      × ((id : String)
          → (any (finds id) answers ≡ false) ⊎ ((length rs ≡ c.limit) ⊎ Found ws id rs))

  abbrev pub AllFailed : Answers c → Outcome (List SearchResult) → Type 0
  AllFailed answers r = All Failed answers × ((e : Err) × (r ≡ err e))

  take-short : (n : ℕ) (ss : List Scored) → length (take n ss) < n → take n ss ≡ ss
  take-short zero ss h = absurd (omega arith)
  take-short (suc n) [] h = refl
  take-short (suc n) (s ∷ ss) h = ap (λ x. s ∷ x) (take-short n ss (omega arith))

  ranked-length : (answers : Answers c) → length (ranked c answers) ≤ c.limit
  unfolding ranked
  ranked-length answers =
      omega (arith, length-take c.limit (c.sort_scored (fuse c (hit_set c answers []) [])))

  -- A ranking that is not full has every ID that was found.
  ranked-listed :
      (answers : Answers c) (id : String)
      → Sorts
      → length (ranked c answers) < c.limit
      → any (finds id) answers ≡ true
      → listed id (ranked c answers) ≡ true
  unfolding ranked
  ranked-listed answers id (hits, scored) short k =
      let all = fuse c (hit_set c answers []) [] in
      ap (listed id) (take-short c.limit (c.sort_scored all) short)
      ∙ (scored (λ s. s.id == id) all ∙ fuse-listed c hits id answers k)

  shown-cases :
      {P : Type 0} (answers : Answers c) (id : String) (rs : List SearchResult)
      → (length rs < c.limit → any (finds id) answers ≡ true → P)
      → length rs ≤ c.limit
      → (any (finds id) answers ≡ false) ⊎ ((length rs ≡ c.limit) ⊎ P)
  shown-cases answers id rs show most = elim (Bool-cases (any (finds id) answers)) [
    | inr missed ↦ inl missed
    | inl given ↦ elim (Bool-cases (ltb (length rs) c.limit)) [
      | inl short ↦ inr (inr (show (ground arith) given))
      | inr full ↦ inr (inl (ground arith))
    ]
  ]

  nothing_found-cases :
      (ws : String) (answers : Answers c)
      → All Failed answers
      → Ranked ws answers (nothing_found c (first_err c answers))
        ⊎ AllFailed answers (nothing_found c (first_err c answers))
  nothing_found-cases ws [] h = inl ([], refl, omega arith, λ id. inl refl)
  nothing_found-cases ws ((name, err e) ∷ rest) h = inr (h, (e, refl))
  nothing_found-cases ws ((name, ok hs) ∷ rest) ((e, f), h) = cc

  merge_answers-cases :
      (ws : String) (answers : Answers c) (set : List (String × HitMap)) (w : World)
      → Sorts
      → hit_set c answers [] ≡ set
      → Ranked ws answers (merge_answers c ws answers set w).0
        ⊎ AllFailed answers (merge_answers c ws answers set w).0
  merge_answers-cases ws answers [] w sorts h =
      nothing_found-cases ws answers (hit_set-empty answers h)
  merge_answers-cases ws answers (m ∷ set) w sorts h =
      let (rs, e, l, found) = hydrate_all-ok ws (m ∷ set) (ranked c answers) w in
      inl (
        rs,
        e,
        omega (arith, ranked-length answers, l),
        λ id.
            shown-cases answers id rs
              (λ short k. found id (ranked-listed answers id sorts (omega (arith, l)) k))
              (omega (arith, ranked-length answers, l)),
      )

  -- Where the two sorts permute their slices, a search gives at most `limit` results, or an error,
  -- and that only if every retriever failed. Unless it gives exactly `limit`, every ID that a
  -- retriever answered with has its object, or its stub, among the results, whichever others
  -- failed. No failed lookup of an object makes the search fail.
  pub search-cases :
      (q : SearchQuery) (w : World)
      → Sorts
      → let answers = (fan_out c q c.primaries w).0 in
        Ranked q.workspace_id answers (search c q w).0 ⊎ AllFailed answers (search c q w).0
  unfolding search
  search-cases q w sorts =
      let (answers, w') = fan_out c q c.primaries w in
      merge_answers-cases q.workspace_id answers (hit_set c answers []) w' sorts refl
