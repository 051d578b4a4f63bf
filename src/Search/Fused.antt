-- ===== src/Search/Fused.antt =====
-- app/composite_retriever.go: no ID that an answer holds is lost on the way to the scores.
use project_brain.Base.{
  ℕ, suc, ◌+◌, String, Bool, true, false, not, some, List, [], ◌∷◌, any, first, select, ◌==◌, ◌≡◌,
  refl, sym, ap, ◌∙◌, inl, inr, arith, eq_iff, Outcome, ok, err, Bool-cases, Option-cases,
}
use project_brain.Search.Query.{ScoredSearchHit}
use project_brain.Search.Merge.{
  CompositeRetriever, Scored, HitMap, Answers, is_hit, keep_hit, keep_hits, map_named, put_hits,
  hit_set, add_score, add_ranks, fuse,
}

abbrev pub listed : String → List Scored → Bool
listed id ss = any (λ s. s.id == id) ss

-- A retriever answered with a hit of the ID.
abbrev pub finds : String → String × Outcome (List ScoredSearchHit) → Bool
finds id (name, ok hs) = any (is_hit id) hs
finds id (name, err e) = false

is_hit-own : (h : ScoredSearchHit) → is_hit h.object_id h ≡ true
is_hit-own h = (eq_iff h.object_id h.object_id).1 refl

first-any :
    (id : String) (hits : HitMap) (x : ScoredSearchHit)
    → first (is_hit id) hits ≡ some x
    → any (is_hit id) hits ≡ true
first-any id [] x h = cc
first-any id (y ∷ hits) x h = ground (arith, first-any id hits x)

select-other :
    (id other : String) (hits : HitMap)
    → (other == id) ≡ false
    → any (is_hit id) hits ≡ true
    → any (is_hit id) (select (λ x. not (is_hit other x)) hits) ≡ true
select-other id other [] n h = cc
select-other id other (x ∷ hits) n h = ground (
  arith,
  select-other id other hits,
  eq_iff x.object_id id,
  eq_iff x.object_id other,
  eq_iff other id,
)

module _ (c : CompositeRetriever) where
  keep_hit-adds :
      (h : ScoredSearchHit) (hits : HitMap) → any (is_hit h.object_id) (keep_hit c h hits) ≡ true
  keep_hit-adds h hits = elim (Option-cases (first (is_hit h.object_id) hits)) [
    | inl n ↦ rw (n, keep_hit, is_hit-own h) refl
    | inr (cur, f) ↦ elim (Bool-cases (c.float.less cur.score h.score)) [
      | inl p ↦ rw (f, p, keep_hit, is_hit-own h) refl
      | inr p ↦ rw (f, p, keep_hit) (first-any h.object_id hits cur f)
    ]
  ]

  keep_hit-keeps :
      (id : String) (h : ScoredSearchHit) (hits : HitMap)
      → any (is_hit id) hits ≡ true
      → any (is_hit id) (keep_hit c h hits) ≡ true
  keep_hit-keeps id h hits k = elim (Bool-cases (h.object_id == id)) [
    | inl s ↦
        ap (λ x. any (is_hit x) (keep_hit c h hits)) (sym ((eq_iff h.object_id id).0 s))
        ∙ keep_hit-adds h hits
    | inr n ↦ elim (Option-cases (first (is_hit h.object_id) hits)) [
      | inl f ↦ rw (f, n, keep_hit) k
      | inr (cur, f) ↦ elim (Bool-cases (c.float.less cur.score h.score)) [
        | inl p ↦ rw (f, p, n, keep_hit) (select-other id h.object_id hits n k)
        | inr p ↦ rw (f, p, keep_hit) k
      ]
    ]
  ]

  keep_hits-keeps :
      (id : String) (hs hits : List ScoredSearchHit)
      → any (is_hit id) hits ≡ true
      → any (is_hit id) (keep_hits c hs hits) ≡ true
  keep_hits-keeps id [] hits k = k
  keep_hits-keeps id (h ∷ hs) hits k = keep_hits-keeps id hs _ (keep_hit-keeps id h hits k)

  keep_hits-adds :
      (id : String) (hs hits : List ScoredSearchHit)
      → any (is_hit id) hs ≡ true
      → any (is_hit id) (keep_hits c hs hits) ≡ true
  keep_hits-adds id [] hits k = cc
  keep_hits-adds id (h ∷ hs) hits k = elim (Bool-cases (is_hit id h)) [
    | inl s ↦ keep_hits-keeps id hs _ (
        ap (λ x. any (is_hit x) (keep_hit c h hits)) (sym ((eq_iff h.object_id id).0 s))
        ∙ keep_hit-adds h hits)
    | inr n ↦ keep_hits-adds id hs _ (rw n at k)
  ]

  map_named-select :
      (n name : String) (set : List (String × HitMap))
      → (name == n) ≡ false
      → map_named c n (select (λ m. not (m.0 == name)) set) ≡ map_named c n set
  map_named-select n name [] h = refl
  map_named-select n name (m ∷ set) h =
      ground (arith, map_named-select n name set, eq_iff m.0 n, eq_iff m.0 name, eq_iff name n)

  put_hits-keeps :
      (id n name : String) (hs : List ScoredSearchHit) (set : List (String × HitMap))
      → any (is_hit id) (map_named c n set) ≡ true
      → any (is_hit id) (map_named c n (put_hits c name hs set)) ≡ true
  put_hits-keeps id n name hs set k = elim (Bool-cases (name == n)) [
    | inl s ↦
        rw (s, any, map_named)
          (keep_hits-keeps id hs (map_named c name set)
            (ap (λ x. any (is_hit id) (map_named c x set)) ((eq_iff name n).0 s) ∙ k))
    | inr s ↦ rw (s, any, map_named) (ap (any (is_hit id)) (map_named-select n name set s) ∙ k)
  ]

  hit_set-keeps :
      (id n : String) (answers : Answers c) (set : List (String × HitMap))
      → any (is_hit id) (map_named c n set) ≡ true
      → any (is_hit id) (map_named c n (hit_set c answers set)) ≡ true
  unfolding hit_set
  hit_set-keeps id n [] set k = k
  hit_set-keeps id n ((name, err e) ∷ rest) set k = hit_set-keeps id n rest set k
  hit_set-keeps id n ((name, ok hs) ∷ rest) set k =
      hit_set-keeps id n rest _ (put_hits-keeps id n name hs set k)

  hit_set-adds :
      (id : String) (answers : Answers c) (set : List (String × HitMap))
      → any (finds id) answers ≡ true
      → (n : String) × (any (is_hit id) (map_named c n (hit_set c answers set)) ≡ true)
  unfolding hit_set
  hit_set-adds id [] set k = cc
  hit_set-adds id ((name, err e) ∷ rest) set k = hit_set-adds id rest set k
  hit_set-adds id ((name, ok hs) ∷ rest) set k = elim (Bool-cases (any (is_hit id) hs)) [
    | inl p ↦ (
      name,
      hit_set-keeps id name rest _ (
          rw ((eq_iff name name).1 refl, any, map_named)
            (keep_hits-adds id hs (map_named c name set) p)),
    )
    | inr p ↦ hit_set-adds id rest _ (rw p at k)
  ]

  add_score-adds : (id : String) (x : ℕ) (ss : List Scored) → listed id (add_score c id x ss) ≡ true
  add_score-adds id x [] = rw ((eq_iff id id).1 refl) refl
  add_score-adds id x (s ∷ ss) = ground (arith, add_score-adds id x ss)

  add_score-keeps :
      (id other : String) (x : ℕ) (ss : List Scored)
      → listed id ss ≡ true
      → listed id (add_score c other x ss) ≡ true
  add_score-keeps id other x [] k = cc
  add_score-keeps id other x (s ∷ ss) k = ground (arith, add_score-keeps id other x ss)

  add_ranks-keeps :
      (id : String) (rank : ℕ) (hs : List ScoredSearchHit) (ss : List Scored)
      → listed id ss ≡ true
      → listed id (add_ranks c rank hs ss) ≡ true
  add_ranks-keeps id rank [] ss k = k
  add_ranks-keeps id rank (h ∷ hs) ss k =
      add_ranks-keeps id (suc rank) hs _ (add_score-keeps id h.object_id _ ss k)

  add_ranks-adds :
      (id : String) (rank : ℕ) (hs : List ScoredSearchHit) (ss : List Scored)
      → any (is_hit id) hs ≡ true
      → listed id (add_ranks c rank hs ss) ≡ true
  add_ranks-adds id rank [] ss k = cc
  add_ranks-adds id rank (h ∷ hs) ss k = elim (Bool-cases (is_hit id h)) [
    | inl s ↦ add_ranks-keeps id (suc rank) hs _ (
        ap (λ y. listed y (add_score c h.object_id (c.float.inverse (c.k + rank + 1)) ss))
          (sym ((eq_iff h.object_id id).0 s))
        ∙ add_score-adds h.object_id _ ss)
    | inr n ↦ add_ranks-adds id (suc rank) hs _ (rw n at k)
  ]

  fuse-keeps :
      (id : String) (set : List (String × HitMap)) (ss : List Scored)
      → listed id ss ≡ true
      → listed id (fuse c set ss) ≡ true
  unfolding fuse
  fuse-keeps id [] ss k = k
  fuse-keeps id ((name, hits) ∷ set) ss k =
      fuse-keeps id set _ (add_ranks-keeps id 0 (c.sort_hits hits) ss k)

  module _
      (sorts : (p : ScoredSearchHit → Bool) (hs : List ScoredSearchHit)
        → any p (c.sort_hits hs) ≡ any p hs) where
    fuse-adds :
        (id n : String) (set : List (String × HitMap)) (ss : List Scored)
        → any (is_hit id) (map_named c n set) ≡ true
        → listed id (fuse c set ss) ≡ true
    unfolding fuse
    fuse-adds id n [] ss k = cc
    fuse-adds id n ((name, hits) ∷ set) ss k = elim (Bool-cases (name == n)) [
      | inl s ↦ fuse-keeps id set _ (
          add_ranks-adds id 0 (c.sort_hits hits) ss
            (sorts (is_hit id) hits ∙ (rw (s, any, map_named) at k)))
      | inr s ↦ fuse-adds id n set _ (rw (s, any, map_named) at k)
    ]

    -- What a retriever found is scored.
    pub fuse-listed :
        (id : String) (answers : Answers c)
        → any (finds id) answers ≡ true
        → listed id (fuse c (hit_set c answers []) []) ≡ true
    fuse-listed id answers k =
        let (n, p) = hit_set-adds id answers [] k in fuse-adds id n (hit_set c answers []) [] p
