-- ===== src/Search/Merge.antt =====
-- app/composite_retriever.go. The goroutines of the fan-out are run one after another. The order in
-- which Go walks a map and what sort.Slice does with equal scores are the two sorting functions.
use project_brain.Base.{
  ℕ, suc, ◌+◌, String, Bool, not, Option, none, some, List, [], ◌∷◌, map, first, select, take, eqb,
  ◌==◌, if◌then◌else◌, Outcome, ok, err, Err, Calls, attempt, pure, ◌>>=◌,
}
use project_brain.Domain.{KnowledgeObject}
use project_brain.Store.State.{World}
use project_brain.Search.Query.{
  SearchQuery, SearchResult, ScoredSearchHit, default_search_limit, Retriever, Float64,
}

pub record Scored : Type 0 where
  pub id : String
  pub score : ℕ

-- `primaries` are retrievers with their %T, `empty_object` is the zero value but for the ID.
pub record CompositeRetriever : Type 0 where
  pub primaries : List (String × Retriever)
  pub k : ℕ
  pub limit : ℕ
  pub hydrator : Option (String → ℕ → Calls World KnowledgeObject)
  pub float : Float64
  pub sort_hits : List ScoredSearchHit → List ScoredSearchHit
  pub sort_scored : List Scored → List Scored
  pub parse_uuid : String → Option ℕ
  pub uuid_text : ℕ → String
  pub empty_object : ℕ → KnowledgeObject

-- The constants are the defaults of `NewCompositeRetriever`.
unfoldable pub new_composite_retriever :
    CompositeRetriever → List (String × Retriever) → ℕ → ℕ → CompositeRetriever
new_composite_retriever outside primaries k limit = record outside {
  primaries = primaries;
  k = if eqb k 0 then 60 else k;
  limit = if eqb limit 0 then default_search_limit else limit;
}

abbrev pub HitMap : Type 0
HitMap = List ScoredSearchHit

abbrev pub is_hit : String → ScoredSearchHit → Bool
is_hit id h = h.object_id == id

module _ (c : CompositeRetriever) where
  abbrev pub hit_of : SearchResult → ScoredSearchHit
  hit_of r = record {
    object_id = c.uuid_text r.object.id;
    score = r.score;
    match_type = r.match_type;
  }

  abbrev pub to_hits : Outcome (List SearchResult) → Outcome (List ScoredSearchHit)
  to_hits (ok rs) = ok (map hit_of rs)
  to_hits (err e) = err e

  abbrev pub Answers : Type 0
  Answers = List (String × Outcome (List ScoredSearchHit))

  unfoldable pub fan_out : SearchQuery → List (String × Retriever) → World → Answers × World
  fan_out q [] w = ([], w)
  fan_out q ((name, retriever) ∷ rest) w =
      let (r, w') = retriever q w in
      let (others, w'') = fan_out q rest w' in ((name, to_hits r) ∷ others, w'')

  -- Keep the best score of an object.
  abbrev pub keep_hit : ScoredSearchHit → HitMap → HitMap
  keep_hit h hits = elim (first (is_hit h.object_id) hits) [
    | none ↦ h ∷ hits
    | some cur ↦
        if c.float.less cur.score h.score
        then h ∷ select (λ x. not (is_hit h.object_id x)) hits
        else hits
  ]

  abbrev pub keep_hits : List ScoredSearchHit → HitMap → HitMap
  keep_hits [] hits = hits
  keep_hits (h ∷ hs) hits = keep_hits hs (keep_hit h hits)

  abbrev pub map_named : String → List (String × HitMap) → HitMap
  map_named name set = elim (first (λ m. m.0 == name) set) [ none ↦ [] | some m ↦ m.1 ]

  -- hitSet[name] with the hits of one answer.
  abbrev pub put_hits :
      String → List ScoredSearchHit → List (String × HitMap) → List (String × HitMap)
  put_hits name hs set =
      (name, keep_hits hs (map_named name set)) ∷ select (λ m. not (m.0 == name)) set

  unfoldable pub hit_set : Answers → List (String × HitMap) → List (String × HitMap)
  hit_set [] set = set
  hit_set ((name, err e) ∷ rest) set = hit_set rest set
  hit_set ((name, ok hs) ∷ rest) set = hit_set rest (put_hits name hs set)

  abbrev pub first_err : Answers → Option Err
  first_err [] = none
  first_err ((name, err e) ∷ rest) = some e
  first_err ((name, ok hs) ∷ rest) = first_err rest

  -- scores[id] += x
  abbrev pub add_score : String → ℕ → List Scored → List Scored
  add_score id x [] = record { id = id; score = c.float.plus c.float.zero_bits x } ∷ []
  add_score id x (s ∷ ss) =
      let rest = add_score id x ss in
      if s.id == id then record s { score = c.float.plus s.score x } ∷ ss else s ∷ rest

  abbrev pub add_ranks : ℕ → List ScoredSearchHit → List Scored → List Scored
  add_ranks rank [] scores = scores
  add_ranks rank (h ∷ hs) scores =
      add_ranks (suc rank) hs (add_score h.object_id (c.float.inverse (c.k + rank + 1)) scores)

  -- Reciprocal rank fusion.
  unfoldable pub fuse : List (String × HitMap) → List Scored → List Scored
  fuse [] scores = scores
  fuse ((name, hits) ∷ set) scores = fuse set (add_ranks 0 (c.sort_hits hits) scores)

  abbrev pub better : Option ScoredSearchHit → ℕ × String → ℕ × String
  better none best = best
  better (some h) best = if c.float.less best.0 h.score then (h.score, h.match_type) else best

  -- The match type of the best single score.
  unfoldable pub best_type : String → List (String × HitMap) → ℕ × String → String
  best_type id [] best = best.1
  best_type id ((name, hits) ∷ set) best = best_type id set (better (first (is_hit id) hits) best)

  abbrev pub object_from_id : String → KnowledgeObject
  object_from_id id = elim (c.parse_uuid id) [ none ↦ c.empty_object 0 | some n ↦ c.empty_object n ]

  abbrev pub or_stub : String → Outcome KnowledgeObject → KnowledgeObject
  or_stub id (ok o) = o
  or_stub id (err e) = object_from_id id

  abbrev pub load :
      String
      → String
      → Option (String → ℕ → Calls World KnowledgeObject)
      → Option ℕ
      → Calls World KnowledgeObject
  load workspace_id id none n = pure (object_from_id id)
  load workspace_id id (some find) none = pure (c.empty_object 0)
  load workspace_id id (some find) (some n) = do
    found ← attempt (find workspace_id n)
    pure (or_stub id found)

  unfoldable pub hydrate : String → String → Calls World KnowledgeObject
  hydrate workspace_id id = load workspace_id id c.hydrator (c.parse_uuid id)

  unfoldable pub hydrate_all :
      String → List (String × HitMap) → List Scored → Calls World (List SearchResult)
  hydrate_all workspace_id set [] = pure []
  hydrate_all workspace_id set (s ∷ ss) = do
    object ← hydrate workspace_id s.id
    rest ← hydrate_all workspace_id set ss
    pure (
        record {
          object = object;
          score = s.score;
          match_type = best_type s.id set (c.float.zero_bits, "hybrid");
        }
        ∷ rest)

  -- The ranking that is hydrated.
  unfoldable pub ranked : Answers → List Scored
  unfolding hit_set fuse
  ranked answers = take c.limit (c.sort_scored (fuse (hit_set answers []) []))

  -- `(nil, firstErr)`, where both may be nil
  abbrev pub nothing_found : Option Err → Outcome (List SearchResult)
  nothing_found none = ok []
  nothing_found (some e) = err e

  abbrev pub merge_answers :
      String → Answers → List (String × HitMap) → Calls World (List SearchResult)
  merge_answers workspace_id answers [] w = (nothing_found (first_err answers), w)
  merge_answers workspace_id answers (m ∷ set) w =
      hydrate_all workspace_id (m ∷ set) (ranked answers) w

  unfoldable pub search : Retriever
  search q w =
      let (answers, w') = fan_out q c.primaries w in
      merge_answers q.workspace_id answers (hit_set answers []) w'
