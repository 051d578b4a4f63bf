-- ===== src/Search/Collide.antt =====
-- app/collision.go: the detector, and the lookup of postgres/fts_retriever.go that it uses. The
-- embedder, the vector search of pgvector and the order of float64 are parameters.
use project_brain.Base.{
  ℕ, String, Bool, false, Option, none, some, List, [], ◌∷◌, eqb, ◌==◌, if◌then◌else◌, Outcome, ok,
  err, not_found, wrapped, Calls, map_err, attempt, pure, ◌>>=◌,
}
use project_brain.Base.Text.{trim_space}
use project_brain.Domain.{KnowledgeObject}
use project_brain.Store.State.{Env, World, statement}
use project_brain.Store.Objects.{find}
use project_brain.Search.Query.{ScoredSearchHit, default_search_limit}
use project_brain.Telegram.Desk.{Collision}

abbrev pub duplicate_verdict : String
duplicate_verdict = "duplicate"

abbrev pub strong_overlap : String
strong_overlap = "strong_overlap"

abbrev pub related : String
related = "related"

-- A `CollisionDetector` with its collaborators. On float64, `at_least a b` is a >= b and `below a b`
-- is a < b.
pub record Detector : Type 0 where
  pub embed : String → Calls World (List ℕ)
  pub find_similar : String → List ℕ → ℕ → Calls World (List ScoredSearchHit)
  pub env : Env
  pub parse_uuid : String → Option ℕ
  pub at_least : ℕ → ℕ → Bool
  pub below : ℕ → ℕ → Bool
  pub threshold : ℕ
  pub limit : ℕ
  pub duplicate_band : ℕ  -- 0.90
  pub overlap_band : ℕ  -- 0.78

-- `FindByID` of the full text retriever: no row is `ErrNotFound`.
unfoldable pub object_by_id : Env → String → ℕ → Calls World KnowledgeObject
object_by_id env workspace_id id =
    statement env λ now db.
      (elim (find workspace_id id db.objects) [ none ↦ err not_found | some o ↦ ok o ], db)

-- `NewCollisionDetector`: `default_threshold` is 0.75 and `least` is 0, and a limit is not negative.
unfoldable pub new_collision_detector : Detector → ℕ → ℕ → ℕ → ℕ → Detector
new_collision_detector outside default_threshold least threshold limit = record outside {
  threshold = if outside.at_least least threshold then default_threshold else threshold;
  limit = if eqb limit 0 then default_search_limit else limit;
}

module _ (d : Detector) where
  unfoldable pub collision_verdict : ℕ → String
  collision_verdict score =
      if d.at_least score d.duplicate_band
      then duplicate_verdict
      else if d.at_least score d.overlap_band
      then strong_overlap
      else related

  abbrev pub is_excluded : Option ℕ → ℕ → Bool
  is_excluded none id = false
  is_excluded (some x) id = eqb id x

  abbrev pub collision_of : ScoredSearchHit → KnowledgeObject → Collision
  collision_of hit object = record {
    object = object;
    similarity = hit.score;
    verdict = collision_verdict hit.score;
  }

  -- An object that cannot be read is left out.
  abbrev pub add_object :
      ScoredSearchHit → Outcome KnowledgeObject → List Collision → List Collision
  add_object hit (err e) rest = rest
  add_object hit (ok object) rest = collision_of hit object ∷ rest

  -- The ID of a hit that passes the threshold and is not the excluded object.
  unfoldable pub hit_id : Option ℕ → ScoredSearchHit → Option ℕ
  hit_id exclude hit =
      if d.below hit.score d.threshold then none else elim (d.parse_uuid hit.object_id) [
        | none ↦ none
        | some id ↦ if is_excluded exclude id then none else some id
      ]

  abbrev pub collect_hit :
      String
      → ScoredSearchHit
      → Option ℕ
      → Calls World (List Collision)
      → Calls World (List Collision)
  collect_hit workspace_id hit none rest = rest
  collect_hit workspace_id hit (some id) rest = do
    found ← attempt (object_by_id d.env workspace_id id)
    others ← rest
    pure (add_object hit found others)

  -- The loop over the hits.
  unfoldable pub collect : String → Option ℕ → List ScoredSearchHit → Calls World (List Collision)
  collect workspace_id exclude [] = pure []
  collect workspace_id exclude (hit ∷ hits) =
      collect_hit workspace_id hit (hit_id exclude hit) (collect workspace_id exclude hits)

  unfoldable pub detect : String → String → Option ℕ → Calls World (List Collision)
  detect workspace_id text exclude = if trim_space text == "" then pure [] else do
    vec ← map_err (wrapped "embed candidate") (d.embed text)
    hits ← d.find_similar workspace_id vec d.limit
    collect workspace_id exclude hits
