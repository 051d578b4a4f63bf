-- ===== src/Search/Query.antt =====
-- app/retrieval.go. A float64 is its 64 bits.
use project_brain.Base.{ℕ, String, List, Bool, Calls}
use project_brain.Domain.{KnowledgeObject}
use project_brain.Store.State.{World}

pub record SearchQuery : Type 0 where
  pub query_text : String
  pub workspace_id : String
  pub limit : ℕ

pub record SearchResult : Type 0 where
  pub object : KnowledgeObject
  pub score : ℕ
  pub match_type : String

pub record ScoredSearchHit : Type 0 where
  pub object_id : String
  pub score : ℕ
  pub match_type : String

abbrev pub default_search_limit : ℕ
default_search_limit = 10

-- A `Retriever`.
abbrev pub Retriever : Type 0
Retriever = SearchQuery → Calls World (List SearchResult)

-- The operations on float64 that the search uses: a < b, a + b and 1 / n.
pub record Float64 : Type 0 where
  pub less : ℕ → ℕ → Bool
  pub plus : ℕ → ℕ → ℕ
  pub inverse : ℕ → ℕ
  pub zero_bits : ℕ
