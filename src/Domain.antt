-- ===== src/Domain.antt =====
-- internal/domain: the records of the knowledge base, and the closed sets of words in them.
-- An instant is the number of nanoseconds since the zero `time.Time`, a UUID is its 128-bit number
-- and a float64 its bit pattern.
mod Status
mod Float
pub use Status.*
pub use Float.*
use project_brain.Base.{ℕ, String, Bool, Option, List}

-- `any` in a metadata map: a string, a Boolean, or the JSON text of any other value.
pub data Value : Type 0 where
  text : String → Value
  flag : Bool → Value
  json : String → Value

abbrev pub Metadata : Type 0
Metadata = List (String × Value)

pub record Source : Type 0 where
  pub id : ℕ
  pub workspace_id : String
  pub type : String
  pub uri : String
  pub external_id : String
  pub title : String
  pub checksum : String
  pub identity_key : String
  pub metadata : Metadata
  pub captured_at : ℕ

pub record KnowledgeObject : Type 0 where
  pub id : ℕ
  pub workspace_id : String
  pub type : String
  pub title : String
  pub summary : String
  pub content : String
  pub status : String
  pub metadata : Metadata
  pub created_by : String
  pub created_at : ℕ
  pub updated_at : ℕ
  pub project_id : Option ℕ
  pub tags : List String
  pub confidence : Option ℕ
  pub importance : Option ℕ  -- the 64 bits of an int

pub record ObjectSource : Type 0 where
  pub object_id : ℕ
  pub source_id : ℕ
  pub relevance : ℕ

pub record AuditEvent : Type 0 where
  pub id : ℕ
  pub workspace_id : String
  pub actor_id : String
  pub action : String
  pub target_type : String
  pub target_id : ℕ
  pub before : Metadata
  pub after : Metadata
  pub reason : String
  pub request_id : Option ℕ
  pub metadata : Metadata
  pub created_at : ℕ

pub record SourceInput : Type 0 where
  pub type : String
  pub uri : String
  pub external_id : String
  pub title : String
  pub idempotency_key : String
  pub metadata : Metadata
  pub captured_at : ℕ

pub record ObjectInput : Type 0 where
  pub type : String
  pub title : String
  pub summary : String
  pub status : String
  pub metadata : Metadata
  pub created_by : String
  pub project_id : Option ℕ
  pub tags : Option (List String)  -- `none` is a nil slice
  pub confidence : Option ℕ
  pub importance : Option ℕ  -- the 64 bits of an int

pub record IngestTextRequest : Type 0 where
  pub workspace_id : String
  pub content : String
  pub source : SourceInput
  pub object : ObjectInput
  pub request_id : Option ℕ

pub record IngestTextResult : Type 0 where
  pub source_id : ℕ
  pub object_id : ℕ
  pub audit_event_id : ℕ
  pub content_checksum : String
  pub identity_key : String
  pub duplicate : Bool

pub record SddEntry : Type 0 where
  pub object_id : ℕ
  pub title : String
  pub summary : String
  pub updated_at : ℕ

-- The map from the four section keys, which are always present.
pub record Sections : Type 0 where
  pub context : List SddEntry
  pub decisions : List SddEntry
  pub constraints : List SddEntry
  pub open_questions : List SddEntry

pub record SddDocument : Type 0 where
  pub workspace_id : String
  pub sections : Sections
  pub updated_at : ℕ
