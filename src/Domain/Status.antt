-- ===== src/Domain/Status.antt =====
-- The constants of internal/domain/knowledge.go that the services compare with.
use project_brain.Base.{String, Bool, ◌||◌, ◌==◌}

abbrev pub active : String
active = "active"

abbrev pub proposed : String
proposed = "proposed"

abbrev pub debating : String
debating = "debating"

abbrev pub validated : String
validated = "validated"

abbrev pub deprecated : String
deprecated = "deprecated"

-- `ValidateKnowledgeObjectStatus`: membership in the map of the five lifecycle values.
abbrev pub validate_knowledge_object_status : String → Bool
validate_knowledge_object_status status =
    status == active
    || status == proposed
    || status == debating
    || status == validated
    || status == deprecated

abbrev pub knowledge_ingested : String
knowledge_ingested = "knowledge.ingested"

abbrev pub duplicate_detected : String
duplicate_detected = "knowledge.duplicate_detected"

abbrev pub status_changed : String
status_changed = "knowledge.status_changed"

abbrev pub debate_opened : String
debate_opened = "knowledge.debate_opened"

abbrev pub debate_resolved : String
debate_resolved = "knowledge.debate_resolved"

abbrev pub target_knowledge_object : String
target_knowledge_object = "knowledge_object"

abbrev pub trigger_system : String
trigger_system = "system"

abbrev pub trigger_human : String
trigger_human = "human"

abbrev pub contradiction_detector : String
contradiction_detector = "bot:contradiction-detector"
