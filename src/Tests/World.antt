-- ===== src/Tests/World.antt =====
-- A database that never fails, UUIDs and instants that count up, and a few rows.
use project_brain.Base.{◌+◌, String, false, none, some, [], ◌∷◌, refl, inl, err, not_found}
use project_brain.Domain.{KnowledgeObject, IngestTextRequest}
use project_brain.Store.State.{Env, Db, World, committed, rolled_back}
use project_brain.Lifecycle.Validate.{ValidateObjectService}
use project_brain.Lifecycle.Write.{done}
use project_brain.Lifecycle.Trail.{Trail}
use project_brain.Session.{Services, QuietServices}

abbrev pub test_env : Env
test_env = record {
  lower = λ c. c;
  sha256_hex = λ s. s;
  uuid_text = λ n. "u";
  quoted = λ s. s;
  float_text = λ n. "f";
  uuid_at = λ n. n + 1;
  clock_at = λ n. n + 1;
  sql_now = λ n. n + 1;
  fault = λ n. false;
  commit_at = λ n. committed;
  rollback_at = λ n. rolled_back;
}

abbrev pub empty_db : Db
empty_db = record { objects = []; sources = []; links = []; events = []; documents = [] }

abbrev pub world_of : Db → World
world_of db = record { db = db; calls = 0; ids = 0; readings = 0 }

abbrev pub note_with : String → KnowledgeObject
note_with status = record {
  id = 77;
  workspace_id = "w";
  type = "decision";
  title = "t";
  summary = "s";
  content = "c";
  status = status;
  metadata = [];
  created_by = "";
  created_at = 1;
  updated_at = 1;
  project_id = none;
  tags = [];
  confidence = none;
  importance = none;
}

-- A database with one object.
abbrev pub one : String → World
one status = world_of (record empty_db { objects = note_with status ∷ [] })

abbrev pub no_hooks : ValidateObjectService
no_hooks = record { post_validation_hook = none; post_deprecation_hook = none }

-- Hooks that fail, and that drop every row on the way.
abbrev pub loud_hooks : ValidateObjectService
loud_hooks = record {
  post_validation_hook = some (λ o w. (err not_found, record w { db = empty_db }));
  post_deprecation_hook = some (λ o w. (err not_found, record w { db = empty_db }));
}

abbrev pub plain : Services
plain = record { validate_service = no_hooks; post_ingest = none }

pub plain-QuietServices : QuietServices plain
plain-QuietServices = (λ o w. done, λ o w. done, λ o w. done)

pub empty-Trail : Trail empty_db
empty-Trail = record { explained = λ ws id. inl refl; chained = tt }

abbrev pub text_request : String → String → IngestTextRequest
text_request content status = record {
  workspace_id = " w ";
  content = content;
  source = record {
    type = "";
    uri = "";
    external_id = "";
    title = "";
    idempotency_key = "";
    metadata = [];
    captured_at = 0;
  };
  object = record {
    type = "";
    title = "";
    summary = "";
    status = status;
    metadata = [];
    created_by = "";
    project_id = none;
    tags = none;
    confidence = none;
    importance = none;
  };
  request_id = none;
}
