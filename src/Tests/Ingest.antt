-- ===== src/Tests/Ingest.antt =====
-- The ingestion at concrete inputs: the same text twice.
use project_brain.Base.{
  ℕ, String, true, false, none, [], ◌≡◌, ◌⊎◌, Bool, refl, ok, ◌==◌, if◌then◌else◌,
}
use project_brain.Base.Text.{trim_space}
use project_brain.Domain.{IngestTextRequest, IngestTextResult}
use project_brain.Store.State.{Env, normalize}
use project_brain.Ingest.Prepare.{PreparedIngestText, prepare_ingest_text}
use project_brain.Ingest.Service.{ingest}
use project_brain.Ingest.Once.{Noted, Repeated, Stored, ingest-ok, ingest-once}
use project_brain.Telegram.Message.{Message, build_ingest_request, messages-clash}
use project_brain.Tests.World.{test_env, empty_db, world_of, text_request}

abbrev request : IngestTextRequest
request = text_request "hello" "proposed"

abbrev prepared : PreparedIngestText
prepared = record {
  workspace_id = "w";
  content = "hello";
  content_checksum = "hello";
  identity_key = "sha256:w\0text\0\0hello";
  source_type = "text";
  object_type = "document";
  object_status = "proposed";
  source = request.source;
  object = request.object;
  tags = [];
}

accepted : prepare_ingest_text test_env request ≡ ok prepared
unfolding prepare_ingest_text trim_space normalize
accepted = refl

abbrev stored : IngestTextResult
stored = record {
  source_id = 1;
  object_id = 2;
  audit_event_id = 3;
  content_checksum = "hello";
  identity_key = prepared.identity_key;
  duplicate = false;
}

first_ingest : (ingest test_env none request (world_of empty_db)).0 ≡ ok stored
unfolding ingest trim_space normalize
first_ingest = refl

second_ingest :
    (ingest test_env none request (ingest test_env none request (world_of empty_db)).1).0
    ≡ ok (record stored { duplicate = true })
unfolding ingest trim_space normalize
second_ingest = refl

-- Sums of one character, and two requests whose workspaces differ in case and spaces only.
abbrev summed : Env
summed = record test_env { sha256_hex = λ s. if s == "hello" then "1" else "0" }

abbrev summed_request : IngestTextRequest
summed_request = record request { workspace_id = "w" }

abbrev summed_prepared : PreparedIngestText
summed_prepared = record prepared { content_checksum = "1"; identity_key = "sha256:0" }

ingest-ok_example :
    Repeated test_env none request (world_of empty_db) prepared stored
    ⊎ Stored test_env none request (world_of empty_db) prepared stored
ingest-ok_example =
    ingest-ok test_env none request (world_of empty_db) prepared stored accepted first_ingest

ingest-once_example :
    let before = (ingest test_env none request (world_of empty_db)).1.db in
    let after =
      (ingest test_env none request (ingest test_env none request (world_of empty_db)).1).1.db in
    (true ≡ true) × (stored.object_id ≡ 2) × Noted 2 before after
ingest-once_example =
    ingest-once test_env none request (world_of empty_db) request prepared prepared stored
      (record stored { duplicate = true }) (λ id h. refl) (λ o w. refl) accepted accepted refl refl
      first_ingest second_ingest

-- Message 7 of chat 1, and message 7 of chat 2.
abbrev message_in : ℕ → String → Message
message_in chat content = record { id = 7; chat_id = chat; from_id = 5; content = content }

abbrev digits : ℕ → String
digits n = "7"

abbrev prepared_message : ℕ → String → PreparedIngestText
prepared_message chat content = record {
  workspace_id = "default";
  content = content;
  content_checksum = content;
  identity_key = "idem:7";
  source_type = "telegram";
  object_type = "document";
  object_status = "active";
  source = (build_ingest_request digits (message_in chat content)).source;
  object = (build_ingest_request digits (message_in chat content)).object;
  tags = [];
}

abbrev answer : Bool → IngestTextResult
answer duplicate = record {
  source_id = 1;
  object_id = 2;
  audit_event_id = 3;
  content_checksum = "hello";
  identity_key = "idem:7";
  duplicate = duplicate;
}

messages-clash_example :
    let first =
      (ingest test_env none
        (build_ingest_request digits (message_in 1 "hello"))
        (world_of empty_db)).1 in
    let second =
      (ingest test_env none (build_ingest_request digits (message_in 2 "bye")) first).1 in
    (true ≡ true) × (stored.object_id ≡ 2) × (second.db.objects ≡ first.db.objects)
unfolding build_ingest_request ingest prepare_ingest_text trim_space normalize
messages-clash_example =
    messages-clash test_env digits none (world_of empty_db) (message_in 1 "hello")
      (message_in 2 "bye") (prepared_message 1 "hello") (prepared_message 2 "bye") (answer false)
      (answer true) (λ id h. refl) (λ o w. refl) refl refl refl refl refl refl
