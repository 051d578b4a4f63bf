-- ===== src/Tests/Sdd.antt =====
-- The document of a workspace at concrete inputs.
use project_brain.Base.{none, some, [], ◌∷◌, ◌≡◌, refl, arith}
use project_brain.Domain.{KnowledgeObject, SddDocument}
use project_brain.Store.State.{World}
use project_brain.Lifecycle.Write.{done}
use project_brain.Lifecycle.Accounts.{Accounted}
use project_brain.Lifecycle.Trail.{Trail}
use project_brain.Session.{serve}
use project_brain.Sdd.Document.{SddSectionKey, merge_validated, remove_by_object_id, is_entry}
use project_brain.Sdd.Service.{append_tx, append_validated_object, merge_object, wired}
use project_brain.Sdd.Storage.{find_by_workspace, upsert_document}
use project_brain.Store.Tx.{within_tx}
use project_brain.Sdd.Hook.{serve-wired-Trail}
use project_brain.Sdd.Steps.{current}
use project_brain.Sdd.Merge.{Placed, Dropped, document_of, entries}
use project_brain.Sdd.Placement.{append-validated, append-deprecated}
use project_brain.Sdd.Race.{second_wrote, merge_object-lost}
use project_brain.Tests.World.{test_env, empty_db, world_of, note_with, empty-Trail}
use project_brain.Tests.Lifecycle.{script}

abbrev accepted : KnowledgeObject
accepted = note_with "validated"

abbrev another : KnowledgeObject
another = record accepted { id = 78 }

abbrev dropped : KnowledgeObject
dropped = note_with "deprecated"

abbrev empty_world : World
empty_world = world_of empty_db

-- The world after the first validation.
abbrev filled : World
filled = world_of (record empty_db {
  documents =
      record {
        workspace_id = "w";
        sections = record {
          context = [];
          decisions = record { object_id = 77; title = "t"; summary = "s"; updated_at = 0 } ∷ [];
          constraints = [];
          open_questions = [];
        };
        updated_at = 2;
      }
      ∷ [];
})

appended : (append_validated_object test_env accepted empty_world).1.db ≡ filled.db
unfolding append_validated_object within_tx append_tx find_by_workspace merge_object upsert_document
    merge_validated
appended = refl

serve-wired-Trail_example :
    let after =
      (serve test_env
        (record { validate_service = wired test_env; post_ingest = none })
        script
        empty_world).db in
    Trail after × Accounted empty_world.db after
serve-wired-Trail_example =
    serve-wired-Trail test_env none script empty_world (λ o w. done) empty-Trail

append-validated_example :
    (new : SddDocument) × (document_of "w"
        (append_validated_object test_env accepted empty_world).1.db
      ≡ some new)
    × Placed accepted (current "w" empty_db) new
unfolding append_validated_object within_tx append_tx find_by_workspace merge_object upsert_document
append-validated_example = append-validated test_env accepted empty_world refl refl

append-deprecated_example :
    Dropped dropped
      (current "w" filled.db)
      (current "w" (append_validated_object test_env dropped filled).1.db)
unfolding append_validated_object within_tx append_tx find_by_workspace merge_object upsert_document
    remove_by_object_id
append-deprecated_example = append-deprecated test_env dropped filled refl refl

merge_object-lost_example :
    (doc : SddDocument) × (document_of "w" (second_wrote test_env accepted another empty_world).db
      ≡ some doc)
    × ((k : SddSectionKey) → entries (is_entry 77) k doc ≡ 0)
unfolding merge_object find_by_workspace upsert_document
merge_object-lost_example =
    merge_object-lost test_env accepted another empty_world refl (omega arith) refl refl refl refl
      refl
