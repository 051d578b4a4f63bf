-- ===== src/Tests/Search.antt =====
-- The composite retriever and the collision detector at concrete hits.
use project_brain.Base.{
  ◌+◌, ◌==◌, if◌then◌else◌, none, some, [], ◌∷◌, All, ltb, leb, ◌≡◌, ◌⊎◌, refl, ok, err, not_found,
}
use project_brain.Base.Text.{trim_space, trim_left, trim_right, is_space}
use project_brain.Telegram.Desk.{Collision}
use project_brain.Search.Query.{SearchQuery}
use project_brain.Search.Merge.{
  CompositeRetriever, fan_out, hit_set, fuse, best_type, hydrate, hydrate_all, ranked, search,
}
use project_brain.Search.Failures.{Ranked, AllFailed, search-cases}
use project_brain.Search.Collide.{
  Detector, detect, collect, hit_id, collision_verdict, object_by_id,
}
use project_brain.Search.Collisions.{Reported, detect-Reported}
use project_brain.Store.State.{World}
use project_brain.Tests.World.{test_env, empty_db, world_of, note_with}

-- One retriever that fails, and one that finds the note.
abbrev composite : CompositeRetriever
composite = record {
  primaries =
      ("full text", λ q w. (err not_found, w))
      ∷ ((
        "vector",
        λ q w. (
          ok (record { object = note_with "active"; score = 90; match_type = "vector" } ∷ []),
          w,
        ),
      )
          ∷ []);
  k = 60;
  limit = 10;
  hydrator = none;
  float = record { less = ltb; plus = λ a b. a + b; inverse = λ n. n; zero_bits = 0 };
  sort_hits = λ hs. hs;
  sort_scored = λ ss. ss;
  parse_uuid = λ s. some 77;
  uuid_text = λ n. "u";
  empty_object = λ n. note_with "active";
}

abbrev query : SearchQuery
query = record { query_text = "q"; workspace_id = "w"; limit = 5 }

search_run :
    (search composite query (world_of empty_db)).0
    ≡ ok (record { object = note_with "active"; score = 61; match_type = "vector" } ∷ [])
unfolding search fan_out hit_set fuse best_type hydrate hydrate_all ranked
search_run = refl

search-cases_example :
    let answers = (fan_out composite query composite.primaries (world_of empty_db)).0 in
    Ranked composite "w" answers (search composite query (world_of empty_db)).0
    ⊎ AllFailed composite answers (search composite query (world_of empty_db)).0
search-cases_example = search-cases composite query (world_of empty_db) (λ p hs. refl, λ p ss. refl)

-- The note, the object 78 and one below the threshold; the lookup reads the note.
abbrev detector : Detector
detector = record {
  embed = λ s w. (ok [], w);
  find_similar = λ ws vec limit w. (
    ok (
        record { object_id = "77"; score = 95; match_type = "vector" }
        ∷ (record { object_id = "78"; score = 80; match_type = "vector" }
            ∷ (record { object_id = "79"; score = 50; match_type = "vector" } ∷ []))),
    w,
  );
  env = test_env;
  parse_uuid = λ s. if s == "78" then some 78 else some 77;
  at_least = λ a b. leb b a;
  below = ltb;
  threshold = 70;
  limit = 10;
  duplicate_band = 90;
  overlap_band = 78;
}

abbrev stored_note : World
stored_note = world_of (record empty_db { objects = note_with "active" ∷ [] })

abbrev clash : Collision
clash = record { object = note_with "active"; similarity = 95; verdict = "duplicate" }

detect-Reported_example : All (Reported detector "w" (some 78)) (clash ∷ [])
unfolding detect collect hit_id collision_verdict object_by_id trim_space trim_left trim_right
    is_space
detect-Reported_example =
    detect-Reported detector "w" (some 78) "text" stored_note (clash ∷ []) refl
