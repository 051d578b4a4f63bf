-- ===== src/Ingest/Prepare.antt =====
-- `prepareIngestText`, `computeIdentityKey` and `checksum`.
use Prim.Native.String.{◌++◌, ◌∷◌ as char_cons}
use Prim.Native.Char.{nul}
use project_brain.Base.{
  ℕ, String, Bool, false, not, ◌||◌, Option, none, some, List, [], ◌∷◌, ◌==◌, if◌then◌else◌,
  Outcome, ok, err, field_error,
}
use project_brain.Base.Text.{trim_space, map_runes, join}
use project_brain.Domain.{
  SourceInput, ObjectInput, IngestTextRequest, active, validate_knowledge_object_status, lt_zero,
  gt_one,
}
use project_brain.Store.State.{Env, normalize}

pub record PreparedIngestText : Type 0 where
  pub workspace_id : String
  pub content : String
  pub content_checksum : String
  pub identity_key : String
  pub source_type : String
  pub object_type : String
  pub object_status : String
  pub source : SourceInput
  pub object : ObjectInput
  pub tags : List String

abbrev pub or_default : String → String → String
or_default s d = if s == "" then d else s

abbrev pub out_of_range : Option ℕ → Bool
out_of_range none = false
out_of_range (some c) = lt_zero c || gt_one c

abbrev pub default_tags : Option (List String) → List String
default_tags none = []
default_tags (some tags) = tags

abbrev range_error : Env → Option ℕ → String
range_error env none = ""
range_error env (some c) = "must be between 0 and 1, got " ++ env.float_text c

module _ (env : Env) where
  unfoldable pub compute_identity_key : String → String → SourceInput → String → String
  unfolding trim_space map_runes join normalize
  compute_identity_key workspace_id source_type source content_checksum =
      let idempotency_key = trim_space source.idempotency_key in
      let locator = or_default (trim_space source.uri) (trim_space source.external_id) in
      if not (idempotency_key == "")
      then "idem:" ++ idempotency_key
      else "sha256:"
        ++ env.sha256_hex (
            join
              (normalize env workspace_id
                ∷ (normalize env source_type
                    ∷ (map_runes env.lower locator ∷ (content_checksum ∷ []))))
              (char_cons nul ""))

  -- The fields that passed the checks, before the range of the confidence is tested.
  abbrev prepared : IngestTextRequest → String → PreparedIngestText
  prepared req object_status =
      let workspace_id = normalize env req.workspace_id in
      let content = trim_space req.content in
      let source_type = or_default (trim_space req.source.type) "text" in
      let content_checksum = env.sha256_hex content in
      record {
        workspace_id = workspace_id;
        content = content;
        content_checksum = content_checksum;
        identity_key = compute_identity_key workspace_id source_type req.source content_checksum;
        source_type = source_type;
        object_type = or_default (trim_space req.object.type) "document";
        object_status = object_status;
        source = req.source;
        object = req.object;
        tags = default_tags req.object.tags;
      }

  abbrev check_range : IngestTextRequest → String → Outcome PreparedIngestText
  check_range req object_status =
      if out_of_range req.object.confidence
      then err (field_error "confidence" (range_error env req.object.confidence))
      else ok (prepared req object_status)

  abbrev check_status : IngestTextRequest → String → Outcome PreparedIngestText
  check_status req status =
      if status == ""
      then check_range req active
      else if validate_knowledge_object_status status
      then check_range req status
      else err
          (field_error "object.status" ("is not a valid lifecycle value: " ++ env.quoted status))

  unfoldable pub prepare_ingest_text : IngestTextRequest → Outcome PreparedIngestText
  unfolding compute_identity_key
  prepare_ingest_text req =
      if normalize env req.workspace_id == ""
      then err (field_error "workspace_id" "is required")
      else if trim_space req.content == ""
      then err (field_error "content" "is required")
      else check_status req (trim_space req.object.status)
