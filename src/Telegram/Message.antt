-- ===== src/Telegram/Message.antt =====
-- telegram/handler.go: `buildIngestRequest`.
use project_brain.Base.{ℕ, String, true, false, none, [], ◌∷◌, ◌==◌, ◌≡◌, ◌∙◌, ap, sym, ok}
use Prim.Native.String.{◌++◌}
use project_brain.Base.Text.{trim_space}
use project_brain.Domain.{IngestTextRequest, IngestTextResult, text, json}
use project_brain.Store.State.{Env, World}
use project_brain.Lifecycle.Validate.{Hook}
use project_brain.Ingest.Prepare.{PreparedIngestText, prepare_ingest_text}
use project_brain.Ingest.Prepared.{prepare_ingest_text-keyed, compute_identity_key-idempotent}
use project_brain.Ingest.Service.{ingest}
use project_brain.Ingest.Once.{LinksHaveSources, Idle, ingest-once}

-- A message of the bot API; the three numbers as 64 bits.
pub record Message : Type 0 where
  pub id : ℕ  -- counts the messages of one chat
  pub chat_id : ℕ
  pub from_id : ℕ
  pub content : String

-- `decimal` is `strconv.Itoa` and `strconv.FormatInt`.
unfoldable pub build_ingest_request : (ℕ → String) → Message → IngestTextRequest
build_ingest_request decimal msg = record {
  workspace_id = "default";
  content = msg.content;
  source = record {
    type = "telegram";
    uri = "";
    external_id = decimal msg.id;
    title = "";
    idempotency_key = decimal msg.id;
    metadata =
        ("chat_id", json (decimal msg.chat_id)) ∷ (("user_id", text (decimal msg.from_id)) ∷ []);
    captured_at = 0;
  };
  object = record {
    type = "document";
    title = "";
    summary = "";
    status = "";
    metadata = [];
    created_by = decimal msg.from_id;
    project_id = none;
    tags = none;
    confidence = none;
    importance = none;
  };
  request_id = none;
}

module _ (env : Env) (decimal : ℕ → String) where
  -- The workspace and the key do not depend on the chat, the sender or the text.
  prepared-key :
      (msg msg' : Message) (p p' : PreparedIngestText)
      → msg'.id ≡ msg.id
      → (trim_space (decimal msg.id) == "") ≡ false
      → prepare_ingest_text env (build_ingest_request decimal msg) ≡ ok p
      → prepare_ingest_text env (build_ingest_request decimal msg') ≡ ok p'
      → (p'.workspace_id ≡ p.workspace_id) × (p'.identity_key ≡ p.identity_key)
  unfolding build_ingest_request
  prepared-key msg msg' p p' same some_key h h' =
      let req = build_ingest_request decimal msg in
      let req' = build_ingest_request decimal msg' in
      let (w, k, _) = prepare_ingest_text-keyed env req p h in
      let (w', k', _) = prepare_ingest_text-keyed env req' p' h' in
      let key =
        compute_identity_key-idempotent env p.workspace_id p.source_type req p.content_checksum
          some_key in
      let key' =
        compute_identity_key-idempotent env p'.workspace_id p'.source_type req' p'.content_checksum
          (ap (λ n. trim_space (decimal n) == "") same ∙ some_key) in
      (
        w' ∙ sym w,
        k' ∙ (key' ∙ (ap (λ n. "idem:" ++ trim_space (decimal n)) same ∙ (sym key ∙ sym k))),
      )

  -- Once a message was ingested, under a hook that leaves the tables alone, a message with the same
  -- number is taken for a duplicate of it, from whatever chat and with whatever text: it is
  -- answered with the object of the first, and no object is stored.
  pub messages-clash :
      (hook : Hook) (w : World) (msg msg' : Message) (p p' : PreparedIngestText)
      (r r' : IngestTextResult)
      → LinksHaveSources w.db
      → Idle hook
      → msg'.id ≡ msg.id
      → (trim_space (decimal msg.id) == "") ≡ false
      → prepare_ingest_text env (build_ingest_request decimal msg) ≡ ok p
      → prepare_ingest_text env (build_ingest_request decimal msg') ≡ ok p'
      → (ingest env hook (build_ingest_request decimal msg) w).0 ≡ ok r
      → (ingest env hook
          (build_ingest_request decimal msg')
          (ingest env hook (build_ingest_request decimal msg) w).1).0
        ≡ ok r'
      → let first = (ingest env hook (build_ingest_request decimal msg) w).1 in
        let second = (ingest env hook (build_ingest_request decimal msg') first).1 in
        (r'.duplicate ≡ true)
        × (r'.object_id ≡ r.object_id)
        × (second.db.objects ≡ first.db.objects)
  messages-clash hook w msg msg' p p' r r' links idle same some_key prep prep' h h' =
      let (a, b) = prepared-key msg msg' p p' same some_key prep prep' in
      let (c, d, (_, _, _, e)) =
        ingest-once env hook (build_ingest_request decimal msg) w
          (build_ingest_request decimal msg') p p' r r' links idle prep prep' a b h h' in
      (c, d, ap (λ x. x.objects) e)
