-- ===== src/Telegram/Desk.antt =====
-- The tables of the messages that wait for a decision: postgres/pending_validations.go and
-- postgres/raw_input_repo.go, with `now` for now() in SQL.
use project_brain.Base.{
  ℕ, String, Bool, not, ◌&&◌, ◌||◌, Option, none, some, List, ◌∷◌, map, select, first, eqb, leb,
  ◌==◌, if◌then◌else◌, Outcome, ok, err, not_found, failure, Calls, pure, lift, ◌>>=◌,
}
use project_brain.Domain.{KnowledgeObject, IngestTextRequest, Metadata}
use project_brain.Store.State.{Env, tick}
use project_brain.Telegram.Chat.{Chat}

pub record Collision : Type 0 where
  pub object : KnowledgeObject
  pub similarity : ℕ
  pub verdict : String

pub record PendingValidation : Type 0 where
  pub token : String
  pub chat_id : ℕ
  pub request : IngestTextRequest
  pub collision : Collision
  pub raw_input_id : ℕ
  pub expires_at : ℕ

-- A row of telegram_pending_validations. NULL is 0, as in the entry.
pub record PendingRow : Type 0 where
  pub token : String
  pub chat_id : ℕ
  pub request : String
  pub collision : String
  pub raw_input_id : ℕ
  pub expires_at : ℕ

pub record RawInput : Type 0 where
  pub id : ℕ
  pub workspace_id : String
  pub channel : String
  pub content : String
  pub actor_id : String
  pub external_ref : Metadata
  pub status : String
  pub promoted_object_id : Option ℕ
  pub collision_summary : Option Metadata

-- encoding/json of the two columns
pub record JsonColumns : Type 0 where
  pub marshal_request : IngestTextRequest → Outcome String
  pub unmarshal_request : String → Outcome IngestTextRequest
  pub marshal_collision : Collision → Outcome String
  pub unmarshal_collision : String → Outcome Collision

pub record Desk : Type 0 where
  pub chat : Chat
  pub pending : List PendingRow
  pub raw_inputs : List RawInput  -- newest first

-- A call that leaves the two tables alone.
abbrev pub at_chat : {A : Type 0} → Calls Chat A → Calls Desk A
at_chat m d = let (r, c) = m d.chat in (r, record d { chat = c })

abbrev ticked_desk : Desk → Desk
ticked_desk d = record d { chat = record d.chat { world = tick d.chat.world } }

module _ (env : Env) where
  -- One statement on the two tables.
  abbrev pub desk_statement : {A : Type 0} → (ℕ → Desk → Outcome A × Desk) → Calls Desk A
  desk_statement run d =
      if env.fault d.chat.world.calls
      then (err (failure d.chat.world.calls), ticked_desk d)
      else run (env.sql_now d.chat.world.calls) (ticked_desk d)

  abbrev has_pending_token : String → PendingRow → Bool
  has_pending_token token row = row.token == token

  abbrev pub is_live : ℕ → String → PendingRow → Bool
  is_live now token row =
      row.token == token && (eqb row.expires_at 0 || not (leb row.expires_at now))

  unfoldable pub save_pending : JsonColumns → PendingValidation → Calls Desk (Unit {0})
  save_pending json entry = do
    request ← lift (json.marshal_request entry.request)
    collision ← lift (json.marshal_collision entry.collision)
    desk_statement λ now d. (
      ok tt,
      record d {
        pending =
            record {
              token = entry.token;
              chat_id = entry.chat_id;
              request = request;
              collision = collision;
              raw_input_id = entry.raw_input_id;
              expires_at = entry.expires_at;
            }
            ∷ select (λ row. not (has_pending_token entry.token row)) d.pending;
      },
    )

  -- DELETE ... RETURNING
  abbrev pub delete_pending : String → Calls Desk PendingRow
  delete_pending token = desk_statement λ now d. (
    elim (first (is_live now token) d.pending) [ none ↦ err not_found | some row ↦ ok row ],
    record d { pending = select (λ row. not (is_live now token row)) d.pending },
  )

  abbrev pub read_row : JsonColumns → String → PendingRow → Calls Desk PendingValidation
  read_row json token row = do
    request ← lift (json.unmarshal_request row.request)
    collision ← lift (json.unmarshal_collision row.collision)
    pure (record {
      token = token;
      chat_id = row.chat_id;
      request = request;
      collision = collision;
      raw_input_id = row.raw_input_id;
      expires_at = 0;
    })

  unfoldable pub take_pending : JsonColumns → String → Calls Desk PendingValidation
  take_pending json token = do row ← delete_pending token; read_row json token row

  -- INSERT, with the primary key
  unfoldable pub create_raw_input : RawInput → Calls Desk (Unit {0})
  create_raw_input ri = desk_statement λ now d. elim (first (λ r. eqb r.id ri.id) d.raw_inputs) [
    | none ↦ (ok tt, record d { raw_inputs = ri ∷ d.raw_inputs })
    | some r ↦ (err (failure 0), d)
  ]

  -- UPDATE ... WHERE id = $1
  abbrev update_raw_input : ℕ → (RawInput → RawInput) → Calls Desk (Unit {0})
  update_raw_input id change = desk_statement λ now d.
      (ok tt, record d { raw_inputs = map (λ r. if eqb r.id id then change r else r) d.raw_inputs })

  unfoldable pub set_promoted : ℕ → ℕ → Calls Desk (Unit {0})
  set_promoted id object_id =
      update_raw_input id λ r. record r { status = "promoted"; promoted_object_id = some object_id }

  unfoldable pub set_discarded : ℕ → Calls Desk (Unit {0})
  set_discarded id = update_raw_input id λ r. record r { status = "discarded" }

  unfoldable pub set_collision_summary : ℕ → Metadata → Calls Desk (Unit {0})
  set_collision_summary id summary =
      update_raw_input id λ r. record r { collision_summary = some summary }
