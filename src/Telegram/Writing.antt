-- ===== src/Telegram/Writing.antt =====
-- What an update of the bot may do to the tables of the knowledge base.
use mathlib.Core.Path.{subst}
use project_brain.Base.{
  ℕ, String, Bool, true, false, not, ◌&&◌, some, List, eqb, ◌≡◌, refl, sym, inl, inr, arith, first,
  Bool-cases, Option-cases, Outcome-cases, if◌then◌else◌, Outcome, ok, err, Calls, proceed, attempt,
  pure, ◌>>=◌,
}
use project_brain.Domain.{IngestTextRequest, IngestTextResult, Metadata}
use project_brain.Store.State.{Db, World}
use project_brain.Lifecycle.Write.{Writes, done, Writes-trans}
use project_brain.Lifecycle.Refine.{Quiet}
use project_brain.Ingest.Contract.{ingest-Writes}
use project_brain.Telegram.Message.{Message}
use project_brain.Telegram.Chat.{Bot, Sent}
use project_brain.Telegram.Trail.{QuietHandler}
use project_brain.Telegram.Desk.{
  Collision, PendingValidation, RawInput, Desk, save_pending, take_pending, delete_pending,
  read_row, PendingRow, create_raw_input, set_promoted, set_discarded, set_collision_summary,
}
use project_brain.Telegram.Intake.{
  IntakeHandler, tell, ingest_request, mark_raw_input, reply_ingested, ingest_and_reply,
  raw_input_of, staged_id, create_or_zero, stage_raw_input,
}

abbrev pub tables : Desk → Db
tables d = d.chat.world.db

-- Legal, logged writes only.
abbrev pub Writing : {A : Type 0} → Calls Desk A → Type 0
Writing m = (d : Desk) → Writes (tables d) (tables (m d).1)

pub if-Writing :
    {A : Type 0} (b : Bool) (m n : Calls Desk A)
    → Writing m
    → Writing n
    → Writing (if b then m else n)
if-Writing true m n w else_w = w
if-Writing false m n w else_w = else_w

pub proceed-Writing :
    {A B : Type 0} (p : Outcome A × Desk) (f : A → Calls Desk B) (d : Db)
    → Writes d (tables p.1)
    → ((a : A) → Writing (f a))
    → Writes d (tables (proceed p f).1)
proceed-Writing (ok a, s) f d h next = Writes-trans h (next a s)
proceed-Writing (err e, s) f d h next = h

pub bind-Writing :
    {A B : Type 0} (m : Calls Desk A) (f : A → Calls Desk B)
    → Writing m
    → ((a : A) → Writing (f a))
    → Writing (m >>= f)
bind-Writing m f w next d = proceed-Writing (m d) f (tables d) (w d) next

-- A call that leaves the tables of the knowledge base alone.
abbrev pub Leaves : {A : Type 0} → Calls Desk A → Type 0
Leaves m = (d : Desk) → tables (m d).1 ≡ tables d

pub Leaves-Writing : {A : Type 0} (m : Calls Desk A) → Leaves m → Writing m
Leaves-Writing m leaves d = subst (λ x. Writes (tables d) x) (sym (leaves d)) done

-- What the parts of the handler that come from outside may do to the tables.
pub record QuietIntake (h : IntakeHandler) : Type 0 where
  pub review_quiet : QuietHandler h.review
  pub hook_quiet : Quiet h.post_ingest
  pub detector_quiet :
      (detect : String → String → Calls World (List Collision)) (ws s : String) (w : World)
      → h.detector ≡ some detect
      → (detect ws s w).1.db ≡ w.db

module _ (bot : Bot) (h : IntakeHandler) (quiet : QuietIntake h) where
  pub tell-Writing : (s : Sent) → Writing (tell bot h s)
  tell-Writing s d = done

  pub mark_raw_input-Writing :
      (id : ℕ) (change : Calls Desk (Unit {0}))
      → Leaves change
      → Writing (mark_raw_input bot h id change)
  mark_raw_input-Writing id change leaves =
      if-Writing (h.has_raw_inputs && not (eqb id 0)) _ _ (Leaves-Writing change leaves) (λ d. done)

  pub set_promoted-Leaves : (id object_id : ℕ) → Leaves (set_promoted bot.env id object_id)
  unfolding set_promoted
  set_promoted-Leaves id object_id d = ground arith

  pub ingest_request-Writing : (req : IngestTextRequest) → Writing (ingest_request bot h req)
  ingest_request-Writing req d =
      ingest-Writes bot.env h.post_ingest req d.chat.world quiet.hook_quiet

  pub reply_ingested-Writing :
      (chat_id id : ℕ) (r : Outcome IngestTextResult) → Writing (reply_ingested bot h chat_id id r)
  reply_ingested-Writing chat_id id (err e) = λ d. done
  reply_ingested-Writing chat_id id (ok result) =
      bind-Writing (mark_raw_input bot h id (set_promoted bot.env id result.object_id)) _
        (mark_raw_input-Writing id (set_promoted bot.env id result.object_id)
          (set_promoted-Leaves id result.object_id))
        (λ u d. done)

  pub ingest_and_reply-Writing :
      (chat_id : ℕ) (req : IngestTextRequest) (id : ℕ)
      → Writing (ingest_and_reply bot h chat_id req id)
  unfolding ingest_and_reply
  ingest_and_reply-Writing chat_id req id =
      bind-Writing (attempt (ingest_request bot h req)) (reply_ingested bot h chat_id id)
        (ingest_request-Writing req) (reply_ingested-Writing chat_id id)

  pub set_discarded-Leaves : (id : ℕ) → Leaves (set_discarded bot.env id)
  unfolding set_discarded
  set_discarded-Leaves id d = ground arith

  pub set_collision_summary-Leaves :
      (id : ℕ) (summary : Metadata) → Leaves (set_collision_summary bot.env id summary)
  unfolding set_collision_summary
  set_collision_summary-Leaves id summary d = ground arith

  pub create_raw_input-Leaves : (ri : RawInput) → Leaves (create_raw_input bot.env ri)
  unfolding create_raw_input
  create_raw_input-Leaves ri d = elim (Bool-cases (bot.env.fault d.chat.world.calls)) [
    | inl p ↦ rw p refl
    | inr p ↦ elim (Option-cases (first (λ r. eqb r.id ri.id) d.raw_inputs)) [
      | inl n ↦ rw (p, n) refl
      | inr (r, s) ↦ rw (p, s) refl
    ]
  ]

  pub save_pending-Leaves :
      (entry : PendingValidation) → Leaves (save_pending bot.env h.columns entry)
  unfolding save_pending
  save_pending-Leaves entry d = elim (Outcome-cases (h.columns.marshal_request entry.request)) [
    | inr (e, p) ↦ rw p refl
    | inl (request, p) ↦ elim (Outcome-cases (h.columns.marshal_collision entry.collision)) [
      | inr (e, q) ↦ rw p (rw q refl)
      | inl (collision, q) ↦ rw p (rw q (ground arith))
    ]
  ]

  pub delete_pending-Leaves : (token : String) → Leaves (delete_pending bot.env token)
  delete_pending-Leaves token d = elim (Bool-cases (bot.env.fault d.chat.world.calls)) [
    | inl p ↦ rw p refl
    | inr p ↦ rw p refl
  ]

  pub read_row-Leaves :
      (token : String) (row : PendingRow) → Leaves (read_row bot.env h.columns token row)
  read_row-Leaves token row d = elim (Outcome-cases (h.columns.unmarshal_request row.request)) [
    | inr (e, p) ↦ rw p refl
    | inl (request, p) ↦ elim (Outcome-cases (h.columns.unmarshal_collision row.collision)) [
      | inr (e, q) ↦ rw p (rw q refl)
      | inl (collision, q) ↦ rw p (rw q refl)
    ]
  ]

  pub take_pending-Writing : (token : String) → Writing (take_pending bot.env h.columns token)
  unfolding take_pending
  take_pending-Writing token =
      bind-Writing (delete_pending bot.env token) (read_row bot.env h.columns token)
        (Leaves-Writing (delete_pending bot.env token) (delete_pending-Leaves token))
        (λ row. Leaves-Writing (read_row bot.env h.columns token row) (read_row-Leaves token row))

  pub create_or_zero-Writing :
      (msg : Message) (req : IngestTextRequest) (id : ℕ) → Writing (create_or_zero bot h msg req id)
  create_or_zero-Writing msg req id =
      if-Writing h.has_raw_inputs
        (attempt (create_raw_input bot.env (raw_input_of bot h id msg req)) >>= λ created.
          pure (staged_id bot h id created))
        (pure id)
        (Leaves-Writing (create_raw_input bot.env (raw_input_of bot h id msg req))
          (create_raw_input-Leaves (raw_input_of bot h id msg req)))
        (λ d. done)

  pub stage_raw_input-Writing :
      (msg : Message) (req : IngestTextRequest) → Writing (stage_raw_input bot h msg req)
  unfolding stage_raw_input
  stage_raw_input-Writing msg req d =
      create_or_zero-Writing msg req (bot.env.uuid_at d.chat.world.ids) _
