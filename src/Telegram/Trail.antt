-- ===== src/Telegram/Trail.antt =====
-- The buttons of the backlog as writers of the tables and of the store of actions.
use mathlib.Core.Path.{subst}
use project_brain.Base.{
  ℕ, String, Bool, true, false, ◌&&◌, Option, none, some, List, ◌∷◌, ◌≡◌, refl, sym, ap, inl, inr,
  arith, eqb, ◌==◌, Bool-cases, if◌then◌else◌, Outcome, ok, err, Err, is_not_found,
  is_invalid_transition, Calls, attempt, ◌>>=◌,
}
use project_brain.Domain.{KnowledgeObject}
use project_brain.Store.State.{World}
use project_brain.Tokens.Memory.{TelegramReviewAction}
use project_brain.Lifecycle.Validate.{ValidateObjectService, validate}
use project_brain.Lifecycle.Debate.{mark_debating, resolve_debate}
use project_brain.Lifecycle.Write.{Writes, done, Writes-trans}
use project_brain.Lifecycle.Refine.{
  Quiet, validate-Writes, mark_debating-Writes, resolve_debate-Writes,
}
use project_brain.Telegram.Chat.{
  Bot, Handler, Chat, CallbackQuery, Sent, send, edit_and_answer, find_by_id,
}
use project_brain.Telegram.Render.{skip_action}
use project_brain.Telegram.Backlog.{render_next_backlog_card}
use project_brain.Telegram.Review.{
  ReviewCall, ReviewCase, validating, marking, resolving, review_case, place_of,
  respond_review_service_error, answer_call, call_service, validate_case, validate_request,
  mark_request, resolve_request, run_review_case, run_chosen, dispatch_review, check_status,
  review_object, check_actor, handle_review_callback,
}
use project_brain.Telegram.Still.{Still, render_next_backlog_card-Still}
use project_brain.Telegram.Guards.{ticked, check_actor-review, given, after_take}

-- A call that leaves the actions alone, and makes legal, logged writes to the tables.
abbrev Serves : {A : Type 0} → Calls Chat A → Type 0
Serves m =
    (c : Chat)
    → (w : World) × (sent : List Sent) × ((m c).1 ≡ record c { world = w; outbox = sent })
      × Writes c.world.db w.db

if-Serves :
    {A : Type 0} (b : Bool) (m n : Calls Chat A) → Serves m → Serves n → Serves (if b then m else n)
if-Serves true m n serves other = serves
if-Serves false m n serves other = other

-- The hooks of the service that the buttons validate with.
abbrev pub QuietHandler : Handler → Type 0
QuietHandler h =
    (s : ValidateObjectService)
    → h.validator ≡ some s
    → Quiet s.post_validation_hook × Quiet s.post_deprecation_hook

module _ (bot : Bot) where
  send-Serves : (s : Sent) → Serves (send bot s)
  send-Serves s c = (c.world, s ∷ c.outbox, refl, done)

  edit_and_answer-Serves :
      (cb : CallbackQuery) (place : ℕ × ℕ) (body toast : String)
      → Serves (edit_and_answer bot cb place body toast)
  edit_and_answer-Serves cb place body toast c = (c.world, _, refl, done)

  module _ (h : Handler) where
    respond-Serves :
        (cb : CallbackQuery) (place : ℕ × ℕ) (e : Err)
        → Serves (respond_review_service_error bot h cb place e)
    unfolding respond_review_service_error
    respond-Serves cb place e =
        if-Serves (is_invalid_transition e) _ _ (edit_and_answer-Serves cb place _ _)
          (if-Serves (is_not_found e) _ _ (edit_and_answer-Serves cb place _ _) (send-Serves _))

    answer_call-Serves :
        {A : Type 0} (cb : CallbackQuery) (place : ℕ × ℕ) (body toast : String) (r : Outcome A)
        → Serves (answer_call bot h cb place body toast r)
    answer_call-Serves cb place body toast (err e) = respond-Serves cb place e
    answer_call-Serves cb place body toast (ok a) = edit_and_answer-Serves cb place body toast

    call_service-Serves :
        {A : Type 0} (cb : CallbackQuery) (texts : String × String) (call : Calls World A)
        → ((w : World) → Writes w.db (call w).1.db)
        → Serves (call_service bot h cb texts call)
    call_service-Serves cb (body, toast) call writes c =
        let (r, w) = call c.world in
        let (w', sent, e, more) =
          answer_call-Serves cb (place_of cb) body toast r (record c { world = w }) in
        (w', sent, e, Writes-trans (writes c.world) more)

    validate_case-Serves :
        (cb : CallbackQuery) (a : TelegramReviewAction) (target reason : String)
        (texts : String × String) (v : Option ValidateObjectService)
        → h.validator ≡ v
        → QuietHandler h
        → Serves (validate_case bot h cb a target reason texts v)
    validate_case-Serves cb a target reason texts none p quiet = send-Serves _
    validate_case-Serves cb a target reason texts (some s) p quiet =
        let (accepting, dropping) = quiet s p in
        let req = validate_request bot h cb a target reason in
        call_service-Serves cb texts (validate bot.env s req)
          (λ w. validate-Writes bot.env w s accepting dropping req)

    run_review_case-Serves :
        (cb : CallbackQuery) (a : TelegramReviewAction) (call : ReviewCall)
        (texts : String × String)
        → QuietHandler h
        → Serves (run_review_case bot h cb a call texts)
    unfolding run_review_case
    run_review_case-Serves cb a (validating target reason) texts quiet =
        validate_case-Serves cb a target reason texts h.validator refl quiet
    run_review_case-Serves cb a (marking reason) texts quiet =
        if-Serves h.has_debater _ _
          (call_service-Serves cb texts (mark_debating bot.env (mark_request bot h cb a reason))
            (λ w. mark_debating-Writes bot.env w (mark_request bot h cb a reason)))
          (send-Serves _)
    run_review_case-Serves cb a (resolving target reason) texts quiet =
        if-Serves h.has_debater _ _
          (call_service-Serves cb texts
            (resolve_debate bot.env (resolve_request bot h cb a target reason))
            (λ w. resolve_debate-Writes bot.env w (resolve_request bot h cb a target reason)))
          (send-Serves _)

    run_chosen-Serves :
        (cb : CallbackQuery) (a : TelegramReviewAction) (case : Option ReviewCase)
        → QuietHandler h
        → Serves (run_chosen bot h cb a case)
    run_chosen-Serves cb a none quiet = edit_and_answer-Serves cb _ _ _
    run_chosen-Serves cb a (some (call, body, toast)) quiet =
        run_review_case-Serves cb a call (body, toast) quiet

    check_status-Serves :
        (cb : CallbackQuery) (a : TelegramReviewAction) (r : Outcome KnowledgeObject)
        → QuietHandler h
        → Serves (check_status bot h cb a r)
    unfolding dispatch_review
    check_status-Serves cb a (err e) quiet =
        if-Serves (is_not_found e) _ _ (edit_and_answer-Serves cb _ _ _) (send-Serves _)
    check_status-Serves cb a (ok o) quiet =
        if-Serves (o.status == a.expected_status) _ _
          (run_chosen-Serves cb a (review_case a.expected_status a.action) quiet)
          (edit_and_answer-Serves cb _ _ _)

    -- A reading leaves all but the count of calls.
    after_reading :
        (cb : CallbackQuery) (a : TelegramReviewAction) (c : Chat)
        (x : Outcome KnowledgeObject × Chat)
        → x.1 ≡ ticked c
        → QuietHandler h
        → (w : World) × (sent : List Sent) × ((check_status bot h cb a x.0 x.1).1
            ≡ record c { world = w; outbox = sent })
          × Writes c.world.db w.db
    after_reading cb a c (r, d) e quiet =
        subst
          (λ d.
            (w : World) × (sent : List Sent) × ((check_status bot h cb a r d).1
              ≡ record c { world = w; outbox = sent })
            × Writes c.world.db w.db)
          (sym e) (check_status-Serves cb a r quiet (ticked c))

    found-Serves :
        (cb : CallbackQuery) (a : TelegramReviewAction)
        → QuietHandler h
        → Serves (attempt (find_by_id bot a.workspace_id a.object_id) >>= check_status bot h cb a)
    unfolding find_by_id
    found-Serves cb a quiet c =
        after_reading cb a c (find_by_id bot a.workspace_id a.object_id c) (ground arith) quiet

    pub review_object-Serves :
        (cb : CallbackQuery) (a : TelegramReviewAction)
        → QuietHandler h
        → Serves (review_object bot h cb a)
    unfolding review_object
    review_object-Serves cb a quiet =
        if-Serves h.has_finder _ _ (found-Serves cb a quiet) (edit_and_answer-Serves cb _ _ _)

    Still-Writes :
        {A : Type 0} (m : Calls Chat A) (c : Chat) → Still m → Writes c.world.db (m c).1.world.db
    Still-Writes m c still = subst (λ d. Writes c.world.db d) (sym (still c)) done

    reviewed :
        (cb : CallbackQuery) (a : TelegramReviewAction) (c : Chat)
        → QuietHandler h
        → Writes c.world.db (review_object bot h cb a c).1.world.db
    reviewed cb a c quiet =
        let (w, sent, e, writes) = review_object-Serves cb a quiet c in
        subst (λ d. Writes c.world.db d) (sym (ap (λ x. x.world.db) e)) writes

    check_actor-Writes :
        (cb : CallbackQuery) (r : Outcome TelegramReviewAction) (c : Chat)
        → QuietHandler h
        → Writes c.world.db (check_actor bot h cb r c).1.world.db
    check_actor-Writes cb (err e) c quiet = done
    check_actor-Writes cb (ok a) c quiet =
        elim (Bool-cases (eqb cb.from_id a.actor_id && eqb (place_of cb).0 a.chat_id)) [
          | inr p ↦ rw p done
          | inl p ↦ elim (Bool-cases (a.action == skip_action)) [
            | inl q ↦
                let next = render_next_backlog_card bot h cb (place_of cb) a in
                rw p (
                  rw q
                    (Still-Writes next c (render_next_backlog_card-Still bot h cb (place_of cb) a)))
            | inr q ↦
                subst (λ x. Writes c.world.db x.1.world.db)
                  (sym (check_actor-review bot h cb a c p q)) (reviewed cb a c quiet)
          ]
        ]

    pub handle_review_callback-Writes :
        (cb : CallbackQuery) (token : String) (c : Chat)
        → QuietHandler h
        → Writes c.world.db (handle_review_callback bot h cb token c).1.world.db
    unfolding handle_review_callback
    handle_review_callback-Writes cb token c quiet =
        check_actor-Writes cb (given bot h token c).0 (after_take bot h token c) quiet
