-- ===== src/Telegram/Guards.antt =====
-- What a button of the backlog may do to the tables.
use project_brain.Base.{
  ℕ, String, true, false, none, some, List, ◌≡◌, ◌⊎◌, ◌∙◌, eq_iff, refl, ap, inl, inr, arith, eqb,
  ◌==◌, ◌&&◌, Bool-cases, Option-cases, Outcome, ok, err, Err, is_not_found, is_invalid_transition,
  not_found, failure,
}
use project_brain.Domain.{KnowledgeObject}
use project_brain.Store.State.{tick}
use project_brain.Store.Objects.{find}
use project_brain.Tokens.Memory.{TelegramReviewAction}
use project_brain.Tokens.Postgres.{take_row}
use project_brain.Telegram.Chat.{Bot, Handler, Chat, CallbackQuery, find_by_id}
use project_brain.Telegram.Render.{skip_action}
use project_brain.Telegram.Review.{
  ReviewCall, review_case, place_of, respond_review_service_error, run_review_case, run_chosen,
  dispatch_review, check_status, review_object, check_actor, handle_review_callback,
}
use project_brain.Telegram.Still.{Still, if-Still, render_next_backlog_card-Still}

abbrev pub ticked : Chat → Chat
ticked c = record c { world = tick c.world }

module _ (bot : Bot) where
  pub find_by_id-cases :
      (ws : String) (id : ℕ) (c : Chat)
      → ((e : Err) × (find_by_id bot ws id c ≡ (err e, ticked c)))
        ⊎ ((o : KnowledgeObject) × (find ws id c.world.db.objects ≡ some o)
            × (find_by_id bot ws id c ≡ (ok o, ticked c)))
  unfolding find_by_id
  find_by_id-cases ws id c = elim (Bool-cases (bot.env.fault c.world.calls)) [
    | inl broken ↦ inl (failure c.world.calls, rw broken refl)
    | inr works ↦ elim (Option-cases (find ws id c.world.db.objects)) [
      | inl f ↦ inl (not_found, rw (works, f) refl)
      | inr (o, f) ↦ inr (o, f, rw (works, f) refl)
    ]
  ]

  module _ (h : Handler) where
    respond-Still :
        (cb : CallbackQuery) (place : ℕ × ℕ) (e : Err)
        → Still (respond_review_service_error bot h cb place e)
    unfolding respond_review_service_error
    respond-Still cb place e =
        if-Still (is_invalid_transition e) _ _ (λ c. refl)
          (if-Still (is_not_found e) _ _ (λ c. refl) (λ c. refl))

    check_status-err :
        (cb : CallbackQuery) (a : TelegramReviewAction) (e : Err)
        → Still (check_status bot h cb a (err e))
    check_status-err cb a e = if-Still (is_not_found e) _ _ (λ c. refl) (λ c. refl)

    pub review_object-open :
        (cb : CallbackQuery) (a : TelegramReviewAction) (c d : Chat) (r : Outcome KnowledgeObject)
        → h.has_finder ≡ true
        → find_by_id bot a.workspace_id a.object_id c ≡ (r, d)
        → review_object bot h cb a c ≡ check_status bot h cb a r d
    unfolding review_object
    review_object-open cb a c d r p found = simp (p, found)

    dispatch_review-some :
        (cb : CallbackQuery) (a : TelegramReviewAction) (c : Chat) (call : ReviewCall)
        (body toast : String)
        → review_case a.expected_status a.action ≡ some (call, body, toast)
        → dispatch_review bot h cb a c ≡ run_review_case bot h cb a call (body, toast) c
    unfolding dispatch_review
    dispatch_review-some cb a c call body toast s = ap (λ x. run_chosen bot h cb a x c) s

    dispatch_review-none :
        (cb : CallbackQuery) (a : TelegramReviewAction) (c : Chat)
        → review_case a.expected_status a.action ≡ none
        → (dispatch_review bot h cb a c).1.world.db ≡ c.world.db
    unfolding dispatch_review
    dispatch_review-none cb a c s = ap (λ x. (run_chosen bot h cb a x c).1.world.db) s

    check_status-same :
        (cb : CallbackQuery) (a : TelegramReviewAction) (o : KnowledgeObject) (c : Chat)
        → (o.status == a.expected_status) ≡ true
        → check_status bot h cb a (ok o) c ≡ dispatch_review bot h cb a c
    check_status-same cb a o c q = rw q refl

    check_status-stale :
        (cb : CallbackQuery) (a : TelegramReviewAction) (o : KnowledgeObject) (c : Chat)
        → (o.status == a.expected_status) ≡ false
        → (check_status bot h cb a (ok o) c).1.world.db ≡ c.world.db
    check_status-stale cb a o c q = rw q refl

    -- The object that a button is about and the case that it runs, when the button still stands.
    abbrev Stands : CallbackQuery → TelegramReviewAction → Chat → Type 0
    Stands cb a c =
        (o : KnowledgeObject) × (call : ReviewCall) × (texts : String × String) × (find
            a.workspace_id a.object_id c.world.db.objects
          ≡ some o)
        × (o.status ≡ a.expected_status)
        × (review_case a.expected_status a.action ≡ some (call, texts.0, texts.1))
        × (review_object bot h cb a c ≡ run_review_case bot h cb a call texts (ticked c))

    checked-cases :
        (cb : CallbackQuery) (a : TelegramReviewAction) (c : Chat) (o : KnowledgeObject)
        → find a.workspace_id a.object_id c.world.db.objects ≡ some o
        → review_object bot h cb a c ≡ check_status bot h cb a (ok o) (ticked c)
        → ((review_object bot h cb a c).1.world.db ≡ c.world.db) ⊎ Stands cb a c
    checked-cases cb a c o stored e = elim (Bool-cases (o.status == a.expected_status)) [
      | inr q ↦ inl (ap (λ x. x.1.world.db) e ∙ check_status-stale cb a o (ticked c) q)
      | inl q ↦
          let e' = e ∙ check_status-same cb a o (ticked c) q in
          elim (Option-cases (review_case a.expected_status a.action)) [
            | inl n ↦ inl (ap (λ x. x.1.world.db) e' ∙ dispatch_review-none cb a (ticked c) n)
            | inr ((call, body, toast), s) ↦
                let same : o.status ≡ a.expected_status =
                  ground (arith, eq_iff o.status a.expected_status) in
                inr (
                  o,
                  call,
                  (body, toast),
                  stored,
                  same,
                  s,
                  e' ∙ dispatch_review-some cb a (ticked c) call body toast s,
                )
          ]
    ]

    review_object-cases :
        (cb : CallbackQuery) (a : TelegramReviewAction) (c : Chat)
        → ((review_object bot h cb a c).1.world.db ≡ c.world.db) ⊎ Stands cb a c
    unfolding review_object
    review_object-cases cb a c = elim (Bool-cases h.has_finder) [
      | inr p ↦ inl (rw p refl)
      | inl p ↦ elim (find_by_id-cases a.workspace_id a.object_id c) [
        | inl (e, found) ↦ inl (
            ap (λ x. x.1.world.db) (review_object-open cb a c (ticked c) (err e) p found)
            ∙ check_status-err cb a e (ticked c))
        | inr (o, stored, found) ↦
            checked-cases cb a c o stored (review_object-open cb a c (ticked c) (ok o) p found)
      ]
    ]

    -- What a tap may do, once the store gave an action.
    abbrev pub Allowed :
        CallbackQuery → TelegramReviewAction → Chat → Outcome (Unit {0}) × Chat → Type 0
    Allowed cb a c x =
        (o : KnowledgeObject) × (call : ReviewCall) × (texts : String × String) × (cb.from_id
          ≡ a.actor_id)
        × ((place_of cb).0 ≡ a.chat_id)
        × (find a.workspace_id a.object_id c.world.db.objects ≡ some o)
        × (o.status ≡ a.expected_status)
        × (review_case o.status a.action ≡ some (call, texts.0, texts.1))
        × (x ≡ run_review_case bot h cb a call texts (ticked c))

    pub check_actor-review :
        (cb : CallbackQuery) (a : TelegramReviewAction) (c : Chat)
        → (eqb cb.from_id a.actor_id && eqb (place_of cb).0 a.chat_id) ≡ true
        → (a.action == skip_action) ≡ false
        → check_actor bot h cb (ok a) c ≡ review_object bot h cb a c
    check_actor-review cb a c p q = rw p (rw q refl)

    check_actor-cases :
        (cb : CallbackQuery) (a : TelegramReviewAction) (c : Chat)
        → ((check_actor bot h cb (ok a) c).1.world.db ≡ c.world.db)
          ⊎ Allowed cb a c (check_actor bot h cb (ok a) c)
    check_actor-cases cb a c =
        elim (Bool-cases (eqb cb.from_id a.actor_id && eqb (place_of cb).0 a.chat_id)) [
          | inr p ↦ inl (rw p refl)
          | inl p ↦ elim (Bool-cases (a.action == skip_action)) [
            | inl q ↦ inl (rw p (rw q (render_next_backlog_card-Still bot h cb (place_of cb) a c)))
            | inr q ↦ elim (review_object-cases cb a c) [
              | inl still ↦ inl (ap (λ x. x.1.world.db) (check_actor-review cb a c p q) ∙ still)
              | inr (o, call, texts, stored, same, s, e) ↦ inr (
                o,
                call,
                texts,
                ground arith,
                ground arith,
                stored,
                same,
                ap (λ t. review_case t a.action) same ∙ s,
                check_actor-review cb a c p q ∙ e,
              )
            ]
          ]
        ]

    -- The row that the store gives for a token.
    abbrev pub given : String → Chat → Outcome TelegramReviewAction × List TelegramReviewAction
    given token c =
        take_row (bot.env.fault c.world.calls) (bot.env.sql_now c.world.calls) token c.actions

    abbrev pub after_take : String → Chat → Chat
    after_take token c = record (ticked c) { actions = (given token c).1 }

    taken-cases :
        (cb : CallbackQuery) (r : Outcome TelegramReviewAction) (c : Chat)
        → ((check_actor bot h cb r c).1.world.db ≡ c.world.db)
          ⊎ ((a : TelegramReviewAction) × (r ≡ ok a) × Allowed cb a c (check_actor bot h cb r c))
    taken-cases cb (err e) c = inl refl
    taken-cases cb (ok a) c = elim (check_actor-cases cb a c) [
      | inl still ↦ inl still
      | inr allowed ↦ inr (a, refl, allowed)
    ]

    -- A tap changes the tables of the knowledge base, which are those of the objects, sources, links,
    -- audit rows and documents, only if the store gives the action of its token, the user and the
    -- chat are those that the button was made for, the object of the action exists, its status is
    -- the one that the button was made for, and that status and the action are a case of the switch.
    -- In every other case, errors of the store and of Telegram included, these tables stay as they
    -- are.
    pub handle_review_callback-guarded :
        (cb : CallbackQuery) (token : String) (c : Chat)
        → ((handle_review_callback bot h cb token c).1.world.db ≡ c.world.db)
          ⊎ ((a : TelegramReviewAction) × ((given token c).0 ≡ ok a)
              × Allowed cb a (after_take token c) (handle_review_callback bot h cb token c))
    unfolding handle_review_callback
    handle_review_callback-guarded cb token c =
        taken-cases cb (given token c).0 (after_take token c)
