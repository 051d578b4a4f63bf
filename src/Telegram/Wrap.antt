-- ===== src/Telegram/Wrap.antt =====
-- Skip on the last card of the backlog.
use project_brain.Base.{
  ℕ, String, true, false, ◌&&◌, Option, none, some, List, [], ◌∷◌, eqb, ◌==◌, eq_iff, ◌≡◌, ◌∙◌,
  refl, ap, inl, inr, arith, Bool-cases, if◌then◌else◌, ok, attempt, ◌>>=◌, length,
}
use project_brain.Base.Text.{trim_space}
use project_brain.Domain.{KnowledgeObject}
use project_brain.Tokens.Memory.{TelegramReviewAction}
use project_brain.Tokens.Postgres.{save_row}
use project_brain.Backlog.Cursor.{CursorCodec}
use project_brain.Backlog.Query.{BacklogItem, item_of, clamped}
use project_brain.Backlog.Pages.{page_of}
use project_brain.Backlog.Walk.{backlog_rows, list_human_backlog-ok}
use project_brain.Telegram.Chat.{
  Bot, Handler, Chat, CallbackQuery, InlineButton, answer, card, edit_and_answer,
}
use project_brain.Telegram.Render.{
  BacklogButtonSpec, skip_action, backlog_buttons_for_status, assemble_backlog_rows,
  render_backlog_card_text,
}
use project_brain.Telegram.Backlog.{
  page_at, hydrate_backlog_item, issue_review_action, issue_review_actions, prepared_card,
  answer_next, answer_listed, render_next_backlog_card,
}
use project_brain.Telegram.Review.{place_of, check_actor, handle_review_callback}
use project_brain.Telegram.Guards.{ticked, find_by_id-cases, given, after_take}

first_page :
    (codec : CursorCodec) (now : ℕ) (x : KnowledgeObject) (rest : List KnowledgeObject)
    → (next : String) × (page_of codec now (clamped 1) (x ∷ rest)
        ≡ record { items = item_of now x ∷ []; next_cursor = next })
unfolding clamped
first_page codec now x [] = (_, refl)
first_page codec now x (y ∷ rest) = (_, refl)

module _ (bot : Bot) (live : (n : ℕ) → bot.env.fault n ≡ false) where
  issue_review_action-ok :
      (item : BacklogItem) (next : String) (actor chat : ℕ) (spec : BacklogButtonSpec) (c : Chat)
      → (token : String) × (d : Chat) × (issue_review_action bot item next actor chat spec c
          ≡ (ok token, d))
        × (d.outbox ≡ c.outbox)
  unfolding issue_review_action save_row
  issue_review_action-ok item next actor chat spec c =
      let x = issue_review_action bot item next actor chat spec c in
      let token = bot.env.uuid_text (bot.env.uuid_at c.world.ids) in
      let issued : x.0 ≡ ok token = rw (live c.world.calls) refl in
      (token, x.1, ap (λ r. (r, x.1)) issued, rw (live c.world.calls) refl)

  issue_review_actions-ok :
      (item : BacklogItem) (next : String) (actor chat : ℕ) (specs : List BacklogButtonSpec)
      (c : Chat)
      → (tokens : List String) × (d : Chat) × (issue_review_actions bot item next actor chat specs c
          ≡ (ok tokens, d))
        × (d.outbox ≡ c.outbox)
  unfolding issue_review_actions
  issue_review_actions-ok item next actor chat [] c = ([], c, refl, refl)
  issue_review_actions-ok item next actor chat (spec ∷ specs) c =
      let (token, d, e, kept) = issue_review_action-ok item next actor chat spec c in
      let (tokens, d', e', kept') = issue_review_actions-ok item next actor chat specs d in
      (token ∷ tokens, d', rw e (rw e' refl), kept' ∙ kept)

  hydrate_backlog_item-ok :
      (h : Handler) (item : BacklogItem) (c : Chat)
      → (o : Option KnowledgeObject) × (d : Chat) × (hydrate_backlog_item bot h item c ≡ (ok o, d))
        × (d.outbox ≡ c.outbox)
  unfolding hydrate_backlog_item
  hydrate_backlog_item-ok h item c = elim (Bool-cases h.has_finder) [
    | inr p ↦ (none, c, rw p refl, refl)
    | inl p ↦ elim (find_by_id-cases bot "default" item.id c) [
      | inl (e, found) ↦ (none, ticked c, rw p (rw found refl), refl)
      | inr (o, stored, found) ↦ (some o, ticked c, rw p (rw found refl), refl)
    ]
  ]

  prepared_card-ok :
      (h : Handler) (item : BacklogItem) (next : String) (actor chat : ℕ) (c : Chat)
      → (o : Option KnowledgeObject) × (rows : List (List InlineButton)) × (d : Chat)
        × (prepared_card bot h item next actor chat c
            ≡ (ok (ok (render_backlog_card_text bot.decimal item o, rows)), d))
        × (d.outbox ≡ c.outbox)
  prepared_card-ok h item next actor chat c =
      let (o, d, e, kept) = hydrate_backlog_item-ok h item c in
      let specs = backlog_buttons_for_status item.status in
      let (tokens, d', e', kept') = issue_review_actions-ok item next actor chat specs d in
      (o, assemble_backlog_rows specs tokens, d', rw e (rw e' refl), kept' ∙ kept)

  module _ (sends : (n : ℕ) → bot.send_fault n ≡ false) (h : Handler) where
    answer_next-shows :
        (cb : CallbackQuery) (place : ℕ × ℕ) (actor : ℕ) (next : String) (item : BacklogItem)
        (items : List BacklogItem) (c : Chat)
        → (o : Option KnowledgeObject) × (rows : List (List InlineButton)) × ((answer_next bot h cb
              place actor next
              (item ∷ items)
              c).1.outbox
            ≡ answer cb.id "Saltado"
              ∷ card place.0 (render_backlog_card_text bot.decimal item o) rows
              ∷ c.outbox)
    answer_next-shows cb place actor next item items c =
        let (o, rows, d, e, kept) = prepared_card-ok h item next actor place.0 c in
        (
          o,
          rows,
          rw e (
              rw (sends (length d.outbox)) (
                ap
                  (λ sent.
                    answer cb.id "Saltado"
                    ∷ card place.0 (render_backlog_card_text bot.decimal item o) rows
                    ∷ sent)
                  kept)),
        )

    -- What the page at the empty cursor leads to.
    answer_listed-shows :
        (now : ℕ) (cb : CallbackQuery) (place : ℕ × ℕ) (actor : ℕ) (x : KnowledgeObject)
        (rest : List KnowledgeObject) (c : Chat)
        → (o : Option KnowledgeObject) × (rows : List (List InlineButton)) × ((answer_listed bot h
              cb place actor
              (ok (page_of bot.codec now (clamped 1) (x ∷ rest)))
              c).1.outbox
            ≡ answer cb.id "Saltado"
              ∷ card place.0 (render_backlog_card_text bot.decimal (item_of now x) o) rows
              ∷ c.outbox)
    answer_listed-shows now cb place actor x rest c =
        let (next, e) = first_page bot.codec now x rest in
        let (o, rows, shown) = answer_next-shows cb place actor next (item_of now x) [] c in
        (o, rows, ap (λ page. (answer_listed bot h cb place actor (ok page) c).1.outbox) e ∙ shown)

    page_at-first :
        (now : ℕ) (ws : String) (c : Chat)
        → ((n : ℕ) → bot.env.sql_now n ≡ now)
        → page_at bot ws "" c ≡ (
          ok (page_of bot.codec now (clamped 1) (backlog_rows bot.env ws now c.world.db)),
          ticked c,
        )
    unfolding trim_space
    page_at-first now ws c still =
        ap (λ x. (x.0, record c { world = x.1 }))
          (list_human_backlog-ok bot.env bot.codec ws 1 now live still "" none c.world (refl, refl))

    next_card-wraps :
        (now : ℕ) (cb : CallbackQuery) (place : ℕ × ℕ) (a : TelegramReviewAction) (c : Chat)
        (x : KnowledgeObject) (rest : List KnowledgeObject)
        → ((n : ℕ) → bot.env.sql_now n ≡ now)
        → h.has_backlog ≡ true
        → a.next_cursor ≡ ""
        → backlog_rows bot.env a.workspace_id now c.world.db ≡ x ∷ rest
        → (o : Option KnowledgeObject) × (rows : List (List InlineButton))
          × ((render_next_backlog_card bot h cb place a c).1.outbox
              ≡ answer cb.id "Saltado"
                ∷ card place.0 (render_backlog_card_text bot.decimal (item_of now x) o) rows
                ∷ c.outbox)
    unfolding render_next_backlog_card
    next_card-wraps now cb place a c x rest still wired last listed =
        let (o, rows, shown) = answer_listed-shows now cb place a.actor_id x rest (ticked c) in
        let opened =
          ap
            (λ b.
              ((if b
                  then attempt (page_at bot a.workspace_id a.next_cursor)
                    >>= answer_listed bot h cb place a.actor_id
                  else edit_and_answer bot cb place "El backlog no está disponible en esta build."
                      "Backlog no disponible")
                c).1.outbox)
            wired in
        let start =
          ap (λ s. page_at bot a.workspace_id s c) last
          ∙ (page_at-first now a.workspace_id c still
              ∙ ap (λ l. (ok (page_of bot.codec now (clamped 1) l), ticked c)) listed) in
        (
          o,
          rows,
          opened
              ∙ (ap (λ p. (answer_listed bot h cb place a.actor_id p.0 p.1).1.outbox) start
                  ∙ shown),
        )

    -- The Skip of the last card, whose next_cursor is empty, does not end the backlog: with no
    -- failure, at one time of the database, it sends the card of the first row of the whole backlog
    -- again, as long as there is one.
    pub skip-wraps :
        (now : ℕ) (cb : CallbackQuery) (token : String) (a : TelegramReviewAction) (c : Chat)
        (x : KnowledgeObject) (rest : List KnowledgeObject)
        → ((n : ℕ) → bot.env.sql_now n ≡ now)
        → h.has_backlog ≡ true
        → (given bot h token c).0 ≡ ok a
        → cb.from_id ≡ a.actor_id
        → (place_of cb).0 ≡ a.chat_id
        → a.action ≡ skip_action
        → a.next_cursor ≡ ""
        → backlog_rows bot.env a.workspace_id now c.world.db ≡ x ∷ rest
        → (o : Option KnowledgeObject) × (rows : List (List InlineButton))
          × ((handle_review_callback bot h cb token c).1.outbox
              ≡ answer cb.id "Saltado"
                ∷ card (place_of cb).0 (render_backlog_card_text bot.decimal (item_of now x) o) rows
                ∷ c.outbox)
    unfolding handle_review_callback
    skip-wraps now cb token a c x rest still wired taken actor chat skips last listed =
        let d = after_take bot h token c in
        let (o, rows, shown) =
          next_card-wraps now cb (place_of cb) a d x rest still wired last listed in
        let p : (eqb cb.from_id a.actor_id && eqb (place_of cb).0 a.chat_id) ≡ true =
          ground arith in
        let q : (a.action == skip_action) ≡ true = ground (arith, eq_iff a.action skip_action) in
        let passed : (check_actor bot h cb (ok a) d).1.outbox
            ≡ (render_next_backlog_card bot h cb (place_of cb) a d).1.outbox =
          rw p (rw q refl) in
        (o, rows, ap (λ r. (check_actor bot h cb r d).1.outbox) taken ∙ (passed ∙ shown))
