-- ===== src/Telegram/Still.antt =====
-- The steps of the handlers that leave the tables alone.
use project_brain.Base.{
  ℕ, String, Bool, true, false, Option, List, [], ◌∷◌, ◌≡◌, ◌∙◌, refl, inl, inr, arith, Bool-cases,
  if◌then◌else◌, Outcome, ok, err, Calls, proceed, attempt, pure, ◌>>=◌,
}
use project_brain.Base.Text.{trim_space}
use project_brain.Store.State.{Env, Db, World}
use project_brain.Tokens.Memory.{TelegramReviewAction}
use project_brain.Backlog.Cursor.{CursorCodec}
use project_brain.Backlog.Query.{
  BacklogItem, BacklogFilter, BacklogPage, list_backlog, list_human_backlog, page_from,
  parsed_cursor,
}
use project_brain.Tokens.Postgres.{save_row}
use project_brain.Telegram.Chat.{
  Bot, Handler, Chat, CallbackQuery, Sent, card, send, edit_and_answer, take_action, find_by_id,
}
use project_brain.Telegram.Render.{BacklogButtonSpec, backlog_buttons_for_status}
use project_brain.Telegram.Backlog.{
  telegram_workspace_default, page_at, hydrate_backlog_item, issue_review_action,
  issue_review_actions, prepared_card, Ready, send_ready, send_first, send_listed, handle_backlog,
  answer_sent, answer_ready, answer_next, answer_listed, render_next_backlog_card,
}

-- The tables after a call are those before it.
abbrev pub Still : {A : Type 0} → Calls Chat A → Type 0
Still m = (c : Chat) → (m c).1.world.db ≡ c.world.db

proceed-same :
    {S A B : Type 0} (db : S → Db) (p : Outcome A × S) (f : A → Calls S B) (d : Db)
    → db p.1 ≡ d
    → ((a : A) (s : S) → db (f a s).1 ≡ db s)
    → db (proceed p f).1 ≡ d
proceed-same db (ok a, s) f d h next = next a s ∙ h
proceed-same db (err e, s) f d h next = h

pub bind-Still :
    {A B : Type 0} (m : Calls Chat A) (f : A → Calls Chat B)
    → Still m
    → ((a : A) → Still (f a))
    → Still (m >>= f)
bind-Still m f still next c = proceed-same (λ s. s.world.db) (m c) f c.world.db (still c) next

pub if-Still :
    {A : Type 0} (b : Bool) (m n : Calls Chat A) → Still m → Still n → Still (if b then m else n)
if-Still true m n still other = still
if-Still false m n still other = other

pub attempt-Still : {A : Type 0} (m : Calls Chat A) → Still m → Still (attempt m)
attempt-Still m still c = still c

list_backlog-db :
    (env : Env) (codec : CursorCodec) (filter : BacklogFilter) (w : World)
    → (list_backlog env codec filter w).1.db ≡ w.db
unfolding list_backlog
list_backlog-db env codec filter w =
    proceed-same (λ s. s.db) (parsed_cursor codec (trim_space filter.cursor), w) _ w.db refl
      (λ c w'. ground arith)

page_from-db :
    (env : Env) (codec : CursorCodec) (filter : BacklogFilter) (cursor : String)
    (r : Outcome (Option (ℕ × ℕ))) (w : World)
    → (page_from env codec filter cursor r w).1.db ≡ w.db
page_from-db env codec filter cursor (err e) w = refl
page_from-db env codec filter cursor (ok c) w =
    proceed-same {S = World} (λ s. s.db) (list_backlog env codec _ w) _ w.db
      (list_backlog-db env codec _ w) (λ items w'. refl)

pub list_human_backlog-db :
    (env : Env) (codec : CursorCodec) (filter : BacklogFilter) (w : World)
    → (list_human_backlog env codec filter w).1.db ≡ w.db
unfolding list_human_backlog
list_human_backlog-db env codec filter w =
    page_from-db env codec filter (trim_space filter.cursor) (parsed_cursor codec _) w

module _ (bot : Bot) where
  pub send-Still : (s : Sent) → Still (send bot s)
  send-Still s c = refl

  pub edit_and_answer-Still :
      (cb : CallbackQuery) (place : ℕ × ℕ) (body toast : String)
      → Still (edit_and_answer bot cb place body toast)
  edit_and_answer-Still cb place body toast c = refl

  pub take_action-Still : (token : String) → Still (take_action bot token)
  take_action-Still token c = refl

  pub find_by_id-Still : (ws : String) (id : ℕ) → Still (find_by_id bot ws id)
  unfolding find_by_id
  find_by_id-Still ws id c = ground arith

  page_at-Still : (ws cursor : String) → Still (page_at bot ws cursor)
  page_at-Still ws cursor c = list_human_backlog-db bot.env bot.codec _ c.world

  hydrate_backlog_item-Still :
      (h : Handler) (item : BacklogItem) → Still (hydrate_backlog_item bot h item)
  unfolding hydrate_backlog_item
  hydrate_backlog_item-Still h item c = elim (Bool-cases h.has_finder) [
    | inl p ↦ rw p (find_by_id-Still telegram_workspace_default item.id c)
    | inr p ↦ rw p refl
  ]

  issue_review_action-Still :
      (item : BacklogItem) (next : String) (actor chat : ℕ) (spec : BacklogButtonSpec)
      → Still (issue_review_action bot item next actor chat spec)
  unfolding issue_review_action save_row
  issue_review_action-Still item next actor chat spec c = ground arith

  issue_review_actions-Still :
      (item : BacklogItem) (next : String) (actor chat : ℕ) (specs : List BacklogButtonSpec)
      → Still (issue_review_actions bot item next actor chat specs)
  unfolding issue_review_actions
  issue_review_actions-Still item next actor chat [] = λ c. refl
  issue_review_actions-Still item next actor chat (spec ∷ specs) =
      let rest = issue_review_actions bot item next actor chat specs in
      let kept = issue_review_actions-Still item next actor chat specs in
      bind-Still (issue_review_action bot item next actor chat spec)
        (λ token. rest >>= λ tokens. pure (token ∷ tokens))
        (issue_review_action-Still item next actor chat spec)
        (λ token. bind-Still rest (λ tokens. pure (token ∷ tokens)) kept (λ tokens c. refl))

  prepared_card-Still :
      (h : Handler) (item : BacklogItem) (next : String) (actor chat : ℕ)
      → Still (prepared_card bot h item next actor chat)
  prepared_card-Still h item next actor chat =
      let specs = backlog_buttons_for_status item.status in
      bind-Still (hydrate_backlog_item bot h item) _ (hydrate_backlog_item-Still h item)
        (λ hydrated. issue_review_actions-Still item next actor chat specs)

  send_ready-Still : (chat : ℕ) (r : Ready bot) → Still (send_ready bot chat r)
  send_ready-Still chat (err e) c = refl
  send_ready-Still chat (ok (body, rows)) c = refl

  send_first-Still :
      (h : Handler) (actor chat : ℕ) (next : String) (items : List BacklogItem)
      → Still (send_first bot h actor chat next items)
  send_first-Still h actor chat next [] = λ c. refl
  send_first-Still h actor chat next (item ∷ items) =
      bind-Still (prepared_card bot h item next actor chat) (send_ready bot chat)
        (prepared_card-Still h item next actor chat) (send_ready-Still chat)

  send_listed-Still :
      (h : Handler) (actor chat : ℕ) (r : Outcome BacklogPage)
      → Still (send_listed bot h actor chat r)
  send_listed-Still h actor chat (err e) = λ c. refl
  send_listed-Still h actor chat (ok page) =
      send_first-Still h actor chat page.next_cursor page.items

  pub handle_backlog-Still :
      (h : Handler) (actor chat : ℕ) → Still (handle_backlog bot h actor chat)
  unfolding handle_backlog
  handle_backlog-Still h actor chat =
      let listing = attempt (page_at bot telegram_workspace_default "") in
      if-Still h.has_backlog (listing >>= send_listed bot h actor chat) _
        (bind-Still listing (send_listed bot h actor chat)
          (page_at-Still telegram_workspace_default "") (send_listed-Still h actor chat))
        (λ c. refl)

  answer_sent-Still : (cb : CallbackQuery) (r : Outcome (Unit {0})) → Still (answer_sent bot cb r)
  answer_sent-Still cb (err e) c = refl
  answer_sent-Still cb (ok u) c = refl

  answer_ready-Still :
      (cb : CallbackQuery) (chat : ℕ) (r : Ready bot) → Still (answer_ready bot cb chat r)
  answer_ready-Still cb chat (err e) = λ c. refl
  answer_ready-Still cb chat (ok (body, rows)) =
      bind-Still (attempt (send bot (card chat body rows))) (answer_sent bot cb) (λ c. refl)
        (answer_sent-Still cb)

  answer_next-Still :
      (h : Handler) (cb : CallbackQuery) (place : ℕ × ℕ) (actor : ℕ) (next : String)
      (items : List BacklogItem)
      → Still (answer_next bot h cb place actor next items)
  answer_next-Still h cb place actor next [] = λ c. refl
  answer_next-Still h cb place actor next (item ∷ items) =
      bind-Still (prepared_card bot h item next actor place.0) (answer_ready bot cb place.0)
        (prepared_card-Still h item next actor place.0) (answer_ready-Still cb place.0)

  answer_listed-Still :
      (h : Handler) (cb : CallbackQuery) (place : ℕ × ℕ) (actor : ℕ) (r : Outcome BacklogPage)
      → Still (answer_listed bot h cb place actor r)
  answer_listed-Still h cb place actor (err e) = λ c. refl
  answer_listed-Still h cb place actor (ok page) =
      answer_next-Still h cb place actor page.next_cursor page.items

  pub render_next_backlog_card-Still :
      (h : Handler) (cb : CallbackQuery) (place : ℕ × ℕ) (a : TelegramReviewAction)
      → Still (render_next_backlog_card bot h cb place a)
  unfolding render_next_backlog_card
  render_next_backlog_card-Still h cb place a =
      let listing = attempt (page_at bot a.workspace_id a.next_cursor) in
      if-Still h.has_backlog (listing >>= answer_listed bot h cb place a.actor_id) _
        (bind-Still listing (answer_listed bot h cb place a.actor_id)
          (page_at-Still a.workspace_id a.next_cursor) (answer_listed-Still h cb place a.actor_id))
        (λ c. refl)
