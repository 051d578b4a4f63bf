-- ===== src/Backlog/Query.antt =====
-- `List` of postgres/backlog_query_repo.go and `ListHumanBacklog`.
use project_brain.Base.{
  ℕ, ◌+◌, ◌-◌, ◌*◌, ◌/◌, String, Bool, ◌&&◌, ◌||◌, Option, none, some, List, ◌∷◌, map, select, take,
  length, eqb, ltb, leb, ◌==◌, if◌then◌else◌, Outcome, ok, err, invalid_cursor, Calls, lift, ◌>>=◌,
}
use project_brain.Base.Text.{trim_space, is_empty}
use project_brain.Domain.{KnowledgeObject, proposed, debating, deprecated}
use project_brain.Store.State.{Env, World, normalize, statement}
use project_brain.Backlog.Cursor.{CursorCodec, encode_backlog_cursor, decode_backlog_cursor}

pub record BacklogFilter : Type 0 where
  pub workspace_id : String
  pub page_size : ℕ
  pub cursor : String

pub record BacklogItem : Type 0 where
  pub id : ℕ
  pub workspace_id : String
  pub type : String
  pub title : String
  pub summary : String
  pub status : String
  pub updated_at : ℕ
  pub is_stale : Bool
  pub stale_for_days : ℕ

pub record BacklogPage : Type 0 where
  pub items : List BacklogItem
  pub next_cursor : String

abbrev pub day : ℕ
day = 86400000000000

-- 0 is the default of 25, and more than 100 is 100.
unfoldable pub clamped : ℕ → ℕ
clamped n = if eqb n 0 then 25 else if ltb 100 n then 100 else n

abbrev pub item_of : ℕ → KnowledgeObject → BacklogItem
item_of now o = record {
  id = o.id;
  workspace_id = o.workspace_id;
  type = o.type;
  title = o.title;
  summary = o.summary;
  status = o.status;
  updated_at = o.updated_at;
  is_stale = o.status == debating && ltb (o.updated_at + 14 * day) now;
  stale_for_days = (now - o.updated_at) / day;
}

-- The WHERE clause but for the cursor.
unfoldable pub needs_attention : String → ℕ → KnowledgeObject → Bool
needs_attention workspace_id now o =
    o.workspace_id == workspace_id
    && (o.status == proposed
        || o.status == debating
        || (o.status == deprecated && leb now (o.updated_at + 14 * day)))

-- (updated_at, id) < (t, id')
abbrev pub older : ℕ × ℕ → KnowledgeObject → Bool
older (t, id) o = ltb o.updated_at t || (eqb o.updated_at t && ltb o.id id)

abbrev pub insert_newest : KnowledgeObject → List KnowledgeObject → List KnowledgeObject
insert_newest o List.[] = o ∷ List.[]
insert_newest o (x ∷ xs) =
    let rest = insert_newest o xs in if older (o.updated_at, o.id) x then o ∷ (x ∷ xs) else x ∷ rest

-- ORDER BY updated_at DESC, id DESC
unfoldable pub newest_first : List KnowledgeObject → List KnowledgeObject
newest_first List.[] = List.[]
newest_first (o ∷ os) = insert_newest o (newest_first os)

abbrev pub after_cursor : Option (ℕ × ℕ) → List KnowledgeObject → List KnowledgeObject
after_cursor none os = os
after_cursor (some c) os = select (older c) os

-- The last of the first n items, for n > 0.
abbrev pub last_of : BacklogItem → List BacklogItem → BacklogItem
last_of d List.[] = d
last_of d (x ∷ xs) = last_of x xs

abbrev pub trimmed_page : CursorCodec → ℕ → List BacklogItem → BacklogPage
trimmed_page codec n List.[] = record { items = List.[]; next_cursor = "" }
trimmed_page codec n (x ∷ xs) =
    if ltb n (length (x ∷ xs))
    then (let last = last_of x (take n (x ∷ xs)) in
        record {
          items = take n (x ∷ xs);
          next_cursor = encode_backlog_cursor codec last.updated_at last.id;
        })
    else record { items = x ∷ xs; next_cursor = "" }

abbrev pub parsed_cursor : CursorCodec → String → Outcome (Option (ℕ × ℕ))
parsed_cursor codec cursor =
    if is_empty cursor
    then ok none
    else elim (decode_backlog_cursor codec cursor) [ ok c ↦ ok (some c) | err e ↦ err e ]

module _ (env : Env) (codec : CursorCodec) where
  -- `List`: up to one row more than the page
  unfoldable pub list_backlog : BacklogFilter → Calls World (List BacklogItem)
  list_backlog filter = do
    let workspace_id = normalize env filter.workspace_id
    let page_size = clamped filter.page_size
    cursor ← lift (parsed_cursor codec (trim_space filter.cursor))
    statement env λ now db. (
      ok (
          map (item_of now) (
            take (page_size + 1) (
              after_cursor cursor
                (newest_first (select (needs_attention workspace_id now) db.objects))))),
      db,
    )

  -- The page, or the error with the decoder's error replaced.
  abbrev pub page_from : BacklogFilter → String → Outcome (Option (ℕ × ℕ)) → Calls World BacklogPage
  page_from filter cursor (err e) w = (err invalid_cursor, w)
  page_from filter cursor (ok c) w =
      let page_size = clamped filter.page_size in
      (do
        items ← list_backlog (record {
          workspace_id = normalize env filter.workspace_id;
          page_size = page_size;
          cursor = cursor;
        })
        λ w'. (ok (trimmed_page codec page_size items), w'))
        w

  unfoldable pub list_human_backlog : BacklogFilter → Calls World BacklogPage
  list_human_backlog filter =
      let cursor = trim_space filter.cursor in page_from filter cursor (parsed_cursor codec cursor)
