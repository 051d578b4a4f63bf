-- ===== src/Backlog/Walk.antt =====
-- A client that follows the cursors to the end.
use project_brain.Base.{
  ℕ, zero, suc, ◌+◌, ◌<◌, String, false, Option, none, some, List, [], ◌∷◌, ◌++◌, map, select, take,
  drop, length, eqb, ltb, ◌≡◌, ◌∙◌, refl, sym, ap, inl, inr, arith, Bool-cases, if◌then◌else◌, any,
  Outcome, ok, err,
}
use project_brain.Base.Text.{trim_space, is_empty}
use project_brain.Domain.{KnowledgeObject}
use project_brain.Store.State.{Env, Db, World, normalize, tick}
use project_brain.Backlog.Cursor.{
  CursorCodec, IsCodec, encode_backlog_cursor, decode_backlog_cursor-encode_backlog_cursor,
}
use project_brain.Backlog.Query.{
  BacklogItem, BacklogPage, BacklogFilter, clamped, item_of, needs_attention, newest_first,
  after_cursor, parsed_cursor, list_backlog, list_human_backlog, page_from, trimmed_page,
}
use project_brain.Backlog.Order.{
  key, Strict, UniqueIds, newest_first-Strict, select-UniqueIds, select-older, any-newest_first,
  any-select, any-drop, length-newest_first-select,
}
use project_brain.Backlog.Pages.{
  page_of, page_of-last, page_of-more, take-drop, map-append, length-drop, drop-drop, drop-cons,
}

clamped-cases : (n : ℕ) → (m : ℕ) × (clamped n ≡ suc m) × (clamped (clamped n) ≡ clamped n)
unfolding clamped
clamped-cases zero = (24, refl, refl)
clamped-cases (suc k) = elim (Bool-cases (ltb 100 (suc k))) [
  | inl p ↦ (99, ground arith, ground arith)
  | inr p ↦ (k, ground arith, ground arith)
]

-- The rows that a workspace's backlog lists.
abbrev pub backlog_rows : Env → String → ℕ → Db → List KnowledgeObject
backlog_rows env ws now db =
    newest_first (select (needs_attention (normalize env (normalize env ws)) now) db.objects)

abbrev continue_with :
    (String → World → List BacklogItem) → Outcome BacklogPage × World → List BacklogItem
continue_with next (err e, w) = []
continue_with next (ok page, w) =
    if is_empty page.next_cursor then page.items else page.items ++ next page.next_cursor w

module _ (env : Env) (codec : CursorCodec) (ws : String) (size : ℕ) where
  abbrev filter_at : String → BacklogFilter
  filter_at cursor = record { workspace_id = ws; page_size = size; cursor = cursor }

  -- The items of at most so many pages, from a cursor on.
  unfoldable pub walk : ℕ → String → World → List BacklogItem
  walk zero cursor w = []
  walk (suc pages) cursor w =
      continue_with (walk pages) (list_human_backlog env codec (filter_at cursor) w)

  -- The cursor text stands for this bound.
  abbrev Reads : String → Option (ℕ × ℕ) → Type 0
  Reads s c = (trim_space s ≡ s) × (parsed_cursor codec s ≡ ok c)

  module _ (now : ℕ) (live : (n : ℕ) → env.fault n ≡ false)
      (still : (n : ℕ) → env.sql_now n ≡ now) where
    list_backlog-ok :
        (ws' s : String) (n : ℕ) (c : Option (ℕ × ℕ)) (w : World)
        → Reads s c
        → list_backlog env codec (record { workspace_id = ws'; page_size = n; cursor = s }) w ≡ (
          ok (
              map (item_of now) (
                take (clamped n + 1) (
                  after_cursor c (
                    newest_first
                      (select (needs_attention (normalize env ws') now) w.db.objects))))),
          tick w,
        )
    unfolding list_backlog
    list_backlog-ok ws' s n c w (trimmed, parsed) =
        rw trimmed (rw parsed (rw (live w.calls) (rw (still w.calls) refl)))

    pub list_human_backlog-ok :
        (s : String) (c : Option (ℕ × ℕ)) (w : World)
        → Reads s c
        → list_human_backlog env codec (filter_at s) w ≡ (
          ok (page_of codec now (clamped size) (after_cursor c (backlog_rows env ws now w.db))),
          tick w,
        )
    unfolding list_human_backlog
    list_human_backlog-ok s c w (trimmed, parsed) =
        let (_, _, same) = clamped-cases size in
        let rows = after_cursor c (backlog_rows env ws now w.db) in
        ap (λ t. page_from env codec (filter_at s) t (parsed_cursor codec t) w) trimmed
        ∙ (ap (λ p. page_from env codec (filter_at s) s p w) parsed
            ∙ (rw (list_backlog-ok (normalize env ws) s (clamped size) c w (trimmed, parsed)) (
                ap
                  (λ n. (
                    ok (trimmed_page codec (clamped size) (map (item_of now) (take (n + 1) rows))),
                    tick w,
                  ))
                  same)))

    Reads-encode :
        (laws : IsCodec codec) (t id : ℕ)
        → eqb id 0 ≡ false
        → Reads (encode_backlog_cursor codec t id) (some (t, id))
    unfolding encode_backlog_cursor
    Reads-encode laws t id h =
        let (_, trimmed, full) = laws t id in
        let read = decode_backlog_cursor-encode_backlog_cursor codec t id laws (ground arith) in
        (trimmed, rw full (rw read refl))

    -- What a page with a cursor and a walk from that cursor list together.
    walk-next :
        (laws : IsCodec codec) (pages m : ℕ) (l : List KnowledgeObject) (x : KnowledgeObject)
        (w : World)
        → suc m < length l
        → drop m l ≡ x ∷ drop (suc m) l
        → walk pages (encode_backlog_cursor codec x.updated_at x.id) (tick w)
          ≡ map (item_of now) (drop (suc m) l)
        → continue_with (walk pages) (ok (page_of codec now (suc m) l), tick w)
          ≡ map (item_of now) l
    unfolding encode_backlog_cursor
    walk-next laws pages m l x w long d rest =
        let (_, _, full) = laws x.updated_at x.id in
        let front = map (item_of now) (take (suc m) l) in
        ap (λ page. continue_with (walk pages) (ok page, tick w))
          (page_of-more codec now m l x long d)
        ∙ rw full (
            ap (λ r. front ++ r) rest
            ∙ (sym (map-append (item_of now) (take (suc m) l) (drop (suc m) l))
                ∙ ap (map (item_of now)) (take-drop (suc m) l)))

    -- From a cursor that cuts the rows off where the first k end, a walk of enough pages lists the rest.
    walk-drop :
        (laws : IsCodec codec) (pages k : ℕ) (s : String) (c : Option (ℕ × ℕ)) (w : World)
        → Strict (backlog_rows env ws now w.db)
        → any (λ o. eqb o.id 0) (backlog_rows env ws now w.db) ≡ false
        → Reads s c
        → after_cursor c (backlog_rows env ws now w.db) ≡ drop k (backlog_rows env ws now w.db)
        → length (drop k (backlog_rows env ws now w.db)) < pages
        → walk pages s w ≡ map (item_of now) (drop k (backlog_rows env ws now w.db))
    unfolding walk
    walk-drop laws zero k s c w strict ids reads cut enough = absurd (omega arith)
    walk-drop laws (suc pages) k s c w strict ids reads cut enough =
        let rows = backlog_rows env ws now w.db in
        let l = drop k rows in
        let (m, e, _) = clamped-cases size in
        let found : list_human_backlog env codec (filter_at s) w
            ≡ (ok (page_of codec now (suc m) l), tick w) =
          list_human_backlog-ok s c w reads
          ∙ (ap (λ r. (ok (page_of codec now (clamped size) r), tick w)) cut
              ∙ ap (λ n. (ok (page_of codec now n l), tick w)) e) in
        ap (continue_with (walk pages)) found ∙ elim (Bool-cases (ltb (suc m) (length l))) [
          | inr p ↦
              ap (λ page. continue_with (walk pages) (ok page, tick w))
                (page_of-last codec now (suc m) l (ground arith))
          | inl p ↦
              let long : suc m < length l = ground arith in
              let (x, d) = drop-cons m l (omega arith) in
              let at : drop (k + m) rows ≡ x ∷ drop (suc m) l = sym (drop-drop m k rows) ∙ d in
              let after : drop (suc m) l ≡ drop (k + suc m) rows = drop-drop (suc m) k rows in
              let less : length (drop (k + suc m) rows) < pages =
                omega (arith, length-drop (k + suc m) rows, length-drop k rows) in
              let next = encode_backlog_cursor codec x.updated_at x.id in
              walk-next laws pages m l x w long d (
                walk-drop laws pages (k + suc m) next (some (key x)) (tick w) strict ids
                  (Reads-encode laws x.updated_at x.id
                    (any-drop (λ o. eqb o.id 0) x (k + m) rows _ ids at))
                  (select-older x (k + m) rows _ strict at ∙ after) less
                ∙ ap (map (item_of now)) (sym after))
        ]

    -- With no failing statement and one time, a client that starts at the empty cursor and follows each
    -- next_cursor reads, in order, each row of its workspace that needs attention, once: no row is
    -- skipped or repeated at a page boundary. The cursors are read back as IsCodec says, IDs are unique
    -- and none is the zero UUID. One page more than there are rows is enough.
    pub walk_complete :
        (w : World)
        → IsCodec codec
        → UniqueIds w.db.objects
        → any (λ o. eqb o.id 0) w.db.objects ≡ false
        → walk (suc (length w.db.objects)) "" w ≡ map (item_of now) (backlog_rows env ws now w.db)
    unfolding trim_space
    walk_complete w laws unique ids =
        let test = needs_attention (normalize env (normalize env ws)) now in
        let chosen = select test w.db.objects in
        walk-drop laws (suc (length w.db.objects)) 0 "" none w
          (newest_first-Strict chosen (select-UniqueIds test w.db.objects unique))
          (any-newest_first (λ o. eqb o.id 0) chosen
            ∙ any-select (λ o. eqb o.id 0) test w.db.objects ids)
          (refl, refl) refl (omega (arith, length-newest_first-select test w.db.objects))
