-- ===== src/Backlog/Cursor.antt =====
-- app/cursor.go. The text and what is read of it are the fields of a codec; `Backlog/Wire` gives
-- the one that the code has.
use project_brain.Base.Text.{trim_space, is_empty}
use project_brain.Base.{
  ℕ, String, Option, none, some, false, eqb, ◌≡◌, ◌≢◌, arith, if◌then◌else◌, Outcome, ok, err,
  invalid_cursor,
}

-- The text with both fields, and what is read of any text: `none` if it is not Base64 of JSON, and
-- for each key `none` if it is missing.
pub record CursorCodec : Type 0 where
  pub print : ℕ → ℕ → String
  pub parse : String → Option (Option ℕ × Option ℕ)

-- What the formats promise of a text that was printed: it is read back, it has no space at either
-- end, and it is not empty.
abbrev pub IsCodec : CursorCodec → Type 0
IsCodec c =
    (t id : ℕ)
    → (c.parse (c.print t id) ≡ some (some t, some id))
      × (trim_space (c.print t id) ≡ c.print t id)
      × (is_empty (c.print t id) ≡ false)

abbrev checked : Option (Option ℕ × Option ℕ) → Outcome (ℕ × ℕ)
checked (some (some t, some id)) = if eqb id 0 then err invalid_cursor else ok (t, id)
checked (some (some t, none)) = err invalid_cursor
checked (some (none, id)) = err invalid_cursor
checked none = err invalid_cursor

module _ (codec : CursorCodec) where
  unfoldable pub encode_backlog_cursor : ℕ → ℕ → String
  encode_backlog_cursor t id = codec.print t id

  unfoldable pub decode_backlog_cursor : String → Outcome (ℕ × ℕ)
  decode_backlog_cursor token = checked (codec.parse token)

  pub decode_backlog_cursor-parse :
      (token : String) (t id : ℕ)
      → codec.parse token ≡ some (some t, some id)
      → id ≢ 0
      → decode_backlog_cursor token ≡ ok (t, id)
  unfolding decode_backlog_cursor
  decode_backlog_cursor-parse token t id read h = rw read (ground arith)

  pub decode_backlog_cursor-encode_backlog_cursor :
      (t id : ℕ)
      → IsCodec codec
      → id ≢ 0
      → decode_backlog_cursor (encode_backlog_cursor t id) ≡ ok (t, id)
  unfolding encode_backlog_cursor
  decode_backlog_cursor-encode_backlog_cursor t id laws =
      decode_backlog_cursor-parse (codec.print t id) t id (laws t id).0
