-- ===== src/Backlog/Wire.antt =====
-- app/cursor.go: the JSON in the text of a cursor. Base64, the printing and reading of times and
-- UUIDs, the JSON parser and the comparison of keys are parameters.
use Prim.Native.Char.{code}
use Prim.Native.String.{[], ◌∷◌, ◌++◌}
use Prim.Native.String.{String}
use project_brain.Base.{
  ℕ, ◌*◌, ◌^◌, ◌<◌, Bool, true, false, ◌&&◌, not, Option, none, some, List, eqb, leb, ◌≡◌, ◌≢◌,
  refl, ap, ◌∙◌, ok, if◌then◌else◌,
}
use project_brain.Backlog.Cursor.{
  CursorCodec, encode_backlog_cursor, decode_backlog_cursor, decode_backlog_cursor-parse,
}

pub data JsonValue : Type 0 where
  string_value : String → JsonValue
  null_value : JsonValue
  other_value : JsonValue

pub record CursorWire : Type 0 where
  pub base64_encode : String → String  -- RawURLEncoding
  pub base64_decode : String → Option String
  pub format_time : ℕ → String  -- RFC3339Nano in UTC
  pub parse_time : String → Option ℕ
  pub uuid_text : ℕ → String
  pub parse_uuid : String → Option ℕ
  pub parse_object : String → Option (List (String × JsonValue))  -- a JSON object, key by key
  pub equal_fold : String → String → Bool

-- `cursorJSONTemplate`, cut at the keys
abbrev pub cursor_json : String → String → String
cursor_json t id =
    "{\"" ++ "updated_at" ++ "\":\"" ++ t ++ "\",\"" ++ "id" ++ "\":\"" ++ id ++ "\"}"

-- The first instant that RFC 3339 has no year for, 10000-01-01, in nanoseconds since year 1.
abbrev pub year_10000 : ℕ
year_10000 = 315537897600 * 10 ^ 9

-- No quote, no backslash and no control character: JSON writes the text as it is.
abbrev pub is_plain : String → Bool
is_plain [] = true
is_plain (c ∷ s) = not (eqb (code c) 34) && not (eqb (code c) 92) && leb 32 (code c) && is_plain s

-- What the packages document: Base64, times up to the year 9999 and UUIDs are read back, times and
-- UUIDs are plain, and an object with two plain texts is read with its keys.
pub record IsWire (w : CursorWire) : Type 0 where
  pub base64 : (s : String) → w.base64_decode (w.base64_encode s) ≡ some s
  pub time : (t : ℕ) → t < year_10000 → w.parse_time (w.format_time t) ≡ some t
  pub time_plain : (t : ℕ) → t < year_10000 → is_plain (w.format_time t) ≡ true
  pub uuid : (id : ℕ) → id < 2 ^ 128 → w.parse_uuid (w.uuid_text id) ≡ some id
  pub uuid_plain : (id : ℕ) → id < 2 ^ 128 → is_plain (w.uuid_text id) ≡ true
  pub pair :
      (k v k' v' : String)
      → is_plain k ≡ true
      → is_plain v ≡ true
      → is_plain k' ≡ true
      → is_plain v' ≡ true
      → w.parse_object ("{\"" ++ k ++ "\":\"" ++ v ++ "\",\"" ++ k' ++ "\":\"" ++ v' ++ "\"}")
        ≡ some (List.◌∷◌ (k, string_value v) (List.◌∷◌ (k', string_value v') List.[]))
  pub fold_same : (k : String) → w.equal_fold k k ≡ true
  pub fold_other : w.equal_fold "id" "updated_at" ≡ false
  pub fold_other' : w.equal_fold "updated_at" "id" ≡ false

module _ (w : CursorWire) where
  -- `json.Unmarshal` into a pointer field with this tag: the last entry counts, a null resets it.
  unfoldable pub unmarshal_field :
      String → (String → Option ℕ) → List (String × JsonValue) → Option ℕ → Option (Option ℕ)
  unmarshal_field tag parse List.[] pointer = some pointer
  unmarshal_field tag parse (List.◌∷◌ (k, v) rest) pointer =
      if w.equal_fold k tag
      then elim v [
        | string_value s ↦ elim (parse s) [
          | none ↦ none
          | some n ↦ unmarshal_field tag parse rest (some n)
        ]
        | null_value ↦ unmarshal_field tag parse rest none
        | other_value ↦ none
      ]
      else unmarshal_field tag parse rest pointer

  abbrev both_fields : Option (Option ℕ) → Option (Option ℕ) → Option (Option ℕ × Option ℕ)
  both_fields (some t) (some id) = some (t, id)
  both_fields (some t) none = none
  both_fields none id = none

  abbrev pub unmarshal_cursor : Option (List (String × JsonValue)) → Option (Option ℕ × Option ℕ)
  unmarshal_cursor none = none
  unmarshal_cursor (some entries) =
      both_fields (unmarshal_field "updated_at" w.parse_time entries none)
        (unmarshal_field "id" w.parse_uuid entries none)

  abbrev object_in : Option String → Option (List (String × JsonValue))
  object_in none = none
  object_in (some raw) = w.parse_object raw

  -- The codec that the code has.
  unfoldable pub codec_of : CursorCodec
  codec_of = record {
    print = λ t id. w.base64_encode (cursor_json (w.format_time t) (w.uuid_text id));
    parse = λ token. unmarshal_cursor (object_in (w.base64_decode token));
  }

  both_read :
      (v v' : String) (t id : ℕ)
      → IsWire w
      → w.parse_time v ≡ some t
      → w.parse_uuid v' ≡ some id
      → unmarshal_cursor (
          some (List.◌∷◌ ("updated_at", string_value v) (List.◌∷◌ ("id", string_value v') List.[])))
        ≡ some (some t, some id)
  unfolding unmarshal_field
  both_read v v' t id laws f g =
      rw (laws.fold_same "updated_at", laws.fold_other', f, laws.fold_other, laws.fold_same "id", g)
        refl

  -- With packages that do what they document, the cursor of a time up to the year 9999 and of a UUID
  -- other than zero is read back as they are.
  pub decode_backlog_cursor-codec_of :
      (t id : ℕ)
      → IsWire w
      → t < year_10000
      → id < 2 ^ 128
      → id ≢ 0
      → decode_backlog_cursor codec_of (encode_backlog_cursor codec_of t id) ≡ ok (t, id)
  unfolding decode_backlog_cursor encode_backlog_cursor codec_of unmarshal_field
  decode_backlog_cursor-codec_of t id laws ht hid h =
      decode_backlog_cursor-parse codec_of (encode_backlog_cursor codec_of t id) t id
        (ap (λ x. unmarshal_cursor (object_in x))
            (laws.base64 (cursor_json (w.format_time t) (w.uuid_text id)))
          ∙ (ap unmarshal_cursor (
                laws.pair "updated_at" (w.format_time t) "id" (w.uuid_text id) refl
                  (laws.time_plain t ht) refl (laws.uuid_plain id hid))
              ∙ both_read (w.format_time t) (w.uuid_text id) t id laws (laws.time t ht)
                  (laws.uuid id hid)))
        h
