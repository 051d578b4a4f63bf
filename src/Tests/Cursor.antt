-- ===== src/Tests/Cursor.antt =====
-- A JSON parser that reads an object of two plain texts, and a cursor that goes through it.
use Prim.Native.Char.{Char, code}
use Prim.Native.String.{[], ◌∷◌, ◌++◌}
use Prim.Native.String.{String}
use Prim.Native.String.append
use project_brain.Base.{
  ℕ, zero, suc, true, false, Option, none, some, List, eqb, ◌==◌, ◌≡◌, refl, ap, ◌∙◌, arith, ok,
  if◌then◌else◌, eq_iff,
}
use project_brain.Backlog.Cursor.{encode_backlog_cursor, decode_backlog_cursor}
use project_brain.Backlog.Wire.{
  CursorWire, JsonValue, string_value, IsWire, is_plain, cursor_json, codec_of,
  decode_backlog_cursor-codec_of,
}
use project_brain.Tests.Backlog.{marked, counted, counted-marked}

template_run : cursor_json "T" "I" ≡ "{\"updated_at\":\"T\",\"id\":\"I\"}"
template_run = refl

-- The text before the first quote, and the text after it.
abbrev split : String → String × String
split [] = ([], [])
split (c ∷ s) = let rest = split s in if eqb (code c) 34 then ([], s) else (c ∷ rest.0, rest.1)

abbrev tail2 : String → String
tail2 [] = []
tail2 (a ∷ []) = []
tail2 (a ∷ b ∷ s) = s

abbrev quoted : String → String × String
quoted s = split (tail2 s)

abbrev pair_in : String → Option (List (String × JsonValue))
pair_in s =
    let k = quoted s in
    let v = quoted k.1 in
    let k' = quoted v.1 in
    let v' = quoted k'.1 in
    some (List.◌∷◌ (k.0, string_value v.0) (List.◌∷◌ (k'.0, string_value v'.0) List.[]))

split-plain : (p rest : String) → is_plain p ≡ true → split (p ++ ("\"" ∷ rest)) ≡ (p, rest)
split-plain [] rest h = ap split (append.nil ("\"" ∷ rest))
split-plain (c ∷ p) rest h =
    ap split (append.cons c p ("\"" ∷ rest))
    ∙ rw (split-plain p rest (ground arith), not-quote) refl
  where
    not-quote : eqb (code c) 34 ≡ false
    not-quote = ground arith

quoted-plain :
    (a b : Char) (p rest : String)
    → is_plain p ≡ true
    → quoted (a ∷ (b ∷ (p ++ ("\"" ∷ rest)))) ≡ (p, rest)
quoted-plain a b p rest h = split-plain p rest h

-- The text of an object, with its quotes apart.
object-cons :
    (k v k' v' : String)
    → "{\"" ++ k ++ "\":\"" ++ v ++ "\",\"" ++ k' ++ "\":\"" ++ v' ++ "\"}"
      ≡ "{"
        ∷ ("\""
            ∷ (k
                ++ ("\""
                    ∷ (":"
                        ∷ ("\""
                            ∷ (v
                                ++ ("\""
                                    ∷ (","
                                        ∷ ("\""
                                            ∷ (k'
                                                ++ ("\""
                                                    ∷ (":"
                                                        ∷ ("\"" ∷ (v' ++ ("\"" ∷ "}")))))))))))))))
object-cons k v k' v' = simp (
  append.cons "{" "\"",
  append.cons "\"" "",
  append.cons "\"" ":\"",
  append.cons ":" "\"",
  append.cons "\"" ",\"",
  append.cons "," "\"",
  append.nil,
)

pair_in-object :
    (k v k' v' : String)
    → is_plain k ≡ true
    → is_plain v ≡ true
    → is_plain k' ≡ true
    → is_plain v' ≡ true
    → pair_in ("{\"" ++ k ++ "\":\"" ++ v ++ "\",\"" ++ k' ++ "\":\"" ++ v' ++ "\"}")
      ≡ some (List.◌∷◌ (k, string_value v) (List.◌∷◌ (k', string_value v') List.[]))
pair_in-object k v k' v' hk hv hk' hv' =
    ap pair_in (object-cons k v k' v')
    ∙ rw
        (
          quoted-plain "{" "\"" k _ hk,
          quoted-plain ":" "\"" v _ hv,
          quoted-plain "," "\"" k' _ hk',
          quoted-plain ":" "\"" v' "}" hv',
        )
        refl

abbrev number_of : Option (ℕ × String) → Option ℕ
number_of none = none
number_of (some (n, s)) = some n

-- Numbers in unary.
abbrev wire : CursorWire
wire = record {
  base64_encode = λ s. s;
  base64_decode = λ s. some s;
  format_time = λ t. marked t "";
  parse_time = λ s. number_of (counted s);
  uuid_text = λ id. marked id "";
  parse_uuid = λ s. number_of (counted s);
  parse_object = pair_in;
  equal_fold = λ a b. a == b;
}

marked-plain : (n : ℕ) → is_plain (marked n "") ≡ true
marked-plain zero = refl
marked-plain (suc n) = marked-plain n

wire-IsWire : IsWire wire
wire-IsWire = record {
  base64 = λ s. refl;
  time = λ t h. ap number_of (counted-marked t "");
  time_plain = λ t h. marked-plain t;
  uuid = λ id h. ap number_of (counted-marked id "");
  uuid_plain = λ id h. marked-plain id;
  pair = pair_in-object;
  fold_same = λ k. (eq_iff k k).1 refl;
  fold_other = refl;
  fold_other' = refl;
}

decode_backlog_cursor-codec_of_example :
    decode_backlog_cursor (codec_of wire) (encode_backlog_cursor (codec_of wire) 2 3) ≡ ok (2, 3)
decode_backlog_cursor-codec_of_example =
    decode_backlog_cursor-codec_of wire 2 3 wire-IsWire (omega arith) (omega arith) (ground arith)
