-- ===== src/Tests/Backlog.antt =====
-- The backlog at a concrete workspace, with a cursor in unary.
use Prim.Native.Char.{code}
use Prim.Native.String.{String}
use project_brain.Base.{
  ℕ, zero, suc, false, Option, none, some, [], ◌∷◌, map, eqb, ◌≡◌, refl, ap, ◌∙◌, if◌then◌else◌,
  arith,
}
use project_brain.Base.Text.{trim_space, trim_left, trim_right, is_space, is_empty}
use project_brain.Store.State.{Env, World, normalize}
use project_brain.Backlog.Cursor.{CursorCodec, IsCodec}
use project_brain.Backlog.Query.{needs_attention, newest_first, item_of}
use project_brain.Backlog.Order.{UniqueIds}
use project_brain.Backlog.Walk.{walk, backlog_rows, walk_complete}
use project_brain.Tests.World.{test_env, empty_db, world_of, note_with}

abbrev pub steady : Env
steady = record test_env { sql_now = λ n. 9 }

-- The number in unary, closed by a stop, before a text.
abbrev pub marked : ℕ → String → String
marked zero s = Prim.Native.String.◌∷◌ "." s
marked (suc n) s = Prim.Native.String.◌∷◌ "x" (marked n s)

abbrev more : Option (ℕ × String) → Option (ℕ × String)
more none = none
more (some (n, s)) = some (suc n, s)

abbrev pub counted : String → Option (ℕ × String)
counted Prim.Native.String.[] = none
counted (Prim.Native.String.◌∷◌ c s) =
    let rest = counted s in if eqb (code c) 120 then more rest else some (zero, s)

abbrev second : ℕ → Option (ℕ × String) → Option (Option ℕ × Option ℕ)
second t none = none
second t (some (id, s)) = some (some t, some id)

abbrev both : Option (ℕ × String) → Option (Option ℕ × Option ℕ)
both none = none
both (some (t, s)) = second t (counted s)

abbrev pub unary : CursorCodec
unary = record { print = λ t id. marked t (marked id ""); parse = λ s. both (counted s) }

pub counted-marked : (n : ℕ) (s : String) → counted (marked n s) ≡ some (n, s)
counted-marked zero s = refl
counted-marked (suc n) s = ap more (counted-marked n s)

trim_right-marked : (n : ℕ) (s : String) → trim_right (marked n s) ≡ marked n (trim_right s)
unfolding trim_right is_space
trim_right-marked zero s = ground arith
trim_right-marked (suc n) s = ground (arith, trim_right-marked n s)

trim_left-marked : (n : ℕ) (s : String) → trim_left (marked n s) ≡ marked n s
unfolding trim_left is_space
trim_left-marked zero s = refl
trim_left-marked (suc n) s = refl

is_empty-marked : (n : ℕ) (s : String) → is_empty (marked n s) ≡ false
is_empty-marked zero s = refl
is_empty-marked (suc n) s = refl

unary-IsCodec : IsCodec unary
unfolding trim_space trim_right
unary-IsCodec t id =
    let rest = marked id "" in
    (
      ap both (counted-marked t rest) ∙ ap (second t) (counted-marked id ""),
      ap trim_right (trim_left-marked t rest)
          ∙ (trim_right-marked t rest ∙ ap (marked t) (trim_right-marked id "")),
      is_empty-marked t rest,
    )

-- Three rows to review and one that is not, on two pages.
abbrev busy : World
busy = world_of (record empty_db {
  objects =
      record (note_with "proposed") { id = 1; workspace_id = "default"; updated_at = 5 }
      ∷ record (note_with "debating") { id = 2; workspace_id = "default"; updated_at = 7 }
      ∷ record (note_with "validated") { id = 3; workspace_id = "default"; updated_at = 6 }
      ∷ record (note_with "proposed") { id = 4; workspace_id = "default"; updated_at = 5 }
      ∷ [];
})

busy_rows : map (λ o. o.id) (backlog_rows steady "default" 9 busy.db) ≡ 2 ∷ 4 ∷ 1 ∷ []
unfolding newest_first needs_attention normalize trim_space trim_left trim_right is_space
busy_rows = refl

walk_complete_example :
    walk steady unary "default" 2 5 "" busy
    ≡ map (item_of 9) (backlog_rows steady "default" 9 busy.db)
unfolding UniqueIds
walk_complete_example =
    walk_complete steady unary "default" 2 9 (λ n. refl) (λ n. refl) busy unary-IsCodec
      (refl, (refl, (refl, (refl, tt)))) refl
