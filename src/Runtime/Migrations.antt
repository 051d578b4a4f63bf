-- ===== src/Runtime/Migrations.antt =====
-- internal/migrations: baseline.go and runner.go. goose is a parameter.
use Prim.Native.Char.{code}
use Prim.Native.String.{[], ◌∷◌}
use project_brain.Store.State.{Commit, committed, refused, lost}
use project_brain.Base.{
  ℕ, ◌+◌, ◌-◌, ◌*◌, ◌^◌, String, Bool, true, false, ◌&&◌, Option, none, some, List, eqb, leb, ltb,
  ◌==◌, if◌then◌else◌, Outcome, ok, err, failure, wrapped, Calls, pure, raise, ◌>>=◌, ◌>>◌,
}

-- The database as the migrations see it: whether `knowledge_objects` is there, and the version
-- rows, if their table is there.
pub record Schema : Type 0 where
  pub sentinel : Bool
  pub versions : Option (List ℕ)
  pub calls : ℕ

pub record DirEntry : Type 0 where
  pub name : String
  pub is_dir : Bool

-- `fault` says which calls fail, and `commit_at` how a COMMIT ends.
pub record Migrator : Type 0 where
  pub fault : ℕ → Bool
  pub commit_at : ℕ → Commit
  pub goose_up : Calls Schema (Unit {0})
  pub entries : Outcome (List DirEntry)

abbrev pub next_call : Schema → Schema
next_call s = record s { calls = s.calls + 1 }

abbrev pub is_digit : ℕ → Bool
is_digit c = leb 48 c && leb c 57

-- The digits before the first underscore, as `^(\d+)_` matches them, and their value.
unfoldable pub version_from : ℕ → Bool → String → Option ℕ
version_from acc some_digit [] = none
version_from acc some_digit (c ∷ s) =
    let rest = version_from (acc * 10 + (code c - 48)) true s in
    if is_digit (code c) then rest else if some_digit && eqb (code c) 0x5f then some acc else none

unfoldable pub has_suffix : String → String → Bool
has_suffix suffix [] = suffix == ""
has_suffix suffix (c ∷ s) =
    let rest = has_suffix suffix s in if (c ∷ s) == suffix then true else rest

abbrev pub insert_version : ℕ → List ℕ → List ℕ
insert_version v List.[] = List.◌∷◌ v List.[]
insert_version v (List.◌∷◌ x xs) =
    let rest = insert_version v xs in
    if leb v x then List.◌∷◌ v (List.◌∷◌ x xs) else List.◌∷◌ x rest

-- What an entry adds: nothing, a version, or an error for one that is 0 or more than an int64.
abbrev pub add_version : Option ℕ → Outcome (List ℕ) → Outcome (List ℕ)
add_version none rest = rest
add_version (some v) rest =
    if ltb 0 v && ltb v (2 ^ 63)
    then elim rest [ ok vs ↦ ok (insert_version v vs) | err e ↦ err e ]
    else err (failure 0)

unfoldable pub versions_of : List DirEntry → Outcome (List ℕ)
unfolding version_from has_suffix
versions_of List.[] = ok List.[]
versions_of (List.◌∷◌ e es) =
    let rest = versions_of es in
    if e.is_dir
    then rest
    else if has_suffix ".sql" e.name
    then add_version (version_from 0 false e.name) rest
    else rest

abbrev pub some_versions : Outcome (List ℕ) → Outcome (List ℕ)
some_versions (ok List.[]) = err (failure 0)
some_versions (ok (List.◌∷◌ v vs)) = ok (List.◌∷◌ v vs)
some_versions (err e) = err e

-- The rows of a table that may not be there.
abbrev pub rows_of : Option (List ℕ) → List ℕ
rows_of none = List.[]
rows_of (some vs) = vs

abbrev pub is_none_or_empty : Option (List ℕ) → Bool
is_none_or_empty none = true
is_none_or_empty (some List.[]) = true
is_none_or_empty (some (List.◌∷◌ v vs)) = false

abbrev pub insert_row : ℕ → Schema → Outcome (Unit {0}) × Schema
insert_row v s = elim s.versions [
  | none ↦ (err (failure s.calls), next_call s)
  | some vs ↦ (ok tt, record (next_call s) { versions = some (List.◌∷◌ v vs) })
]

module _ (m : Migrator) where
  abbrev pub checked_call : {A : Type 0} → Calls Schema A → Calls Schema A
  checked_call run s = if m.fault s.calls then (err (failure s.calls), next_call s) else run s

  abbrev pub collect_on_disk_versions : Outcome (List DirEntry) → Outcome (List ℕ)
  collect_on_disk_versions (ok es) = some_versions (versions_of es)
  collect_on_disk_versions (err e) = err (wrapped "read migrations dir" e)

  -- Whether the sentinel table is there, and whether no version is recorded.
  unfoldable pub probe : Calls Schema (Bool × Bool)
  probe = do
    sentinel ← checked_call λ s. (ok s.sentinel, next_call s)
    is_new ← checked_call λ s. (ok (is_none_or_empty s.versions), next_call s)
    pure (sentinel, is_new)

  unfoldable pub insert_versions : List ℕ → Calls Schema (Unit {0})
  insert_versions List.[] = pure tt
  insert_versions (List.◌∷◌ v vs) = do checked_call (insert_row v); insert_versions vs

  abbrev pub after_commit : Schema → Schema → Commit → Outcome (Unit {0}) × Schema
  after_commit before s committed = (ok tt, next_call s)
  after_commit before s refused =
      (err (failure s.calls), record (next_call s) { versions = before.versions })
  after_commit before s lost = (err (failure s.calls), next_call s)

  -- COMMIT, or back to the rows before.
  abbrev pub ended : Schema → Outcome (Unit {0}) × Schema → Outcome (Unit {0}) × Schema
  ended before (err e, s) = (err e, record s { versions = before.versions })
  ended before (ok u, s) = after_commit before s (m.commit_at s.calls)

  abbrev pub baseline_tx : List ℕ → Calls Schema (Unit {0})
  baseline_tx versions s =
      if m.fault s.calls
      then (err (failure s.calls), next_call s)
      else ended s (insert_versions versions (next_call s))

  unfoldable pub baseline : List ℕ → Calls Schema (Unit {0})
  unfolding insert_versions
  baseline List.[] = raise (failure 0)
  baseline (List.◌∷◌ v vs) = baseline_tx (List.◌∷◌ v vs)

  abbrev pub baseline_read : Outcome (List ℕ) → Calls Schema (Unit {0})
  baseline_read (ok versions) = baseline versions
  baseline_read (err e) = raise e

  abbrev pub migrate : Bool → Calls Schema (Unit {0})
  migrate true = baseline_read (collect_on_disk_versions m.entries)
  migrate false = m.goose_up

  -- `Run`
  unfoldable pub run_migrations : Calls Schema (Unit {0})
  unfolding versions_of
  run_migrations = do (sentinel, is_new) ← probe; migrate (sentinel && is_new)
