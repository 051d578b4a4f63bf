-- ===== src/Search/Collisions.antt =====
-- What the collision detector of app/collision.go reports.
use mathlib.Core.Path.{subst}
use mathlib.Core.Option.{some-injective}
use project_brain.Base.{
  sym, ap, ◌∙◌, pure, ok-injective, Calls, ℕ, String, List, [], ◌∷◌, false, Option, none, some, All,
  ◌≡◌, ◌≢◌, refl, true, Err, eqb_iff, eq_iff, inl, inr, arith, Outcome, ok, err, Bool-cases,
  Option-cases, ◌==◌, proceed-ok, wrapped, map_err,
}
use project_brain.Base.Text.{trim_space}
use project_brain.Domain.{KnowledgeObject}
use project_brain.Store.State.{Env, World}
use project_brain.Store.Objects.{find, is_row}
use project_brain.Store.Rows.{find-is_row}
use project_brain.Search.Query.{ScoredSearchHit}
use project_brain.Telegram.Desk.{Collision}
use project_brain.Search.Collide.{
  Detector, collision_verdict, is_excluded, hit_id, add_object, collect_hit, collect, detect,
  object_by_id,
}

none≢some : {A : Type 0} {a : A} → none ≡ some a → ⊥
none≢some h = cc

err≢ok : {A : Type 0} {e : Err} {a : A} → err e ≡ ok a → ⊥
err≢ok h = cc

true≢false : true ≡ false → ⊥
true≢false h = cc

-- The row that `FindByID` returns has the ID and is of the workspace.
object_by_id-row :
    (env : Env) (ws : String) (id : ℕ) (w : World) (o : KnowledgeObject)
    → (object_by_id env ws id w).0 ≡ ok o
    → (o.id ≡ id) × (o.workspace_id ≡ ws)
unfolding object_by_id
object_by_id-row env ws id w o h = elim (Bool-cases (env.fault w.calls)) [
  | inl bad ↦ absurd (err≢ok (rw bad at h))
  | inr fine ↦ elim (Option-cases (find ws id w.db.objects)) [
    | inl n ↦ absurd (err≢ok (rw (fine, n) at h))
    | inr (x, f) ↦
        let same : x ≡ o = ok-injective (rw (fine, f) at h) in
        let at : is_row ws id o ≡ true = ap (is_row ws id) (sym same) ∙ find-is_row ws id _ x f in
        ((eqb_iff o.id id).0 (ground arith), (eq_iff o.workspace_id ws).0 (ground arith))
  ]
]

-- The verdict of a similarity: a duplicate from the upper band on, a strong overlap from the lower
-- band up to the upper one, and related below both.
pub data Verdict (d : Detector) (similarity : ℕ) : String → Type 0 where
  is_duplicate : d.at_least similarity d.duplicate_band ≡ true → Verdict d similarity "duplicate"
  overlaps :
      d.at_least similarity d.duplicate_band ≡ false
      → d.at_least similarity d.overlap_band ≡ true
      → Verdict d similarity "strong_overlap"
  is_related :
      d.at_least similarity d.duplicate_band ≡ false
      → d.at_least similarity d.overlap_band ≡ false
      → Verdict d similarity "related"

collision_verdict-Verdict :
    (d : Detector) (similarity : ℕ) → Verdict d similarity (collision_verdict d similarity)
unfolding collision_verdict
collision_verdict-Verdict d s = elim (Bool-cases (d.at_least s d.duplicate_band)) [
  | inl p ↦ rw p (is_duplicate p)
  | inr p ↦ elim (Bool-cases (d.at_least s d.overlap_band)) [
    | inl q ↦ rw (p, q) (overlaps p q)
    | inr q ↦ rw (p, q) (is_related p q)
  ]
]

module _ (d : Detector) (workspace_id : String) (exclude : Option ℕ) where
  -- A collision worth reporting.
  abbrev pub Reported : Collision → Type 0
  Reported k =
      (d.below k.similarity d.threshold ≡ false)
      × (exclude ≢ some k.object.id)
      × (k.object.workspace_id ≡ workspace_id)
      × Verdict d k.similarity k.verdict

  hit_id-some :
      (hit : ScoredSearchHit) (id : ℕ)
      → hit_id d exclude hit ≡ some id
      → (d.below hit.score d.threshold ≡ false) × (is_excluded d exclude id ≡ false)
  unfolding hit_id
  hit_id-some hit id h = elim (Bool-cases (d.below hit.score d.threshold)) [
    | inl below ↦ absurd (ground arith)
    | inr above ↦ elim (Option-cases (d.parse_uuid hit.object_id)) [
      | inl n ↦ absurd (none≢some (sym (rw (above, n) refl) ∙ h))
      | inr (x, p) ↦ elim (Bool-cases (is_excluded d exclude x)) [
        | inl is ↦ absurd (none≢some (sym (rw (above, p, is) refl) ∙ h))
        | inr other ↦
            let e : x ≡ id = some-injective x id (sym (rw (above, p, other) refl) ∙ h) in
            (above, ap (is_excluded d exclude) (sym e) ∙ other)
      ]
    ]
  ]

  not_excluded : (id : ℕ) → is_excluded d exclude id ≡ false → exclude ≢ some id
  not_excluded id h e =
      true≢false (sym (ap (λ x. is_excluded d x id) e ∙ (eqb_iff id id).1 refl) ∙ h)

  collect_hit-Reported :
      (hit : ScoredSearchHit) (o : Option ℕ) (rest : Calls World (List Collision))
      → hit_id d exclude hit ≡ o
      → ((w : World) (ks : List Collision) → (rest w).0 ≡ ok ks → All Reported ks)
      → (w : World) (ks : List Collision) → (collect_hit d workspace_id hit o rest w).0 ≡ ok ks
      → All Reported ks
  collect_hit-Reported hit none rest p good w ks h = good w ks h
  collect_hit-Reported hit (some id) rest p good w ks h =
      let (above, other) = hit_id-some hit id p in
      let found = object_by_id d.env workspace_id id w in
      let (others, e, f, _) =
        proceed-ok (rest found.1) (λ xs. pure (add_object d hit found.0 xs)) h in
      subst (All Reported) (ok-injective f) (
        read found.0 (object_by_id-row d.env workspace_id id w) others (good found.1 others e) above
          other)
    where
      read :
          (r : Outcome KnowledgeObject)
          → ((o : KnowledgeObject) → r ≡ ok o → (o.id ≡ id) × (o.workspace_id ≡ workspace_id))
          → (ks : List Collision) → All Reported ks
          → d.below hit.score d.threshold ≡ false
          → is_excluded d exclude id ≡ false
          → All Reported (add_object d hit r ks)
      read (err e) q ks h above other = h
      read (ok o) q ks h above other =
          let (same, ws) = q o refl in
          (
            (
              above,
              not_excluded o.id (ap (is_excluded d exclude) same ∙ other),
              ws,
              collision_verdict-Verdict d hit.score,
            ),
            h,
          )

  collect-Reported :
      (hits : List ScoredSearchHit) (w : World) (ks : List Collision)
      → (collect d workspace_id exclude hits w).0 ≡ ok ks
      → All Reported ks
  unfolding collect
  collect-Reported [] w ks h = subst (All Reported) (ok-injective h) tt
  collect-Reported (hit ∷ hits) w ks h =
      collect_hit-Reported hit (hit_id d exclude hit) (collect d workspace_id exclude hits) refl
        (collect-Reported hits) w ks h

  -- Each collision that a successful check reports has a similarity not below the threshold, is not
  -- the excluded object, is of the workspace, and has the verdict of its similarity: a duplicate
  -- from the upper band on, a strong overlap between the bands, and related below both.
  pub detect-Reported :
      (content : String) (w : World) (ks : List Collision)
      → (detect d workspace_id content exclude w).0 ≡ ok ks
      → All Reported ks
  unfolding detect
  detect-Reported content w ks h = elim (Bool-cases (trim_space content == "")) [
    | inl blank ↦ subst (All Reported) (ok-injective (rw blank at h)) tt
    | inr full ↦
        let (vec, e, f, _) =
          proceed-ok (map_err (wrapped "embed candidate") (d.embed content) w) _ (rw full at h) in
        let (hits, i, j, _) =
          proceed-ok
            (d.find_similar workspace_id vec d.limit
              (map_err (wrapped "embed candidate") (d.embed content) w).1)
            (collect d workspace_id exclude) f in
        collect-Reported hits _ ks j
  ]
