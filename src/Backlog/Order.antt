-- ===== src/Backlog/Order.antt =====
-- The order of the backlog, and what a cursor cuts off a list in that order.
use mathlib.Core.Path.{subst}
use project_brain.Base.{
  ℕ, zero, suc, ◌≤◌, Bool, true, false, List, [], ◌∷◌, select, drop, length, any, All, eqb, ◌≡◌,
  ◌∙◌, refl, sym, ap, inl, inr, arith, Bool-cases,
}
use project_brain.Domain.{KnowledgeObject}
use project_brain.Backlog.Query.{older, insert_newest, newest_first}

abbrev pub key : KnowledgeObject → ℕ × ℕ
key o = (o.updated_at, o.id)

-- Each row comes before the older ones, and no two are equal in the order.
abbrev pub Strict : List KnowledgeObject → Type 0
Strict [] = Unit
Strict (o ∷ os) = All (λ x. older (key o) x ≡ true) os × Strict os

-- The primary key: no two rows have one ID.
unfoldable pub UniqueIds : List KnowledgeObject → Type 0
UniqueIds [] = Unit
UniqueIds (o ∷ os) = (any (λ x. eqb x.id o.id) os ≡ false) × UniqueIds os

All-insert :
    (o e : KnowledgeObject) (l : List KnowledgeObject)
    → older (key o) e ≡ true
    → All (λ x. older (key o) x ≡ true) l
    → All (λ x. older (key o) x ≡ true) (insert_newest e l)
All-insert o e [] h a = (h, tt)
All-insert o e (x ∷ l) h (b, a) = ground (arith, All-insert o e l h a)

-- Below an older row, everything is older still.
All-older :
    (o e : KnowledgeObject) (l : List KnowledgeObject)
    → older (key o) e ≡ true
    → All (λ x. older (key e) x ≡ true) l
    → All (λ x. older (key o) x ≡ true) l
All-older o e [] h a = tt
All-older o e (x ∷ l) h (b, a) = (ground arith, All-older o e l h a)

insert-Strict :
    (o : KnowledgeObject) (l : List KnowledgeObject)
    → any (λ x. eqb x.id o.id) l ≡ false
    → Strict l
    → Strict (insert_newest o l)
insert-Strict o [] u s = (tt, tt)
insert-Strict o (x ∷ l) u (a, s) = elim (Bool-cases (older (key o) x)) [
  | inl p ↦ rw p ((p, All-older o x l p a), (a, s))
  | inr p ↦ rw p (All-insert x o l (ground arith) a, insert-Strict o l (ground arith) s)
]

any-insert :
    (p : KnowledgeObject → Bool) (o : KnowledgeObject) (l : List KnowledgeObject)
    → any p (insert_newest o l) ≡ any p (o ∷ l)
any-insert p o [] = refl
any-insert p o (x ∷ l) = ground (arith, any-insert p o l)

pub any-newest_first :
    (p : KnowledgeObject → Bool) (l : List KnowledgeObject) → any p (newest_first l) ≡ any p l
unfolding newest_first
any-newest_first p [] = refl
any-newest_first p (x ∷ l) = ground (arith, any-insert p x (newest_first l), any-newest_first p l)

pub newest_first-Strict : (l : List KnowledgeObject) → UniqueIds l → Strict (newest_first l)
unfolding newest_first UniqueIds
newest_first-Strict [] u = tt
newest_first-Strict (x ∷ l) (a, u) =
    insert-Strict x (newest_first l) (any-newest_first (λ y. eqb y.id x.id) l ∙ a)
      (newest_first-Strict l u)

pub any-select :
    (p q : KnowledgeObject → Bool) (l : List KnowledgeObject)
    → any p l ≡ false
    → any p (select q l) ≡ false
any-select p q [] h = refl
any-select p q (x ∷ l) h = ground (arith, any-select p q l)

pub select-UniqueIds :
    (q : KnowledgeObject → Bool) (l : List KnowledgeObject) → UniqueIds l → UniqueIds (select q l)
unfolding UniqueIds
select-UniqueIds q [] u = tt
select-UniqueIds q (x ∷ l) (a, u) =
    ground (arith, select-UniqueIds q l u, any-select (λ y. eqb y.id x.id) q l a)

select-All :
    (p : KnowledgeObject → Bool) (l : List KnowledgeObject)
    → All (λ x. p x ≡ true) l
    → select p l ≡ l
select-All p [] a = refl
select-All p (x ∷ l) (b, a) = rw b (rw (select-All p l a) refl)

pub drop-nil {ℓ} : {A : Type ℓ} (m : ℕ) → drop {A = A} m [] ≡ []
drop-nil zero = refl
drop-nil (suc m) = refl

pub nil≢cons {ℓ} : {A : Type ℓ} {x : A} {xs : List A} → [] ≡ x ∷ xs → ⊥
nil≢cons h = cc

abbrev pub head_or {ℓ} : {A : Type ℓ} → A → List A → A
head_or d [] = d
head_or d (x ∷ xs) = x

abbrev tail {ℓ} : {A : Type ℓ} → List A → List A
tail [] = []
tail (x ∷ xs) = xs

own :
    (y : KnowledgeObject) (l : List KnowledgeObject)
    → All (λ x. older (key y) x ≡ true) l
    → select (older (key y)) (y ∷ l) ≡ l
own y l a = let q : older (key y) y ≡ false = ground arith in rw q (select-All (older (key y)) l a)

older-drop :
    (o x : KnowledgeObject) (m : ℕ) (l rest : List KnowledgeObject)
    → All (λ y. older (key o) y ≡ true) l
    → drop m l ≡ x ∷ rest
    → older (key o) x ≡ true
older-drop o x m [] rest a h = absurd (nil≢cons (sym (drop-nil m) ∙ h))
older-drop o x zero (y ∷ l) rest (b, a) h = subst (λ z. older (key o) z ≡ true) (ap (head_or y) h) b
older-drop o x (suc m) (y ∷ l) rest (b, a) h = older-drop o x m l rest a h

-- The rows that are older than one of them are those after it.
pub select-older :
    (x : KnowledgeObject) (m : ℕ) (l rest : List KnowledgeObject)
    → Strict l
    → drop m l ≡ x ∷ rest
    → select (older (key x)) l ≡ rest
select-older x m [] rest s h = absurd (nil≢cons (sym (drop-nil m) ∙ h))
select-older x zero (y ∷ l) rest (a, s) h =
    subst (λ z. select (older (key z)) (y ∷ l) ≡ rest) (ap (head_or y) h) (own y l a ∙ ap tail h)
select-older x (suc m) (y ∷ l) rest (a, s) h =
    let p = older-drop y x m l rest a h in
    let q : older (key x) y ≡ false = ground arith in rw q (select-older x m l rest s h)

-- What no row of a list has, the row at a place has not.
pub any-drop :
    (p : KnowledgeObject → Bool) (x : KnowledgeObject) (m : ℕ) (l rest : List KnowledgeObject)
    → any p l ≡ false
    → drop m l ≡ x ∷ rest
    → p x ≡ false
any-drop p x m [] rest a h = absurd (nil≢cons (sym (drop-nil m) ∙ h))
any-drop p x zero (y ∷ l) rest a h = subst (λ z. p z ≡ false) (ap (head_or y) h) (ground arith)
any-drop p x (suc m) (y ∷ l) rest a h = any-drop p x m l rest (ground arith) h

length-insert :
    (e : KnowledgeObject) (l : List KnowledgeObject) → length (insert_newest e l) ≡ suc (length l)
length-insert e [] = refl
length-insert e (x ∷ l) = ground (arith, length-insert e l)

length-newest_first : (l : List KnowledgeObject) → length (newest_first l) ≡ length l
unfolding newest_first
length-newest_first [] = refl
length-newest_first (x ∷ l) =
    length-insert x (newest_first l) ∙ ap (λ n. suc n) (length-newest_first l)

length-select {ℓ} : {A : Type ℓ} (p : A → Bool) (l : List A) → length (select p l) ≤ length l
length-select p [] = omega arith
length-select p (x ∷ l) = ground (arith, length-select p l)

pub length-newest_first-select :
    (p : KnowledgeObject → Bool) (l : List KnowledgeObject)
    → length (newest_first (select p l)) ≤ length l
length-newest_first-select p l = omega (arith, length-newest_first (select p l), length-select p l)
