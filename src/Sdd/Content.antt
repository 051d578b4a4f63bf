-- ===== src/Sdd/Content.antt =====
-- What a merge does to the sections: how often an object stands in each, and their order.
use project_brain.Base.{
  ℕ, ◌+◌, ◌≤◌, String, Bool, true, false, ◌&&◌, some, List, [], ◌∷◌, ◌++◌, map, first, All, eqb,
  ◌==◌, eq_iff, ◌≡◌, ◌≢◌, refl, inl, inr, arith, Bool-cases, if◌then◌else◌,
}
use project_brain.Domain.{KnowledgeObject, SddEntry, Sections, SddDocument}
use project_brain.Sdd.Document.{
  SddSectionKey, context, decisions, constraints, open_questions, section, with_section, is_entry,
  other_entries, remove_by_object_id, before, insert_entry, sort_section_desc,
}
use project_brain.Sdd.Storage.{
  whole_seconds, stored_entry, stored_sections, of_workspace, put_document,
}

abbrev pub count : (SddEntry → Bool) → List SddEntry → ℕ
count p [] = 0
count p (e ∷ es) = (if p e then 1 else 0) + count p es

-- An entry that shows this object: its ID, its title and its summary.
abbrev pub shows : KnowledgeObject → SddEntry → Bool
shows o e = eqb e.object_id o.id && e.title == o.title && e.summary == o.summary

-- Newest first.
abbrev pub Descending : List SddEntry → Type 0
Descending [] = Unit
Descending (e ∷ es) = All (λ x. x.updated_at ≤ e.updated_at) es × Descending es

pub count-append :
    (p : SddEntry → Bool) (xs ys : List SddEntry) → count p (xs ++ ys) ≡ count p xs + count p ys
count-append p [] ys = omega arith
count-append p (x ∷ xs) ys = omega (arith, count-append p xs ys)

count-insert :
    (p : SddEntry → Bool) (e : SddEntry) (xs : List SddEntry)
    → count p (insert_entry e xs) ≡ count p (e ∷ xs)
count-insert p e [] = refl
count-insert p e (x ∷ xs) = ground (arith, count-insert p e xs)

pub count-sort :
    (p : SddEntry → Bool) (xs : List SddEntry) → count p (sort_section_desc xs) ≡ count p xs
unfolding sort_section_desc
count-sort p [] = refl
count-sort p (x ∷ xs) = omega (arith, count-insert p x (sort_section_desc xs), count-sort p xs)

-- A test that only entries of the object pass finds none after it was taken out.
pub count-gone :
    (p : SddEntry → Bool) (id : ℕ) (xs : List SddEntry)
    → ((e : SddEntry) → is_entry id e ≡ false → p e ≡ false)
    → count p (other_entries id xs) ≡ 0
count-gone p id [] h = refl
count-gone p id (x ∷ xs) h = ground (arith, count-gone p id xs h, h x)

pub count-others :
    (id id' : ℕ) (xs : List SddEntry)
    → id' ≢ id
    → count (is_entry id') (other_entries id xs) ≡ count (is_entry id') xs
count-others id id' [] h = refl
count-others id id' (x ∷ xs) h = ground (arith, count-others id id' xs h)

pub count-stored :
    (p : SddEntry → Bool) (xs : List SddEntry)
    → ((e : SddEntry) → p (stored_entry e) ≡ p e)
    → count p (map stored_entry xs) ≡ count p xs
count-stored p [] h = refl
count-stored p (x ∷ xs) h = rw (h x) (rw (count-stored p xs h) refl)

All-insert :
    (m : ℕ) (e : SddEntry) (xs : List SddEntry)
    → e.updated_at ≤ m
    → All (λ x. x.updated_at ≤ m) xs
    → All (λ x. x.updated_at ≤ m) (insert_entry e xs)
All-insert m e [] h a = (h, tt)
All-insert m e (x ∷ xs) h (b, a) = ground (arith, All-insert m e xs h a)

All-lower :
    (m n : ℕ) (xs : List SddEntry)
    → m ≤ n
    → All (λ x. x.updated_at ≤ m) xs
    → All (λ x. x.updated_at ≤ n) xs
All-lower m n [] h a = tt
All-lower m n (x ∷ xs) h (b, a) = (omega arith, All-lower m n xs h a)

insert-Descending :
    (e : SddEntry) (xs : List SddEntry) → Descending xs → Descending (insert_entry e xs)
insert-Descending e [] d = (tt, tt)
insert-Descending e (x ∷ xs) (a, d) = elim (Bool-cases (before x e)) [
  | inl p ↦ rw p (All-insert x.updated_at e xs (ground arith) a, insert-Descending e xs d)
  | inr p ↦ rw p ((ground arith, All-lower x.updated_at e.updated_at xs (ground arith) a), (a, d))
]

pub sort-Descending : (xs : List SddEntry) → Descending (sort_section_desc xs)
unfolding sort_section_desc
sort-Descending [] = tt
sort-Descending (x ∷ xs) = insert-Descending x (sort_section_desc xs) (sort-Descending xs)

whole_seconds-le : (s t : ℕ) → s ≤ t → whole_seconds s ≤ whole_seconds t
whole_seconds-le s t h = omega arith

All-stored :
    (m : ℕ) (xs : List SddEntry)
    → All (λ x. x.updated_at ≤ m) xs
    → All (λ x. x.updated_at ≤ whole_seconds m) (map stored_entry xs)
All-stored m [] a = tt
All-stored m (x ∷ xs) (b, a) = (whole_seconds-le x.updated_at m b, All-stored m xs a)

pub stored-Descending : (xs : List SddEntry) → Descending xs → Descending (map stored_entry xs)
stored-Descending [] d = tt
stored-Descending (x ∷ xs) (a, d) = (All-stored x.updated_at xs a, stored-Descending xs d)

pub section-same :
    (k : SddSectionKey) (l : List SddEntry) (s : Sections) → section k (with_section k l s) ≡ l
section-same context l s = refl
section-same decisions l s = refl
section-same constraints l s = refl
section-same open_questions l s = refl

pub section-other :
    (k key : SddSectionKey) (l : List SddEntry) (s : Sections)
    → k ≢ key
    → section k (with_section key l s) ≡ section k s
section-other k key l s h = ground arith

pub section-stored :
    (k : SddSectionKey) (s : Sections)
    → section k (stored_sections s) ≡ map stored_entry (section k s)
section-stored context s = refl
section-stored decisions s = refl
section-stored constraints s = refl
section-stored open_questions s = refl

pub section-removed :
    (k : SddSectionKey) (id : ℕ) (s : Sections)
    → section k (remove_by_object_id id s).1 ≡ other_entries id (section k s)
unfolding remove_by_object_id
section-removed context id s = refl
section-removed decisions id s = refl
section-removed constraints id s = refl
section-removed open_questions id s = refl

pub first-put_document :
    (ws : String) (doc : SddDocument) (l : List SddDocument)
    → of_workspace ws doc ≡ true
    → first (of_workspace ws) (put_document doc l) ≡ some doc
first-put_document ws doc [] h = ground arith
first-put_document ws doc (d ∷ l) h = ground (
  arith,
  first-put_document ws doc l h,
  eq_iff doc.workspace_id ws,
  eq_iff d.workspace_id doc.workspace_id,
  eq_iff d.workspace_id ws,
)
