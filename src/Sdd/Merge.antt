-- ===== src/Sdd/Merge.antt =====
-- What a merge makes of the sections of a document.
use mathlib.Core.Path.{subst}
use project_brain.Base.{
  ℕ, ◌+◌, String, Bool, true, false, Option, some, List, [], ◌∷◌, ◌++◌, first, ◌==◌, eq_iff, ◌≡◌,
  ◌≢◌, ◌∙◌, ◌⊎◌, refl, sym, ap, inl, inr, arith, Option-cases, any,
}
use project_brain.Domain.{KnowledgeObject, SddEntry, Sections, SddDocument, validated, deprecated}
use project_brain.Store.State.{Db}
use project_brain.Sdd.Document.{
  SddSectionKey, classify_section, section, is_entry, other_entries, holds, remove_by_object_id,
  sort_section_desc, entry_of, merge_validated,
}
use project_brain.Sdd.Storage.{stored, stored_entry, of_workspace}
use project_brain.Sdd.Steps.{current}
use project_brain.Sdd.Content.{
  count, shows, Descending, count-append, count-sort, count-gone, count-others, count-stored,
  sort-Descending, stored-Descending, section-same, section-other, section-stored, section-removed,
}

-- How many entries of a section pass a test.
abbrev pub entries : (SddEntry → Bool) → SddSectionKey → SddDocument → ℕ
entries p k doc = count p (section k doc.sections)

-- The row of a workspace.
abbrev pub document_of : String → Db → Option SddDocument
document_of ws db = first (of_workspace ws) db.documents

pub entries-stored :
    (p : SddEntry → Bool) (k : SddSectionKey) (doc : SddDocument)
    → ((e : SddEntry) → p (stored_entry e) ≡ p e)
    → entries p k (stored doc) ≡ entries p k doc
entries-stored p k doc h =
    ap (count p) (section-stored k doc.sections) ∙ count-stored p (section k doc.sections) h

pub same_key : (k key : SddSectionKey) → (k ≡ key) ⊎ (k ≢ key)
same_key k key = ground arith

module _ (o : KnowledgeObject) (now now' : ℕ) (doc : SddDocument) where
  abbrev left : SddSectionKey → List SddEntry
  left k = other_entries o.id (section k doc.sections)

  abbrev merged : SddDocument
  merged = merge_validated o now now' doc

  merged-own :
      section (classify_section o) merged.sections
      ≡ sort_section_desc (left (classify_section o) ++ (entry_of o now ∷ []))
  unfolding merge_validated
  merged-own =
      section-same (classify_section o) _ _
      ∙ ap (λ l. sort_section_desc (l ++ (entry_of o now ∷ [])))
          (section-removed (classify_section o) o.id doc.sections)

  merged-other : (k : SddSectionKey) → k ≢ classify_section o → section k merged.sections ≡ left k
  unfolding merge_validated
  merged-other k h =
      section-other k (classify_section o) _ _ h ∙ section-removed k o.id doc.sections

  count-own :
      (p : SddEntry → Bool)
      → count p (section (classify_section o) merged.sections)
        ≡ count p (left (classify_section o)) + count p (entry_of o now ∷ [])
  count-own p =
      ap (count p) merged-own
      ∙ (count-sort p (left (classify_section o) ++ (entry_of o now ∷ []))
          ∙ count-append p (left (classify_section o)) (entry_of o now ∷ []))

  merged-once : entries (is_entry o.id) (classify_section o) merged ≡ 1
  merged-once =
      let c = count-own (is_entry o.id) in
      let g =
        count-gone (is_entry o.id) o.id (section (classify_section o) doc.sections) (λ e h. h) in
      ground arith

  merged-shown : entries (shows o) (classify_section o) merged ≡ 1
  merged-shown =
      let c = count-own (shows o) in
      let g =
        count-gone (shows o) o.id (section (classify_section o) doc.sections)
          (λ e h. ground arith) in
      ground (arith, eq_iff o.title o.title, eq_iff o.summary o.summary)

  merged-elsewhere :
      (k : SddSectionKey) → k ≢ classify_section o → entries (is_entry o.id) k merged ≡ 0
  merged-elsewhere k h =
      ap (count (is_entry o.id)) (merged-other k h)
      ∙ count-gone (is_entry o.id) o.id (section k doc.sections) (λ e h. h)

  merged-others :
      (k : SddSectionKey) (id : ℕ)
      → id ≢ o.id
      → entries (is_entry id) k merged ≡ entries (is_entry id) k doc
  merged-others k id h = elim (same_key k (classify_section o)) [
    | inl e ↦
        let c = count-own (is_entry id) in
        let g = count-others o.id id (section (classify_section o) doc.sections) h in
        rw e (ground arith)
    | inr d ↦
        ap (count (is_entry id)) (merged-other k d)
        ∙ count-others o.id id (section k doc.sections) h
  ]

-- The document of a workspace holds `o` once, shown in its section; the other objects stand where
-- they stood, and the section is newest first.
pub record Placed (o : KnowledgeObject) (old new : SddDocument) : Type 0 where
  pub shown : entries (shows o) (classify_section o) new ≡ 1
  pub once : entries (is_entry o.id) (classify_section o) new ≡ 1
  pub elsewhere : (k : SddSectionKey) → k ≢ classify_section o → entries (is_entry o.id) k new ≡ 0
  pub others :
      (k : SddSectionKey) (id : ℕ)
      → id ≢ o.id
      → entries (is_entry id) k new ≡ entries (is_entry id) k old
  pub sorted : Descending (section (classify_section o) new.sections)

-- No section holds `o`, and the other objects stand where they stood.
pub record Dropped (o : KnowledgeObject) (old new : SddDocument) : Type 0 where
  pub gone : (k : SddSectionKey) → entries (is_entry o.id) k new ≡ 0
  pub others :
      (k : SddSectionKey) (id : ℕ)
      → id ≢ o.id
      → entries (is_entry id) k new ≡ entries (is_entry id) k old

pub merged-Placed :
    (o : KnowledgeObject) (now now' : ℕ) (doc : SddDocument)
    → Placed o doc (stored (merge_validated o now now' doc))
merged-Placed o now now' doc =
    let m = merge_validated o now now' doc in
    record {
      shown = entries-stored (shows o) _ m (λ e. refl) ∙ merged-shown o now now' doc;
      once = entries-stored (is_entry o.id) _ m (λ e. refl) ∙ merged-once o now now' doc;
      elsewhere = λ k h.
          entries-stored (is_entry o.id) k m (λ e. refl) ∙ merged-elsewhere o now now' doc k h;
      others = λ k id h.
          entries-stored (is_entry id) k m (λ e. refl) ∙ merged-others o now now' doc k id h;
      sorted = subst Descending (sym (section-stored (classify_section o) m.sections)) (
          stored-Descending _
            (subst Descending (sym (merged-own o now now' doc)) (sort-Descending _)));
    }

unfoldable pub rest_of : KnowledgeObject → ℕ → SddDocument → SddDocument
rest_of o now doc = record doc {
  sections = (remove_by_object_id o.id doc.sections).1;
  updated_at = now;
}

pub removed-Dropped :
    (o : KnowledgeObject) (now : ℕ) (doc : SddDocument) → Dropped o doc (stored (rest_of o now doc))
unfolding rest_of
removed-Dropped o now doc =
    let m = rest_of o now doc in
    record {
      gone = λ k.
          entries-stored (is_entry o.id) k m (λ e. refl)
          ∙ (ap (count (is_entry o.id)) (section-removed k o.id doc.sections)
              ∙ count-gone (is_entry o.id) o.id (section k doc.sections) (λ e h. h));
      others = λ k id h.
          entries-stored (is_entry id) k m (λ e. refl)
          ∙ (ap (count (is_entry id)) (section-removed k o.id doc.sections)
              ∙ count-others o.id id (section k doc.sections) h);
    }

any-count : (p : SddEntry → Bool) (l : List SddEntry) → any p l ≡ false → count p l ≡ 0
any-count p [] h = refl
any-count p (x ∷ l) h = ground (arith, any-count p l)

pub unheld :
    (k : SddSectionKey) (id : ℕ) (s : Sections)
    → holds id s ≡ false
    → any (is_entry id) (section k s) ≡ false
unheld k id s h = ground arith

pub kept-Dropped :
    (o : KnowledgeObject) (doc : SddDocument)
    → (remove_by_object_id o.id doc.sections).0 ≡ false
    → Dropped o doc doc
unfolding remove_by_object_id
kept-Dropped o doc h = record {
  gone = λ k. any-count (is_entry o.id) (section k doc.sections) (unheld k o.id doc.sections h);
  others = λ k id d. refl;
}

pub not_validated :
    (o : KnowledgeObject) → (o.status == deprecated) ≡ true → (o.status == validated) ≡ false
not_validated o h = rw ((eq_iff o.status deprecated).0 h) refl

pub first-passes {ℓ} :
    {A : Type ℓ} (p : A → Bool) (l : List A) (a : A) → first p l ≡ some a → p a ≡ true
first-passes p [] a h = cc
first-passes p (x ∷ l) a h = ground (arith, first-passes p l a)

pub current-workspace : (ws : String) (db : Db) → of_workspace ws (current ws db) ≡ true
current-workspace ws db = elim (Option-cases (document_of ws db)) [
  | inl n ↦ ground (arith, eq_iff ws ws)
  | inr (d, f) ↦ rw f (first-passes (of_workspace ws) db.documents d f)
]

pub merged-workspace :
    (o : KnowledgeObject) (t t' : ℕ) (ws : String) (doc : SddDocument)
    → of_workspace ws doc ≡ true
    → of_workspace ws (stored (merge_validated o t t' doc)) ≡ true
unfolding merge_validated
merged-workspace o t t' ws doc h = h
