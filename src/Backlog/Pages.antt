-- ===== src/Backlog/Pages.antt =====
-- One page of a list in the order of the backlog.
use mathlib.Core.Path.{ap₂}
use project_brain.Base.{
  ℕ, zero, suc, ◌+◌, ◌-◌, ◌≤◌, ◌<◌, false, List, [], ◌∷◌, ◌++◌, map, take, drop, length,
  length-take, ltb, lt→ltb, ◌≡◌, ◌∙◌, refl, sym, ap, arith,
}
use project_brain.Domain.{KnowledgeObject}
use project_brain.Backlog.Cursor.{CursorCodec, encode_backlog_cursor}
use project_brain.Backlog.Order.{drop-nil, nil≢cons, head_or}
use project_brain.Backlog.Query.{BacklogItem, BacklogPage, item_of, last_of, trimmed_page}

pub length-map {ℓ} : {A B : Type ℓ} (f : A → B) (l : List A) → length (map f l) ≡ length l
length-map f [] = refl
length-map f (x ∷ l) = omega (arith, length-map f l)

take-all {ℓ} : {A : Type ℓ} (n : ℕ) (l : List A) → length l ≤ n → take n l ≡ l
take-all zero [] h = refl
take-all zero (x ∷ l) h = absurd (omega arith)
take-all (suc n) [] h = refl
take-all (suc n) (x ∷ l) h = ap (λ r. x ∷ r) (take-all n l (omega arith))

take-map-take {ℓ} :
    {A B : Type ℓ} (f : A → B) (n : ℕ) (l : List A)
    → take n (map f (take (suc n) l)) ≡ map f (take n l)
take-map-take f zero l = refl
take-map-take f (suc n) [] = refl
take-map-take f (suc n) (x ∷ l) = ap (λ r. f x ∷ r) (take-map-take f n l)

pub take-drop {ℓ} : {A : Type ℓ} (n : ℕ) (l : List A) → take n l ++ drop n l ≡ l
take-drop zero l = refl
take-drop (suc n) [] = refl
take-drop (suc n) (x ∷ l) = ap (λ r. x ∷ r) (take-drop n l)

pub map-append {ℓ} :
    {A B : Type ℓ} (f : A → B) (xs ys : List A) → map f (xs ++ ys) ≡ map f xs ++ map f ys
map-append f [] ys = refl
map-append f (x ∷ xs) ys = ap (λ r. f x ∷ r) (map-append f xs ys)

pub length-drop {ℓ} : {A : Type ℓ} (n : ℕ) (l : List A) → length (drop n l) ≡ length l - n
length-drop zero l = omega arith
length-drop (suc n) [] = omega arith
length-drop (suc n) (x ∷ l) = omega (arith, length-drop n l)

pub drop-drop {ℓ} : {A : Type ℓ} (n k : ℕ) (l : List A) → drop n (drop k l) ≡ drop (k + n) l
drop-drop n zero l = ap (λ m. drop m l) (omega arith)
drop-drop n (suc k) [] = drop-nil n ∙ sym (drop-nil (suc k + n))
drop-drop n (suc k) (x ∷ l) =
    let e : suc (k + n) ≡ suc k + n = omega arith in drop-drop n k l ∙ ap (λ m. drop m (x ∷ l)) e

-- The row that a short prefix ends with, and the rows after it.
pub drop-cons {ℓ} :
    {A : Type ℓ} (m : ℕ) (l : List A) → m < length l → (x : A) × (drop m l ≡ x ∷ drop (suc m) l)
drop-cons m [] h = absurd (omega arith)
drop-cons zero (x ∷ l) h = (x, refl)
drop-cons (suc m) (x ∷ l) h = drop-cons m l (omega arith)

last_of-take :
    (f : KnowledgeObject → BacklogItem) (d : BacklogItem) (m : ℕ) (l : List KnowledgeObject)
    (x : KnowledgeObject) (rest : List KnowledgeObject)
    → drop m l ≡ x ∷ rest
    → last_of d (map f (take (suc m) l)) ≡ f x
last_of-take f d m [] x rest h = absurd (nil≢cons (sym (drop-nil m) ∙ h))
last_of-take f d zero (y ∷ l) x rest h = ap f (ap (head_or y) h)
last_of-take f d (suc m) (y ∷ l) x rest h = last_of-take f (f y) m l x rest h

take-suc {ℓ} : {A : Type ℓ} (n : ℕ) (l : List A) → take (n + 1) l ≡ take (suc n) l
take-suc n l = let e : n + 1 ≡ suc n = omega arith in ap (λ k. take k l) e

trimmed_page-fits :
    (codec : CursorCodec) (n : ℕ) (items : List BacklogItem)
    → length items ≤ n
    → trimmed_page codec n items ≡ record { items = items; next_cursor = "" }
trimmed_page-fits codec n [] h = refl
trimmed_page-fits codec n (x ∷ items) h =
    let p : ltb n (length (x ∷ items)) ≡ false = ground arith in rw p refl

trimmed_page-more :
    (codec : CursorCodec) (n : ℕ) (x : BacklogItem) (items : List BacklogItem)
    → n < length (x ∷ items)
    → trimmed_page codec n (x ∷ items) ≡ record {
      items = take n (x ∷ items);
      next_cursor =
          encode_backlog_cursor codec
            (last_of x (take n (x ∷ items))).updated_at
            (last_of x (take n (x ∷ items))).id;
    }
trimmed_page-more codec n x items h = rw (lt→ltb n (length (x ∷ items)) h) refl

module _ (codec : CursorCodec) (now : ℕ) where
  abbrev pub page_of : ℕ → List KnowledgeObject → BacklogPage
  page_of n l = trimmed_page codec n (map (item_of now) (take (n + 1) l))

  abbrev page_with : List BacklogItem → BacklogItem → BacklogPage
  page_with items i = record {
    items = items;
    next_cursor = encode_backlog_cursor codec i.updated_at i.id;
  }

  -- A list that fits is the last page.
  pub page_of-last :
      (n : ℕ) (l : List KnowledgeObject)
      → length l ≤ n
      → page_of n l ≡ record { items = map (item_of now) l; next_cursor = "" }
  page_of-last n l h =
      let all = take-suc n l ∙ take-all (suc n) l (omega arith) in
      ap (λ r. trimmed_page codec n (map (item_of now) r)) all
      ∙ trimmed_page-fits codec n (map (item_of now) l) (omega (arith, length-map (item_of now) l))

  -- Of a longer list, a page has the first n rows and the cursor of the last of them.
  pub page_of-more :
      (m : ℕ) (l : List KnowledgeObject) (x : KnowledgeObject)
      → suc m < length l
      → drop m l ≡ x ∷ drop (suc m) l
      → page_of (suc m) l ≡ record {
        items = map (item_of now) (take (suc m) l);
        next_cursor = encode_backlog_cursor codec x.updated_at x.id;
      }
  page_of-more m [] x h d = absurd (omega arith)
  page_of-more m (y ∷ l) x h d =
      let f = item_of now in
      let n = suc m in
      let tail = map f (take n l) in
      let long : n < length (f y ∷ tail) =
        omega (arith, length-map f (take n l), length-take n l) in
      let last = last_of-take f (f y) m (y ∷ l) x (drop n (y ∷ l)) d in
      let kept = take-map-take f n (y ∷ l) in
      ap (λ r. trimmed_page codec n (map f r)) (take-suc n (y ∷ l))
      ∙ (trimmed_page-more codec n (f y) tail long
          ∙ ap₂ page_with kept (ap (last_of (f y)) kept ∙ last))
