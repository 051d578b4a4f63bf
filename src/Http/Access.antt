-- ===== src/Http/Access.antt =====
-- Who may change the state: what the middleware of internal/httpapi/auth keeps out.
use Prim.Native.Char.{code}
use Prim.Native.String.{[], ◌∷◌, ◌++◌}
use Prim.Native.String.append
use mathlib.Core.Option.{some-injective}
use text.Mathlib.TextEquality.{Char-path}
use project_brain.Base.{
  eqb, eqb_iff, ℕ, String, true, false, none, some, List, ◌≡◌, ◌⊎◌, refl, sym, ◌∙◌, inl, inr, arith,
  Option, Bool-cases,
}
use project_brain.Base.Text.{trim_space, is_empty}
use project_brain.Http.Message.{HttpRequest, Headers, HttpHandler}
use project_brain.Http.Secret.{constant_time_equal-eq, constant_time_equal}
use project_brain.Http.Auth.{strip_prefix, auth_middleware, check_scheme, check_token, unauthorized}

-- The request has the header `Authorization: Bearer <token>`, but for white space at its ends.
abbrev pub Bearer : String → HttpRequest → Type 0
Bearer token r =
    (rest : String) × (r.header "Authorization" ≡ "Bearer " ++ rest) × (trim_space rest ≡ token)

strip_prefix-eq : (p s t : String) → strip_prefix p s ≡ some t → s ≡ p ++ t
unfolding strip_prefix
strip_prefix-eq [] s t h = some-injective s t h ∙ sym (append.nil t)
strip_prefix-eq (c ∷ p) [] t h = cc
strip_prefix-eq (c ∷ p) (d ∷ s) t h = elim (Bool-cases (eqb (code c) (code d))) [
  | inl same ↦
      let q = Char-path c d ((eqb_iff (code c) (code d)).0 same) in
      let e = strip_prefix-eq p s t (rw same at h) in rw (e, sym q) (sym (append.cons c p t))
  | inr other ↦ absurd (ground arith)
]

is_empty-false : (s : String) → is_empty s ≡ true → s ≡ ""
is_empty-false [] h = refl
is_empty-false (c ∷ s) h = cc

module _ {S : Type 0} (bytes : String → List ℕ) (expected : String) (next : HttpHandler S) where
  check_token-Checked :
      ((a b : String) → bytes a ≡ bytes b → a ≡ b)
      → (token : String) (r : HttpRequest) (headers : Headers) (s : S)
      → ((token ≡ expected)
          × (check_token bytes expected next token r headers s ≡ next r headers s))
        ⊎ (((check_token bytes expected next token r headers s).0.status ≡ 401)
            × ((check_token bytes expected next token r headers s).1 ≡ s))
  unfolding unauthorized
  check_token-Checked faithful token r headers s = elim (Bool-cases (is_empty token)) [
    | inl blank ↦ inr (rw blank refl, rw blank refl)
    | inr full ↦ elim (Bool-cases (constant_time_equal (bytes token) (bytes expected))) [
      | inl same ↦ inl (faithful _ _ (constant_time_equal-eq _ _ same), rw (full, same) refl)
      | inr other ↦ inr (rw (full, other) refl, rw (full, other) refl)
    ]
  ]

  check_scheme-Checked :
      ((a b : String) → bytes a ≡ bytes b → a ≡ b)
      → (r : HttpRequest) (o : Option String) (headers : Headers) (s : S)
      → strip_prefix "Bearer " (r.header "Authorization") ≡ o
      → (Bearer expected r × (check_scheme bytes expected next o r headers s ≡ next r headers s))
        ⊎ (((check_scheme bytes expected next o r headers s).0.status ≡ 401)
            × ((check_scheme bytes expected next o r headers s).1 ≡ s))
  unfolding unauthorized
  check_scheme-Checked faithful r none headers s e = inr (refl, refl)
  check_scheme-Checked faithful r (some rest) headers s e =
      elim (check_token-Checked faithful (trim_space rest) r headers s) [
        | inl (same, passed) ↦ inl ((rest, strip_prefix-eq _ _ _ e, same), passed)
        | inr (refused, kept) ↦ inr (refused, kept)
      ]

  -- With a token configured, a request either carries it and goes on, or is answered 401 with the
  -- state as it was.
  pub auth_middleware-cases :
      ((a b : String) → bytes a ≡ bytes b → a ≡ b)
      → is_empty expected ≡ false
      → (r : HttpRequest) (headers : Headers) (s : S)
      → (Bearer expected r × (auth_middleware bytes expected next r headers s ≡ next r headers s))
        ⊎ (((auth_middleware bytes expected next r headers s).0.status ≡ 401)
            × ((auth_middleware bytes expected next r headers s).1 ≡ s))
  unfolding auth_middleware unauthorized
  auth_middleware-cases faithful set r headers s =
      elim (Bool-cases (is_empty (r.header "Authorization"))) [
        | inl missing ↦ inr (rw (set, missing) refl, rw (set, missing) refl)
        | inr there ↦
            elim (check_scheme-Checked faithful r
              (strip_prefix "Bearer " (r.header "Authorization")) headers s refl) [
                | inl (b, passed) ↦ inl (b, rw (set, there) passed)
                | inr (refused, kept) ↦ inr (rw (set, there) refused, rw (set, there) kept)
              ]
      ]
