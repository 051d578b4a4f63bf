-- ===== src/Telegram/Buttons.antt =====
-- The buttons of a card, and what their callback data is read back as.
use Prim.Native.String.{◌∷◌}
use Prim.Native.String.append
use mathlib.Core.Path.{subst}
use project_brain.Base.{
  String, Bool, true, false, not, ◌&&◌, Option, none, some, any, ◌==◌, eq_iff, ◌≡◌, ◌∙◌, ap, refl,
  inl, inr, arith, Bool-cases,
}
use project_brain.Base.Text.{is_empty}
use project_brain.Domain.{proposed, debating}
use project_brain.Telegram.Render.{
  skip_action, namespace, review_action_payload, cut_colon, both_full, split_callback_data,
  backlog_buttons_for_status,
}
use project_brain.Telegram.Review.{review_case}

abbrev pub is_some {ℓ} : {A : Type ℓ} → Option A → Bool
is_some none = false
is_some (some a) = true

payload-cons : (token : String) → review_action_payload token ≡ "r" ∷ ("v" ∷ (":" ∷ token))
unfolding review_action_payload
payload-cons token = simp (append.cons "r" "v", append.cons "v" "", append.cons ":" "", append.nil)

-- The callback data of a review button is split into the namespace of the review flow and the
-- token, whatever the token holds, unless it is empty.
pub split_callback_data-review_action_payload :
    (token : String)
    → is_empty token ≡ false
    → split_callback_data (review_action_payload token) ≡ some (namespace, token)
unfolding split_callback_data review_action_payload cut_colon
split_callback_data-review_action_payload token h =
    let e : both_full (some (namespace, token)) ≡ some (namespace, token) = rw h refl in
    ap split_callback_data (payload-cons token) ∙ e

-- An action of a button other than Skip, on the card of a status.
abbrev pub offers : String → String → Bool
offers status action =
    any (λ spec. action == spec.action && not (spec.action == skip_action))
      (backlog_buttons_for_status status)

-- A card has a button other than Skip for exactly those actions that the switch of the callback
-- handler answers with a service call, for each status and each action: no button of a card is
-- refused as unsupported, and no supported action lacks its button.
pub backlog_buttons-review_case :
    (status action : String) → offers status action ≡ is_some (review_case status action)
unfolding backlog_buttons_for_status review_case
backlog_buttons-review_case status action = elim (Bool-cases (status == proposed)) [
  | inl p ↦
      let e : proposed ≡ status = ground (arith, eq_iff status proposed) in
      subst (λ s. offers s action ≡ is_some (review_case s action)) e (ground arith)
  | inr p ↦ elim (Bool-cases (status == debating)) [
    | inl q ↦
        let e : debating ≡ status = ground (arith, eq_iff status debating) in
        subst (λ s. offers s action ≡ is_some (review_case s action)) e (ground arith)
    | inr q ↦ ground arith
  ]
]
