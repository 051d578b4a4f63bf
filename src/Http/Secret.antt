-- ===== src/Http/Secret.antt =====
-- internal/httpapi/auth/auth.go: the comparison of two tokens in constant time.
use Prim.Native.Nat.{
  ◌/◌, ◌%◌, max, digits, differ, bit_or, bit_xor, bit_or-bitwise, bit_xor-bitwise,
}
use project_brain.Base.{
  ℕ, zero, suc, ◌≤◌, List, [], ◌∷◌, Bool, true, false, length, eqb, if◌then◌else◌, ◌≡◌, refl, sym,
  ap, ◌∙◌, inl, inr, arith, Bool-cases,
}

-- diff |= a[i] ^ b[i]
unfoldable pub diff_bytes : List ℕ → List ℕ → ℕ → ℕ
diff_bytes [] ys diff = diff
diff_bytes (a ∷ xs) [] diff = diff
diff_bytes (a ∷ xs) (b ∷ ys) diff = diff_bytes xs ys (bit_or diff (bit_xor a b))

unfoldable pub constant_time_equal : List ℕ → List ℕ → Bool
unfolding diff_bytes
constant_time_equal a b = if eqb (length a) (length b) then eqb (diff_bytes a b 0) 0 else false

or_digits-zero : (n a b : ℕ) → a ≤ n → digits (λ b. b) max n a b ≡ 0 → (a ≡ 0) × (b ≡ 0)
or_digits-zero zero zero b h e = (refl, e)
or_digits-zero zero (suc a) b h e = absurd (omega arith)
or_digits-zero (suc n) zero b h e = (refl, e)
or_digits-zero (suc n) (suc a) b h e =
    let (p, q) = or_digits-zero n (suc a / 2) (b / 2) (omega arith) (omega arith) in
    absurd (omega arith)

differ-zero : (a b : ℕ) → differ a b ≡ 0 → a ≡ b
differ-zero zero b h = omega arith
differ-zero (suc a) zero h = absurd (omega arith)
differ-zero (suc a) (suc b) h = ap suc (differ-zero a b h)

xor_digits-zero : (n a b : ℕ) → a ≤ n → digits (λ b. b) differ n a b ≡ 0 → a ≡ b
xor_digits-zero zero zero b h e = omega arith
xor_digits-zero zero (suc a) b h e = absurd (omega arith)
xor_digits-zero (suc n) zero b h e = omega arith
xor_digits-zero (suc n) (suc a) b h e =
    let p = xor_digits-zero n (suc a / 2) (b / 2) (omega arith) (omega arith) in
    let q = differ-zero (suc a % 2) (b % 2) (omega arith) in omega arith

bit_or-zero : (a b : ℕ) → bit_or a b ≡ 0 → (a ≡ 0) × (b ≡ 0)
bit_or-zero a b h = or_digits-zero a a b (omega arith) (sym (bit_or-bitwise a b) ∙ h)

bit_xor-zero : (a b : ℕ) → bit_xor a b ≡ 0 → a ≡ b
bit_xor-zero a b h = xor_digits-zero a a b (omega arith) (sym (bit_xor-bitwise a b) ∙ h)

diff_bytes-zero :
    (xs ys : List ℕ) (diff : ℕ)
    → length xs ≡ length ys
    → diff_bytes xs ys diff ≡ 0
    → (diff ≡ 0) × (xs ≡ ys)
unfolding diff_bytes
diff_bytes-zero [] [] diff l h = (h, refl)
diff_bytes-zero [] (b ∷ ys) diff l h = absurd (omega arith)
diff_bytes-zero (a ∷ xs) [] diff l h = absurd (omega arith)
diff_bytes-zero (a ∷ xs) (b ∷ ys) diff l h =
    let (p, q) = diff_bytes-zero xs ys (bit_or diff (bit_xor a b)) (omega arith) h in
    let (d, x) = bit_or-zero diff (bit_xor a b) p in (d, rw (bit_xor-zero a b x, q) refl)

-- Only equal texts pass.
pub constant_time_equal-eq : (xs ys : List ℕ) → constant_time_equal xs ys ≡ true → xs ≡ ys
unfolding constant_time_equal
constant_time_equal-eq xs ys h = elim (Bool-cases (eqb (length xs) (length ys))) [
  | inl same ↦ let (d, e) = diff_bytes-zero xs ys 0 (ground arith) (ground arith) in e
  | inr other ↦ absurd (ground arith)
]
