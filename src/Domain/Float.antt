-- ===== src/Domain/Float.antt =====
-- Comparisons of a float64, given by its IEEE 754 bit pattern, with the constants 0 and 1.
use project_brain.Base.{ℕ, Bool, ◌&&◌, ◌||◌, ltb, leb}

-- `x < 0`: the sign bit is set, `x` is not -0 and not a NaN.
abbrev pub lt_zero : ℕ → Bool
lt_zero bits = ltb 0x8000000000000000 bits && leb bits 0xfff0000000000000

-- `x > 1`: above the pattern of 1, up to that of +Inf; the patterns above that are NaNs.
abbrev pub gt_one : ℕ → Bool
gt_one bits = ltb 0x3ff0000000000000 bits && leb bits 0x7ff0000000000000

-- `x` is a NaN, of either sign.
abbrev pub is_nan : ℕ → Bool
is_nan bits =
    (ltb 0x7ff0000000000000 bits && ltb bits 0x8000000000000000) || ltb 0xfff0000000000000 bits
