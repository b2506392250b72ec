-- ===== src/Prelude/Decimal.antt =====
-- Numbers in decimal, as printf writes them, and what strtol reads back.
use Prim.Native.Nat.{ℕ, zero, suc, ◌+◌, ◌*◌, ◌/◌, ◌%◌, ◌^◌, ◌<◌}
use mathlib.Core.Path.{◌≡◌, sym, ap, ◌∙◌}
use mathlib.Core.Bool.{true}
use mathlib.Core.List.{[], ◌∷◌}
use mathlib.Core.Logic.{inl, inr, ◌≢◌}
use cc_oci_runtime.Prelude.Lists.{All}
use native.Mathlib.Omega.{arith}
use cc_oci_runtime.Prelude.Tests.{ltb, if◌then◌else◌, Bool-cases}
use cc_oci_runtime.Prelude.Int.{pos}
use cc_oci_runtime.Prelude.Text.{Bytes, is_digit, digits_from, atol, has_number}

abbrev pub AllDigits : Bytes → Type 0
AllDigits = All (λ c. is_digit c ≡ true)

unfoldable pub decimal_onto : ℕ → ℕ → Bytes → Bytes
decimal_onto zero n rest = rest
decimal_onto (suc fuel) n rest =
    let more = decimal_onto fuel (n / 10) ((48 + n % 10) ∷ rest) in
    if ltb n 10 then (48 + n) ∷ rest else more

-- "%u" of n: a number has fewer digits than n + 1, so the fuel suffices.
unfoldable pub decimal : ℕ → Bytes
unfolding decimal_onto
decimal n = decimal_onto (suc n) n []

digits_from-digit :
    (a d : ℕ) (s : Bytes) → d < 10 → digits_from a ((48 + d) ∷ s) ≡ digits_from (a * 10 + d) s
unfolding digits_from
digits_from-digit a d s h = ground arith

digits_from-decimal_onto :
    (fuel n : ℕ) (rest : Bytes)
    → n < fuel
    → digits_from 0 (decimal_onto fuel n rest) ≡ digits_from n rest
unfolding decimal_onto
digits_from-decimal_onto zero n rest h = absurd (omega arith)
digits_from-decimal_onto (suc fuel) n rest h = elim (Bool-cases (ltb n 10)) [
  | inl small ↦
      rw small
        (digits_from-digit 0 n rest (ground arith) ∙ ap (λ a. digits_from a rest) (omega arith))
  | inr large ↦ rw large (
      digits_from-decimal_onto fuel (n / 10) ((48 + n % 10) ∷ rest) (ground arith)
      ∙ digits_from-digit (n / 10) (n % 10) rest (omega arith)
      ∙ ap (λ a. digits_from a rest) (omega arith))
]

-- Every decimal starts with a digit.
decimal_onto_head :
    (fuel n : ℕ) (rest : Bytes)
    → n < fuel
    → (d : ℕ) × (s : Bytes) × (decimal_onto fuel n rest ≡ d ∷ s) × (is_digit d ≡ true)
unfolding decimal_onto is_digit
decimal_onto_head zero n rest h = absurd (omega arith)
decimal_onto_head (suc fuel) n rest h = elim (Bool-cases (ltb n 10)) [
  | inl small ↦ (48 + n, rest, rw small, ground arith)
  | inr large ↦ rw large (decimal_onto_head fuel (n / 10) ((48 + n % 10) ∷ rest) (ground arith))
]

atol-digit :
    (d : ℕ) (s : Bytes)
    → is_digit d ≡ true
    → digits_from 0 (d ∷ s) < 2 ^ 63
    → atol (d ∷ s) ≡ pos (digits_from 0 (d ∷ s))
unfolding atol
atol-digit d s h k = ground arith

has_number-digit : (d : ℕ) (s : Bytes) → is_digit d ≡ true → has_number (d ∷ s) ≡ true
unfolding has_number is_digit
has_number-digit d s h = ground arith

-- Reading back what "%u" has written gives the number.
pub digits_from-decimal : (n : ℕ) → digits_from 0 (decimal n) ≡ n
unfolding decimal digits_from
digits_from-decimal n = digits_from-decimal_onto (suc n) n [] (omega arith)

pub atol-decimal : (n : ℕ) → n < 2 ^ 63 → atol (decimal n) ≡ pos n
unfolding decimal
atol-decimal n h =
    let (d, s, e, k) = decimal_onto_head (suc n) n [] (omega arith) in
    let v : digits_from 0 (d ∷ s) ≡ n = ap (digits_from 0) (sym e) ∙ digits_from-decimal n in
    rw e (atol-digit d s k (omega arith) ∙ ap pos v)

pub has_number-decimal : (n : ℕ) → has_number (decimal n) ≡ true
unfolding decimal
has_number-decimal n =
    let (d, s, e, k) = decimal_onto_head (suc n) n [] (omega arith) in rw e (has_number-digit d s k)

decimal_onto-AllDigits :
    (fuel n : ℕ) (rest : Bytes) → AllDigits rest → AllDigits (decimal_onto fuel n rest)
unfolding decimal_onto is_digit
decimal_onto-AllDigits zero n rest h = h
decimal_onto-AllDigits (suc fuel) n rest h = elim (Bool-cases (ltb n 10)) [
  | inl small ↦ rw small (ground arith, h)
  | inr large ↦
      rw large (decimal_onto-AllDigits fuel (n / 10) ((48 + n % 10) ∷ rest) (ground arith, h))
]

pub decimal-AllDigits : (n : ℕ) → AllDigits (decimal n)
unfolding decimal
decimal-AllDigits n = decimal_onto-AllDigits (suc n) n [] tt

pub decimal-ne-nil : (n : ℕ) → decimal n ≢ []
unfolding decimal
decimal-ne-nil n e = let (d, s, h, k) = decimal_onto_head (suc n) n [] (omega arith) in cc

pub decimal_head : (n : ℕ) → (d : ℕ) × (s : Bytes) × (decimal n ≡ d ∷ s) × (is_digit d ≡ true)
unfolding decimal
decimal_head n = decimal_onto_head (suc n) n [] (omega arith)
