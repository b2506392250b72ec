-- ===== src/Prelude/Text.antt =====
-- C strings as lists of bytes, without the final NUL, and the functions of the C library and of
-- GLib that the program calls on them: strcmp, g_strcmp0, isdigit, strtol, g_strsplit, strstr.
use Prim.Native.Nat.{ℕ, zero, suc, ◌+◌, ◌-◌, ◌*◌, ◌^◌, min}
use Prim.Native.Char.{code}
use Prim.Native.String.{String}
use mathlib.Core.Path.{◌≡◌, refl}
use mathlib.Core.Logic.{◌↔◌}
use mathlib.Core.Bool.{Bool, true, false, ◌&&◌, ◌||◌}
use mathlib.Core.Option.{Option, none, some}
use mathlib.Core.List.{List, [], ◌∷◌}
use native.Mathlib.Omega.{arith}
use cc_oci_runtime.Prelude.Tests.{ltb, leb, ◌==◌, if◌then◌else◌}
use cc_oci_runtime.Prelude.Int.{ℤ, pos, negsuc, neg_ℕ}

abbrev pub Bytes : Type 0
Bytes = List ℕ

-- The code points of a text literal: its bytes, since every literal here is ASCII.
abbrev pub codes : String → Bytes
codes String.[] = []
codes (String.◌∷◌ c s) = code c ∷ codes s

unfoldable pub str_eq : Bytes → Bytes → Bool
str_eq [] [] = true
str_eq (x ∷ xs) (y ∷ ys) = x == y && str_eq xs ys
str_eq _ _ = false

pub str_eq_iff : (s t : Bytes) → (str_eq s t ≡ true) ↔ (s ≡ t)
unfolding str_eq
str_eq_iff (x ∷ s) (y ∷ t) = ground (arith, str_eq_iff s t)
str_eq_iff _ _ = ground arith

pub str_eq_refl : (s : Bytes) → str_eq s s ≡ true
str_eq_refl s = (str_eq_iff s s).1 refl

-- The sign of strcmp, which is all that the C standard fixes of its result.
unfoldable pub strcmp : Bytes → Bytes → ℤ
strcmp [] [] = pos 0
strcmp [] (y ∷ ys) = negsuc 0
strcmp (x ∷ xs) [] = pos 1
strcmp (x ∷ xs) (y ∷ ys) =
    let rest = strcmp xs ys in if ltb x y then negsuc 0 else if ltb y x then pos 1 else rest

pub strcmp_refl : (s : Bytes) → strcmp s s ≡ pos 0
unfolding strcmp
strcmp_refl [] = refl
strcmp_refl (x ∷ s) = ground (arith, strcmp_refl s)

unfoldable pub is_digit : ℕ → Bool
is_digit c = leb b'0' c && leb c b'9'

unfoldable pub is_space : ℕ → Bool
is_space c = c == b' ' || (leb 9 c && leb c 13)

unfoldable pub skip_space : Bytes → Bytes
unfolding is_space
skip_space [] = []
skip_space (c ∷ s) = let rest = skip_space s in if is_space c then rest else c ∷ s

-- An optional sign: whether it is a minus, and what follows it.
unfoldable pub strip_sign : Bytes → Bool × Bytes
strip_sign [] = (false, [])
strip_sign (c ∷ s) =
    if c == b'-' then (true, s) else if c == b'+' then (false, s) else (false, c ∷ s)

-- The number that the leading digits write, after the digits that `acc` stands for.
unfoldable pub digits_from : ℕ → Bytes → ℕ
unfolding is_digit
digits_from acc [] = acc
digits_from acc (c ∷ s) =
    let rest = digits_from (acc * 10 + (c - b'0')) s in if is_digit c then rest else acc

-- Clamping to the range of a 64-bit signed integer, as strtol does on overflow.
abbrev pub saturate : Bool → ℕ → ℤ
saturate true n = neg_ℕ (min n (2 ^ 63))
saturate false n = pos (min n (2 ^ 63 - 1))

-- strtol (s, &end, 10), and atol; g_ascii_strtoll on the same range.
unfoldable pub atol : Bytes → ℤ
unfolding skip_space strip_sign digits_from
atol s = let (minus, t) = strip_sign (skip_space s) in saturate minus (digits_from 0 t)

abbrev pub starts_with_digit : Bytes → Bool
starts_with_digit [] = false
starts_with_digit (c ∷ _) = leb b'0' c && leb c b'9'

-- Whether strtol moves its end pointer.
unfoldable pub has_number : Bytes → Bool
unfolding skip_space strip_sign
has_number s = starts_with_digit (strip_sign (skip_space s)).1

-- strstr (s, b) for a one-byte b: the text before the first b, and the text after it.
unfoldable pub cut : ℕ → Bytes → Bytes × Option Bytes
cut b [] = ([], none)
cut b (c ∷ s) = let (h, t) = cut b s in if c == b then ([], some s) else (c ∷ h, t)

-- g_strsplit (s, b, max) for a one-byte b and max ≥ 1, on a text that is not empty.
unfoldable pub split_at_most : ℕ → ℕ → Bytes → List Bytes
split_at_most b zero s = s ∷ []
split_at_most b (suc more) s = elim (cut b s).1 [
  | none ↦ s ∷ []
  | some t ↦ (cut b s).0 ∷ split_at_most b more t
]

-- The empty text splits into no field at all.
unfoldable pub strsplit_max : ℕ → ℕ → Bytes → List Bytes
unfolding cut split_at_most
strsplit_max b max [] = []
strsplit_max b max (c ∷ s) = split_at_most b (max - 1) (c ∷ s)

abbrev pub cons_head : ℕ → List Bytes → List Bytes
cons_head c [] = (c ∷ []) ∷ []
cons_head c (f ∷ fs) = (c ∷ f) ∷ fs

unfoldable pub split_all : ℕ → Bytes → List Bytes
split_all b [] = [] ∷ []
split_all b (c ∷ s) = let rest = split_all b s in if c == b then [] ∷ rest else cons_head c rest

-- g_strsplit (s, b, -1).
unfoldable pub strsplit : ℕ → Bytes → List Bytes
unfolding split_all
strsplit b [] = []
strsplit b (c ∷ s) = split_all b (c ∷ s)
