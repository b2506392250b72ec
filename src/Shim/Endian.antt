-- ===== src/Shim/Endian.antt =====
-- shim/utils.c: integers in network byte order. A setter gives the bytes that it stores, a getter
-- reads the first bytes of what stands at its address; past the end of the buffer it is undefined.
use cc_oci_runtime.Prelude.{
  ℕ, ◌+◌, ◌*◌, ◌/◌, ◌%◌, ◌^◌, ◌<◌, ◌≡◌, Option, none, some, [], ◌∷◌, ◌++◌, Bytes, arith, ◌>>=◌,
  drop, ap,
}

unfoldable pub set_big_endian_32 : ℕ → Bytes
set_big_endian_32 val =
    (val / 2 ^ 24 % 256) ∷ (val / 2 ^ 16 % 256) ∷ (val / 2 ^ 8 % 256) ∷ (val % 256) ∷ []

unfoldable pub get_big_endian_32 : Bytes → Option ℕ
get_big_endian_32 (a ∷ b ∷ c ∷ d ∷ _) = some (a * 2 ^ 24 + b * 2 ^ 16 + c * 2 ^ 8 + d)
get_big_endian_32 _ = none

unfoldable pub set_big_endian_64 : ℕ → Bytes
unfolding set_big_endian_32
set_big_endian_64 val =
    set_big_endian_32 (val / 2 ^ 32 % 2 ^ 32) ++ set_big_endian_32 (val % 2 ^ 32)

unfoldable pub get_big_endian_64 : Bytes → Option ℕ
unfolding get_big_endian_32
get_big_endian_64 buf = do
  high ← get_big_endian_32 buf
  low ← get_big_endian_32 (drop 4 buf)
  some (high * 2 ^ 32 + low)

-- The getter reads back what the setter stored, for every uint32_t and whatever follows it.
pub get_big_endian_32-set_big_endian_32 :
    (val : ℕ) (rest : Bytes)
    → val < 2 ^ 32
    → get_big_endian_32 (set_big_endian_32 val ++ rest) ≡ some val
unfolding get_big_endian_32 set_big_endian_32
get_big_endian_32-set_big_endian_32 val rest h = ap some (omega arith)

-- The 64-bit getter reads back what the 64-bit setter stored, for every uint64_t.
pub get_big_endian_64-set_big_endian_64 :
    (val : ℕ) (rest : Bytes)
    → val < 2 ^ 64
    → get_big_endian_64 (set_big_endian_64 val ++ rest) ≡ some val
unfolding get_big_endian_64 set_big_endian_64
get_big_endian_64-set_big_endian_64 val rest h = ap some (omega arith)
