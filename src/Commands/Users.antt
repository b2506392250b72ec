-- ===== src/Commands/Users.antt =====
-- handle_option_user of src/command.c: the --user option of exec, <uid>[:<gid>].
use cc_oci_runtime.Prelude.{
  ℕ, ◌%◌, ◌^◌, ◌<◌, ◌≡◌, ◌≢◌, refl, ap, ◌∙◌, false, ◌||◌, Option, none, some, List, [], ◌∷◌, ◌++◌,
  if◌then◌else◌, ℤ, pos, ltb_ℤ, pos_part, Bytes, is_digit, has_number, atol, strsplit_max,
  split_at_most, decimal, atol-decimal, has_number-decimal, decimal-ne-nil, arith,
}
use cc_oci_runtime.Semver.Fields.{split_at_most-first, decimal-Free}

-- An id that is no number, or the 64-bit number that g_ascii_strtoll makes of it.
abbrev pub id_of : Bytes → Option ℤ
id_of s = if has_number s then some (atol s) else none

-- Ids that are not negative become uid_t and gid_t.
abbrev pub both_ids : ℤ → ℤ → Option (ℕ × ℕ)
both_ids uid gid =
    if ltb_ℤ uid (pos 0) || ltb_ℤ gid (pos 0)
    then none
    else some (pos_part uid % 2 ^ 32, pos_part gid % 2 ^ 32)

-- `none` is a failure.
unfoldable pub user_ids : List Bytes → Option (ℕ × ℕ)
user_ids [] = none
user_ids (struid ∷ []) = elim (id_of struid) [ none ↦ none | some uid ↦ both_ids uid (pos 0) ]
user_ids (struid ∷ strgid ∷ rest) = elim (id_of struid) [
  | none ↦ none
  | some uid ↦ elim (id_of strgid) [ none ↦ none | some gid ↦ both_ids uid gid ]
]

unfoldable pub handle_option_user : Bytes → Option (ℕ × ℕ)
unfolding user_ids
handle_option_user value = user_ids (strsplit_max b':' 2 value)

id_of-decimal : (n : ℕ) → n < 2 ^ 63 → id_of (decimal n) ≡ some (pos n)
id_of-decimal n h =
    ap (λ b. if b then some (atol (decimal n)) else none) (has_number-decimal n)
    ∙ ap some (atol-decimal n h)

not_digit-colon : is_digit b':' ≡ false
unfolding is_digit
not_digit-colon = refl

strsplit_max-split_at_most : (s : Bytes) → s ≢ [] → strsplit_max b':' 2 s ≡ split_at_most b':' 1 s
unfolding strsplit_max
strsplit_max-split_at_most [] h = absurd (h refl)
strsplit_max-split_at_most (c ∷ s) h = refl

append-ne-nil : (s t : Bytes) → s ≢ [] → s ++ t ≢ []
append-ne-nil [] t h e = h refl
append-ne-nil (c ∷ s) t h e = cc

split_user_ids :
    (n m : ℕ) → strsplit_max b':' 2 (decimal n ++ (b':' ∷ decimal m)) ≡ decimal n ∷ decimal m ∷ []
split_user_ids n m =
    strsplit_max-split_at_most (decimal n ++ (b':' ∷ decimal m))
      (append-ne-nil (decimal n) (b':' ∷ decimal m) (decimal-ne-nil n))
    ∙ split_at_most-first b':' 0 (decimal n) (decimal m) (decimal-Free b':' n not_digit-colon)
    ∙ ap (λ (l : List Bytes). decimal n ∷ l) (unfold split_at_most in refl)

-- The ids of a --user option, a uid and a gid in decimal below 2^63 with a colon between, are taken
-- modulo 2^32: those below 2^32 are read back, and 2^32 is root.
pub handle_option_user-decimal :
    (n m : ℕ)
    → n < 2 ^ 63
    → m < 2 ^ 63
    → handle_option_user (decimal n ++ (b':' ∷ decimal m)) ≡ some (n % 2 ^ 32, m % 2 ^ 32)
unfolding handle_option_user user_ids
handle_option_user-decimal n m h k =
    ap user_ids (split_user_ids n m)
    ∙ ap given (id_of-decimal n h)
    ∙ ap (λ o. elim o as (λ _. Option (ℕ × ℕ)) [ none ↦ none | some gid ↦ both_ids (pos n) gid ])
        (id_of-decimal m k)
    ∙ ground arith
  where
    given : Option ℤ → Option (ℕ × ℕ)
    given o = elim o [
      | none ↦ none
      | some uid ↦ elim (id_of (decimal m)) [ none ↦ none | some gid ↦ both_ids uid gid ]
    ]
