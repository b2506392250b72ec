-- ===== src/Commands/Usage.antt =====
-- handle_default_usage of src/command.c: a request for help, or too few words.
use cc_oci_runtime.Prelude.{
  ℕ, ◌≡◌, ◌⊎◌, inl, inr, refl, Bool, true, false, ◌||◌, Option, none, some, List, [], ◌∷◌, ltb, leb,
  ◌==◌, if◌then◌else◌, length, Bytes, codes, str_eq, str_eq_iff, Bool-cases, arith,
}

abbrev pub asks_help : List Bytes → Bool
asks_help [] = false
asks_help (word ∷ _) = str_eq word (codes "--help") || str_eq word (codes "-h")

-- The result of the command, if the words were a request for help, or too few.
unfoldable pub handle_default_usage : List Bytes → ℕ → Option Bool
handle_default_usage argv min_argc =
    if asks_help argv
    then some (length argv == 1)
    else if length argv == 0 || ltb (length argv) min_argc
    then some (leb min_argc (length argv))
    else none

-- The words that ask for help.
abbrev pub AsksHelp : Bytes → Type 0
AsksHelp word = (word ≡ codes "--help") ⊎ (word ≡ codes "-h")

or-AsksHelp :
    (word : Bytes)
    → (str_eq word (codes "--help") || str_eq word (codes "-h")) ≡ true
    → AsksHelp word
or-AsksHelp word h = elim (Bool-cases (str_eq word (codes "--help"))) [
  | inl e ↦ inl ((str_eq_iff word (codes "--help")).0 e)
  | inr e ↦ inr ((str_eq_iff word (codes "-h")).0 (rw e at h))
]

-- A command that needs one word, and has one at least.
pub handle_default_usage-cases :
    (word : Bytes) (rest : List Bytes)
    → (handle_default_usage (word ∷ rest) 1 ≡ none)
      ⊎ ((handle_default_usage (word ∷ rest) 1 ≡ some (length (word ∷ rest) == 1)) × AsksHelp word)
unfolding handle_default_usage
handle_default_usage-cases word rest =
    let enough : (length (word ∷ rest) == 0) ≡ false = ground arith in
    let many : ltb (length (word ∷ rest)) 1 ≡ false = ground arith in
    elim (Bool-cases (asks_help (word ∷ rest))) [
      | inl help ↦ inr (rw help refl, or-AsksHelp word help)
      | inr other ↦ inl (rw (other, enough, many) refl)
    ]
