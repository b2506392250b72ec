-- ===== src/Semver/Precedence.antt =====
-- Versions as data, their text, and the precedence of https://semver.org/spec/v2.0.0.html#spec-item-11
-- that the comments of src/semver.c quote. Nothing here calls the code.
use cc_oci_runtime.Prelude.{
  ℕ, ◌<◌, ◌^◌, ◌≡◌, Option, none, some, true, false, List, [], ◌∷◌, ◌++◌, ltb, ◌==◌, if◌then◌else◌,
  ℤ, pos, negsuc, Bytes, All, strcmp, decimal,
}

-- A dot-separated identifier of a pre-release.
pub data Ident : Type 0 where
  numeric : ℕ → Ident
  word : Bytes → Ident

-- No pre-release is the empty list.
pub record Version : Type 0 where
  pub major : ℕ
  pub minor : ℕ
  pub patch : ℕ
  pub pre : List Ident
  pub build : Option Bytes

unfoldable pub ident_text : Ident → Bytes
ident_text (numeric n) = decimal n
ident_text (word w) = w

-- The identifiers, each behind the separator `b`.
unfoldable pub after_each : ℕ → List Ident → Bytes
unfolding ident_text
after_each b [] = []
after_each b (i ∷ is) = b ∷ (ident_text i ++ after_each b is)

unfoldable pub pre_text : List Ident → Bytes
unfolding ident_text after_each
pre_text [] = []
pre_text (i ∷ is) = b'-' ∷ (ident_text i ++ after_each b'.' is)

unfoldable pub build_text : Option Bytes → Bytes
build_text none = []
build_text (some b) = b'+' ∷ b

unfoldable pub patch_text : Version → Bytes
unfolding pre_text build_text
patch_text v = decimal v.patch ++ (pre_text v.pre ++ build_text v.build)

unfoldable pub text : Version → Bytes
unfolding patch_text
text v = decimal v.major ++ (b'.' ∷ (decimal v.minor ++ (b'.' ∷ patch_text v)))

-- What the text does not hold.
abbrev pub Free : ℕ → Bytes → Type 0
Free b = All (λ c. (c == b) ≡ false)

-- A word starts with a letter; the digits before it in ASCII are those of the numeric identifiers.
abbrev pub IsWord : Bytes → Type 0
IsWord [] = ⊥
IsWord (c ∷ w) = (ltb b'9' c ≡ true) × Free b'.' (c ∷ w) × Free b'+' (c ∷ w)

abbrev pub IsIdent : Ident → Type 0
IsIdent (numeric n) = n < 2 ^ 31
IsIdent (word w) = IsWord w

-- Build metadata behind a pre-release may hold what it likes.
abbrev pub IsBuild : List Ident → Option Bytes → Type 0
IsBuild [] (some b) = Free b'-' b
IsBuild _ _ = Unit

pub record IsVersion (v : Version) : Type 0 where
  pub major_fits : v.major < 2 ^ 63
  pub minor_fits : v.minor < 2 ^ 63
  pub patch_fits : v.patch < 2 ^ 31
  pub idents : All IsIdent v.pre
  pub metadata : IsBuild v.pre v.build

unfoldable pub sign : ℤ → ℤ
sign (pos n) = if n == 0 then pos 0 else pos 1
sign (negsuc n) = negsuc 0

unfoldable pub compare_numbers : ℕ → ℕ → ℤ
compare_numbers a b = if ltb b a then pos 1 else if ltb a b then negsuc 0 else pos 0

-- The first result if it decides, or the second.
infixr 6 ◌then_by◌
abbrev pub ◌then_by◌ : ℤ → ℤ → ℤ
pos n then_by r = if n == 0 then r else pos n
negsuc n then_by r = negsuc n

unfoldable pub compare_idents : Ident → Ident → ℤ
unfolding compare_numbers
compare_idents (numeric a) (numeric b) = compare_numbers a b
compare_idents (numeric a) (word w) = negsuc 0
compare_idents (word v) (numeric b) = pos 1
compare_idents (word v) (word w) = strcmp v w

-- From left to right, and a proper prefix is lower.
unfoldable pub compare_lists : List Ident → List Ident → ℤ
unfolding compare_idents
compare_lists [] [] = pos 0
compare_lists [] (j ∷ js) = negsuc 0
compare_lists (i ∷ is) [] = pos 1
compare_lists (i ∷ is) (j ∷ js) = compare_idents i j then_by compare_lists is js

-- A pre-release is lower than the release.
unfoldable pub compare_pre : List Ident → List Ident → ℤ
unfolding compare_lists
compare_pre [] [] = pos 0
compare_pre [] (j ∷ js) = pos 1
compare_pre (i ∷ is) [] = negsuc 0
compare_pre (i ∷ is) (j ∷ js) = compare_lists (i ∷ is) (j ∷ js)

-- Build metadata plays no part.
unfoldable pub precedence : Version → Version → ℤ
unfolding compare_numbers compare_pre
precedence v w =
    compare_numbers v.major w.major
    then_by compare_numbers v.minor w.minor
    then_by compare_numbers v.patch w.patch
    then_by compare_pre v.pre w.pre
