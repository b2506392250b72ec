-- ===== src/Semver/Limits.antt =====
-- Where the comparison of src/semver.c leaves the precedence that its comments state.
use cc_oci_runtime.Prelude.{
  ℕ, ◌+◌, ◌-◌, ◌*◌, ◌≤◌, ◌<◌, ◌^◌, ◌≡◌, ◌⊎◌, inl, inr, refl, none, some, Bool, true, false, List,
  [], ◌∷◌, ◌++◌, pos, negsuc, ◌-ℤ◌, to_int32, Bytes, decimal, atol-decimal, arith, strcmp,
  strsplit_max, split_at_most,
}
use cc_oci_runtime.Semver.{
  string_is_numeric, cmp_field, split_patch_version, split_at_dash, cmp_patch_versions, semver_cmp,
  cmp_fields, cmp_pre_release,
}
use cc_oci_runtime.Semver.Precedence.{Free}
use cc_oci_runtime.Semver.Fields.{
  cut-none, cut_first, cut-decimal_first, decimal-Free, split-release, patch_number, Free-append,
  not_digit-dash, not_digit-plus,
}
use cc_oci_runtime.Semver.Identifiers.{string_is_numeric-decimal}

difference_wraps :
    (a d : ℕ) → 2 ^ 31 ≤ d → d < 2 ^ 32 → to_int32 (pos (a + d) -ℤ pos a) ≡ negsuc (2 ^ 32 - d - 1)
difference_wraps a d h k = ground arith

-- The difference of two numeric identifiers is cut to 32 bits: an identifier that is larger by
-- between 2^31 and 2^32 - 1, both below 2^63, compares as the smaller one.
pub cmp_field_wraps :
    (a d : ℕ)
    → 2 ^ 31 ≤ d
    → d < 2 ^ 32
    → a + d < 2 ^ 63
    → cmp_field (decimal (a + d)) (decimal a) ≡ negsuc (2 ^ 32 - d - 1)
unfolding cmp_field
cmp_field_wraps a d h k fits =
    rw
      (
        string_is_numeric-decimal (a + d),
        string_is_numeric-decimal a,
        atol-decimal (a + d) fits,
        atol-decimal a (omega arith),
      )
      (difference_wraps a d h k)

multiple_vanishes : (a k : ℕ) → to_int32 (pos (a + k * 2 ^ 32) -ℤ pos a) ≡ pos 0
multiple_vanishes a k = ground arith

-- Numeric identifiers that differ by a multiple of 2^32, both below 2^63, compare as equal.
pub cmp_field_aliases :
    (a k : ℕ) → a + k * 2 ^ 32 < 2 ^ 63 → cmp_field (decimal (a + k * 2 ^ 32)) (decimal a) ≡ pos 0
unfolding cmp_field
cmp_field_aliases a k fits =
    rw
      (
        string_is_numeric-decimal (a + k * 2 ^ 32),
        string_is_numeric-decimal a,
        atol-decimal (a + k * 2 ^ 32) fits,
        atol-decimal a (omega arith),
      )
      (multiple_vanishes a k)

-- A numeric identifier is not below a non-numeric one that starts with a smaller digit.
pub cmp_field_mixed :
    (d c : ℕ) (s w : Bytes)
    → string_is_numeric (d ∷ s) ≡ true
    → string_is_numeric (c ∷ w) ≡ false
    → c < d
    → cmp_field (d ∷ s) (c ∷ w) ≡ pos 1
unfolding cmp_field strcmp
cmp_field_mixed d c s w h k lt = rw (h, k) (ground arith)

split_hyphen :
    (n : ℕ) (b c : Bytes)
    → n < 2 ^ 31
    → Free b'-' b
    → split_patch_version ((decimal n ++ (b'+' ∷ b)) ++ (b'-' ∷ c))
      ≡ record { patch_num = pos n; pre_release = some c; build_metadata = some b }
unfolding split_patch_version
split_hyphen n b c h f =
    rw
      (cut_first b'-' (decimal n ++ (b'+' ∷ b)) c
        (Free-append b'-' (decimal n) _ (decimal-Free b'-' n not_digit-dash) (refl, f)))
      (rw (cut-decimal_first b'+' n not_digit-plus b, split_at_dash)
        (rw (cut-decimal_first b'+' n not_digit-plus b) (rw (patch_number n h))))

-- A hyphen in the build metadata of a release makes what follows it a pre-release: the version
-- compares below the same release, though build metadata should play no part.
pub cmp_patch_versions_hyphen :
    (n : ℕ) (b c : Bytes)
    → n < 2 ^ 31
    → Free b'-' b
    → cmp_patch_versions ((decimal n ++ (b'+' ∷ b)) ++ (b'-' ∷ c)) (decimal n) ≡ negsuc 0
unfolding cmp_patch_versions cmp_pre_release
cmp_patch_versions_hyphen n b c h f = rw (split_hyphen n b c h f, split-release n h) (ground arith)

strsplit_max_one :
    (s : Bytes) → Free b'.' s → (strsplit_max b'.' 3 s ≡ []) ⊎ (strsplit_max b'.' 3 s ≡ s ∷ [])
unfolding strsplit_max split_at_most
strsplit_max_one [] h = inl refl
strsplit_max_one (c ∷ s) h = inr (rw (cut-none b'.' (c ∷ s) h, split_at_most))

abbrev AtMostOne : List Bytes → Type 0
AtMostOne (f ∷ g ∷ fs) = ⊥
AtMostOne _ = Unit

few_fields :
    (l m : List Bytes) (compatible : Bool)
    → AtMostOne l
    → (cmp_fields l m compatible ≡ none) × (cmp_fields m l compatible ≡ none)
unfolding cmp_fields
few_fields [] [] c h = (refl, refl)
few_fields [] (x ∷ []) c h = (refl, refl)
few_fields [] (x ∷ y ∷ m) c h = (refl, refl)
few_fields (s ∷ []) [] c h = (refl, refl)
few_fields (s ∷ []) (x ∷ []) c h = (refl, refl)
few_fields (s ∷ []) (x ∷ y ∷ m) c h = (refl, refl)
few_fields (s ∷ t ∷ l) m c h = absurd h

-- With a version that has no dot on either side the comparison is undefined: it calls atol (NULL).
pub semver_cmp_one_field :
    (s w : Bytes) → Free b'.' s → (semver_cmp s w ≡ none) × (semver_cmp w s ≡ none)
unfolding semver_cmp
semver_cmp_one_field s w h = elim (strsplit_max_one s h) [
  | inl e ↦ rw e ((few_fields [] (strsplit_max b'.' 3 w) true tt))
  | inr e ↦ rw e (few_fields (s ∷ []) (strsplit_max b'.' 3 w) true tt)
]
