-- ===== src/Semver/Refines.antt =====
-- The comparison functions of src/semver.c against the precedence of versions.
use cc_oci_runtime.Prelude.{
  ℕ, ◌<◌, ◌^◌, ◌≡◌, refl, ap, ◌∙◌, Option, none, some, List, [], ◌∷◌, ◌++◌, append-nil, ltb_ℤ,
  if◌then◌else◌, ℤ, pos, negsuc, Bytes, All, decimal, atol-decimal, arith,
}
use cc_oci_runtime.Semver.{
  split_patch_version, cmp_pre_release, cmp_patch_versions, semver_cmp_full, semver_cmp,
}
use cc_oci_runtime.Semver.Precedence.{
  Ident, Version, ident_text, after_each, pre_text, build_text, patch_text, text, IsIdent, IsBuild,
  IsVersion, sign, compare_numbers, compare_pre, precedence, ◌then_by◌,
}
use cc_oci_runtime.Semver.Fields.{
  strsplit_max-text, split-release, split-build, split-pre, pre-Free-plus,
}
use cc_oci_runtime.Semver.Identifiers.{cmp_patch_pre_releases-idents}

-- The pre-release that the code should find in the text of a version.
pre_of : List Ident → Option Bytes
pre_of [] = none
pre_of (i ∷ is) = some (ident_text i ++ after_each b'.' is)

split_patch_version-parts :
    (n : ℕ) (pre : List Ident) (build : Option Bytes)
    → n < 2 ^ 31
    → All IsIdent pre
    → IsBuild pre build
    → split_patch_version (decimal n ++ (pre_text pre ++ build_text build))
      ≡ record { patch_num = pos n; pre_release = pre_of pre; build_metadata = build }
unfolding pre_text pre_of build_text
split_patch_version-parts n [] none h p m = rw (append-nil (decimal n)) (split-release n h)
split_patch_version-parts n [] (some b) h p m = split-build n b h m
split_patch_version-parts n (i ∷ is) build h p m = (split-pre n _ build h (pre-Free-plus i is p))

cmp_pre_release-idents :
    (is js : List Ident)
    → All IsIdent is
    → All IsIdent js
    → sign (cmp_pre_release (pre_of is) (pre_of js)) ≡ compare_pre is js
unfolding cmp_pre_release pre_of compare_pre sign
cmp_pre_release-idents [] [] h k = refl
cmp_pre_release-idents [] (j ∷ js) h k = refl
cmp_pre_release-idents (i ∷ is) [] h k = refl
cmp_pre_release-idents (i ∷ is) (j ∷ js) h k = cmp_patch_pre_releases-idents i j is js h k

-- A test each way on two numbers, and what follows if they are equal.
abbrev ladder : ℕ → ℕ → ℤ → ℤ
ladder a b rest =
    if ltb_ℤ (pos b) (pos a) then pos 1 else if ltb_ℤ (pos a) (pos b) then negsuc 0 else rest

sign-ladder :
    (a b : ℕ) (rest : ℤ) → sign (ladder a b rest) ≡ (compare_numbers a b then_by sign rest)
unfolding sign compare_numbers
sign-ladder a b rest = ground arith

two_ladders :
    (a b c d : ℕ) (r : ℤ)
    → (if ltb_ℤ (pos b) (pos a)
        then some (pos 1)
        else if ltb_ℤ (pos a) (pos b)
        then some (negsuc 0)
        else if ltb_ℤ (pos d) (pos c)
        then some (pos 1)
        else if ltb_ℤ (pos c) (pos d)
        then some (negsuc 0)
        else some r)
      ≡ some (ladder a b (ladder c d r))
two_ladders a b c d r = ground arith

cmp_patch_versions-texts :
    (v w : Version)
    → IsVersion v
    → IsVersion w
    → sign (cmp_patch_versions (patch_text v) (patch_text w))
      ≡ (compare_numbers v.patch w.patch then_by compare_pre v.pre w.pre)
unfolding cmp_patch_versions patch_text
cmp_patch_versions-texts v w h k =
    rw
      (
        split_patch_version-parts v.patch v.pre v.build h.patch_fits h.idents h.metadata,
        split_patch_version-parts w.patch w.pre w.build k.patch_fits k.idents k.metadata,
      )
      (sign-ladder v.patch w.patch (cmp_pre_release (pre_of v.pre) (pre_of w.pre))
        ∙ ap (λ z. compare_numbers v.patch w.patch then_by z)
            (cmp_pre_release-idents v.pre w.pre h.idents k.idents))

-- On the texts of two versions cc_oci_semver_cmp_full returns a number whose sign is the precedence
-- of the versions, for major and minor numbers below 2^63, patch numbers and numeric identifiers
-- below 2^31, words that start with a letter, and no hyphen in build metadata that follows a release.
pub semver_cmp_full-precedence :
    (v w : Version)
    → IsVersion v
    → IsVersion w
    → (z : ℤ) × (semver_cmp_full (text v) (text w) ≡ some z) × (sign z ≡ precedence v w)
unfolding semver_cmp_full precedence
semver_cmp_full-precedence v w h k =
    let r = cmp_patch_versions (patch_text v) (patch_text w) in
    let low = cmp_patch_versions-texts v w h k in
    (
      ladder v.major w.major (ladder v.minor w.minor r),
      rw (strsplit_max-text v, strsplit_max-text w)
          (rw
            (
              atol-decimal v.major h.major_fits,
              atol-decimal w.major k.major_fits,
              atol-decimal v.minor h.minor_fits,
              atol-decimal w.minor k.minor_fits,
            )
            (two_ladders v.major w.major v.minor w.minor r)),
      sign-ladder v.major w.major (ladder v.minor w.minor r)
          ∙ ap (λ z. compare_numbers v.major w.major then_by z) (sign-ladder v.minor w.minor r)
          ∙ ap
              (λ z.
                compare_numbers v.major w.major then_by compare_numbers v.minor w.minor then_by z)
              low,
    )

-- On the same texts cc_oci_semver_cmp compares the major numbers, and nothing else.
pub semver_cmp-major :
    (v w : Version)
    → IsVersion v
    → IsVersion w
    → semver_cmp (text v) (text w) ≡ some (compare_numbers v.major w.major)
unfolding semver_cmp compare_numbers
semver_cmp-major v w h k =
    rw (strsplit_max-text v, strsplit_max-text w)
      (rw (atol-decimal v.major h.major_fits, atol-decimal w.major k.major_fits) (ground arith))
