-- ===== src/Semver.antt =====
-- src/semver.c: comparison of version strings. A call that the C language leaves undefined or that
-- fails an assertion, such as atol (NULL) on a version with one field only, gives `none`.
pub mod Precedence
pub mod Fields
pub mod Identifiers
pub mod Refines
pub mod Limits
use cc_oci_runtime.Prelude.{
  ℕ, ◌-◌, ◌-ℤ◌, Bool, true, false, ◌&&◌, Option, none, some, List, [], ◌∷◌, ltb, if◌then◌else◌, ℤ,
  pos, negsuc, ltb_ℤ, eqb_ℤ, to_int32, Bytes, is_digit, atol, strcmp, cut, strsplit, strsplit_max,
  ◌>>=◌,
}

unfoldable pub string_is_numeric : Bytes → Bool
unfolding is_digit
string_is_numeric [] = true
string_is_numeric (c ∷ p) = is_digit c && string_is_numeric p

-- The body of the loop: the difference of two numeric fields, cut to an `int`, or strcmp.
unfoldable pub cmp_field : Bytes → Bytes → ℤ
unfolding string_is_numeric
cmp_field fa fb =
    if string_is_numeric fa && string_is_numeric fb
    then to_int32 (atol fa -ℤ atol fb)
    else strcmp fa fb

unfoldable pub cmp_pre_release_fields : List Bytes → List Bytes → ℤ
cmp_pre_release_fields [] [] = pos 0
cmp_pre_release_fields (fa ∷ as') [] = pos 1
cmp_pre_release_fields [] (fb ∷ bs) = negsuc 0
cmp_pre_release_fields (fa ∷ as') (fb ∷ bs) =
    let ret = cmp_field fa fb in
    let rest = cmp_pre_release_fields as' bs in if eqb_ℤ ret (pos 0) then rest else ret

unfoldable pub cmp_patch_pre_releases : Bytes → Bytes → ℤ
unfolding cmp_pre_release_fields
cmp_patch_pre_releases pre_rel_a pre_rel_b =
    cmp_pre_release_fields (strsplit b'.' pre_rel_a) (strsplit b'.' pre_rel_b)

-- What the two out-parameters and `*patch_num` receive.
pub record PatchVersion : Type 0 where
  pub patch_num : ℤ
  pub pre_release : Option Bytes
  pub build_metadata : Option Bytes

-- The text is cut in place, at the first '-' and at the first '+': each of the pieces ends at the
-- NUL that the other cut has written, if that comes later.
split_at_dash : Bytes × Option Bytes → PatchVersion
split_at_dash (whole, none) =
    let (patch, metadata) = cut b'+' whole in
    record { patch_num = to_int32 (atol patch); pre_release = none; build_metadata = metadata }
split_at_dash (before, some after) =
    let (patch, metadata) = cut b'+' before in
    let (pre, metadata') = cut b'+' after in
    elim metadata [
      | some m ↦ record {
        patch_num = to_int32 (atol patch);
        pre_release = some after;
        build_metadata = some m;
      }
      | none ↦ record {
        patch_num = to_int32 (atol patch);
        pre_release = some pre;
        build_metadata = metadata';
      }
    ]

unfoldable pub split_patch_version : Bytes → PatchVersion
unfolding split_at_dash
split_patch_version patch_version = split_at_dash (cut b'-' patch_version)

cmp_pre_release : Option Bytes → Option Bytes → ℤ
cmp_pre_release (some pra) none = negsuc 0
cmp_pre_release none (some prb) = pos 1
cmp_pre_release none none = pos 0
cmp_pre_release (some pra) (some prb) = cmp_patch_pre_releases pra prb

unfoldable pub cmp_patch_versions : Bytes → Bytes → ℤ
unfolding cmp_pre_release
cmp_patch_versions patch_a patch_b =
    let a = split_patch_version patch_a in
    let b = split_patch_version patch_b in
    if ltb_ℤ b.patch_num a.patch_num
    then pos 1
    else if ltb_ℤ a.patch_num b.patch_num
    then negsuc 0
    else cmp_pre_release a.pre_release b.pre_release

-- The third field, which the code asserts to be there when it comes to it.
cmp_patch_fields : List Bytes → List Bytes → Option ℤ
unfolding cmp_patch_versions
cmp_patch_fields (patch_a ∷ _) (patch_b ∷ _) = some (cmp_patch_versions patch_a patch_b)
cmp_patch_fields _ _ = none

unfoldable pub cmp_fields : List Bytes → List Bytes → Bool → Option ℤ
unfolding cmp_patch_fields
cmp_fields (major_a ∷ minor_a ∷ rest_a) (major_b ∷ minor_b ∷ rest_b) compatible =
    let maj_a = atol major_a in
    let min_a = atol minor_a in
    let maj_b = atol major_b in
    let min_b = atol minor_b in
    if ltb_ℤ maj_b maj_a
    then some (pos 1)
    else if ltb_ℤ maj_a maj_b
    then some (negsuc 0)
    else if compatible
    then some (pos 0)
    else if ltb_ℤ min_b min_a
    then some (pos 1)
    else if ltb_ℤ min_a min_b
    then some (negsuc 0)
    else cmp_patch_fields rest_a rest_b
cmp_fields _ _ compatible = none

unfoldable pub semver_2_0_0_cmp : Bytes → Bytes → Bool → Option ℤ
unfolding cmp_fields
semver_2_0_0_cmp version_a version_b compatible =
    cmp_fields (strsplit_max b'.' 3 version_a) (strsplit_max b'.' 3 version_b) compatible

unfoldable pub semver_cmp_full : Bytes → Bytes → Option ℤ
unfolding semver_2_0_0_cmp
semver_cmp_full version_a version_b = semver_2_0_0_cmp version_a version_b false

unfoldable pub semver_cmp : Bytes → Bytes → Option ℤ
unfolding semver_2_0_0_cmp
semver_cmp version_a version_b = semver_2_0_0_cmp version_a version_b true
