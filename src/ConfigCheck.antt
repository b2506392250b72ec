-- ===== src/ConfigCheck.antt =====
-- cc_oci_config_check of src/oci-config.c: the version of the config file.
use cc_oci_runtime.Prelude.{
  ℕ, ◌≡◌, refl, sym, ap, ◌∙◌, Bool, false, not, Option, none, some, [], ◌∷◌, ◌>>=◌, leb, pos, ltb_ℤ,
  Bytes, codes, arith, decimal,
}
use cc_oci_runtime.Semver.{semver_cmp}
use cc_oci_runtime.Semver.Precedence.{Version, word, text, IsVersion, compare_numbers}
use cc_oci_runtime.Semver.Refines.{semver_cmp-major}
use cc_oci_runtime.StateFile.Write.{supported_spec_version}

-- For the ociVersion of the config; `none` if the comparison is undefined.
unfoldable pub config_check : Option Bytes → Option Bool
config_check none = some false
config_check (some oci_version) = do
  ret ← semver_cmp supported_spec_version oci_version
  some (not (ltb_ℤ ret (pos 0)))

-- The supported version, 1.0.0-rc1.
abbrev pub supported : Version
supported = record { major = 1; minor = 0; patch = 0; pre = word (codes "rc1") ∷ []; build = none }

pub supported-IsVersion : IsVersion supported
supported-IsVersion = record {
  major_fits = omega arith;
  minor_fits = omega arith;
  patch_fits = omega arith;
  idents = ((refl, (refl, (refl, (refl, tt))), (refl, (refl, (refl, tt)))), tt);
  metadata = tt;
}

supported-text : text supported ≡ supported_spec_version
unfolding text decimal
supported-text = refl

not_older : (n : ℕ) → not (ltb_ℤ (compare_numbers 1 n) (pos 0)) ≡ leb n 1
unfolding compare_numbers
not_older n = ground arith

-- A config is accepted if and only if the major number of its version is 0 or 1, whatever follows it,
-- when the version is one whose numbers fit their types.
pub config_check-major :
    (w : Version) → IsVersion w → config_check (some (text w)) ≡ some (leb w.major 1)
unfolding config_check
config_check-major w h =
    ap (λ s. semver_cmp s (text w) >>= λ ret. some (not (ltb_ℤ ret (pos 0)))) (sym supported-text)
    ∙ ap (λ o. o >>= λ ret. some (not (ltb_ℤ ret (pos 0))))
        (semver_cmp-major supported w supported-IsVersion h)
    ∙ ap some (not_older w.major)
