-- ===== src/Semver/Fields.antt =====
-- How the text of a version falls apart into fields.
use cc_oci_runtime.Prelude.{
  ℕ, suc, ◌<◌, ◌^◌, ◌≡◌, ◌≢◌, refl, ap, ◌∙◌, Option, none, some, false, List, [], ◌∷◌, ◌++◌,
  append-nil, ==_refl, pos, to_int32, to_int32_pos, Bytes, All, AllDigits, is_digit, cut,
  split_at_most, strsplit_max, decimal, decimal-AllDigits, decimal-ne-nil, atol, atol-decimal,
  arith,
}
use cc_oci_runtime.Semver.{split_patch_version, split_at_dash}
use cc_oci_runtime.Semver.Precedence.{
  Ident, numeric, word, Version, ident_text, after_each, build_text, patch_text, text, Free,
  IsIdent,
}

pub AllDigits-Free : (b : ℕ) (s : Bytes) → is_digit b ≡ false → AllDigits s → Free b s
unfolding is_digit
AllDigits-Free b [] h d = tt
AllDigits-Free b (c ∷ s) h d = (ground arith, AllDigits-Free b s h d.1)

pub cut-none : (b : ℕ) (s : Bytes) → Free b s → cut b s ≡ (s, none)
unfolding cut
cut-none b [] h = refl
cut-none b (c ∷ s) h = rw (h.0, cut-none b s h.1)

pub cut_first : (b : ℕ) (s t : Bytes) → Free b s → cut b (s ++ (b ∷ t)) ≡ (s, some t)
unfolding cut
cut_first b [] t h = rw (==_refl b)
cut_first b (c ∷ s) t h = rw (h.0, cut_first b s t h.1)

pub split_at_most-first :
    (b more : ℕ) (s t : Bytes)
    → Free b s
    → split_at_most b (suc more) (s ++ (b ∷ t)) ≡ s ∷ split_at_most b more t
unfolding split_at_most
split_at_most-first b more s t h = rw (cut_first b s t h, split_at_most) (rw (cut_first b s t h))

strsplit_max_of_ne_nil : (b : ℕ) (s : Bytes) → s ≢ [] → strsplit_max b 3 s ≡ split_at_most b 2 s
unfolding strsplit_max
strsplit_max_of_ne_nil b [] h = absurd (h refl)
strsplit_max_of_ne_nil b (c ∷ s) h = refl

append-ne-nil : (s t : Bytes) → s ≢ [] → s ++ t ≢ []
append-ne-nil [] t h e = h refl
append-ne-nil (c ∷ s) t h e = cc

not_digit-dot : is_digit b'.' ≡ false
unfolding is_digit
not_digit-dot = refl

pub decimal-Free : (b n : ℕ) → is_digit b ≡ false → Free b (decimal n)
decimal-Free b n h = AllDigits-Free b (decimal n) h (decimal-AllDigits n)

-- The split into three fields that the comparison starts with.
pub strsplit_max-text :
    (v : Version)
    → strsplit_max b'.' 3 (text v) ≡ decimal v.major ∷ decimal v.minor ∷ patch_text v ∷ []
unfolding text
strsplit_max-text v =
    strsplit_max_of_ne_nil b'.' _ (append-ne-nil (decimal v.major) _ (decimal-ne-nil v.major))
    ∙ split_at_most-first b'.' 1 (decimal v.major) _ (decimal-Free b'.' v.major not_digit-dot)
    ∙ ap (λ (l : List Bytes). decimal v.major ∷ l)
        (split_at_most-first b'.' 0 (decimal v.minor) _ (decimal-Free b'.' v.minor not_digit-dot)
          ∙ ap (λ (l : List Bytes). decimal v.minor ∷ l) (unfold split_at_most in refl))

module _ (b n : ℕ) (d : is_digit b ≡ false) where
  pub cut-decimal : cut b (decimal n) ≡ (decimal n, none)
  cut-decimal = cut-none b (decimal n) (decimal-Free b n d)

  pub cut-decimal_first : (t : Bytes) → cut b (decimal n ++ (b ∷ t)) ≡ (decimal n, some t)
  cut-decimal_first t = cut_first b (decimal n) t (decimal-Free b n d)

pub not_digit-dash : is_digit b'-' ≡ false
unfolding is_digit
not_digit-dash = refl

pub not_digit-plus : is_digit b'+' ≡ false
unfolding is_digit
not_digit-plus = refl

pub Free-append : (b : ℕ) (s t : Bytes) → Free b s → Free b t → Free b (s ++ t)
Free-append b [] t h k = k
Free-append b (c ∷ s) t h k = (h.0, Free-append b s t h.1 k)

pub patch_number : (n : ℕ) → n < 2 ^ 31 → to_int32 (atol (decimal n)) ≡ pos n
patch_number n h = rw (atol-decimal n (omega arith)) (to_int32_pos n h)

ident_text-Free-plus : (i : Ident) → IsIdent i → Free b'+' (ident_text i)
unfolding ident_text
ident_text-Free-plus (numeric n) h = decimal-Free b'+' n not_digit-plus
ident_text-Free-plus (word []) h = tt
ident_text-Free-plus (word (c ∷ w)) h = h.2

pub after_each-Free-plus : (is : List Ident) → All IsIdent is → Free b'+' (after_each b'.' is)
unfolding after_each
after_each-Free-plus [] h = tt
after_each-Free-plus (i ∷ is) h = (
  refl,
  Free-append b'+' (ident_text i) _ (ident_text-Free-plus i h.0) (after_each-Free-plus is h.1),
)

-- No pre-release, no metadata.
pub split-release :
    (n : ℕ)
    → n < 2 ^ 31
    → split_patch_version (decimal n)
      ≡ record { patch_num = pos n; pre_release = none; build_metadata = none }
unfolding split_patch_version
split-release n h =
    rw (cut-decimal b'-' n not_digit-dash)
      (rw (cut-decimal b'+' n not_digit-plus) (rw (patch_number n h)))

-- No pre-release, and metadata with no hyphen.
pub split-build :
    (n : ℕ) (b : Bytes)
    → n < 2 ^ 31
    → Free b'-' b
    → split_patch_version (decimal n ++ (b'+' ∷ b))
      ≡ record { patch_num = pos n; pre_release = none; build_metadata = some b }
unfolding split_patch_version
split-build n b h k =
    rw
      (cut-none b'-' (decimal n ++ (b'+' ∷ b))
        (Free-append b'-' (decimal n) _ (decimal-Free b'-' n not_digit-dash) (refl, k)))
      (rw (cut-decimal_first b'+' n not_digit-plus b) (rw (patch_number n h)))

-- A pre-release with no plus sign, and any metadata.
pub split-pre :
    (n : ℕ) (pre : Bytes) (m : Option Bytes)
    → n < 2 ^ 31
    → Free b'+' pre
    → split_patch_version (decimal n ++ (b'-' ∷ (pre ++ build_text m)))
      ≡ record { patch_num = pos n; pre_release = some pre; build_metadata = m }
unfolding split_patch_version build_text
split-pre n pre none h k = rw (append-nil pre) (
    rw (cut-decimal_first b'-' n not_digit-dash pre) (
      rw (cut-decimal b'+' n not_digit-plus, split_at_dash)
        (rw (cut-none b'+' pre k, cut-decimal b'+' n not_digit-plus) (rw (patch_number n h)))))
split-pre n pre (some b) h k = rw (cut-decimal_first b'-' n not_digit-dash (pre ++ (b'+' ∷ b))) (
    rw (cut-decimal b'+' n not_digit-plus, split_at_dash)
      (rw (cut_first b'+' pre b k, cut-decimal b'+' n not_digit-plus) (rw (patch_number n h))))

pub pre-Free-plus :
    (i : Ident) (is : List Ident)
    → All IsIdent (i ∷ is)
    → Free b'+' (ident_text i ++ after_each b'.' is)
pre-Free-plus i is h =
    Free-append b'+' (ident_text i) _ (ident_text-Free-plus i h.0) (after_each-Free-plus is h.1)
