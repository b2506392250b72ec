-- ===== src/Semver/Identifiers.antt =====
-- The loop over pre-release identifiers, against the precedence of lists of identifiers.
use cc_oci_runtime.Prelude.{
  ℕ, ◌<◌, ◌^◌, ◌≡◌, ◌≢◌, refl, ap, ap₂, ◌∙◌, true, false, List, [], ◌∷◌, ◌++◌, append-nil, ltb,
  ==_refl, if◌then◌else◌, ℤ, pos, negsuc, eqb_ℤ, to_int32, ◌-ℤ◌, Bytes, All, AllDigits, is_digit,
  strcmp, split_all, strsplit, decimal, decimal-AllDigits, decimal-ne-nil, decimal_head,
  atol-decimal, arith,
}
use cc_oci_runtime.Semver.{
  string_is_numeric, cmp_field, cmp_pre_release_fields, cmp_patch_pre_releases,
}
use cc_oci_runtime.Semver.Precedence.{
  Ident, numeric, word, ident_text, after_each, Free, IsIdent, sign, compare_numbers,
  compare_idents, compare_lists, ◌then_by◌,
}
use cc_oci_runtime.Semver.Fields.{decimal-Free}

texts : List Ident → List Bytes
texts [] = []
texts (i ∷ is) = ident_text i ∷ texts is

pub split_all_none : (b : ℕ) (s : Bytes) → Free b s → split_all b s ≡ s ∷ []
unfolding split_all
split_all_none b [] h = refl
split_all_none b (c ∷ s) h = rw (h.0, split_all_none b s h.1)

pub split_all_first :
    (b : ℕ) (s t : Bytes) → Free b s → split_all b (s ++ (b ∷ t)) ≡ s ∷ split_all b t
unfolding split_all
split_all_first b [] t h = rw (==_refl b)
split_all_first b (c ∷ s) t h = rw (h.0, split_all_first b s t h.1)

not_digit-dot : is_digit b'.' ≡ false
unfolding is_digit
not_digit-dot = refl

ident_text-Free-dot : (i : Ident) → IsIdent i → Free b'.' (ident_text i)
unfolding ident_text
ident_text-Free-dot (numeric n) h = decimal-Free b'.' n not_digit-dot
ident_text-Free-dot (word []) h = tt
ident_text-Free-dot (word (c ∷ w)) h = h.1

ident_text-ne-nil : (i : Ident) → IsIdent i → ident_text i ≢ []
unfolding ident_text
ident_text-ne-nil (numeric n) h e = decimal-ne-nil n e
ident_text-ne-nil (word []) h e = h
ident_text-ne-nil (word (c ∷ w)) h e = cc

split_all-after_each :
    (s : Bytes) (is : List Ident)
    → Free b'.' s
    → All IsIdent is
    → split_all b'.' (s ++ after_each b'.' is) ≡ s ∷ texts is
unfolding after_each texts
split_all-after_each s [] f h = rw append-nil (split_all_none b'.' s f)
split_all-after_each s (i ∷ is) f h =
    split_all_first b'.' s _ f
    ∙ ap (λ (l : List Bytes). s ∷ l)
        (split_all-after_each (ident_text i) is (ident_text-Free-dot i h.0) h.1)

strsplit_of_ne_nil : (b : ℕ) (s t : Bytes) → s ≢ [] → strsplit b (s ++ t) ≡ split_all b (s ++ t)
unfolding strsplit
strsplit_of_ne_nil b [] t h = absurd (h refl)
strsplit_of_ne_nil b (c ∷ s) t h = refl

strsplit-idents :
    (i : Ident) (is : List Ident)
    → All IsIdent (i ∷ is)
    → strsplit b'.' (ident_text i ++ after_each b'.' is) ≡ texts (i ∷ is)
unfolding texts
strsplit-idents i is h =
    strsplit_of_ne_nil b'.' (ident_text i) _ (ident_text-ne-nil i h.0)
    ∙ split_all-after_each (ident_text i) is (ident_text-Free-dot i h.0) h.1

string_is_numeric-AllDigits : (s : Bytes) → AllDigits s → string_is_numeric s ≡ true
unfolding string_is_numeric
string_is_numeric-AllDigits [] h = refl
string_is_numeric-AllDigits (c ∷ s) h = rw (h.0, string_is_numeric-AllDigits s h.1)

pub string_is_numeric-decimal : (n : ℕ) → string_is_numeric (decimal n) ≡ true
string_is_numeric-decimal n = string_is_numeric-AllDigits (decimal n) (decimal-AllDigits n)

string_is_numeric-word : (c : ℕ) (w : Bytes) → ltb b'9' c ≡ true → string_is_numeric (c ∷ w) ≡ false
unfolding string_is_numeric is_digit
string_is_numeric-word c w h = ground arith

sign-difference :
    (a b : ℕ) → a < 2 ^ 31 → b < 2 ^ 31 → sign (to_int32 (pos a -ℤ pos b)) ≡ compare_numbers a b
unfolding sign compare_numbers
sign-difference a b h k = ground arith

sign-strcmp : (s t : Bytes) → sign (strcmp s t) ≡ strcmp s t
unfolding sign strcmp
sign-strcmp [] [] = refl
sign-strcmp [] (y ∷ t) = refl
sign-strcmp (x ∷ s) [] = refl
sign-strcmp (x ∷ s) (y ∷ t) = ground (arith, sign-strcmp s t)

strcmp-digit_word :
    (d c : ℕ) (s w : Bytes)
    → is_digit d ≡ true
    → ltb b'9' c ≡ true
    → (strcmp (d ∷ s) (c ∷ w) ≡ negsuc 0) × (strcmp (c ∷ w) (d ∷ s) ≡ pos 1)
unfolding strcmp is_digit
strcmp-digit_word d c s w h k = (ground arith, ground arith)

-- One identifier of each side.
cmp_field-ident :
    (i j : Ident)
    → IsIdent i
    → IsIdent j
    → sign (cmp_field (ident_text i) (ident_text j)) ≡ compare_idents i j
unfolding cmp_field compare_idents ident_text sign
cmp_field-ident (numeric a) (numeric b) h k =
    rw
      (
        string_is_numeric-decimal a,
        string_is_numeric-decimal b,
        atol-decimal a (omega arith),
        atol-decimal b (omega arith),
      )
      (sign-difference a b h k)
cmp_field-ident (numeric a) (word []) h k = absurd k
cmp_field-ident (word []) _ h k = absurd h
cmp_field-ident (word (c ∷ v)) (word []) h k = absurd k
cmp_field-ident (numeric a) (word (c ∷ w)) h k =
    let (d, s, e, dig) = decimal_head a in
    rw (string_is_numeric-decimal a, string_is_numeric-word c w k.0)
      (rw (e, (strcmp-digit_word d c s w dig k.0).0))
cmp_field-ident (word (c ∷ v)) (numeric b) h k =
    let (d, s, e, dig) = decimal_head b in
    rw (string_is_numeric-word c v h.0) (rw (e, (strcmp-digit_word d c s v dig h.0).1))
cmp_field-ident (word (c ∷ v)) (word (x ∷ w)) h k =
    rw (string_is_numeric-word c v h.0) (sign-strcmp (c ∷ v) (x ∷ w))

sign-if : (r rest : ℤ) → sign (if eqb_ℤ r (pos 0) then rest else r) ≡ (sign r then_by sign rest)
unfolding sign
sign-if r rest = ground arith

cmp_pre_release_fields-texts :
    (is js : List Ident)
    → All IsIdent is
    → All IsIdent js
    → sign (cmp_pre_release_fields (texts is) (texts js)) ≡ compare_lists is js
unfolding cmp_pre_release_fields texts compare_lists sign
cmp_pre_release_fields-texts [] [] h k = refl
cmp_pre_release_fields-texts [] (j ∷ js) h k = refl
cmp_pre_release_fields-texts (i ∷ is) [] h k = refl
cmp_pre_release_fields-texts (i ∷ is) (j ∷ js) h k =
    sign-if (cmp_field (ident_text i) (ident_text j)) (cmp_pre_release_fields (texts is) (texts js))
    ∙ ap₂ ◌then_by◌ (cmp_field-ident i j h.0 k.0) (cmp_pre_release_fields-texts is js h.1 k.1)

-- The whole pre-release of each side.
pub cmp_patch_pre_releases-idents :
    (i j : Ident) (is js : List Ident)
    → All IsIdent (i ∷ is)
    → All IsIdent (j ∷ js)
    → sign (
        cmp_patch_pre_releases
          (ident_text i ++ after_each b'.' is)
          (ident_text j ++ after_each b'.' js))
      ≡ compare_lists (i ∷ is) (j ∷ js)
unfolding cmp_patch_pre_releases
cmp_patch_pre_releases-idents i j is js h k =
    rw (strsplit-idents i is h, strsplit-idents j js k)
      (cmp_pre_release_fields-texts (i ∷ is) (j ∷ js) h k)
