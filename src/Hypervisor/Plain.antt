-- ===== src/Hypervisor/Plain.antt =====
-- Which lines of the file become arguments of the hypervisor.
use cc_oci_runtime.Prelude.{
  ℕ, ◌-◌, ◌+◌, ◌<◌, ◌≡◌, ◌≢◌, refl, sym, ap, ◌∙◌, true, false, ◌&&◌, none, some, List, [], ◌∷◌,
  ◌++◌, append-nil, ◌==◌, if◌then◌else◌, Bytes, length, All, arith,
}
use cc_oci_runtime.Hypervisor.Lines.{
  is_blank, has_prefix, replace_first, replace_string, line_max, ascii_isspace, cut_comment,
  uncomment, strip_left, strip_right, strstrip,
}
use cc_oci_runtime.Hypervisor.Tags.{Tag}
use cc_oci_runtime.Hypervisor.Args.{replace_tags, expand_arg, expand_args, nonempty_lines}

-- A text with no byte that begins a tag, and none that begins a comment.
abbrev pub IsPlain : Bytes → Type 0
IsPlain = All (λ c. (c ≢ b'@') × (c ≢ b'#'))

-- Tags begin with '@'.
abbrev pub AreTags : List Tag → Type 0
AreTags = All (λ tag. (name : Bytes) × (tag.0 ≡ b'@' ∷ name))

-- Nothing but space.
abbrev pub IsSpace : Bytes → Type 0
IsSpace = All (λ c. ascii_isspace c ≡ true)

-- No space at either end, and not empty.
pub record IsStripped (s : Bytes) : Type 0 where
  pub first : ℕ
  pub others : Bytes
  pub begins : s ≡ first ∷ others
  pub visible : ascii_isspace first ≡ false
  pub ends : strip_right s ≡ s

-- A line and the arguments that it makes: one that is empty or a comment makes none, one that is plain
-- and not empty makes one, with or without a comment behind it.
pub data Makes : Bytes → List Bytes → Type 0 where
  blank_line : Makes [] []
  comment : (s : Bytes) → Makes (b'#' ∷ s) []
  argument : (s : Bytes) → IsPlain s → IsStripped s → Makes s (s ∷ [])
  commented :
      (s c' : Bytes)
      → IsPlain s
      → IsStripped s
      → length s < line_max - 1
      → Makes (s ++ (b' ' ∷ b'#' ∷ c')) (s ∷ [])

-- The lines of a file, and all the arguments.
pub data AllMake : List Bytes → List Bytes → Type 0 where
  no_line : AllMake [] []
  first_line :
      (line : Bytes) (made : List Bytes) (lines args : List Bytes)
      → Makes line made
      → AllMake lines args
      → AllMake (line ∷ lines) (made ++ args)

replace_first-plain : (name to s : Bytes) → IsPlain s → replace_first (b'@' ∷ name) to s ≡ s
unfolding replace_first has_prefix
replace_first-plain name to [] h = refl
replace_first-plain name to (c ∷ s) h = ground (arith, replace_first-plain name to s h.1, h.0.0)

replace_string-plain :
    (tag : Tag) (name s : Bytes)
    → tag.0 ≡ b'@' ∷ name
    → IsPlain s
    → replace_string s tag.0 tag.1 ≡ s
unfolding replace_string
replace_string-plain (t, none) name s e h = refl
replace_string-plain (t, some to) name s e h =
    ap (λ t. if is_blank t then s else replace_first t to s) e ∙ replace_first-plain name to s h

pub replace_tags-plain :
    (tags : List Tag) (s : Bytes) → AreTags tags → IsPlain s → replace_tags tags s ≡ s
unfolding replace_tags
replace_tags-plain [] s t h = refl
replace_tags-plain (tag ∷ tags) s (t, ts) h =
    ap (replace_tags tags) (replace_string-plain tag t.0 s t.1 h) ∙ replace_tags-plain tags s ts h

cut_comment-plain : (before budget : ℕ) (s : Bytes) → IsPlain s → cut_comment before budget s ≡ s
unfolding cut_comment
cut_comment-plain before budget [] h = refl
cut_comment-plain before budget (c ∷ s) h =
    ground (arith, cut_comment-plain c (budget - 1) s h.1, h.0.1)

cut_comment-commented :
    (before budget : ℕ) (s c' : Bytes)
    → IsPlain s
    → length s + 1 < budget
    → cut_comment before budget (s ++ (b' ' ∷ b'#' ∷ c')) ≡ s ++ (b' ' ∷ [])
unfolding cut_comment
cut_comment-commented before budget [] c' h k = ground arith
cut_comment-commented before budget (c ∷ s) c' h k =
    ground (arith, cut_comment-commented c (budget - 1) s c' h.1, h.0.1)

strip_right-space : (s : Bytes) → strip_right (s ++ (b' ' ∷ [])) ≡ strip_right s
unfolding strip_right
strip_right-space [] = refl
strip_right-space (c ∷ s) =
    ap (λ rest. if is_blank rest && ascii_isspace c then [] else c ∷ rest) (strip_right-space s)

strip_left-first :
    (s t others : Bytes) (first : ℕ)
    → s ≡ first ∷ others
    → ascii_isspace first ≡ false
    → strip_left (s ++ t) ≡ s ++ t
unfolding strip_left
strip_left-first s t others first e v =
    ap (λ s. strip_left (s ++ t)) e
    ∙ ap (λ b. if b then strip_left (others ++ t) else first ∷ (others ++ t)) v
    ∙ ap (λ s. s ++ t) (sym e)

IsPlain-space : (s : Bytes) → IsPlain s → IsPlain (s ++ (b' ' ∷ []))
IsPlain-space [] h = ((ground arith, ground arith), tt)
IsPlain-space (c ∷ s) h = (h.0, IsPlain-space s h.1)

uncomment-plain :
    (s others : Bytes) (first : ℕ) → s ≡ first ∷ others → IsPlain s → uncomment s ≡ some s
unfolding uncomment
uncomment-plain [] others first e h = absurd (no_text e)
  where
    no_text : ¬ Path Bytes [] (first ∷ others)
    no_text e = cc
uncomment-plain (c ∷ s) others first e h =
    let on : cut_comment c (line_max - 1) s ≡ s = cut_comment-plain c (line_max - 1) s h.1 in
    let no_comment : (c == b'#') ≡ false = ground (arith, h.0.1) in
    ap (λ b. if b then none else some (c ∷ cut_comment c (line_max - 1) s)) no_comment
    ∙ ap (λ t. some (c ∷ t)) on

uncomment-commented :
    (s others c' : Bytes) (first : ℕ)
    → s ≡ first ∷ others
    → IsPlain s
    → length s < line_max - 1
    → uncomment (s ++ (b' ' ∷ b'#' ∷ c')) ≡ some (s ++ (b' ' ∷ []))
unfolding uncomment
uncomment-commented [] others c' first e h k = absurd (no_text e)
  where
    no_text : ¬ Path Bytes [] (first ∷ others)
    no_text e = cc
uncomment-commented (c ∷ s) others c' first e h k =
    let rest = s ++ (b' ' ∷ b'#' ∷ c') in
    let on : cut_comment c (line_max - 1) rest ≡ s ++ (b' ' ∷ []) =
      cut_comment-commented c (line_max - 1) s c' h.1 (omega arith) in
    let no_comment : (c == b'#') ≡ false = ground (arith, h.0.1) in
    ap (λ b. if b then none else some (c ∷ cut_comment c (line_max - 1) rest)) no_comment
    ∙ ap (λ t. some (c ∷ t)) on

strstrip-IsStripped :
    (s t : Bytes) → IsStripped s → strip_right (s ++ t) ≡ s → strstrip (s ++ t) ≡ s
unfolding strstrip
strstrip-IsStripped s t h e =
    ap strip_right (strip_left-first s t h.others h.first h.begins h.visible) ∙ e

-- A line that makes an argument, in front of the others.
one_more :
    (s line : Bytes) (expanded : List Bytes)
    → is_blank line ≡ false
    → strstrip line ≡ s
    → nonempty_lines (line ∷ expanded) ≡ s ∷ nonempty_lines expanded
unfolding nonempty_lines
one_more s line expanded h e =
    ap (λ b. if b then nonempty_lines expanded else strstrip line ∷ nonempty_lines expanded) h
    ∙ ap (λ s. s ∷ nonempty_lines expanded) e

not_blank : (s t others : Bytes) (first : ℕ) → s ≡ first ∷ others → is_blank (s ++ t) ≡ false
not_blank s t others first e = ap (λ s. is_blank (s ++ t)) e

expand_arg-Makes :
    (tags : List Tag) (line : Bytes) (made expanded : List Bytes)
    → AreTags tags
    → Makes line made
    → nonempty_lines (expand_arg tags line ∷ expanded) ≡ made ++ nonempty_lines expanded
unfolding expand_arg nonempty_lines uncomment
expand_arg-Makes tags _ _ expanded t blank_line =
    ap (λ l. nonempty_lines (l ∷ expanded)) (replace_tags-plain tags [] t tt)
expand_arg-Makes tags _ _ expanded t (comment s) = refl
expand_arg-Makes tags _ _ expanded t (argument s h k) =
    let kept : expand_arg tags s ≡ s =
      ap (λ o. elim o as (λ _. Bytes) [ none ↦ [] | some line ↦ replace_tags tags line ])
        (uncomment-plain s k.others k.first k.begins h)
      ∙ replace_tags-plain tags s t h in
    ap (λ l. nonempty_lines (l ∷ expanded)) (kept ∙ sym (append-nil s))
    ∙ one_more s (s ++ []) expanded (not_blank s [] k.others k.first k.begins)
        (strstrip-IsStripped s [] k (ap strip_right (append-nil s) ∙ k.ends))
expand_arg-Makes tags _ _ expanded t (commented s c' h k short) =
    let kept : expand_arg tags (s ++ (b' ' ∷ b'#' ∷ c')) ≡ s ++ (b' ' ∷ []) =
      ap (λ o. elim o as (λ _. Bytes) [ none ↦ [] | some line ↦ replace_tags tags line ])
        (uncomment-commented s k.others c' k.first k.begins h short)
      ∙ replace_tags-plain tags (s ++ (b' ' ∷ [])) t (IsPlain-space s h) in
    ap (λ l. nonempty_lines (l ∷ expanded)) kept
    ∙ one_more s (s ++ (b' ' ∷ [])) expanded (not_blank s (b' ' ∷ []) k.others k.first k.begins)
        (strstrip-IsStripped s (b' ' ∷ []) k (strip_right-space s ∙ k.ends))

pub expand_args-AllMake :
    (tags : List Tag) (lines args : List Bytes)
    → AreTags tags
    → AllMake lines args
    → nonempty_lines (expand_args tags lines) ≡ args
unfolding expand_args nonempty_lines
expand_args-AllMake tags _ _ t no_line = refl
expand_args-AllMake tags _ _ t (first_line line made lines args m ms) =
    expand_arg-Makes tags line made (expand_args tags lines) t m
    ∙ ap (◌++◌ made) (expand_args-AllMake tags lines args t ms)
