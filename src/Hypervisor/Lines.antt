-- ===== src/Hypervisor/Lines.antt =====
-- The lines of the file with the hypervisor's arguments: cc_oci_file_to_strv and
-- cc_oci_replace_string of src/util.c, and the comments of cc_oci_expand_cmdline.
use cc_oci_runtime.Prelude.{
  ℕ, ◌-◌, Bool, true, false, not, ◌&&◌, ◌||◌, Option, none, some, List, [], ◌∷◌, ◌++◌, ◌==◌,
  if◌then◌else◌, Bytes, drop, strsplit,
}
use cc_oci_runtime.Proxy.Frame.{utf8_strlen}

abbrev pub is_blank : Bytes → Bool
is_blank [] = true
is_blank (_ ∷ _) = false

-- The last line is dropped if it is empty.
unfoldable pub drop_blank_end : List Bytes → List Bytes
drop_blank_end [] = []
drop_blank_end (l ∷ []) = if is_blank l then [] else l ∷ []
drop_blank_end (l ∷ m ∷ ls) = l ∷ drop_blank_end (m ∷ ls)

abbrev pub is_absolute : Bytes → Bool
is_absolute [] = false
is_absolute (c ∷ _) = c == b'/'

-- `contents` gives the text of a file that can be read.
unfoldable pub file_to_strv : (Bytes → Option Bytes) → Option Bytes → Option (List Bytes)
unfolding drop_blank_end
file_to_strv contents none = none
file_to_strv contents (some file) = if not (is_absolute file) then none else elim (contents file) [
  | none ↦ none
  | some s ↦ elim (strsplit b'\n' s) [ [] ↦ none | l ∷ ls ↦ some (drop_blank_end (l ∷ ls)) ]
]

unfoldable pub has_prefix : Bytes → Bytes → Bool
has_prefix [] s = true
has_prefix (c ∷ p) [] = false
has_prefix (c ∷ p) (d ∷ s) = c == d && has_prefix p s

-- The first place where `from` stands is replaced, if there is one.
unfoldable pub replace_first : Bytes → Bytes → Bytes → Bytes
unfolding has_prefix utf8_strlen
replace_first from to [] = []
replace_first from to (c ∷ s) =
    let rest = replace_first from to s in
    if has_prefix from (c ∷ s) then to ++ drop (utf8_strlen from) (c ∷ s) else c ∷ rest

unfoldable pub replace_string : Bytes → Bytes → Option Bytes → Bytes
unfolding replace_first
replace_string str from none = str
replace_string str from (some to) = if is_blank from then str else replace_first from to str

abbrev pub line_max : ℕ
line_max = 2048

-- g_ascii_isspace.
abbrev pub ascii_isspace : ℕ → Bool
ascii_isspace c = c == 32 || (c == 9 || (c == 10 || (c == 12 || c == 13)))

-- A '#' behind a space, and what follows it, is cut off. `before` is the byte before, and `budget` how
-- far g_strstr_len still looks.
unfoldable pub cut_comment : ℕ → ℕ → Bytes → Bytes
cut_comment before budget [] = []
cut_comment before budget (c ∷ s) =
    let on = cut_comment c line_max s in
    let rest = cut_comment c (budget - 1) s in
    if budget == 0
    then c ∷ s
    else if c == b'#'
    then (if ascii_isspace before then [] else c ∷ on)
    else c ∷ rest

-- A line without its comment; `none` for one that is a comment.
unfoldable pub uncomment : Bytes → Option Bytes
unfolding cut_comment
uncomment [] = some []
uncomment (c ∷ s) = if c == b'#' then none else some (c ∷ cut_comment c (line_max - 1) s)

unfoldable pub strip_left : Bytes → Bytes
strip_left [] = []
strip_left (c ∷ s) = let rest = strip_left s in if ascii_isspace c then rest else c ∷ s

unfoldable pub strip_right : Bytes → Bytes
strip_right [] = []
strip_right (c ∷ s) =
    let rest = strip_right s in if is_blank rest && ascii_isspace c then [] else c ∷ rest

-- g_strstrip.
unfoldable pub strstrip : Bytes → Bytes
unfolding strip_left strip_right
strstrip s = strip_right (strip_left s)
