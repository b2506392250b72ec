-- ===== src/Shim/Options.antt =====
-- shim/shim.c: the command line of the shim, after getopt_long has taken it apart.
use cc_oci_runtime.Prelude.{
  ℕ, ◌-◌, ◌%◌, ◌<◌, ◌^◌, ◌≡◌, ◌≢◌, ◌⊎◌, inl, inr, refl, Bool, true, false, not, ◌&&◌, ◌||◌, none,
  some, List, [], ◌∷◌, ltb, ◌==◌, if◌then◌else◌, ℤ, pos, negsuc, ltb_ℤ, eqb_ℤ, to_int32, Bytes,
  is_digit, skip_space, strip_sign, digits_from, has_number, atol, arith,
}
use cc_oci_runtime.Shim.State.{CcShim}

unfoldable pub skip_digits : Bytes → Bytes
unfolding is_digit
skip_digits [] = []
skip_digits (c ∷ s) = let rest = skip_digits s in if is_digit c then rest else c ∷ s

abbrev is_empty : Bytes → Bool
is_empty [] = true
is_empty (_ ∷ _) = false

-- Whether strtoll sets ERANGE, for a text with a number.
unfoldable pub out_of_range : Bytes → Bool
unfolding skip_space strip_sign digits_from
out_of_range s =
    let (minus, t) = strip_sign (skip_space s) in
    if minus then ltb (2 ^ 63) (digits_from 0 t) else ltb (2 ^ 63 - 1) (digits_from 0 t)

-- The text up to which strtoll has read: all of it if there is no number.
unfoldable pub unread : Bytes → Bytes
unfolding has_number skip_digits skip_space strip_sign
unread s = if has_number s then skip_digits (strip_sign (skip_space s)).1 else s

-- strtoll gives 0 where there is no number.
abbrev pub strtoll : Bytes → ℤ
strtoll s = if has_number s then atol s else pos 0

unfoldable pub parse_numeric_option : Bytes → ℤ
unfolding out_of_range unread
parse_numeric_option input =
    if (has_number input && out_of_range input) || not (is_empty (unread input))
    then negsuc 0
    else strtoll input

-- The options in the order of the command line, with their arguments.
pub data ShimOption : Type 0 where
  container_id proxy_sock_fd proxy_io_fd seq_no err_seq_no : Bytes → ShimOption
  debug help unknown : ShimOption

-- (uint64_t) of a signed integer.
abbrev pub to_uint64 : ℤ → ℕ
to_uint64 (pos n) = n % 2 ^ 64
to_uint64 (negsuc n) = 2 ^ 64 - 1 - n % 2 ^ 64

-- How the parsing of one option, or of all, ends.
pub data Parsed : Type 0 where
  parsed : CcShim → Bool → Parsed
  exit_success : Parsed
  exit_failure : Parsed

abbrev pub initial_shim : CcShim
initial_shim = record {
  container_id = none;
  proxy_sock_fd = negsuc 0;
  proxy_io_fd = negsuc 0;
  io_seq_no = 0;
  err_seq_no = 0;
  exiting = false;
}

unfoldable pub parse_option : CcShim → Bool → ShimOption → Parsed
parse_option shim dbg (container_id optarg) =
    parsed (record shim { container_id = some optarg }) dbg
parse_option shim dbg (proxy_sock_fd optarg) =
    let fd = to_int32 (parse_numeric_option optarg) in
    if ltb_ℤ fd (pos 0) then exit_failure else parsed (record shim { proxy_sock_fd = fd }) dbg
parse_option shim dbg (proxy_io_fd optarg) =
    let fd = to_int32 (parse_numeric_option optarg) in
    if ltb_ℤ fd (pos 0) then exit_failure else parsed (record shim { proxy_io_fd = fd }) dbg
parse_option shim dbg (seq_no optarg) =
    let val = parse_numeric_option optarg in
    if eqb_ℤ val (negsuc 0)
    then exit_failure
    else parsed (record shim { io_seq_no = to_uint64 val }) dbg
parse_option shim dbg (err_seq_no optarg) =
    let val = parse_numeric_option optarg in
    if eqb_ℤ val (negsuc 0)
    then exit_failure
    else parsed (record shim { err_seq_no = to_uint64 val }) dbg
parse_option shim dbg debug = parsed shim true
parse_option shim dbg help = exit_success
parse_option shim dbg unknown = exit_failure

-- The checks behind the loop.
unfoldable pub check_options : CcShim → Bool → Parsed
check_options shim dbg = elim shim.container_id [
  | none ↦ exit_failure
  | some _ ↦
      if eqb_ℤ shim.proxy_sock_fd (negsuc 0)
      then exit_failure
      else if eqb_ℤ shim.proxy_io_fd (negsuc 0)
      then exit_failure
      else if shim.io_seq_no == 0
      then exit_failure
      else parsed shim dbg
]

unfoldable pub parse_options : CcShim → Bool → List ShimOption → Parsed
unfolding parse_option check_options
parse_options shim dbg [] = check_options shim dbg
parse_options shim dbg (o ∷ os) = elim (parse_option shim dbg o) [
  | parsed shim' dbg' ↦ parse_options shim' dbg' os
  | exit_success ↦ exit_success
  | exit_failure ↦ exit_failure
]

unfoldable pub main_options : List ShimOption → Parsed
unfolding parse_options
main_options os = parse_options initial_shim false os

-- What `main` relies on after the checks.
pub record IsReady (shim : CcShim) : Type 0 where
  pub named : shim.container_id ≢ none
  pub sock : ltb_ℤ shim.proxy_sock_fd (pos 0) ≡ false
  pub io : ltb_ℤ shim.proxy_io_fd (pos 0) ≡ false
  pub seq : 0 < shim.io_seq_no
  pub seq_fits : shim.io_seq_no < 2 ^ 64
  pub running : shim.exiting ≡ false

-- What holds while the options are read: a descriptor is missing, or in range.
record Inv (shim : CcShim) : Type 0 where
  sock : (shim.proxy_sock_fd ≡ negsuc 0) ⊎ (ltb_ℤ shim.proxy_sock_fd (pos 0) ≡ false)
  io : (shim.proxy_io_fd ≡ negsuc 0) ⊎ (ltb_ℤ shim.proxy_io_fd (pos 0) ≡ false)
  seq_fits : shim.io_seq_no < 2 ^ 64
  running : shim.exiting ≡ false

to_uint64-lt : (z : ℤ) → to_uint64 z < 2 ^ 64
to_uint64-lt (pos n) = omega arith
to_uint64-lt (negsuc n) = omega arith

parse_option-Inv :
    (shim : CcShim) (dbg : Bool) (o : ShimOption) {shim' : CcShim} {dbg' : Bool}
    → Inv shim
    → parse_option shim dbg o ≡ parsed shim' dbg'
    → Inv shim'
unfolding parse_option
parse_option-Inv shim dbg (proxy_sock_fd s) h e = ground arith
parse_option-Inv shim dbg (seq_no s) h e = ground (arith, to_uint64-lt (parse_numeric_option s))
parse_option-Inv shim dbg _ h e = ground arith

check_options-IsReady :
    (shim : CcShim) (dbg : Bool) {shim' : CcShim} {dbg' : Bool}
    → Inv shim
    → check_options shim dbg ≡ parsed shim' dbg'
    → IsReady shim'
unfolding check_options
check_options-IsReady shim dbg h e = ground arith

Parsed-cases :
    (r : Parsed)
    → ((shim : CcShim) × (dbg : Bool) × (r ≡ parsed shim dbg))
      ⊎ ((r ≡ exit_success) ⊎ (r ≡ exit_failure))
Parsed-cases (parsed s d) = inl (s, d, refl)
Parsed-cases exit_success = inr (inl refl)
Parsed-cases exit_failure = inr (inr refl)

exit_success≢parsed : {s : CcShim} {d : Bool} → exit_success ≢ parsed s d
exit_success≢parsed e = cc

exit_failure≢parsed : {s : CcShim} {d : Bool} → exit_failure ≢ parsed s d
exit_failure≢parsed e = cc

parse_options-IsReady :
    (os : List ShimOption) (shim : CcShim) (dbg : Bool) {shim' : CcShim} {dbg' : Bool}
    → Inv shim
    → parse_options shim dbg os ≡ parsed shim' dbg'
    → IsReady shim'
unfolding parse_options
parse_options-IsReady [] shim dbg h e = check_options-IsReady shim dbg h e
parse_options-IsReady (o ∷ os) shim dbg h e = elim (Parsed-cases (parse_option shim dbg o)) [
  | inl (next, d, p) ↦
      parse_options-IsReady os next d (parse_option-Inv shim dbg o h p) (rw (p, parse_options) at e)
  | inr (inl p) ↦ absurd (exit_success≢parsed (rw (p, parse_options) at e))
  | inr (inr p) ↦ absurd (exit_failure≢parsed (rw (p, parse_options) at e))
]

-- A shim that gets past its command line has a container id, two descriptors that are not negative
-- and a sequence number that is not 0 and fits a uint64_t, whatever the options and their order.
pub main_options-IsReady :
    (os : List ShimOption) {shim : CcShim} {dbg : Bool}
    → main_options os ≡ parsed shim dbg
    → IsReady shim
unfolding main_options
main_options-IsReady os e =
    parse_options-IsReady os initial_shim false
      (record { sock = inl refl; io = inl refl; seq_fits = omega arith; running = refl }) e
