-- ===== src/Process/ShimArgs.antt =====
-- The command line that the runtime gives the shim, and what the shim makes of it.
use cc_oci_runtime.Prelude.{
  ℕ, ◌+◌, ◌-◌, ◌^◌, ◌<◌, ◌≡◌, ◌≢◌, refl, sym, ap, ◌∙◌, Bool, true, false, not, ◌&&◌, ◌||◌, Option,
  none, some, List, [], ◌∷◌, ltb, if◌then◌else◌, drop, All, ℤ, pos, negsuc, ltb_ℤ, eqb_ℤ, to_int32,
  Bytes, codes, decimal, AllDigits, is_digit, skip_space, strip_sign, digits_from, atol,
  atol-decimal, has_number-decimal, digits_from-decimal, decimal-AllDigits, decimal_head,
  to_int32_pos, arith,
}
use cc_oci_runtime.Container.Types.{Config}
use cc_oci_runtime.StateFile.Json.{show_int}
use cc_oci_runtime.Pods.Create.{next_stream, with_streams}
use cc_oci_runtime.Shim.State.{CcShim}
use cc_oci_runtime.Shim.Options.{
  skip_digits, out_of_range, unread, parse_numeric_option, ShimOption, container_id, proxy_sock_fd,
  proxy_io_fd, seq_no, err_seq_no, debug, help, unknown, Parsed, parsed, parse_option,
  check_options, parse_options, main_options, initial_shim, exit_success, exit_failure, to_uint64,
}
use cc_oci_runtime.Process.{
  dup_over_stdio, ShimChild, ChildEnd, became, aborted, reported, shim_args, shim_exec, shim_child,
}

-- How an option is given on a command line; one that is unknown has no spelling.
abbrev pub words : List ShimOption → List Bytes
words [] = []
words (container_id s ∷ os) = codes "-c" ∷ s ∷ words os
words (proxy_sock_fd s ∷ os) = codes "-p" ∷ s ∷ words os
words (proxy_io_fd s ∷ os) = codes "-o" ∷ s ∷ words os
words (seq_no s ∷ os) = codes "-s" ∷ s ∷ words os
words (err_seq_no s ∷ os) = codes "-e" ∷ s ∷ words os
words (debug ∷ os) = codes "-d" ∷ words os
words (help ∷ os) = codes "-h" ∷ words os
words (unknown ∷ os) = words os

abbrev pub IsKnown : ShimOption → Type 0
IsKnown unknown = ⊥
IsKnown _ = Unit

-- getopt_long with the options of the shim: it takes options that are given by their letters, each
-- with its argument as the next word, in order.
pub record GetoptLong : Type 0 where
  pub options : List Bytes → List ShimOption
  pub documented : (os : List ShimOption) → All IsKnown os → options (words os) ≡ os

skip_digits-AllDigits : (s : Bytes) → AllDigits s → skip_digits s ≡ []
unfolding skip_digits is_digit
skip_digits-AllDigits [] h = refl
skip_digits-AllDigits (c ∷ s) h = ground (arith, skip_digits-AllDigits s h.1)

digit_start :
    (d : ℕ) (s : Bytes) → is_digit d ≡ true → strip_sign (skip_space (d ∷ s)) ≡ (false, d ∷ s)
unfolding is_digit skip_space strip_sign
digit_start d s h = ground arith

decimal_start : (n : ℕ) → strip_sign (skip_space (decimal n)) ≡ (false, decimal n)
decimal_start n = let (d, s, e, k) = decimal_head n in rw e (digit_start d s k)

unread-decimal : (n : ℕ) → unread (decimal n) ≡ []
unfolding unread
unread-decimal n =
    ap (λ b. if b then skip_digits (strip_sign (skip_space (decimal n))).1 else decimal n)
      (has_number-decimal n)
    ∙ ap (λ r. skip_digits r.1) (decimal_start n)
    ∙ skip_digits-AllDigits (decimal n) (decimal-AllDigits n)

out_of_range-decimal : (n : ℕ) → n < 2 ^ 63 → out_of_range (decimal n) ≡ false
unfolding out_of_range
out_of_range-decimal n h =
    ap (λ r. if r.0 then ltb (2 ^ 63) (digits_from 0 r.1) else ltb (2 ^ 63 - 1) (digits_from 0 r.1))
      (decimal_start n)
    ∙ ap (ltb (2 ^ 63 - 1)) (digits_from-decimal n)
    ∙ ground arith

-- The shim reads back a number that was written in decimal.
parse_numeric_option-decimal : (n : ℕ) → n < 2 ^ 63 → parse_numeric_option (decimal n) ≡ pos n
unfolding parse_numeric_option
parse_numeric_option-decimal n h =
    ap (λ b. read b (out_of_range (decimal n)) (unread (decimal n))) (has_number-decimal n)
    ∙ ap (λ b. read true b (unread (decimal n))) (out_of_range-decimal n h)
    ∙ ap (read true false) (unread-decimal n)
    ∙ atol-decimal n h
  where
    read : Bool → Bool → Bytes → ℤ
    read numeric large left =
        if (numeric && large) || not (elim left [ [] ↦ true | _ ∷ _ ↦ false ])
        then negsuc 0
        else if numeric
        then atol (decimal n)
        else pos 0

-- The shim that is described by what it is given.
abbrev pub given_shim : Bytes → ℕ → ℕ → ℕ → ℕ → CcShim
given_shim id sock io base err = record {
  container_id = some id;
  proxy_sock_fd = pos sock;
  proxy_io_fd = pos io;
  io_seq_no = base;
  err_seq_no = err;
  exiting = false;
}

-- The options of the runtime, up to the sequence number.
first_options : Bytes → ℕ → ℕ → ℕ → List ShimOption → List ShimOption
first_options id sock io base rest =
    container_id id
    ∷ proxy_sock_fd (decimal sock)
    ∷ proxy_io_fd (decimal io)
    ∷ seq_no (decimal base)
    ∷ rest

module _ (sock io : ℕ) (s : sock < 2 ^ 31) (i : io < 2 ^ 31) where
  fd_reads : (n : ℕ) → n < 2 ^ 31 → to_int32 (parse_numeric_option (decimal n)) ≡ pos n
  fd_reads n h = ap to_int32 (parse_numeric_option-decimal n (omega arith)) ∙ to_int32_pos n h

  sock_step :
      (shim : CcShim)
      → parse_option shim false (proxy_sock_fd (decimal sock))
        ≡ parsed (record shim { proxy_sock_fd = pos sock }) false
  unfolding parse_option
  sock_step shim = ap keep (fd_reads sock s) ∙ ground arith
    where
      keep : ℤ → Parsed
      keep fd =
          if ltb_ℤ fd (pos 0)
          then exit_failure
          else parsed (record shim { proxy_sock_fd = fd }) false

  io_step :
      (shim : CcShim)
      → parse_option shim false (proxy_io_fd (decimal io))
        ≡ parsed (record shim { proxy_io_fd = pos io }) false
  unfolding parse_option
  io_step shim = ap keep (fd_reads io i) ∙ ground arith
    where
      keep : ℤ → Parsed
      keep fd =
          if ltb_ℤ fd (pos 0) then exit_failure else parsed (record shim { proxy_io_fd = fd }) false

seq_step :
    (shim : CcShim) (n : ℕ)
    → n < 2 ^ 31
    → parse_option shim false (seq_no (decimal n)) ≡ parsed (record shim { io_seq_no = n }) false
unfolding parse_option
seq_step shim n h = ap keep (parse_numeric_option-decimal n (omega arith)) ∙ ground arith
  where
    keep : ℤ → Parsed
    keep val =
        if eqb_ℤ val (negsuc 0)
        then exit_failure
        else parsed (record shim { io_seq_no = to_uint64 val }) false

err_step :
    (shim : CcShim) (n : ℕ)
    → n < 2 ^ 31
    → parse_option shim false (err_seq_no (decimal n))
      ≡ parsed (record shim { err_seq_no = n }) false
unfolding parse_option
err_step shim n h = ap keep (parse_numeric_option-decimal n (omega arith)) ∙ ground arith
  where
    keep : ℤ → Parsed
    keep val =
        if eqb_ℤ val (negsuc 0)
        then exit_failure
        else parsed (record shim { err_seq_no = to_uint64 val }) false

parse_options-cons :
    (shim next : CcShim) (dbg : Bool) (o : ShimOption) (os : List ShimOption)
    → parse_option shim false o ≡ parsed next dbg
    → parse_options shim false (o ∷ os) ≡ parse_options next dbg os
unfolding parse_options
parse_options-cons shim next dbg o os h =
    ap
      (λ r. elim r as (λ _. Parsed) [
        | parsed shim' dbg' ↦ parse_options shim' dbg' os
        | exit_success ↦ exit_success
        | exit_failure ↦ exit_failure
      ])
      h

check_given :
    (id : Bytes) (sock io base err : ℕ)
    → 0 < base
    → check_options (given_shim id sock io base err) false
      ≡ parsed (given_shim id sock io base err) false
unfolding check_options
check_given id sock io base err h = ground arith

-- What follows the sequence number.
err_options : Bool → ℕ → List ShimOption
err_options terminal base = if terminal then [] else err_seq_no (decimal (base + 1)) ∷ []

abbrev pub err_stream : Bool → ℕ → ℕ
err_stream terminal base = if terminal then 0 else base + 1

err_part :
    (terminal : Bool) (id : Bytes) (sock io base : ℕ)
    → 0 < base
    → base + 1 < 2 ^ 31
    → parse_options (given_shim id sock io base 0) false (err_options terminal base)
      ≡ parsed (given_shim id sock io base (err_stream terminal base)) false
unfolding err_options parse_options
err_part true id sock io base h k = check_given id sock io base 0 h
err_part false id sock io base h k =
    parse_options-cons (given_shim id sock io base 0) (given_shim id sock io base (base + 1)) false
      (err_seq_no (decimal (base + 1))) [] (err_step (given_shim id sock io base 0) (base + 1) k)
    ∙ check_given id sock io base (base + 1) h

main_options-given :
    (terminal : Bool) (id : Bytes) (sock io base : ℕ)
    → sock < 2 ^ 31
    → io < 2 ^ 31
    → 0 < base
    → base + 1 < 2 ^ 31
    → main_options (first_options id sock io base (err_options terminal base))
      ≡ parsed (given_shim id sock io base (err_stream terminal base)) false
unfolding main_options first_options parse_options parse_option
main_options-given terminal id sock io base s i h k =
    parse_options-cons named with_sock false (proxy_sock_fd (decimal sock)) from_io
      (sock_step sock io s i named)
    ∙ parse_options-cons with_sock with_io false (proxy_io_fd (decimal io)) from_seq
        (io_step sock io s i with_sock)
    ∙ parse_options-cons with_io (given_shim id sock io base 0) false (seq_no (decimal base))
        (err_options terminal base) (seq_step with_io base (omega arith))
    ∙ err_part terminal id sock io base h k
  where
    named : CcShim
    named = record initial_shim { container_id = some id }

    with_sock : CcShim
    with_sock = record named { proxy_sock_fd = pos sock }

    with_io : CcShim
    with_io = record with_sock { proxy_io_fd = pos io }

    from_seq : List ShimOption
    from_seq = seq_no (decimal base) ∷ err_options terminal base

    from_io : List ShimOption
    from_io = proxy_io_fd (decimal io) ∷ from_seq

AllKnown-first :
    (terminal : Bool) (id : Bytes) (sock io base : ℕ)
    → All IsKnown (first_options id sock io base (err_options terminal base))
unfolding first_options err_options
AllKnown-first true id sock io base = (tt, (tt, (tt, (tt, tt))))
AllKnown-first false id sock io base = (tt, (tt, (tt, (tt, (tt, tt)))))

-- The words behind the program's name are those of the options.
shim_args-words :
    (terminal : Bool) (program id : Bytes) (sock io base : ℕ)
    → base + 1 < 2 ^ 31
    → drop 1 (shim_args program (some id) terminal (pos sock) (pos io) (pos base))
      ≡ words (first_options id sock io base (err_options terminal base))
unfolding shim_args first_options err_options show_int
shim_args-words true program id sock io base h = refl
shim_args-words false program id sock io base h =
    ap
      (λ z.
        codes "-c"
        ∷ id
        ∷ codes "-p"
        ∷ decimal sock
        ∷ codes "-o"
        ∷ decimal io
        ∷ codes "-s"
        ∷ decimal base
        ∷ codes "-e"
        ∷ show_int z
        ∷ [])
      (to_int32_pos (base + 1) h)

-- A descriptor above 2 is used as it is.
dup_over_stdio-above :
    (opened closes : Bool) (dups : List ℤ) (n : ℕ)
    → 2 < n
    → dup_over_stdio opened closes dups (pos n) ≡ (if opened then some (pos n) else none)
unfolding dup_over_stdio
dup_over_stdio-above opened closes dups n h = ground arith

became-injective : {x y : List Bytes} → became x ≡ became y → x ≡ y
became-injective e = cc

reported≢became : {x : List Bytes} → reported ≢ became x
reported≢became e = cc

aborted≢became : {x : List Bytes} → aborted ≢ became x
aborted≢became e = cc

-- The descriptors and the stream that a shim which has been executed was given.
shim_exec-argv :
    (program : Bytes) (initial_workload : Bool) (config : Config) (a : ShimChild) (sock io : ℕ)
    (base : ℤ) (argv : List Bytes)
    → 2 < sock
    → 2 < io
    → shim_exec program initial_workload config a (pos sock) base (pos io) ≡ became argv
    → argv ≡ shim_args program config.container_id config.process.terminal (pos sock) (pos io) base
unfolding shim_exec
shim_exec-argv program initial_workload config a sock io base argv h k e = ground (
  arith,
  dup_over_stdio-above a.opened a.closes (a.dups (pos sock)) sock h,
  dup_over_stdio-above a.opened a.closes (a.dups (pos io)) io k,
)

-- The streams that the config gets are those of the shim.
stderr_stream-err_stream :
    (config : Config) (base : ℕ)
    → base + 1 < 2 ^ 31
    → (with_streams (pos base) config).process.stderr_stream
      ≡ pos (err_stream config.process.terminal base)
stderr_stream-err_stream config base h = by_terminal config.process.terminal
  where
    by_terminal :
        (terminal : Bool)
        → (if terminal then pos 0 else next_stream (pos base)) ≡ pos (err_stream terminal base)
    by_terminal true = refl
    by_terminal false = to_int32_pos (base + 1) h

-- A shim that the runtime has executed, with descriptors above 2 and a first stream that is not 0, all
-- within the range of an int, gets past its command line: it has the container's id, the two
-- descriptors, the first stream as its sequence number, and for stderr the next stream, or 0 if the
-- process has a terminal, as the config that is written to the state file.
pub main_options-shim_child :
    (getopt : GetoptLong) (program id : Bytes) (initial_workload : Bool) (config : Config)
    (a : ShimChild) (sock io base : ℕ) (argv : List Bytes)
    → config.container_id ≡ some id
    → a.proxy_socket_fd ≡ some (pos sock)
    → a.proxy_io_base ≡ some (pos base)
    → a.proxy_io_fd ≡ some (pos io)
    → (2 < sock) × (sock < 2 ^ 31)
    → (2 < io) × (io < 2 ^ 31)
    → (0 < base) × (base + 1 < 2 ^ 31)
    → shim_child program initial_workload config a ≡ became argv
    → (main_options (getopt.options (drop 1 argv))
        ≡ parsed (given_shim id sock io base (err_stream config.process.terminal base)) false)
      × ((with_streams (pos base) config).process.stderr_stream
          ≡ pos (err_stream config.process.terminal base))
unfolding shim_child
main_options-shim_child g program id initial config a sock io base argv e1 e2 e3 e4 s i b h = (
  ap (λ ws. main_options (g.options ws)) same_words
      ∙ ap main_options (
          g.documented (first_options id sock io base (err_options t base))
            (AllKnown-first t id sock io base))
      ∙ main_options-given t id sock io base s.1 i.1 b.0 b.1,
  stderr_stream-err_stream config base b.1,
)
  where
    t : Bool
    t = config.process.terminal

    ended : Option ℤ → Option ℤ → Option ℤ → ChildEnd
    ended sock base io = elim sock [
      | none ↦ reported
      | some sock ↦ elim base [
        | none ↦ reported
        | some base ↦ elim io [
          | none ↦ reported
          | some io ↦ shim_exec program initial config a sock base io
        ]
      ]
    ]

    executed : shim_exec program initial config a (pos sock) (pos base) (pos io) ≡ became argv
    executed =
        ap (ended (some (pos sock)) (some (pos base))) (sym e4)
        ∙ ap (λ o. ended (some (pos sock)) o a.proxy_io_fd) (sym e3)
        ∙ ap (λ o. ended o a.proxy_io_base a.proxy_io_fd) (sym e2)
        ∙ h

    same_words : drop 1 argv ≡ words (first_options id sock io base (err_options t base))
    same_words =
        ap (drop 1)
          (shim_exec-argv program initial config a sock io (pos base) argv s.0 i.0 executed)
        ∙ ap (λ o. drop 1 (shim_args program o t (pos sock) (pos io) (pos base))) e1
        ∙ shim_args-words t program id sock io base b.1
