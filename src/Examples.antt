-- ===== src/Examples.antt =====
-- The theorems on src/semver.c, shim/shim.c and shim/utils.c at concrete inputs.
use cc_oci_runtime.Prelude.{
  ◌+◌, ◌≡◌, refl, ℤ, pos, none, some, List, [], ◌∷◌, true, false, codes, atol, length, arith,
}
use cc_oci_runtime.Semver.{semver_cmp_full}
use cc_oci_runtime.Semver.Precedence.{Version, numeric, word, text, IsVersion, sign, precedence}
use cc_oci_runtime.Semver.Refines.{semver_cmp_full-precedence}
use cc_oci_runtime.Shim.Kernel.{Arrival, piece, broken, accepts, blocked}
use cc_oci_runtime.Shim.State.{CcShim}
use cc_oci_runtime.Shim.Endian.{set_big_endian_32, set_big_endian_64}
use cc_oci_runtime.Shim.Control.{write_message}
use cc_oci_runtime.Shim.Stream.{IoMessage, message, stream_message, read_io_message, out_for}
use cc_oci_runtime.Shim.Reassembly.{Reads, read_io_message-stream_message}
use cc_oci_runtime.Shim.Delivery.{write_message_spins, copies, always_four}
use cc_oci_runtime.Shim.Session.{deliver_on, Delivers, handle_proxy_output-deliver}
use cc_oci_runtime.Shim.Loop.{Poll, main_loop}
use cc_oci_runtime.Shim.Exit.{Message, stream_of, EofThenStatus, main_loop-exit}
use cc_oci_runtime.Shim.Termination.{read_io_message_total}
use cc_oci_runtime.Shim.Options.{
  ShimOption, proxy_sock_fd, proxy_io_fd, seq_no, main_options, IsReady, main_options-IsReady,
  parse_numeric_option,
}

-- "hi" with the sequence number 7, in two pieces of which the second holds a byte of the next message.
abbrev arrivals : List Arrival
arrivals =
    piece (0 ∷ 0 ∷ 0 ∷ 0 ∷ 0 ∷ []) ∷ piece (0 ∷ 0 ∷ 7 ∷ 0 ∷ 0 ∷ 0 ∷ 14 ∷ 104 ∷ 105 ∷ 9 ∷ []) ∷ []

abbrev shim : CcShim
shim = record {
  container_id = some (codes "c");
  proxy_sock_fd = pos 3;
  proxy_io_fd = pos 4;
  io_seq_no = 7;
  err_seq_no = 8;
  exiting = false;
}

read_io_message-stream_message_example :
    Reads
      (read_io_message arrivals)
      (message 7 (length (codes "hi") + 12) (stream_message 7 (codes "hi")))
      (9 ∷ [])
unfolding stream_message set_big_endian_64 set_big_endian_32
read_io_message-stream_message_example =
    read_io_message-stream_message arrivals 7 (codes "hi") (9 ∷ []) (omega arith) (omega arith) tt
      refl

handle_proxy_output-deliver_example :
    Delivers shim arrivals
      (accepts 1 ∷ accepts 5 ∷ [])
      (deliver_on shim (out_for shim 7) (codes "hi") (accepts 1 ∷ accepts 5 ∷ []))
      (9 ∷ [])
unfolding stream_message set_big_endian_64 set_big_endian_32
handle_proxy_output-deliver_example =
    handle_proxy_output-deliver shim arrivals (accepts 1 ∷ accepts 5 ∷ []) 7 (codes "hi") (9 ∷ [])
      (omega arith) (omega arith) tt refl

read_io_message_total_example :
    (r : IoMessage × List Arrival) × (read_io_message (piece (1 ∷ []) ∷ broken ∷ []) ≡ some r)
read_io_message_total_example = read_io_message_total (piece (1 ∷ []) ∷ broken ∷ [])

-- Output, the announcement, and the status 42 on stderr's number, in one piece.
abbrev messages : List Message
messages = (7, codes "x") ∷ (7, []) ∷ (8, 42 ∷ []) ∷ []

abbrev whole : List Arrival
whole = piece (stream_of messages) ∷ []

-- A poll that finds the I/O channel ready.
abbrev io_poll : Poll
io_poll = record {
  fails = false;
  signals = [];
  io_ready = true;
  answers = accepts 1 ∷ [];
  ctl = none;
  stdin = none;
}

main_loop-exit_example : EofThenStatus shim 42 messages
unfolding main_loop stream_message set_big_endian_64 set_big_endian_32
    cc_oci_runtime.Shim.Stream.read_loop cc_oci_runtime.Shim.Kernel.read
    cc_oci_runtime.Shim.Endian.get_big_endian_32 cc_oci_runtime.Shim.Endian.get_big_endian_64
main_loop-exit_example =
    main_loop-exit shim 42 (io_poll ∷ io_poll ∷ io_poll ∷ []) true whole messages refl
      ((omega arith, omega arith), ((omega arith, omega arith), ((omega arith, omega arith), tt)))
      tt refl refl

write_message_spins_example :
    write_message (always_four 3) (1 ∷ 2 ∷ 3 ∷ 4 ∷ []) ≡ blocked (copies 3 (1 ∷ 2 ∷ 3 ∷ 4 ∷ []))
write_message_spins_example = write_message_spins 3 1 2 3 4

abbrev command_line : List ShimOption
command_line =
    ShimOption.container_id (codes "c")
    ∷ proxy_sock_fd (codes "3")
    ∷ proxy_io_fd (codes "4")
    ∷ seq_no (codes "7")
    ∷ []

main_options-IsReady_example : IsReady (record {
  container_id = some (codes "c");
  proxy_sock_fd = pos 3;
  proxy_io_fd = pos 4;
  io_seq_no = 7;
  err_seq_no = 0;
  exiting = false;
})
unfolding main_options parse_numeric_option atol
main_options-IsReady_example = main_options-IsReady command_line {dbg = false} refl

-- 1.2.3-rc.4 and 1.2.3-rc.10+x.
abbrev older : Version
older = record {
  major = 1;
  minor = 2;
  patch = 3;
  pre = word (codes "rc") ∷ numeric 4 ∷ [];
  build = none;
}

abbrev newer : Version
newer = record {
  major = 1;
  minor = 2;
  patch = 3;
  pre = word (codes "rc") ∷ numeric 10 ∷ [];
  build = some (codes "x");
}

older-IsVersion : IsVersion older
older-IsVersion = record {
  major_fits = omega arith;
  minor_fits = omega arith;
  patch_fits = omega arith;
  idents = ((refl, (refl, (refl, tt)), (refl, (refl, tt))), (omega arith, tt));
  metadata = tt;
}

newer-IsVersion : IsVersion newer
newer-IsVersion = record {
  major_fits = omega arith;
  minor_fits = omega arith;
  patch_fits = omega arith;
  idents = ((refl, (refl, (refl, tt)), (refl, (refl, tt))), (omega arith, tt));
  metadata = tt;
}

semver_cmp_full-precedence_example :
    (z : ℤ) × (semver_cmp_full (text older) (text newer) ≡ some z)
    × (sign z ≡ precedence older newer)
semver_cmp_full-precedence_example =
    semver_cmp_full-precedence older newer older-IsVersion newer-IsVersion
