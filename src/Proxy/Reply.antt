-- ===== src/Proxy/Reply.antt =====
-- cc_proxy_msg_read of src/proxy.c: the answer of cc-proxy to a message.
use cc_oci_runtime.Prelude.{
  ℕ, ◌+◌, Bool, true, false, not, ◌&&◌, Option, none, some, List, [], ◌∷◌, ◌++◌, leb, ltb, ◌==◌,
  if◌then◌else◌, Bytes, length, drop,
}
use cc_oci_runtime.Shim.Endian.{get_big_endian_32}

-- What a call of recvmsg gives: some bytes, with a descriptor in the control data or without, the end
-- of the stream, or -1 with EAGAIN or another error.
pub data Recv : Type 0 where
  packet : Bytes → Option ℕ → Recv
  end_of_file eagain failed : Recv

-- struct watcher_proxy_data, as far as a read uses it. `wants_fd`: `oob_fd` is not NULL; `oob_fd` is
-- what has been stored there.
pub record Watch : Type 0 where
  pub wants_fd : Bool
  pub oob_fd_found : Bool
  pub oob_fd : Option ℕ
  pub msg_received : Bytes

-- How a call ends: the watch stays, the main loop is left, the watch is dropped with the main loop
-- still running, or the call has not come back when the input ends.
pub data Reading : Type 0 where
  keeps_watch quits_loop drops_watch waiting : Watch → Reading

abbrev pub message_header_length : ℕ
message_header_length = 8

-- The length in the header. The buffer holds zeros behind what has been read.
-- cc_oci_get_big_endian_32 of src/util.c does what the function of the shim does.
unfoldable pub payload_length : Bytes → ℕ
unfolding get_big_endian_32
payload_length iov_buffer = elim (get_big_endian_32 (iov_buffer ++ (0 ∷ 0 ∷ 0 ∷ 0 ∷ []))) [
  | none ↦ 0
  | some n ↦ n
]

-- The loop that reads the missing bytes. A read of no bytes appends nothing and goes on.
unfoldable pub read_more : Watch → ℕ → ℕ → List Recv → Reading
read_more w needed total [] = waiting w
read_more w needed total (packet bytes cmsg ∷ arrivals) =
    read_more (record w { msg_received = w.msg_received ++ bytes }) needed (total + length bytes)
      arrivals
read_more w needed total (end_of_file ∷ arrivals) = read_more w needed total arrivals
read_more w needed total (eagain ∷ arrivals) = elim (ltb total needed) [
  | true ↦ read_more w needed total arrivals
  | false ↦ quits_loop w
]
read_more w needed total (failed ∷ arrivals) = quits_loop w

-- A first read that is taken for the start of a reply.
unfoldable pub read_reply : Watch → Bytes → List Recv → Reading
unfolding payload_length read_more
read_reply w bytes arrivals =
    let needed = payload_length bytes + message_header_length in
    let w' : Watch = record w {
      msg_received = w.msg_received ++ drop message_header_length bytes;
    } in
    if leb needed (length bytes) then quits_loop w' else read_more w' needed (length bytes) arrivals

abbrev starts_with_flag : Bytes → Bool
starts_with_flag [] = false
starts_with_flag (c ∷ _) = c == b'F'

-- A first read when a descriptor is still to come.
unfoldable pub read_fd : Watch → Bytes → Option ℕ → Reading
read_fd w bytes none = quits_loop w
read_fd w bytes (some fd) =
    if starts_with_flag bytes
    then keeps_watch (record w { oob_fd_found = true; oob_fd = some fd })
    else quits_loop w

unfoldable pub msg_read : Watch → List Recv → Reading
unfolding read_reply read_fd
msg_read w [] = waiting w
msg_read w (end_of_file ∷ arrivals) = drops_watch w
msg_read w (eagain ∷ arrivals) = drops_watch w
msg_read w (failed ∷ arrivals) = drops_watch w
msg_read w (packet bytes cmsg ∷ arrivals) =
    if w.wants_fd && not w.oob_fd_found then read_fd w bytes cmsg else read_reply w bytes arrivals

-- The main loop on this watch, which calls the function until it returns false. A call that keeps the
-- watch has read once.
unfoldable pub run_reads : Watch → List Recv → Reading
unfolding msg_read
run_reads w [] = waiting w
run_reads w (r ∷ arrivals) = elim (msg_read w (r ∷ arrivals)) [
  | keeps_watch w' ↦ run_reads w' arrivals
  | quits_loop w' ↦ quits_loop w'
  | drops_watch w' ↦ drops_watch w'
  | waiting w' ↦ waiting w'
]
