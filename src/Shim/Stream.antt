-- ===== src/Shim/Stream.antt =====
-- shim/shim.c: stdin to the proxy's I/O channel, and that channel to stdout and stderr.
use Prim.Native.Nat.{min}
use cc_oci_runtime.Prelude.{
  ℕ, zero, suc, ◌+◌, ◌-◌, ◌%◌, ◌^◌, Bool, true, false, not, ◌&&◌, ◌||◌, Option, none, some, List,
  [], ◌∷◌, ◌++◌, ltb, leb, ◌==◌, if◌then◌else◌, pos, ltb_ℤ, Bytes, length, take, drop, get_elem?,
  ◌>>=◌,
}
use cc_oci_runtime.Shim.Kernel.{
  Arrival, ReadResult, received, end_of_file, read_error, read, Answer, accepts, refuses, Sending,
  sent, failed, blocked, preceded_by,
}
use cc_oci_runtime.Shim.Endian.{
  set_big_endian_32, set_big_endian_64, get_big_endian_32, get_big_endian_64,
}
use cc_oci_runtime.Shim.State.{
  CcShim, stream_header_size, stream_header_length_offset, hyperstart_max_recv_bytes, bufsiz,
}

-- The header that is written in front of the bytes read: the length counts the header too.
unfoldable pub stream_message : ℕ → Bytes → Bytes
stream_message seq payload =
    set_big_endian_64 seq
    ++ (set_big_endian_32 ((length payload + stream_header_size) % 2 ^ 32) ++ payload)

-- What the single write makes of the message: the bytes that the proxy receives.
abbrev one_write : Answer → Bytes → Sending
one_write (accepts k) message = sent (take k message)
one_write refuses message = failed []

-- What a round on stdin sends, and whether stdin leaves the polled descriptors.
pub record StdinRound : Type 0 where
  pub to_proxy : Sending
  pub stdin_closed : Bool

unfoldable pub handle_stdin : CcShim → ReadResult → Answer → StdinRound
unfolding stream_message
handle_stdin shim nread answer =
    if ltb_ℤ shim.proxy_io_fd (pos 0)
    then record { to_proxy = sent []; stdin_closed = false }
    else elim nread [
      | read_error ↦ record { to_proxy = sent []; stdin_closed = false }
      | end_of_file ↦ record {
        to_proxy = one_write answer (stream_message shim.io_seq_no []);
        stdin_closed = true;
      }
      | received bytes ↦ record {
        to_proxy = one_write answer (stream_message shim.io_seq_no bytes);
        stdin_closed = false;
      }
    ]

-- What `read_IO_message` comes to: a message with its sequence number and the length that its header
-- gives, NULL for one that is too big, or the end of the process.
pub data IoMessage : Type 0 where
  message : ℕ → ℕ → Bytes → IoMessage
  too_big : IoMessage
  err_exit : IoMessage

-- After the last byte: the sequence number. A read past the end of the buffer is `none`.
unfoldable pub finish_message : Bytes → ℕ → Option IoMessage
finish_message buf stream_len = do seq ← get_big_endian_64 buf; some (message seq stream_len buf)

-- What one round of the loop leads to: the loop is left with a result or by the `break`, or goes on
-- with another `need_read`, `stream_len` and buffer.
pub data Round : Type 0 where
  leave : IoMessage → Round
  break_off : ℕ → Bytes → Round
  go_on : ℕ → ℕ → Bytes → Round

-- The length in the header has just been read.
unfoldable pub check_length : ℕ → ℕ → Bytes → Round
check_length need_read stream_len buf =
    if stream_len == stream_header_size
    then break_off stream_len buf
    else if ltb hyperstart_max_recv_bytes stream_len
    then leave too_big
    else if ltb stream_header_size stream_len
    then go_on stream_len stream_len buf
    else go_on need_read stream_len buf

unfoldable pub after_read : ℕ → ℕ → Bytes → Option Round
unfolding check_length
after_read need_read stream_len buf =
    if stream_len == 0 && leb stream_header_size (length buf)
    then (do
      len ← get_big_endian_32 (drop stream_header_length_offset buf)
      some (check_length need_read len buf))
    else some (go_on need_read stream_len buf)

-- `buf` is what has been read so far, of a buffer of `need_read` bytes.
unfoldable pub read_round : ℕ → ℕ → Bytes → ReadResult → Option Round
unfolding after_read
read_round need_read stream_len buf read_error = some (leave err_exit)
read_round need_read stream_len buf end_of_file = some (leave err_exit)
read_round need_read stream_len buf (received bytes) =
    after_read need_read stream_len (buf ++ bytes)

abbrev pub want : ℕ → Bytes → ℕ
want need_read buf = min (need_read - length buf) bufsiz

-- The loop of `read_IO_message`, with fuel; `none` if the fuel runs out. `stream_len` is 0 until the
-- header has been read.
unfoldable pub read_loop : ℕ → List Arrival → ℕ → ℕ → Bytes → Option (IoMessage × List Arrival)
unfolding read_round finish_message
read_loop zero arrivals need_read stream_len buf = none
read_loop (suc fuel) arrivals need_read stream_len buf = elim (ltb (length buf) need_read) [
  | true ↦ elim (read_round need_read stream_len buf (read (want need_read buf) arrivals).0) [
    | none ↦ none
    | some (leave m) ↦ some (m, (read (want need_read buf) arrivals).1)
    | some (break_off len b) ↦
        finish_message b len >>= λ m. some (m, (read (want need_read buf) arrivals).1)
    | some (go_on need len b) ↦ read_loop fuel (read (want need_read buf) arrivals).1 need len b
  ]
  | false ↦ finish_message buf stream_len >>= λ m. some (m, arrivals)
]

-- Each round reads a byte at least, and no more than the largest message are read.
abbrev pub read_fuel : ℕ
read_fuel = suc (suc hyperstart_max_recv_bytes)

unfoldable pub read_io_message : List Arrival → Option (IoMessage × List Arrival)
read_io_message arrivals = read_loop read_fuel arrivals stream_header_size 0 []

-- Where the bytes of a message go.
pub data Out : Type 0 where
  stdout stderr : Out

-- What a round on the proxy's I/O channel comes to: output, nothing, or the end of the process with
-- a status. The status is a `char`, of which the parent sees the low eight bits.
pub data Output : Type 0 where
  writes : Out → Sending → Output
  nothing : Output
  exit : ℕ → Output
  exit_failure : Output

-- The loop that writes the payload; each round uses up one answer of the kernel.
unfoldable pub write_all : List Answer → Bytes → Sending
write_all answers [] = sent []
write_all [] (b ∷ bs) = blocked []
write_all (refuses ∷ answers) (b ∷ bs) = failed []
write_all (accepts k ∷ answers) (b ∷ bs) =
    let bytes = b ∷ bs in
    let ret = min k (length bytes) in
    let onwards = preceded_by (take ret bytes) (write_all answers (drop ret bytes)) in
    if ret == 0 then failed [] else onwards

-- On which descriptor a message is shown: the sequence numbers are uint64_t.
unfoldable pub out_for : CcShim → ℕ → Option Out
out_for shim seq =
    if seq == shim.io_seq_no
    then some stdout
    else if seq == (shim.io_seq_no + 1) % 2 ^ 64
    then some stderr
    else none

abbrev exit_with : CcShim → Option ℕ → CcShim × Output
exit_with shim none = (shim, nothing)
exit_with shim (some code) = (shim, exit code)

-- A message whose length the caller has found to be in bounds.
unfoldable pub show_message : CcShim → Out → ℕ → Bytes → List Answer → CcShim × Output
unfolding write_all
show_message shim outfd stream_len buf answers =
    if not shim.exiting && stream_len == stream_header_size
    then (record shim { exiting = true }, nothing)
    else if shim.exiting && stream_len == stream_header_size + 1
    then exit_with shim (get_elem? buf stream_header_size)
    else (
      shim,
      writes outfd (
          write_all answers (take (stream_len - stream_header_size) (drop stream_header_size buf))),
    )

abbrev pub show_on : CcShim → Option Out → ℕ → Bytes → List Answer → CcShim × Output
show_on shim none stream_len buf answers = (shim, nothing)
show_on shim (some outfd) stream_len buf answers = show_message shim outfd stream_len buf answers

unfoldable pub handle_message : CcShim → IoMessage → List Answer → CcShim × Output
unfolding out_for show_message
handle_message shim too_big answers = (shim, nothing)
handle_message shim err_exit answers = (shim, exit_failure)
handle_message shim (message seq stream_len buf) answers =
    if stream_len == 0 || ltb hyperstart_max_recv_bytes stream_len
    then (shim, nothing)
    else show_on shim (out_for shim seq) stream_len buf answers

unfoldable pub handle_proxy_output :
    CcShim → List Arrival → List Answer → Option ((CcShim × Output) × List Arrival)
unfolding read_io_message handle_message
handle_proxy_output shim arrivals answers = do
  r ← read_io_message arrivals
  some (handle_message shim r.0 answers, r.1)

-- The control socket is only drained: the shim ends when it fails or is closed.
unfoldable pub handle_proxy_ctl : ReadResult → Bool
handle_proxy_ctl (received bytes) = true
handle_proxy_ctl end_of_file = false
handle_proxy_ctl read_error = false
