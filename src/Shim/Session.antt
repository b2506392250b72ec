-- ===== src/Shim/Session.antt =====
-- The output side of a session: what the messages of the proxy make of the shim.
use cc_oci_runtime.Prelude.{
  ℕ, ◌+◌, ◌-◌, ◌≤◌, ◌<◌, ◌%◌, ◌^◌, ◌≡◌, refl, ap, true, false, Option, none, some, List, [], ◌∷◌,
  ◌++◌, Bytes, length, take, drop, take_all, get_elem?, ltb, ◌==◌, if◌then◌else◌, arith,
}
use cc_oci_runtime.Shim.Kernel.{Arrival, Answer}
use cc_oci_runtime.Shim.Endian.{set_big_endian_32, set_big_endian_64}
use cc_oci_runtime.Shim.State.{CcShim, stream_header_size, hyperstart_max_recv_bytes}
use cc_oci_runtime.Shim.Stream.{
  stream_message, message, Out, Output, writes, nothing, exit, write_all, out_for, show_message,
  show_on, handle_message, handle_proxy_output,
}
use cc_oci_runtime.Shim.Reading.{IsOpen, bytes_of}
use cc_oci_runtime.Shim.Reassembly.{read_io_message-stream_message}

-- What the protocol says of one message to a shim, with no bytes of headers in sight: an empty
-- payload announces the exit status, a single byte after it is the status, all else is output.
unfoldable pub deliver : CcShim → Out → Bytes → List Answer → CcShim × Output
deliver shim out [] answers =
    if shim.exiting
    then (shim, writes out (write_all answers []))
    else (record shim { exiting = true }, nothing)
deliver shim out (c ∷ []) answers =
    if shim.exiting then (shim, exit c) else (shim, writes out (write_all answers (c ∷ [])))
deliver shim out (c ∷ d ∷ bytes) answers = (shim, writes out (write_all answers (c ∷ d ∷ bytes)))

abbrev pub deliver_on : CcShim → Option Out → Bytes → List Answer → CcShim × Output
deliver_on shim none payload answers = (shim, nothing)
deliver_on shim (some out) payload answers = deliver shim out payload answers

header_off :
    (seq len : ℕ) (payload : Bytes)
    → drop 12 (set_big_endian_64 seq ++ (set_big_endian_32 len ++ payload)) ≡ payload
unfolding set_big_endian_64 set_big_endian_32
header_off seq len payload = refl

status_byte :
    (seq len c : ℕ) (payload : Bytes)
    → get_elem? (set_big_endian_64 seq ++ (set_big_endian_32 len ++ (c ∷ payload))) 12 ≡ some c
unfolding set_big_endian_64 set_big_endian_32
status_byte seq len c payload = refl

payload_of :
    (seq : ℕ) (payload : Bytes)
    → take (length payload + 12 - 12) (drop 12 (stream_message seq payload)) ≡ payload
unfolding stream_message
payload_of seq payload =
    rw (header_off seq ((length payload + 12) % 2 ^ 32) payload) (take_all _ payload (omega arith))

status_of : (seq c : ℕ) → get_elem? (stream_message seq (c ∷ [])) 12 ≡ some c
unfolding stream_message
status_of seq c = status_byte seq (13 % 2 ^ 32) c []

show_message-deliver :
    (shim : CcShim) (out : Out) (seq : ℕ) (payload : Bytes) (answers : List Answer)
    → show_message shim out (length payload + 12) (stream_message seq payload) answers
      ≡ deliver shim out payload answers
unfolding show_message deliver
show_message-deliver shim out seq [] answers = ground (arith, payload_of seq [])
show_message-deliver shim out seq (c ∷ []) answers =
    ground (arith, payload_of seq (c ∷ []), status_of seq c)
show_message-deliver shim out seq (c ∷ d ∷ bytes) answers =
    ground (arith, payload_of seq (c ∷ d ∷ bytes))

pub handle_message-deliver_on :
    (shim : CcShim) (seq : ℕ) (payload : Bytes) (answers : List Answer)
    → length payload + 12 ≤ hyperstart_max_recv_bytes
    → handle_message shim (message seq (length payload + 12) (stream_message seq payload)) answers
      ≡ deliver_on shim (out_for shim seq) payload answers
unfolding handle_message
handle_message-deliver_on shim seq payload answers h =
    let positive : (length payload + 12 == 0) ≡ false = ground arith in
    let fits : ltb hyperstart_max_recv_bytes (length payload + 12) ≡ false = ground arith in
    rw (positive, fits) (go (out_for shim seq))
  where
    go :
        (o : Option Out)
        → show_on shim o (length payload + 12) (stream_message seq payload) answers
          ≡ deliver_on shim o payload answers
    go none = refl
    go (some out) = show_message-deliver shim out seq payload answers

-- What a round on the I/O channel comes to, and the bytes that it leaves unread.
pub record Delivers (shim : CcShim) (arrivals : List Arrival) (answers : List Answer)
    (r : CcShim × Output) (rest : Bytes) : Type 0 where
  pub left : List Arrival
  pub returns : handle_proxy_output shim arrivals answers ≡ some (r, left)
  pub same : bytes_of left ≡ rest
  pub still_open : IsOpen left

-- A round on the I/O channel does to a message in the stream format what the protocol says, in
-- whatever pieces the message arrives, and leaves what comes after it unread: output goes to stdout
-- or stderr by its sequence number, and other numbers are dropped; the first empty payload marks the
-- shim as exiting; a single byte after it is the exit status.
pub handle_proxy_output-deliver :
    (shim : CcShim) (arrivals : List Arrival) (answers : List Answer) (seq : ℕ)
    (payload rest : Bytes)
    → seq < 2 ^ 64
    → length payload + stream_header_size ≤ hyperstart_max_recv_bytes
    → IsOpen arrivals
    → bytes_of arrivals ≡ stream_message seq payload ++ rest
    → Delivers shim arrivals answers (deliver_on shim (out_for shim seq) payload answers) rest
unfolding handle_proxy_output
handle_proxy_output-deliver shim arrivals answers seq payload rest s h o e =
    let r = read_io_message-stream_message arrivals seq payload rest s h o e in
    record {
      left = r.left;
      returns =
          rw r.returns
            (ap (λ z. some (z, r.left)) (handle_message-deliver_on shim seq payload answers h));
      same = r.same;
      still_open = r.still_open;
    }
