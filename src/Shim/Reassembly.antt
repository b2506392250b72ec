-- ===== src/Shim/Reassembly.antt =====
-- `read_IO_message` puts a message together, whatever the pieces in which it arrives.
use cc_oci_runtime.Prelude.{
  ℕ, zero, suc, ◌+◌, ◌%◌, ◌^◌, ◌≤◌, ◌<◌, ◌≡◌, refl, sym, ap, ◌∙◌, false, inl, inr, Option, some,
  List, [], ◌∷◌, ◌++◌, append-nil, append_assoc, Bytes, length, drop, length-append, List-cases,
  ◌==◌, arith,
}
use cc_oci_runtime.Shim.Kernel.{Arrival, received, read}
use cc_oci_runtime.Shim.Endian.{
  set_big_endian_32, set_big_endian_64, get_big_endian_32, get_big_endian_32-set_big_endian_32,
  get_big_endian_64-set_big_endian_64,
}
use cc_oci_runtime.Shim.State.{stream_header_size, hyperstart_max_recv_bytes}
use cc_oci_runtime.Shim.Stream.{
  stream_message, IoMessage, message, finish_message, go_on, read_loop, read_round, check_length,
  want, read_io_message, read_fuel,
}
use cc_oci_runtime.Shim.Rounds.{read_loop_done, read_loop_go_on, read_loop_break}
use cc_oci_runtime.Shim.Reading.{IsOpen, bytes_of, TakesPart, TakesPart-regroup, read-TakesPart}

-- The call returns `m` and leaves just the bytes `rest` to be read.
pub record Reads (call : Option (IoMessage × List Arrival)) (m : IoMessage) (rest : Bytes)
    : Type 0 where
  pub left : List Arrival
  pub returns : call ≡ some (m, left)
  pub same : bytes_of left ≡ rest
  pub still_open : IsOpen left

-- What a round makes of the bytes it gets.
round_later :
    (need len : ℕ) (buf got : Bytes)
    → (len == 0) ≡ false
    → read_round need len buf (received got) ≡ some (go_on need len (buf ++ got))
unfolding read_round
round_later need len buf got h = rw h

round_short :
    (buf got : Bytes)
    → length (buf ++ got) < 12
    → read_round 12 0 buf (received got) ≡ some (go_on 12 0 (buf ++ got))
unfolding read_round
round_short buf got h = ground arith

round_header :
    (len : ℕ) (buf got : Bytes)
    → length (buf ++ got) ≡ 12
    → get_big_endian_32 (drop 8 (buf ++ got)) ≡ some len
    → read_round 12 0 buf (received got) ≡ some (check_length 12 len (buf ++ got))
unfolding read_round
round_header len buf got h e = rw (h, e)

module _ {m : IoMessage} {rest : Bytes} where
  -- From one call to another that comes to the same.
  Reads-eq :
      {call call' : Option (IoMessage × List Arrival)}
      → call' ≡ call
      → Reads call m rest
      → Reads call' m rest
  Reads-eq e r = record {
    left = r.left;
    returns = e ∙ r.returns;
    same = r.same;
    still_open = r.still_open;
  }

  -- The length is known, and `part` is still to come.
  read_rest :
      (fuel : ℕ) (arrivals : List Arrival) (need len : ℕ) (buf part : Bytes)
      → length part < fuel
      → IsOpen arrivals
      → bytes_of arrivals ≡ part ++ rest
      → length buf + length part ≡ need
      → (len == 0) ≡ false
      → finish_message (buf ++ part) len ≡ some m
      → Reads (read_loop fuel arrivals need len buf) m rest
  read_rest zero arrivals need len buf part f o e n l fin = absurd (omega arith)
  read_rest (suc fuel) arrivals need len buf [] f o e n l fin = record {
    left = arrivals;
    returns = read_loop_done fuel arrivals need len buf (ground arith) ∙ rw (rw append-nil at fin);
    same = e;
    still_open = o;
  }
  read_rest (suc fuel) arrivals need len buf (p ∷ part) f o e n l fin =
      let t =
        read-TakesPart (want need buf) arrivals (p ∷ part) rest (omega arith) (omega arith) o e in
      Reads-eq
        (read_loop_go_on fuel arrivals need len buf (received t.got) t.left need len (buf ++ t.got)
          (ground arith) t.reads (round_later need len buf t.got l))
        (read_rest fuel t.left need len (buf ++ t.got) t.later
          (omega (arith, t.some_bytes, t.sizes)) t.still_open t.same
          (omega (arith, t.sizes, length-append buf t.got)) l (rw (append_assoc, t.split) fin))

  -- The read that completes the header, with `payload` still to come.
  header_complete :
      (fuel : ℕ) (arrivals left : List Arrival) (len : ℕ) (buf got payload : Bytes)
      → read (want 12 buf) arrivals ≡ (received got, left)
      → length buf < 12
      → length (buf ++ got) ≡ 12
      → IsOpen left
      → bytes_of left ≡ payload ++ rest
      → length payload < fuel
      → get_big_endian_32 (drop 8 (buf ++ got)) ≡ some len
      → len ≡ 12 + length payload
      → len ≤ 10240
      → finish_message ((buf ++ got) ++ payload) len ≡ some m
      → Reads (read_loop (suc fuel) arrivals 12 0 buf) m rest
  unfolding check_length
  header_complete fuel arrivals left len buf got [] r short full o e f g l b fin = record {
    left = left;
    returns =
        read_loop_break fuel arrivals 12 0 buf (received got) left len (buf ++ got) (ground arith) r
          (round_header len buf got full g ∙ ground arith)
        ∙ rw (rw append-nil at fin);
    same = e;
    still_open = o;
  }
  header_complete fuel arrivals left len buf got (p ∷ payload) r short full o e f g l b fin =
      Reads-eq
        (read_loop_go_on fuel arrivals 12 0 buf (received got) left len len (buf ++ got)
          (ground arith) r (round_header len buf got full g ∙ ground arith))
        (read_rest fuel left len len (buf ++ got) (p ∷ payload) f o e (omega arith) (ground arith)
          fin)

  module _ (fuel : ℕ) (arrivals : List Arrival) (len : ℕ) (buf part payload : Bytes)
      (t : TakesPart (want 12 buf) arrivals part (payload ++ rest))
      (n : length buf + length part ≡ 12) (p : 0 < length part) where
    -- The read takes the whole of `part`, or goes on with what is left of it.
    header_step :
        length part + length payload ≤ fuel
        → get_big_endian_32 (drop 8 (buf ++ part)) ≡ some len
        → len ≡ 12 + length payload
        → len ≤ 10240
        → finish_message ((buf ++ part) ++ payload) len ≡ some m
        → (0 < length t.later → Reads (read_loop fuel t.left 12 0 (buf ++ t.got)) m rest)
        → Reads (read_loop (suc fuel) arrivals 12 0 buf) m rest
    header_step f g l b fin go = elim (List-cases t.later) [
      | inl none_left ↦
          let whole : buf ++ t.got ≡ buf ++ part =
            sym (append-nil (buf ++ t.got)) ∙ rw none_left at (TakesPart-regroup buf t) in
          header_complete fuel arrivals t.left len buf t.got payload t.reads (omega arith)
            (ap length whole ∙ length-append buf part ∙ n) t.still_open (rw none_left at t.same)
            (omega arith) (ap (λ h. get_big_endian_32 (drop 8 h)) whole ∙ g) l b
            (ap (λ h. finish_message (h ++ payload) len) whole ∙ fin)
      | inr some_left ↦
          Reads-eq
            (read_loop_go_on fuel arrivals 12 0 buf (received t.got) t.left 12 0 (buf ++ t.got)
              (ground arith) t.reads
              (round_short buf t.got (omega (arith, length-append buf t.got, t.sizes))))
            (go some_left)
    ]

  -- The header is not complete, and `part` of it is still to come, then `payload`.
  read_header :
      (fuel : ℕ) (arrivals : List Arrival) (len : ℕ) (buf part payload : Bytes)
      → length part + length payload < fuel
      → IsOpen arrivals
      → bytes_of arrivals ≡ part ++ (payload ++ rest)
      → length buf + length part ≡ 12
      → 0 < length part
      → get_big_endian_32 (drop 8 (buf ++ part)) ≡ some len
      → len ≡ 12 + length payload
      → len ≤ 10240
      → finish_message ((buf ++ part) ++ payload) len ≡ some m
      → Reads (read_loop fuel arrivals 12 0 buf) m rest
  read_header zero arrivals len buf part payload f o e n p g l b fin = absurd (omega arith)
  read_header (suc fuel) arrivals len buf part payload f o e n p g l b fin =
      let t =
        read-TakesPart (want 12 buf) arrivals part (payload ++ rest) (omega arith) (omega arith) o
          e in
      let same = TakesPart-regroup buf t in
      header_step fuel arrivals len buf part payload t n p (omega arith) g l b fin (λ some_left.
        read_header fuel t.left len (buf ++ t.got) t.later payload
          (omega (arith, t.some_bytes, t.sizes)) t.still_open t.same
          (omega (arith, t.sizes, length-append buf t.got)) some_left
          (ap (λ h. get_big_endian_32 (drop 8 h)) same ∙ g) l b
          (ap (λ h. finish_message (h ++ payload) len) same ∙ fin))

finish_header :
    (seq len : ℕ) (low payload : Bytes)
    → seq < 2 ^ 64
    → finish_message ((set_big_endian_64 seq ++ low) ++ payload) len
      ≡ some (message seq len (set_big_endian_64 seq ++ (low ++ payload)))
unfolding finish_message
finish_header seq len low payload h =
    rw (append_assoc (set_big_endian_64 seq))
      (rw (get_big_endian_64-set_big_endian_64 seq (low ++ payload) h))

header_sizes :
    (seq len : ℕ)
    → (length (set_big_endian_64 seq ++ set_big_endian_32 len) ≡ 12)
      × (drop 8 (set_big_endian_64 seq ++ set_big_endian_32 len) ≡ set_big_endian_32 len ++ [])
unfolding set_big_endian_64 set_big_endian_32
header_sizes seq len = (refl, refl)

-- A message in the stream format, of any uint64_t and a payload of at most 10228 bytes, is read back
-- whole with its sequence number and length, in whatever pieces it and the bytes after it arrive.
-- What comes after it is left unread.
pub read_io_message-stream_message :
    (arrivals : List Arrival) (seq : ℕ) (payload rest : Bytes)
    → seq < 2 ^ 64
    → length payload + stream_header_size ≤ hyperstart_max_recv_bytes
    → IsOpen arrivals
    → bytes_of arrivals ≡ stream_message seq payload ++ rest
    → Reads
        (read_io_message arrivals)
        (message seq (length payload + stream_header_size) (stream_message seq payload))
        rest
unfolding read_io_message stream_message
read_io_message-stream_message arrivals seq payload rest s h o e =
    let len = length payload + 12 in
    let whole : len % 2 ^ 32 ≡ len = omega arith in
    let header = set_big_endian_64 seq ++ set_big_endian_32 (len % 2 ^ 32) in
    let (size, low) = header_sizes seq (len % 2 ^ 32) in
    let regrouped : (set_big_endian_64 seq ++ (set_big_endian_32 (len % 2 ^ 32) ++ payload)) ++ rest
        ≡ header ++ (payload ++ rest) =
      simp append_assoc in
    read_header read_fuel arrivals len [] header payload (omega arith) o (e ∙ regrouped)
      (omega (arith, size)) (omega (arith, size))
      (rw low (get_big_endian_32-set_big_endian_32 (len % 2 ^ 32) [] (omega arith) ∙ ap some whole))
      (omega arith) h (finish_header seq len (set_big_endian_32 (len % 2 ^ 32)) payload s)
