-- ===== src/Proxy/Received.antt =====
-- What is received of a reply of cc-proxy.
use cc_oci_runtime.Prelude.{
  ℕ, zero, suc, ◌+◌, ◌%◌, ◌^◌, ◌<◌, ◌≡◌, refl, sym, ap, ◌∙◌, true, false, not, ◌&&◌, inl, inr,
  Option, none, some, List, [], ◌∷◌, ◌++◌, append-nil, append_assoc, leb, ltb, Bool-cases, Bytes,
  length, length-append, drop, arith,
}
use cc_oci_runtime.Shim.Endian.{set_big_endian_32, get_big_endian_32-set_big_endian_32}
use cc_oci_runtime.Shim.Control.{get_proxy_ctl_msg}
use cc_oci_runtime.Proxy.Reply.{
  Recv, packet, end_of_file, eagain, Watch, quits_loop, waiting, payload_length, read_more,
  read_reply, msg_read, run_reads,
}

-- The rest of a reply, in pieces, with EAGAIN where there is nothing to read yet and behind it all.
pub data Arrives : Bytes → List Recv → Type 0 where
  complete : (arrivals : List Recv) → Arrives [] (eagain ∷ arrivals)
  some_part :
      (bytes rest : Bytes) (cmsg : Option ℕ) (arrivals : List Recv)
      → Arrives rest arrivals
      → Arrives (bytes ++ rest) (packet bytes cmsg ∷ arrivals)
  nothing_yet :
      (rest : Bytes) (arrivals : List Recv)
      → 0 < length rest
      → Arrives rest arrivals
      → Arrives rest (eagain ∷ arrivals)

abbrev received : Watch → Bytes → Watch
received w bytes = record w { msg_received = w.msg_received ++ bytes }

read_more-Arrives :
    {rest : Bytes} {arrivals : List Recv} (w : Watch) (needed total : ℕ)
    → Arrives rest arrivals
    → total + length rest ≡ needed
    → read_more w needed total arrivals ≡ quits_loop (received w rest)
unfolding read_more
read_more-Arrives w needed total (complete arrivals) e =
    let enough : ltb total needed ≡ false = ground arith in
    rw (enough, read_more)
      (ap (λ s. quits_loop (record w { msg_received = s })) (sym (append-nil w.msg_received)))
read_more-Arrives w needed total (some_part bytes rest cmsg arrivals t) e =
    read_more-Arrives (received w bytes) needed (total + length bytes) t
      (omega (arith, length-append bytes rest))
    ∙ ap (λ s. quits_loop (record w { msg_received = s })) (append_assoc w.msg_received bytes rest)
read_more-Arrives w needed total (nothing_yet rest arrivals h t) e =
    let missing : ltb total needed ≡ true = ground arith in
    rw (missing, read_more) (read_more-Arrives w needed total t e)

header_length :
    (n : ℕ) (bytes : Bytes)
    → n < 2 ^ 32
    → payload_length (set_big_endian_32 (n % 2 ^ 32) ++ bytes) ≡ n
unfolding payload_length set_big_endian_32
header_length n bytes h =
    ap (λ o. elim o [ none ↦ 0 | some m ↦ m ])
      (get_big_endian_32-set_big_endian_32 (n % 2 ^ 32) (bytes ++ (0 ∷ 0 ∷ 0 ∷ 0 ∷ []))
        (omega arith))
    ∙ omega arith

-- The first bytes of the frame of a payload: its header and a part of the payload.
abbrev pub frame_start : ℕ → Bytes → Bytes
frame_start n part = set_big_endian_32 (n % 2 ^ 32) ++ (0 ∷ 0 ∷ 0 ∷ 0 ∷ part)

frame_start_lem :
    (n : ℕ) (part : Bytes)
    → (length (frame_start n part) ≡ 8 + length part) × (drop 8 (frame_start n part) ≡ part)
unfolding set_big_endian_32
frame_start_lem n part = (omega arith, refl)

frame_start-get_proxy_ctl_msg :
    (part rest : Bytes)
    → frame_start (length (part ++ rest)) part ++ rest ≡ get_proxy_ctl_msg (part ++ rest)
unfolding get_proxy_ctl_msg set_big_endian_32
frame_start-get_proxy_ctl_msg part rest = refl

length_zero : (s : Bytes) → length s ≡ 0 → s ≡ []
length_zero [] h = refl
length_zero (x ∷ s) h = absurd (omega arith)

read_reply_at :
    (w : Watch) (p part rest : Bytes) (arrivals : List Recv)
    → payload_length p ≡ length (part ++ rest)
    → length p ≡ 8 + length part
    → drop 8 p ≡ part
    → Arrives rest arrivals
    → read_reply w p arrivals ≡ quits_loop (received w (part ++ rest))
unfolding read_reply
read_reply_at w p part rest arrivals needed size payload t =
    elim (Bool-cases (leb (payload_length p + 8) (length p))) [
      | inl whole ↦
          let none_left : length rest ≡ 0 = ground (arith, length-append part rest) in
          rw (whole, read_reply)
            (ap (λ s. quits_loop (received w s))
              (payload ∙ sym (append-nil part) ∙ ap (◌++◌ part) (sym (length_zero rest none_left))))
      | inr more ↦
          rw (more, read_reply)
            (read_more-Arrives (received w (drop 8 p)) (payload_length p + 8) (length p) t
                (omega (arith, length-append part rest))
              ∙ ap (λ s. quits_loop (record w { msg_received = s }))
                  (append_assoc w.msg_received (drop 8 p) rest
                    ∙ ap (λ s. w.msg_received ++ (s ++ rest)) payload))
    ]

-- The reply of cc-proxy to a message, a frame of less than 4 GiB, is received whole, without its
-- header, if no descriptor is still to come and the first read gives at least the header: the first piece may hold a first part of the
-- payload, the rest may come in any pieces, with EAGAIN wherever nothing has arrived yet and behind
-- the last piece.
pub run_reads-Arrives :
    (w : Watch) (part rest : Bytes) (cmsg : Option ℕ) (arrivals : List Recv)
    → (w.wants_fd && not w.oob_fd_found) ≡ false
    → length (part ++ rest) < 2 ^ 32
    → Arrives rest arrivals
    → run_reads w (packet (frame_start (length (part ++ rest)) part) cmsg ∷ arrivals)
      ≡ quits_loop (record w { msg_received = w.msg_received ++ (part ++ rest) })
unfolding run_reads
run_reads-Arrives w part rest cmsg arrivals e h t =
    let n = length (part ++ rest) in
    let (size, payload) = frame_start_lem n part in
    let read : msg_read w (packet (frame_start n part) cmsg ∷ arrivals)
        ≡ quits_loop (received w (part ++ rest)) =
      rw (e, msg_read)
        (read_reply_at w (frame_start n part) part rest arrivals
          (header_length n (0 ∷ 0 ∷ 0 ∷ 0 ∷ part) h) size payload t) in
    rw (read, run_reads) refl

abbrev pub eofs : ℕ → List Recv
eofs zero = []
eofs (suc reads) = end_of_file ∷ eofs reads

-- When cc-proxy closes the connection before the reply is complete, the function reads for ever:
-- after any number of reads it is still in its loop.
pub read_more_spins :
    (w : Watch) (needed total reads : ℕ) → read_more w needed total (eofs reads) ≡ waiting w
unfolding read_more
read_more_spins w needed total zero = refl
read_more_spins w needed total (suc reads) = read_more_spins w needed total reads
