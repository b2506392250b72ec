-- ===== src/Shim/Termination.antt =====
-- The loop of `read_IO_message` ends, whatever arrives.
use cc_oci_runtime.Prelude.{
  ℕ, zero, suc, ◌+◌, ◌-◌, ◌*◌, ◌≤◌, ◌<◌, ◌^◌, ◌≡◌, refl, ap, ◌∙◌, true, false, ◌⊎◌, inl, inr,
  Option, some, List, [], ◌∷◌, ◌++◌, Bytes, length, take, drop, length-append, length-drop, ltb,
  leb, ◌==◌, if◌then◌else◌, Bool-cases, arith,
}
use cc_oci_runtime.Shim.Kernel.{
  Arrival, piece, broken, ReadResult, received, end_of_file, read_error, read,
}
use cc_oci_runtime.Shim.Endian.{get_big_endian_32, get_big_endian_64}
use cc_oci_runtime.Shim.State.{hyperstart_max_recv_bytes}
use cc_oci_runtime.Shim.Stream.{
  IoMessage, too_big, message, err_exit, finish_message, Round, leave, break_off, go_on,
  check_length, after_read, read_round, want, read_loop, read_fuel, read_io_message,
}
use cc_oci_runtime.Shim.Reading.{length-take-le}
use cc_oci_runtime.Shim.Rounds.{read_loop_done, read_loop_go_on, read_loop_break, read_loop_leave}

-- The state of the loop between two rounds: the header is still to come, or `need` is in bounds.
record InBounds (need len : ℕ) (buf : Bytes) : Type 0 where
  phase : ((len ≡ 0) × (need ≡ 12)) ⊎ ((0 < len) × (12 ≤ length buf))
  bounded : need ≤ 10240
  filled : length buf ≤ need
  header : 12 ≤ need

-- How many rounds are left at most.
abbrev measure : ℕ → ℕ → Bytes → ℕ
measure need len buf = if len == 0 then 10240 - length buf else need - length buf

get_32_total : (buf : Bytes) → 4 ≤ length buf → (n : ℕ) × (get_big_endian_32 buf ≡ some n)
unfolding get_big_endian_32
get_32_total (a ∷ b ∷ c ∷ d ∷ rest) h = (_, refl)
get_32_total (a ∷ b ∷ c ∷ []) h = absurd (omega arith)
get_32_total (a ∷ b ∷ []) h = absurd (omega arith)
get_32_total (a ∷ []) h = absurd (omega arith)
get_32_total [] h = absurd (omega arith)

finish_total :
    (buf : Bytes) (len : ℕ) → 12 ≤ length buf → (m : IoMessage) × (finish_message buf len ≡ some m)
unfolding finish_message get_big_endian_64
finish_total buf len h =
    let (hi, e) = get_32_total buf (omega arith) in
    let (lo, f) = get_32_total (drop 4 buf) (omega (arith, length-drop 4 buf)) in
    (message (hi * 2 ^ 32 + lo) len buf, rw (e, f))

-- A successful read gives at least one byte, and no more than it wanted.
read_bounds :
    (n : ℕ) (arrivals : List Arrival) (got : Bytes) (left : List Arrival)
    → 0 < n
    → read n arrivals ≡ (received got, left)
    → (0 < length got) × (length got ≤ n)
unfolding read
read_bounds zero arrivals got left h e = elim h [ ]
read_bounds (suc n) [] got left h e = cc
read_bounds (suc n) (broken ∷ rest) got left h e = cc
read_bounds (suc n) (piece [] ∷ rest) got left h e = cc
read_bounds (suc n) (piece (b ∷ bs) ∷ rest) got left h e =
    let same : b ∷ take n bs ≡ got = cc in
    (omega (arith, ap length same), omega (arith, ap length same, length-take-le n bs))

-- What a round comes to from a state in bounds.
data Progress (need len : ℕ) (buf : Bytes) : Option Round → Type 0 where
  leaves : (m : IoMessage) → Progress need len buf (some (leave m))
  breaks : (l : ℕ) (b : Bytes) → 12 ≤ length b → Progress need len buf (some (break_off l b))
  goes_on :
      (n l : ℕ) (b : Bytes)
      → InBounds n l b
      → measure n l b < measure need len buf
      → Progress need len buf (some (go_on n l b))

check_length-Progress :
    (len : ℕ) (buf b : Bytes)
    → length buf < 12
    → length b ≡ 12
    → Progress 12 0 buf (some (check_length 12 len b))
unfolding check_length
check_length-Progress len buf b short full = elim (Bool-cases (len == 12)) [
  | inl eof ↦ rw eof (breaks len b (omega arith))
  | inr other ↦ rw other (elim (Bool-cases (ltb hyperstart_max_recv_bytes len)) [
    | inl big ↦ rw big (leaves too_big)
    | inr fits ↦ rw fits (elim (Bool-cases (ltb 12 len)) [
      | inl more ↦ rw more (
          goes_on len len b
            (record {
              phase = inr (ground arith, omega arith);
              bounded = ground arith;
              filled = ground arith;
              header = ground arith;
            })
            (ground arith))
      | inr less ↦ rw less (
          goes_on 12 len b
            (record {
              phase = ground arith;
              bounded = omega arith;
              filled = omega arith;
              header = omega arith;
            })
            (ground arith))
    ])
  ])
]

header-Progress :
    (buf got : Bytes)
    → length buf < 12
    → 0 < length got
    → length (buf ++ got) ≤ 12
    → Progress 12 0 buf (after_read 12 0 (buf ++ got))
unfolding after_read
header-Progress buf got short some_bytes fits = elim (Bool-cases (leb 12 (length (buf ++ got)))) [
  | inl full ↦
      let size : length (buf ++ got) ≡ 12 = ground arith in
      let (len, e) =
        get_32_total (drop 8 (buf ++ got)) (omega (arith, length-drop 8 (buf ++ got))) in
      rw full (rw e (check_length-Progress len buf (buf ++ got) short size))
  | inr part ↦ rw part (
      goes_on 12 0 (buf ++ got)
        (record {
          phase = inl (refl, refl);
          bounded = omega arith;
          filled = omega arith;
          header = omega arith;
        })
        (omega (arith, length-append buf got)))
]

body-Progress :
    (need len : ℕ) (buf got : Bytes)
    → InBounds need len buf
    → 0 < len
    → 12 ≤ length buf
    → 0 < length got
    → length got ≤ need - length buf
    → length buf < need
    → Progress need len buf (after_read need len (buf ++ got))
unfolding after_read
body-Progress need len buf got inv p h some_bytes fits more =
    let known : (len == 0) ≡ false = ground arith in
    rw known (
      goes_on need len (buf ++ got)
        (record {
          phase = inr (p, omega (arith, length-append buf got));
          bounded = inv.bounded;
          filled = omega (arith, length-append buf got);
          header = inv.header;
        })
        (rw known (omega (arith, length-append buf got))))

round-Progress :
    (need len : ℕ) (buf : Bytes) (arrivals : List Arrival) (r : ReadResult) (left : List Arrival)
    → InBounds need len buf
    → length buf < need
    → read (want need buf) arrivals ≡ (r, left)
    → Progress need len buf (read_round need len buf r)
unfolding read_round
round-Progress need len buf arrivals read_error left inv more e = leaves err_exit
round-Progress need len buf arrivals end_of_file left inv more e = leaves err_exit
round-Progress need len buf arrivals (received got) left inv more e =
    let (low, high) = read_bounds (want need buf) arrivals got left (omega arith) e in
    elim inv.phase [
      | inl (z, n) ↦
          rw (z, n)
            (header-Progress buf got (omega arith) low (omega (arith, length-append buf got)))
      | inr (p, h) ↦ body-Progress need len buf got inv p h low (omega arith) more
    ]

abbrev Returns : Option (IoMessage × List Arrival) → Type 0
Returns call = (r : IoMessage × List Arrival) × (call ≡ some r)

-- From the progress of a round, if the loop returns from every state that the round may lead to.
round_total :
    (fuel : ℕ) (arrivals : List Arrival) (need len : ℕ) (buf : Bytes) {o : Option Round}
    → ltb (length buf) need ≡ true
    → read_round need len buf (read (want need buf) arrivals).0 ≡ o
    → Progress need len buf o
    → ((n l : ℕ) (b : Bytes)
        → InBounds n l b
        → measure n l b < measure need len buf
        → Returns (read_loop fuel (read (want need buf) arrivals).1 n l b))
    → Returns (read_loop (suc fuel) arrivals need len buf)
round_total fuel arrivals need len buf more e (leaves m) go =
    let (r, left) = read (want need buf) arrivals in
    ((m, left), read_loop_leave fuel arrivals need len buf r left m more refl e)
round_total fuel arrivals need len buf more e (breaks l b h) go =
    let (r, left) = read (want need buf) arrivals in
    let (m, f) = finish_total b l h in
    ((m, left), read_loop_break fuel arrivals need len buf r left l b more refl e ∙ rw f)
round_total fuel arrivals need len buf more e (goes_on n l b inv less) go =
    let (r, left) = read (want need buf) arrivals in
    let (result, f) = go n l b inv less in
    (result, read_loop_go_on fuel arrivals need len buf r left n l b more refl e ∙ f)

-- With more fuel than `measure` the loop returns.
read_loop_total :
    (fuel : ℕ) (arrivals : List Arrival) (need len : ℕ) (buf : Bytes)
    → InBounds need len buf
    → measure need len buf < fuel
    → Returns (read_loop fuel arrivals need len buf)
read_loop_total zero arrivals need len buf inv h = absurd (omega arith)
read_loop_total (suc fuel) arrivals need len buf inv h = elim (Bool-cases (ltb (length buf) need)) [
  | inl more ↦
      let (r, left) = read (want need buf) arrivals in
      round_total fuel arrivals need len buf more refl
        (round-Progress need len buf arrivals r left inv (ground arith) refl)
        (λ n l b inv' less. read_loop_total fuel left n l b inv' (omega arith))
  | inr full ↦
      let (m, f) = finish_total buf len (ground (arith, inv.header, inv.filled)) in
      ((m, arrivals), read_loop_done fuel arrivals need len buf full ∙ rw f)
]

-- Whatever arrives, in whatever pieces, `read_IO_message` returns a message or NULL, or ends the
-- process: its loop runs at most 10241 rounds, and it never reads past the bytes in its buffer.
pub read_io_message_total :
    (arrivals : List Arrival) → (r : IoMessage × List Arrival) × (read_io_message arrivals ≡ some r)
unfolding read_io_message
read_io_message_total arrivals =
    read_loop_total read_fuel arrivals 12 0 []
      (record {
        phase = inl (refl, refl);
        bounded = omega arith;
        filled = omega arith;
        header = omega arith;
      })
      (omega arith)
