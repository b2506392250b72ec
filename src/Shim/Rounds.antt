-- ===== src/Shim/Rounds.antt =====
-- One round of the loop of `read_IO_message`, as equations.
use cc_oci_runtime.Prelude.{ℕ, suc, ◌≡◌, true, false, some, List, Bytes, length, ltb, ◌>>=◌}
use cc_oci_runtime.Shim.Kernel.{Arrival, ReadResult, read}
use cc_oci_runtime.Shim.Stream.{
  IoMessage, finish_message, leave, break_off, go_on, read_round, want, read_loop,
}

module _ (fuel : ℕ) (arrivals : List Arrival) (need len : ℕ) (buf : Bytes) where
  pub read_loop_done :
      ltb (length buf) need ≡ false
      → read_loop (suc fuel) arrivals need len buf
        ≡ (finish_message buf len >>= λ m. some (m, arrivals))
  unfolding read_loop
  read_loop_done h = rw (h, read_loop)

  pub read_loop_go_on :
      (r : ReadResult) (left : List Arrival) (n l : ℕ) (b : Bytes)
      → ltb (length buf) need ≡ true
      → read (want need buf) arrivals ≡ (r, left)
      → read_round need len buf r ≡ some (go_on n l b)
      → read_loop (suc fuel) arrivals need len buf ≡ read_loop fuel left n l b
  unfolding read_loop
  read_loop_go_on r left n l b more reads h =
      rw (more, read_loop) (rw (reads, read_loop) (rw (h, read_loop) (rw reads)))

  pub read_loop_break :
      (r : ReadResult) (left : List Arrival) (l : ℕ) (b : Bytes)
      → ltb (length buf) need ≡ true
      → read (want need buf) arrivals ≡ (r, left)
      → read_round need len buf r ≡ some (break_off l b)
      → read_loop (suc fuel) arrivals need len buf ≡ (finish_message b l >>= λ m. some (m, left))
  unfolding read_loop
  read_loop_break r left l b more reads h =
      rw (more, read_loop) (rw (reads, read_loop) (rw (h, read_loop) (rw reads)))

  pub read_loop_leave :
      (r : ReadResult) (left : List Arrival) (m : IoMessage)
      → ltb (length buf) need ≡ true
      → read (want need buf) arrivals ≡ (r, left)
      → read_round need len buf r ≡ some (leave m)
      → read_loop (suc fuel) arrivals need len buf ≡ some (m, left)
  unfolding read_loop
  read_loop_leave r left m more reads h =
      rw (more, read_loop) (rw (reads, read_loop) (rw (h, read_loop) (rw reads)))
