-- ===== src/Shim/Delivery.antt =====
-- What the two loops of writes deliver.
use Prim.Native.Nat.{min}
use cc_oci_runtime.Prelude.{
  ℕ, zero, suc, ◌≤◌, ◌<◌, ◌^◌, ◌%◌, ◌≡◌, ◌≢◌, refl, ap, ◌∙◌, false, inl, inr, List, [], ◌∷◌, ◌++◌,
  append_assoc, append-nil, Bytes, length, take, drop, take-append-drop, take_all, drop_all, ◌==◌,
  Bool-cases, some, arith,
}
use cc_oci_runtime.Shim.Kernel.{
  Answer, accepts, refuses, Sending, sent, failed, blocked, delivered, preceded_by,
}
use cc_oci_runtime.Shim.Endian.{get_big_endian_32, get_big_endian_32-set_big_endian_32}
use cc_oci_runtime.Shim.Control.{write_message, get_proxy_ctl_msg, eintr}
use cc_oci_runtime.Shim.Stream.{write_all}

-- The other side has a first part of `bytes`, and all of it if the loop has ended well.
pub record IsPrefixOf (bytes : Bytes) (s : Sending) : Type 0 where
  pub unsent : Bytes
  pub splits : delivered s ++ unsent ≡ bytes
  pub all_sent : (d : Bytes) → s ≡ sent d → d ≡ bytes

preceded_by-IsPrefixOf :
    (n : ℕ) (bytes : Bytes) (s : Sending)
    → IsPrefixOf (drop n bytes) s
    → IsPrefixOf bytes (preceded_by (take n bytes) s)
preceded_by-IsPrefixOf n bytes (sent d) h = record {
  unsent = h.unsent;
  splits =
      append_assoc (take n bytes) d h.unsent
      ∙ ap (◌++◌ (take n bytes)) h.splits
      ∙ take-append-drop n bytes;
  all_sent = λ e p.
      let whole : take n bytes ++ d ≡ bytes =
        ap (◌++◌ (take n bytes)) (h.all_sent d refl) ∙ take-append-drop n bytes in
      cc;
}
preceded_by-IsPrefixOf n bytes (failed d) h = record {
  unsent = h.unsent;
  splits =
      append_assoc (take n bytes) d h.unsent
      ∙ ap (◌++◌ (take n bytes)) h.splits
      ∙ take-append-drop n bytes;
  all_sent = λ e p. cc;
}
preceded_by-IsPrefixOf n bytes (blocked d) h = record {
  unsent = h.unsent;
  splits =
      append_assoc (take n bytes) d h.unsent
      ∙ ap (◌++◌ (take n bytes)) h.splits
      ∙ take-append-drop n bytes;
  all_sent = λ e p. cc;
}

-- Whatever the kernel answers, the loop that copies output to stdout or stderr delivers a first part
-- of the bytes, in order and once, and all of them if it ends without an error.
pub write_all-IsPrefixOf :
    (answers : List Answer) (bytes : Bytes) → IsPrefixOf bytes (write_all answers bytes)
unfolding write_all
write_all-IsPrefixOf answers [] = record { unsent = []; splits = refl; all_sent = λ d p. cc }
write_all-IsPrefixOf [] (b ∷ bs) = record { unsent = b ∷ bs; splits = refl; all_sent = λ d p. cc }
write_all-IsPrefixOf (refuses ∷ answers) (b ∷ bs) = record {
  unsent = b ∷ bs;
  splits = refl;
  all_sent = λ d p. cc;
}
write_all-IsPrefixOf (accepts k ∷ answers) (b ∷ bs) =
    let ret = min k (length (b ∷ bs)) in
    elim (Bool-cases (ret == 0)) [
      | inl none_taken ↦
          rw none_taken (record { unsent = b ∷ bs; splits = refl; all_sent = λ d p. cc })
      | inr some_taken ↦
          rw some_taken (
            preceded_by-IsPrefixOf ret (b ∷ bs) _
              (write_all-IsPrefixOf answers (drop ret (b ∷ bs))))
    ]

-- No write of the loop returns 4.
abbrev pub NeverEintr : List Answer → Bytes → Type 0
NeverEintr (accepts k ∷ answers) bytes =
    (min k (length bytes) ≢ eintr) × NeverEintr answers (drop (min k (length bytes)) bytes)
NeverEintr (refuses ∷ answers) bytes = Unit
NeverEintr [] bytes = Unit

-- As long as no write returns 4, the loop that sends a message to the proxy delivers the same as a
-- loop with no test for EINTR.
pub write_message-write_all :
    (answers : List Answer) (message : Bytes)
    → NeverEintr answers message
    → write_message answers message ≡ write_all answers message
unfolding write_message write_all
write_message-write_all answers [] h = refl
write_message-write_all [] (b ∷ bs) h = refl
write_message-write_all (refuses ∷ answers) (b ∷ bs) h = refl
write_message-write_all (accepts k ∷ answers) (b ∷ bs) h =
    let ret = min k (length (b ∷ bs)) in
    let other : (ret == eintr) ≡ false = ground arith in
    rw other (rw (write_message-write_all answers (drop ret (b ∷ bs)) h.1))

-- A write that accepts 4 bytes of a longer message is taken for an interrupted one: the 4 bytes are
-- sent a second time, and the proxy receives a message with its length field doubled in front.
pub write_message_repeats :
    (k : ℕ) (message : Bytes)
    → eintr < length message
    → length message ≤ k
    → write_message (accepts eintr ∷ accepts k ∷ []) message ≡ sent (take eintr message ++ message)
unfolding write_message
write_message_repeats k [] h l = elim h [ ]
write_message_repeats k (b ∷ bs) h l =
    let n = length (b ∷ bs) in
    let first : min eintr n ≡ eintr = omega arith in
    let second : min k n ≡ n = omega arith in
    let longer : (n == eintr) ≡ false = ground arith in
    let some_left : (n == 0) ≡ false = ground arith in
    rw first (
      rw second (
        rw longer (
          rw (take_all n (b ∷ bs) (omega arith), drop_all n (b ∷ bs) (omega arith))
            (rw append-nil (rw some_left)))))

abbrev pub always_four : ℕ → List Answer
always_four zero = []
always_four (suc rounds) = accepts eintr ∷ always_four rounds

abbrev pub copies : ℕ → Bytes → Bytes
copies zero bytes = []
copies (suc rounds) bytes = bytes ++ copies rounds bytes

-- When 4 bytes are left and every write accepts them, the loop sends them for ever: after any number
-- of writes it is still waiting for the next one.
pub write_message_spins :
    (rounds : ℕ) (a b c d : ℕ)
    → write_message (always_four rounds) (a ∷ b ∷ c ∷ d ∷ [])
      ≡ blocked (copies rounds (a ∷ b ∷ c ∷ d ∷ []))
unfolding write_message
write_message_spins zero a b c d = refl
write_message_spins (suc n) a b c d = rw (write_message_spins n a b c d)

-- A control message holds the length of its JSON text in the first four bytes, and the text after
-- eight, for every text shorter than 4 GiB.
pub get_proxy_ctl_msg_lem :
    (json : Bytes)
    → length json < 2 ^ 32
    → (get_big_endian_32 (get_proxy_ctl_msg json) ≡ some (length json))
      × (drop 8 (get_proxy_ctl_msg json) ≡ json)
unfolding get_proxy_ctl_msg
get_proxy_ctl_msg_lem json h = (
  get_big_endian_32-set_big_endian_32 (length json % 2 ^ 32) (0 ∷ 0 ∷ 0 ∷ 0 ∷ json) (omega arith)
      ∙ ap some (omega arith),
  refl,
)
