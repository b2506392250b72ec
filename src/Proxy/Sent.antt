-- ===== src/Proxy/Sent.antt =====
-- What cc-proxy gets of a message.
use cc_oci_runtime.Prelude.{
  ℕ, suc, ◌+◌, ◌%◌, ◌^◌, ◌≤◌, ◌<◌, ◌≡◌, refl, ap, ◌∙◌, false, List, [], ◌∷◌, ◌++◌, append-nil,
  Bytes, length, length-append, zero, take, take_all, All, arith,
}
use cc_oci_runtime.Shim.Endian.{set_big_endian_32}
use cc_oci_runtime.Shim.Control.{get_proxy_ctl_msg}
use cc_oci_runtime.Proxy.Frame.{
  IoStatus, normal, again, Writing, awaits_reply, given_up, waiting, utf8_strlen, after, retry,
  proxy_header, msg_write,
}

-- Answers with no error among them: any number of retries that have taken nothing, and a success,
-- three times over.
pub data Tries : List IoStatus → List IoStatus → Type 0 where
  done : (rest : List IoStatus) → Tries (normal ∷ rest) rest
  more : (answers rest : List IoStatus) → Tries answers rest → Tries (again 0 ∷ answers) rest

retry-Tries :
    {answers rest : List IoStatus} (bytes : Bytes) (next : List IoStatus → Writing)
    → Tries answers rest
    → retry answers bytes next ≡ after bytes (next rest)
unfolding retry
retry-Tries bytes next (done rest) = refl
retry-Tries bytes next (more answers rest t) =
    ap (after []) (retry-Tries bytes next t) ∙ after-nil (after bytes (next rest))
  where
    after-nil : (w : Writing) → after [] w ≡ w
    after-nil (awaits_reply bs) = refl
    after-nil (given_up bs) = refl
    after-nil (waiting bs) = refl

utf8_strlen-le : (s : Bytes) → utf8_strlen s ≤ length s
unfolding utf8_strlen
utf8_strlen-le [] = omega arith
utf8_strlen-le (c ∷ s) = ground (arith, utf8_strlen-le s)

-- Every character is one byte.
abbrev pub IsAscii : Bytes → Type 0
IsAscii = All (λ c. c < 128)

pub utf8_strlen-IsAscii : (s : Bytes) → IsAscii s → utf8_strlen s ≡ length s
unfolding utf8_strlen
utf8_strlen-IsAscii [] h = refl
utf8_strlen-IsAscii (c ∷ s) h = ground (arith, utf8_strlen-IsAscii s h.1)

abbrev proxy_header_of : ℕ → Bytes
proxy_header_of n = set_big_endian_32 (n % 2 ^ 32) ++ (0 ∷ 0 ∷ 0 ∷ 0 ∷ [])

-- A channel that takes a message: each of the three loops ends without an error.
pub record Takes (answers : List IoStatus) : Type 0 where
  pub second : List IoStatus
  pub third : List IoStatus
  pub rest : List IoStatus
  pub header : Tries answers second
  pub text : Tries second third
  pub flush : Tries third rest

-- What is sent: the header, and as many bytes of the text as it has characters.
msg_write-frame :
    (msg : Bytes) (answers : List IoStatus)
    → Takes answers
    → msg_write false msg answers ≡ awaits_reply (proxy_header msg ++ take (utf8_strlen msg) msg)
unfolding msg_write
msg_write-frame msg answers t =
    retry-Tries (proxy_header msg) _ t.header
    ∙ ap (after (proxy_header msg)) (
        retry-Tries (take (utf8_strlen msg) msg) _ t.text
        ∙ ap (after (take (utf8_strlen msg) msg)) (retry-Tries [] _ t.flush))
    ∙ ap (λ s. awaits_reply (proxy_header msg ++ s)) (append-nil (take (utf8_strlen msg) msg))

-- A message in ASCII reaches cc-proxy in the frame that the shim uses: its length in four bytes, four
-- reserved, and all its text, when the channel takes it without an error and no retry has taken a
-- part of it.
pub msg_write-get_proxy_ctl_msg :
    (msg : Bytes) (answers : List IoStatus)
    → IsAscii msg
    → Takes answers
    → msg_write false msg answers ≡ awaits_reply (get_proxy_ctl_msg msg)
unfolding proxy_header get_proxy_ctl_msg
msg_write-get_proxy_ctl_msg msg answers h t =
    let n : utf8_strlen msg ≡ length msg = utf8_strlen-IsAscii msg h in
    msg_write-frame msg answers t
    ∙ ap (λ k. awaits_reply (proxy_header_of k ++ take k msg)) n
    ∙ ap (λ s. awaits_reply (proxy_header_of (length msg) ++ s))
        (take_all (length msg) msg (omega arith))

utf8_strlen-append : (s t : Bytes) → utf8_strlen (s ++ t) ≡ utf8_strlen s + utf8_strlen t
unfolding utf8_strlen
utf8_strlen-append [] t = omega arith
utf8_strlen-append (c ∷ s) t = ground (arith, utf8_strlen-append s t)

continued : (c : ℕ) (t : Bytes) → 128 ≤ c → c < 192 → utf8_strlen (c ∷ t) ≡ utf8_strlen t
unfolding utf8_strlen
continued c t h k = ground arith

length-take-min : (n : ℕ) (s : Bytes) → n ≤ length s → length (take n s) ≡ n
length-take-min zero s h = refl
length-take-min (suc n) [] h = absurd (omega arith)
length-take-min (suc n) (x ∷ s) h = omega (arith, length-take-min n s)

-- A message with a character of more than one byte is cut off: the header promises, and the channel
-- takes, fewer bytes of the text than there are, though no call has failed.
pub msg_write_cut :
    (s t : Bytes) (c : ℕ) (answers : List IoStatus)
    → 128 ≤ c
    → c < 192
    → Takes answers
    → (sent : Bytes) × (msg_write false (s ++ (c ∷ t)) answers
        ≡ awaits_reply (proxy_header (s ++ (c ∷ t)) ++ sent))
      × (length sent < length (s ++ (c ∷ t)))
msg_write_cut s t c answers h k takes =
    let msg = s ++ (c ∷ t) in
    let n : utf8_strlen msg < length msg = omega (
      arith,
      utf8_strlen-append s (c ∷ t),
      continued c t h k,
      utf8_strlen-le s,
      utf8_strlen-le t,
      length-append s (c ∷ t),
    ) in
    (
      take (utf8_strlen msg) msg,
      msg_write-frame msg answers takes,
      omega (arith, length-take-min (utf8_strlen msg) msg (omega arith)),
    )
