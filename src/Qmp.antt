-- ===== src/Qmp.antt =====
-- src/network.c: the messages of the hypervisor's control socket (cc_oci_qmp_msg_recv). What each
-- receive gets is an argument.
pub mod Drained
pub mod Received
use cc_oci_runtime.Prelude.{
  ℕ, zero, suc, Bool, true, false, ◌&&◌, Option, none, some, List, [], ◌∷◌, ◌++◌, ◌==◌, drop,
  length, if◌then◌else◌, Bytes,
}

-- g_socket_receive: some bytes, the end of the stream, or an error.
pub data QmpArrival : Type 0 where
  chunk : Bytes → QmpArrival
  closed fault : QmpArrival

-- How a receive ends: with the messages and what arrives later, with failure, by a crash, or never.
pub data QmpReceived : Type 0 where
  received : List Bytes → List QmpArrival → QmpReceived
  failed crashed waits : QmpReceived

abbrev pub starts_with : ℕ → Bytes → Bool
starts_with c [] = false
starts_with c (d ∷ s) = d == c

abbrev pub put_before : ℕ → Option (Bytes × Bytes) → Option (Bytes × Bytes)
put_before c none = none
put_before c (some (msg, rest)) = some (c ∷ msg, rest)

-- g_strstr_len for CC_OCI_MSG_SEPARATOR: what is before the first one, and what is behind it. The
-- search stops at a NUL.
unfoldable pub find_separator : Bytes → Option (Bytes × Bytes)
find_separator [] = none
find_separator (c ∷ s) =
    let rest = find_separator s in
    if c == 0
    then none
    else if c == 13 && starts_with 10 s
    then some ([], drop 1 s)
    else put_before c rest

-- The inner loop, on fuel: each message takes a byte at least.
unfoldable pub read_messages : ℕ → Bytes → List Bytes × Bytes
unfolding find_separator
read_messages zero s = ([], s)
read_messages (suc n) s = elim (find_separator s) [
  | none ↦ ([], s)
  | some r ↦ (let more = read_messages n r.1 in (r.0 ∷ more.0, more.1))
]

-- From the test of the count on: all that was received must have been handled.
abbrev pub all_handled : List Bytes → Bytes → List QmpArrival → QmpReceived
all_handled msgs [] later = received msgs later
all_handled msgs (_ ∷ _) later = crashed

-- `msgs` are the messages so far, and `left` is what was received behind them. At the end of the
-- stream there is no error whose message could be shown.
unfoldable pub qmp_msg_recv : ℕ → List Bytes → Bytes → List QmpArrival → QmpReceived
unfolding read_messages
qmp_msg_recv expected_count msgs left [] = waits
qmp_msg_recv expected_count msgs left (closed ∷ later) = crashed
qmp_msg_recv expected_count msgs left (fault ∷ later) = failed
qmp_msg_recv expected_count msgs left (chunk s ∷ later) =
    let r = read_messages (length (left ++ s)) (left ++ s) in
    let rest = qmp_msg_recv expected_count (msgs ++ r.0) r.1 later in
    if length (msgs ++ r.0) == expected_count then all_handled (msgs ++ r.0) r.1 later else rest
