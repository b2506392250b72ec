-- ===== src/Shim/Control.antt =====
-- shim/shim.c: messages to the proxy's control socket, and the signals that are passed on as such.
use cc_oci_runtime.Prelude.{
  ℕ, ◌%◌, ◌^◌, Option, none, some, List, [], ◌∷◌, ◌++◌, ◌==◌, if◌then◌else◌, ℤ, pos, ltb_ℤ, Bytes,
  codes, length, take, drop, decimal,
}
use Prim.Native.Nat.{min}
use cc_oci_runtime.Shim.Kernel.{
  Answer, accepts, refuses, Sending, sent, failed, blocked, preceded_by,
}
use cc_oci_runtime.Shim.Endian.{set_big_endian_32}
use cc_oci_runtime.Shim.State.{CcShim}

-- Four bytes of length, four reserved, and the JSON text. The length is cut to 32 bits.
unfoldable pub get_proxy_ctl_msg : Bytes → Bytes
unfolding set_big_endian_32
get_proxy_ctl_msg json = set_big_endian_32 (length json % 2 ^ 32) ++ (0 ∷ 0 ∷ 0 ∷ 0 ∷ json)

-- The value of EINTR, with which the loop compares the count that write returns.
abbrev pub eintr : ℕ
eintr = 4

-- `while (offset < len)`: `message` is what stands from `offset` on, and each round uses up one
-- answer of the kernel.
unfoldable pub write_message : List Answer → Bytes → Sending
write_message answers [] = sent []
write_message [] (b ∷ bs) = blocked []
write_message (refuses ∷ answers) (b ∷ bs) = failed []
write_message (accepts k ∷ answers) (b ∷ bs) =
    let message = b ∷ bs in
    let ret = min k (length message) in
    let again = preceded_by (take ret message) (write_message answers message) in
    let onwards = preceded_by (take ret message) (write_message answers (drop ret message)) in
    if ret == eintr then again else if ret == 0 then failed [] else onwards

unfoldable pub hyper_payload : Bytes → Bytes → Bytes
hyper_payload hyper_cmd json =
    codes "{\"id\":\"hyper\",\"data\":{\"hyperName\":\""
    ++ (hyper_cmd ++ (codes "\",\"data\":" ++ (json ++ codes "}}")))

unfoldable pub send_proxy_hyper_message : ℤ → Bytes → Bytes → List Answer → Sending
unfolding get_proxy_ctl_msg write_message hyper_payload
send_proxy_hyper_message fd hyper_cmd json answers =
    if ltb_ℤ fd (pos 0)
    then sent []
    else write_message answers (get_proxy_ctl_msg (hyper_payload hyper_cmd json))

-- struct winsize, of which two fields are used.
pub record Winsize : Type 0 where
  pub ws_row : ℕ
  pub ws_col : ℕ

abbrev pub sigwinch : ℕ
sigwinch = 28

unfoldable pub winsize_json : CcShim → Winsize → Bytes
winsize_json shim ws =
    codes "{\"seq\":"
    ++ (decimal shim.io_seq_no
        ++ (codes ", \"row\":"
            ++ (decimal ws.ws_row ++ (codes ", \"column\":" ++ (decimal ws.ws_col ++ codes "}")))))

unfoldable pub kill_json : Bytes → ℕ → Bytes
kill_json container_id sig =
    codes "{\"container\":\""
    ++ (container_id ++ (codes "\", \"signal\":" ++ (decimal sig ++ codes "}")))

-- One signal number from the pipe, the answer of ioctl (TIOCGWINSZ), and the kernel's answers to the
-- writes that follow. `none` is a round that sends nothing.
pub record Signal : Type 0 where
  pub number : ℕ
  pub window : Option Winsize
  pub answers : List Answer

abbrev winsize_message : CcShim → Option Winsize → List Answer → Option Sending
winsize_message shim none answers = none
winsize_message shim (some ws) answers =
    some
      (send_proxy_hyper_message shim.proxy_sock_fd (codes "winsize") (winsize_json shim ws) answers)

unfoldable pub handle_signal : CcShim → Bytes → Signal → Option Sending
unfolding send_proxy_hyper_message winsize_json kill_json
handle_signal shim container_id s =
    if s.number == sigwinch
    then winsize_message shim s.window s.answers
    else some (
        send_proxy_hyper_message shim.proxy_sock_fd (codes "killcontainer")
          (kill_json container_id s.number) s.answers)

handle_each_signal : CcShim → Bytes → List Signal → List (Option Sending)
handle_each_signal shim container_id [] = []
handle_each_signal shim container_id (s ∷ signals) =
    handle_signal shim container_id s ∷ handle_each_signal shim container_id signals

-- What is sent for each signal that the pipe holds; the read that finds it empty ends the loop.
unfoldable pub handle_signals : CcShim → List Signal → List (Option Sending)
unfolding handle_each_signal handle_signal
handle_signals shim signals = elim shim.container_id [
  | none ↦ []
  | some id ↦ if ltb_ℤ shim.proxy_sock_fd (pos 0) then [] else handle_each_signal shim id signals
]
