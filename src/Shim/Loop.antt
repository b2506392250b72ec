-- ===== src/Shim/Loop.antt =====
-- The loop of main in shim/shim.c, from the first poll on. What each poll finds is an argument; the
-- bytes of the I/O channel are those that arrive there in the whole run.
use cc_oci_runtime.Prelude.{
  ℕ, Bool, true, false, not, Option, none, some, List, [], ◌∷◌, ◌++◌, if◌then◌else◌,
}
use cc_oci_runtime.Shim.Kernel.{Arrival, ReadResult, Answer, Sending}
use cc_oci_runtime.Shim.State.{CcShim}
use cc_oci_runtime.Shim.Control.{Signal, handle_signals}
use cc_oci_runtime.Shim.Stream.{
  StdinRound, handle_stdin, Output, writes, nothing, exit, exit_failure, handle_proxy_output,
  handle_proxy_ctl,
}

-- What a poll finds: an error other than EINTR, the signals in the pipe, whether the I/O channel is
-- ready and the answers to the writes that follow, and what a read of the control socket and of stdin
-- gives, if they are ready.
pub record Poll : Type 0 where
  pub fails : Bool
  pub signals : List Signal
  pub io_ready : Bool
  pub answers : List Answer
  pub ctl : Option ReadResult
  pub stdin : Option (ReadResult × Answer)

-- How the process ends: with the status that it has been sent, by err_exit with EXIT_FAILURE, or by
-- the return of main with 0; `polling` is still in the loop, and `out_of_bounds` a read past the end of
-- a buffer.
pub data LoopEnd : Type 0 where
  exited : ℕ → LoopEnd
  failed returned polling out_of_bounds : LoopEnd

-- What a round has sent or shown.
pub data Event : Type 0 where
  signalled : List (Option Sending) → Event
  showed : Output → Event
  passed_stdin : StdinRound → Event

pub data IoRound : Type 0 where
  io_done : CcShim → List Arrival → Output → IoRound
  io_ends : LoopEnd → IoRound

abbrev pub io_of : Option ((CcShim × Output) × List Arrival) → IoRound
io_of none = io_ends out_of_bounds
io_of (some ((shim, exit c), left)) = io_ends (exited c)
io_of (some ((shim, exit_failure), left)) = io_ends failed
io_of (some ((shim, writes out sending), left)) = io_done shim left (writes out sending)
io_of (some ((shim, nothing), left)) = io_done shim left nothing

abbrev pub io_round : Bool → CcShim → List Arrival → List Answer → IoRound
io_round ready shim arrivals answers =
    if ready
    then io_of (handle_proxy_output shim arrivals answers)
    else io_done shim arrivals nothing

abbrev pub ctl_round : Option ReadResult → Bool
ctl_round none = true
ctl_round (some nread) = handle_proxy_ctl nread

-- Stdin is polled until its end has been seen.
abbrev pub stdin_round : CcShim → Bool → Option (ReadResult × Answer) → List Event × Bool
stdin_round shim open_still none = ([], open_still)
stdin_round shim open_still (some (nread, answer)) =
    let r = handle_stdin shim nread answer in
    if open_still then (passed_stdin r ∷ [], not r.stdin_closed) else ([], false)

abbrev pub log : List Event → List Event × LoopEnd → List Event × LoopEnd
log events r = (events ++ r.0, r.1)

unfoldable pub main_loop : CcShim → Bool → List Arrival → List Poll → List Event × LoopEnd
unfolding handle_signals handle_proxy_output handle_proxy_ctl handle_stdin
main_loop shim stdin_open arrivals [] = ([], polling)
main_loop shim stdin_open arrivals (p ∷ polls) = elim p.fails [
  | true ↦ ([], returned)
  | false ↦
      log (signalled (handle_signals shim p.signals) ∷ [])
        (elim (io_round p.io_ready shim arrivals p.answers) [
          | io_ends ending ↦ ([], ending)
          | io_done shim' left output ↦ log (showed output ∷ []) (elim (ctl_round p.ctl) [
            | false ↦ ([], failed)
            | true ↦
                log (stdin_round shim' stdin_open p.stdin).0
                  (main_loop shim' (stdin_round shim' stdin_open p.stdin).1 left polls)
          ])
        ])
]
