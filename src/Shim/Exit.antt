-- ===== src/Shim/Exit.antt =====
-- When the shim ends with a status that it has been sent: the two messages that it takes.
use mathlib.Core.Option.{none-ne-some, some-injective}
use cc_oci_runtime.Prelude.{
  ℕ, ◌≡◌, refl, sym, ◌∙◌, ap, Bool, true, false, ◌⊎◌, inl, inr, Option, none, some, List, [], ◌∷◌,
  ◌++◌, ◌==◌, Bytes, Bool-cases, length, ◌+◌, ◌%◌, ◌^◌, ◌≤◌, ◌<◌, All, arith,
}
use cc_oci_runtime.Shim.Kernel.{Arrival, piece, broken, Answer, read}
use cc_oci_runtime.Shim.Control.{handle_signals}
use cc_oci_runtime.Shim.State.{CcShim, stream_header_size, hyperstart_max_recv_bytes}
use cc_oci_runtime.Shim.Stream.{
  Out, Output, writes, nothing, exit, exit_failure, out_for, write_all, stream_message, read_loop,
  read_round, read_io_message, handle_message, handle_proxy_output,
}
use cc_oci_runtime.Shim.Reading.{IsOpen, bytes_of}
use cc_oci_runtime.Shim.Session.{deliver, deliver_on, handle_proxy_output-deliver}
use cc_oci_runtime.Shim.Loop.{
  Poll, showed, signalled, LoopEnd, exited, failed, returned, polling, Event, IoRound, io_done,
  io_ends, io_of, io_round, ctl_round, stdin_round, log, main_loop,
}

-- A message of the proxy: its sequence number and its payload.
abbrev pub Message : Type 0
Message = ℕ × Bytes

-- All that arrives on the channel.
abbrev pub stream_of : List Message → Bytes
stream_of [] = []
stream_of ((seq, payload) ∷ ms) = stream_message seq payload ++ stream_of ms

abbrev pub Fits : List Message → Type 0
Fits = All (λ m. (m.0 < 2 ^ 64) × (length m.1 + stream_header_size ≤ hyperstart_max_recv_bytes))

-- One of the two sequence numbers of a shim, which are those of its stdout and its stderr.
abbrev pub IsOurs : CcShim → ℕ → Type 0
IsOurs shim seq = (seq ≡ shim.io_seq_no) ⊎ (seq ≡ (shim.io_seq_no + 1) % 2 ^ 64)

-- A message among them is the status `c`.
pub data EndsWith (shim : CcShim) (c : ℕ) : List Message → Type 0 where
  status :
      (seq : ℕ) (payload : Bytes) (ms : List Message)
      → IsOurs shim seq
      → payload ≡ c ∷ []
      → EndsWith shim c ((seq, payload) ∷ ms)
  skip : (m : Message) (ms : List Message) → EndsWith shim c ms → EndsWith shim c (m ∷ ms)

-- The two messages, in this order, that an exit with status `c` takes.
pub data EofThenStatus (shim : CcShim) (c : ℕ) : List Message → Type 0 where
  eof :
      (seq : ℕ) (payload : Bytes) (ms : List Message)
      → IsOurs shim seq
      → payload ≡ []
      → EndsWith shim c ms
      → EofThenStatus shim c ((seq, payload) ∷ ms)
  skip : (m : Message) (ms : List Message) → EofThenStatus shim c ms → EofThenStatus shim c (m ∷ ms)

abbrev with_exiting : CcShim → Bool → CcShim
with_exiting shim b = record shim { exiting = b }

out_for-exiting :
    (shim : CcShim) (b : Bool) (seq : ℕ) → out_for (with_exiting shim b) seq ≡ out_for shim seq
unfolding out_for
out_for-exiting shim b seq = refl

abbrev exit_of : Output → Option ℕ
exit_of (exit c) = some c
exit_of _ = none

-- A round of an exiting shim: the status, or something that leaves it as it is.
data ExitingRound (shim : CcShim) (payload : Bytes) : Option Out → CcShim × Output → Type 0 where
  status :
      (out : Out) (c : ℕ)
      → payload ≡ c ∷ []
      → ExitingRound shim payload (some out) (with_exiting shim true, exit c)
  goes_on :
      (o : Option Out) (r : Output)
      → exit_of r ≡ none
      → ExitingRound shim payload o (with_exiting shim true, r)

exiting_round :
    (shim : CcShim) (o : Option Out) (payload : Bytes) (answers : List Answer)
    → ExitingRound shim payload o (deliver_on (with_exiting shim true) o payload answers)
unfolding deliver
exiting_round shim none payload answers = goes_on none nothing refl
exiting_round shim (some out) [] answers =
    goes_on (some out) (writes out (write_all answers [])) refl
exiting_round shim (some out) (c ∷ []) answers = status out c refl
exiting_round shim (some out) (c ∷ d ∷ bytes) answers =
    goes_on (some out) (writes out (write_all answers (c ∷ d ∷ bytes))) refl

-- A round of a shim that is not exiting: the announcement, or something that leaves it as it is.
data RunningRound (shim : CcShim) (payload : Bytes) : Option Out → CcShim × Output → Type 0 where
  announced :
      (out : Out) (r : Output)
      → payload ≡ []
      → exit_of r ≡ none
      → RunningRound shim payload (some out) (with_exiting shim true, r)
  goes_on :
      (o : Option Out) (r : Output)
      → exit_of r ≡ none
      → RunningRound shim payload o (with_exiting shim false, r)

running_round :
    (shim : CcShim) (o : Option Out) (payload : Bytes) (answers : List Answer)
    → RunningRound shim payload o (deliver_on (with_exiting shim false) o payload answers)
unfolding deliver
running_round shim none payload answers = RunningRound.goes_on none nothing refl
running_round shim (some out) [] answers = announced out nothing refl refl
running_round shim (some out) (c ∷ []) answers =
    RunningRound.goes_on (some out) (writes out (write_all answers (c ∷ []))) refl
running_round shim (some out) (c ∷ d ∷ bytes) answers =
    RunningRound.goes_on (some out) (writes out (write_all answers (c ∷ d ∷ bytes))) refl

out_for-IsOurs :
    (shim : CcShim) (seq : ℕ) (out : Out) → out_for shim seq ≡ some out → IsOurs shim seq
unfolding out_for
out_for-IsOurs shim seq out h = elim (Bool-cases (seq == shim.io_seq_no)) [
  | inl e ↦ inl (ground arith)
  | inr n ↦ elim (Bool-cases (seq == (shim.io_seq_no + 1) % 2 ^ 64)) [
    | inl e ↦ inr (ground arith)
    | inr m ↦ absurd (none-ne-some out (ground arith))
  ]
]

-- The two messages, or the second one if the first has come.
abbrev Target : Bool → CcShim → ℕ → List Message → Type 0
Target true shim c ms = EndsWith shim c ms
Target false shim c ms = EofThenStatus shim c ms

no_bytes : (arrivals : List Arrival) → IsOpen arrivals → bytes_of arrivals ≡ [] → arrivals ≡ []
no_bytes [] h e = refl
no_bytes (piece [] ∷ rest) h e = absurd h
no_bytes (piece (b ∷ bs) ∷ rest) h e = cc
no_bytes (broken ∷ rest) h e = absurd h

at_end : (shim : CcShim) (answers : List Answer) → io_round true shim [] answers ≡ io_ends failed
unfolding handle_proxy_output read_io_message read_loop read_round read handle_message
at_end shim answers = refl

-- What follows the I/O channel in a round.
abbrev after_io : Bool → Poll → List Poll → IoRound → List Event × LoopEnd
after_io stdin_open p polls r = elim r [
  | io_ends ending ↦ ([], ending)
  | io_done shim' left output ↦ log (showed output ∷ []) (elim (ctl_round p.ctl) [
    | false ↦ ([], failed)
    | true ↦
        log (stdin_round shim' stdin_open p.stdin).0
          (main_loop shim' (stdin_round shim' stdin_open p.stdin).1 left polls)
  ])
]

abbrev is_exit : LoopEnd → Option ℕ
is_exit (exited c) = some c
is_exit _ = none

not_exited : {P : Type 0} (ending : LoopEnd) {c : ℕ} → is_exit ending ≡ none → ending ≡ exited c → P
not_exited ending {c} e h = absurd (none-ne-some c (sym e ∙ ap is_exit h))

-- What is shown of the loop from some polls on, for every state of it.
abbrev Claim : CcShim → ℕ → List Poll → Type 0
Claim shim c polls =
    (b stdin_open : Bool) (arrivals : List Arrival) (ms : List Message)
    → Fits ms
    → IsOpen arrivals
    → bytes_of arrivals ≡ stream_of ms
    → (main_loop (with_exiting shim b) stdin_open arrivals polls).1 ≡ exited c
    → Target b shim c ms

module _ (shim : CcShim) (c : ℕ) (p : Poll) (polls : List Poll) (ih : Claim shim c polls)
    (stdin_open : Bool) (left : List Arrival) (ms : List Message) (fits : Fits ms)
    (still_open : IsOpen left) (same : bytes_of left ≡ stream_of ms) where
  after_io-Target :
      (b : Bool) (output : Output)
      → (after_io stdin_open p polls (io_done (with_exiting shim b) left output)).1 ≡ exited c
      → Target b shim c ms
  after_io-Target b output = by_ctl (ctl_round p.ctl)
    where
      s : CcShim
      s = with_exiting shim b

      by_ctl :
          (alive : Bool)
          → (log (showed output ∷ []) (elim alive as (λ _. List Event × LoopEnd) [
            | false ↦ ([], failed)
            | true ↦
                log
                  (stdin_round s stdin_open p.stdin).0
                  (main_loop s (stdin_round s stdin_open p.stdin).1 left polls)
          ])).1
            ≡ exited c
          → Target b shim c ms
      by_ctl false h = not_exited failed refl h
      by_ctl true h = ih b (stdin_round s stdin_open p.stdin).1 left ms fits still_open same h

  output-Target :
      (b : Bool) (r : Output)
      → exit_of r ≡ none
      → (after_io stdin_open p polls (io_of (some ((with_exiting shim b, r), left)))).1 ≡ exited c
      → Target b shim c ms
  output-Target b (writes out sending) e h = after_io-Target b (writes out sending) h
  output-Target b nothing e h = after_io-Target b nothing h
  output-Target b (exit k) e h = absurd (none-ne-some k (sym e))
  output-Target b exit_failure e h = not_exited failed refl h

  exiting_step :
      (seq : ℕ) (payload : Bytes) (o : Option Out) (r : CcShim × Output)
      → out_for shim seq ≡ o
      → ExitingRound shim payload o r
      → (after_io stdin_open p polls (io_of (some (r, left)))).1 ≡ exited c
      → EndsWith shim c ((seq, payload) ∷ ms)
  exiting_step seq payload _ _ e (status out k q) h =
      EndsWith.status seq payload ms (out_for-IsOurs shim seq out e)
        (q ∙ ap (λ x. x ∷ []) (some-injective _ _ (ap is_exit h)))
  exiting_step seq payload _ _ e (goes_on o r q) h =
      EndsWith.skip (seq, payload) ms (output-Target true r q h)

  running_step :
      (seq : ℕ) (payload : Bytes) (o : Option Out) (r : CcShim × Output)
      → out_for shim seq ≡ o
      → RunningRound shim payload o r
      → (after_io stdin_open p polls (io_of (some (r, left)))).1 ≡ exited c
      → EofThenStatus shim c ((seq, payload) ∷ ms)
  running_step seq payload _ _ e (announced out r q k) h =
      EofThenStatus.eof seq payload ms (out_for-IsOurs shim seq out e) q (output-Target true r k h)
  running_step seq payload _ _ e (RunningRound.goes_on o r q) h =
      EofThenStatus.skip (seq, payload) ms (output-Target false r q h)

  message-Target :
      (b : Bool) (seq : ℕ) (payload : Bytes)
      → (after_io stdin_open p polls (
          io_of (
            some (
              deliver_on
                  (with_exiting shim b)
                  (out_for (with_exiting shim b) seq)
                  payload
                  p.answers,
              left,
            )))).1
        ≡ exited c
      → Target b shim c ((seq, payload) ∷ ms)
  message-Target true seq payload h =
      exiting_step seq payload (out_for (with_exiting shim true) seq) _
        (sym (out_for-exiting shim true seq))
        (exiting_round shim (out_for (with_exiting shim true) seq) payload p.answers) h
  message-Target false seq payload h =
      running_step seq payload (out_for (with_exiting shim false) seq) _
        (sym (out_for-exiting shim false seq))
        (running_round shim (out_for (with_exiting shim false) seq) payload p.answers) h

-- A round whose poll has not failed.
poll-Target :
    (shim : CcShim) (c : ℕ) (p : Poll) (polls : List Poll) (b stdin_open : Bool)
    (arrivals : List Arrival) (ms : List Message)
    → Claim shim c polls
    → Fits ms
    → IsOpen arrivals
    → bytes_of arrivals ≡ stream_of ms
    → (ready : Bool)
    → (after_io stdin_open p polls (io_round ready (with_exiting shim b) arrivals p.answers)).1
      ≡ exited c
    → Target b shim c ms
poll-Target shim c p polls b stdin_open arrivals ms ih fits o e false h =
    after_io-Target shim c p polls ih stdin_open arrivals ms fits o e b nothing h
poll-Target shim c p polls b stdin_open arrivals [] ih fits o e true h =
    let ended = at_end (with_exiting shim b) p.answers in
    not_exited failed refl (
      sym (
        ap (λ a. (after_io stdin_open p polls (io_round true (with_exiting shim b) a p.answers)).1)
          (no_bytes arrivals o e)
        ∙ ap (λ r. (after_io stdin_open p polls r).1) ended)
      ∙ h)
poll-Target shim c p polls b stdin_open arrivals ((seq, payload) ∷ ms) ih fits o e true h =
    let d =
      handle_proxy_output-deliver (with_exiting shim b) arrivals p.answers seq payload
        (stream_of ms) fits.0.0 fits.0.1 o e in
    message-Target shim c p polls ih stdin_open d.left ms fits.1 d.still_open d.same b seq payload
      (sym (ap (λ r. (after_io stdin_open p polls (io_of r)).1) d.returns) ∙ h)

main_loop-Target : (shim : CcShim) (c : ℕ) (polls : List Poll) → Claim shim c polls
unfolding main_loop
main_loop-Target shim c [] b stdin_open arrivals ms fits o e h = not_exited polling refl h
main_loop-Target shim c (p ∷ polls) b stdin_open arrivals ms fits o e h =
    by_poll p.fails (main_loop-Target shim c polls) h
  where
    by_poll :
        (fails : Bool)
        → Claim shim c polls
        → (elim fails as (λ _. List Event × LoopEnd) [
          | true ↦ ([], returned)
          | false ↦ log (signalled (handle_signals (with_exiting shim b) p.signals) ∷ []) (
              after_io stdin_open p polls
                (io_round p.io_ready (with_exiting shim b) arrivals p.answers))
        ]).1
          ≡ exited c
        → Target b shim c ms
    by_poll true ih h = not_exited returned refl h
    by_poll false ih h =
        poll-Target shim c p polls b stdin_open arrivals ms ih fits o e p.io_ready h

-- A shim that is not exiting, and on whose I/O channel whole messages of at most 10240 bytes arrive,
-- in whatever pieces, exits with a status `c` that it has been sent only after an empty message on one
-- of its two sequence numbers and, later, a message on one of them whose only byte is `c`, whatever
-- its polls find. The ends that are no such exit are apart: EXIT_FAILURE when a channel of the proxy
-- is lost, and 0 when a poll fails.
pub main_loop-exit :
    (shim : CcShim) (c : ℕ) (polls : List Poll) (stdin_open : Bool) (arrivals : List Arrival)
    (ms : List Message)
    → shim.exiting ≡ false
    → Fits ms
    → IsOpen arrivals
    → bytes_of arrivals ≡ stream_of ms
    → (main_loop shim stdin_open arrivals polls).1 ≡ exited c
    → EofThenStatus shim c ms
main_loop-exit shim c polls stdin_open arrivals ms e fits o same h =
    let unset : with_exiting shim false ≡ shim = λ i. record shim { exiting = sym e i } in
    main_loop-Target shim c polls false stdin_open arrivals ms fits o same
      (ap (λ s. (main_loop s stdin_open arrivals polls).1) unset ∙ h)
