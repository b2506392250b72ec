-- ===== src/Qmp/Received.antt =====
-- What is received of the messages that the hypervisor sends.
use mathlib.Core.Path.{subst}
use mathlib.Core.Option.{none-ne-some}
use cc_oci_runtime.Prelude.{
  ℕ, suc, ◌+◌, ◌≡◌, ◌≢◌, refl, sym, ap, ◌∙◌, true, false, none, List, [], ◌∷◌, ◌++◌, ◌==◌, length,
  All, append_assoc, append-nil, length-append, if◌then◌else◌, Bytes, arith,
}
use cc_oci_runtime.Qmp.Drained.{IsMessage, sent, find_whole, find_empty, drained}
use cc_oci_runtime.Qmp.{
  QmpArrival, chunk, received, find_separator, read_messages, all_handled, qmp_msg_recv,
}

-- The pieces in which the text arrives, of which none is empty.
abbrev pub joined : List Bytes → Bytes
joined [] = []
joined (s ∷ ss) = s ++ joined ss

abbrev pub IsPiece : Bytes → Type 0
IsPiece [] = ⊥
IsPiece (_ ∷ _) = Unit

abbrev pub arrivals : List Bytes → List QmpArrival → List QmpArrival
arrivals [] later = later
arrivals (s ∷ ss) later = chunk s ∷ arrivals ss later

nothing_left : (ss : List Bytes) → All IsPiece ss → joined ss ≡ [] → ss ≡ []
nothing_left [] h e = refl
nothing_left ([] ∷ ss) h e = absurd h.0
nothing_left ((c ∷ s) ∷ ss) h e = absurd (let k = ap length e in omega arith)

All-right : (xs ys : List Bytes) → All IsMessage (xs ++ ys) → All IsMessage ys
All-right [] ys h = h
All-right (x ∷ xs) ys h = All-right xs ys h.1

-- One chunk.
recv_step :
    (n : ℕ) (msgs done : List Bytes) (left s rest : Bytes) (later : List QmpArrival)
    → read_messages (length (left ++ s)) (left ++ s) ≡ (done, rest)
    → qmp_msg_recv n msgs left (chunk s ∷ later) ≡ (
        if length (msgs ++ done) == n
        then all_handled (msgs ++ done) rest later
        else qmp_msg_recv n (msgs ++ done) rest later)
unfolding qmp_msg_recv
recv_step n msgs done left s rest later e =
    ap
      (λ r.
        if length (msgs ++ r.0) == n
        then all_handled (msgs ++ r.0) r.1 later
        else qmp_msg_recv n (msgs ++ r.0) r.1 later)
      e

-- What remains to be done with the chunks that are still to come.
abbrev Later : ℕ → List Bytes → List QmpArrival → Type 0
Later n ss later =
    (msgs more : List Bytes) (left : Bytes)
    → All IsMessage more
    → more ≢ []
    → find_separator left ≡ none
    → n ≡ length msgs + length more
    → left ++ joined ss ≡ sent more
    → qmp_msg_recv n msgs left (arrivals ss later) ≡ received (msgs ++ more) later

counted : (n k : ℕ) → k ≡ n → (k == n) ≡ true
counted n k e = ground arith

uncounted : (n k m : ℕ) → n ≡ k + suc m → (k == n) ≡ false
uncounted n k m e = ground arith

all_received :
    (n : ℕ) (msgs done : List Bytes) (rest : Bytes) (ss : List Bytes) (later : List QmpArrival)
    → n ≡ length msgs + length done
    → All IsPiece ss
    → rest ++ joined ss ≡ []
    → (if length (msgs ++ done) == n
        then all_handled (msgs ++ done) rest (arrivals ss later)
        else qmp_msg_recv n (msgs ++ done) rest (arrivals ss later))
      ≡ received (msgs ++ done) later
all_received n msgs done [] [] later c p e =
    ap (λ b. if b then received (msgs ++ done) later else qmp_msg_recv n (msgs ++ done) [] later)
      (counted n (length (msgs ++ done)) (length-append msgs done ∙ sym c))
all_received n msgs done [] ([] ∷ ss) later c p e = absurd p.0
all_received n msgs done [] ((x ∷ s) ∷ ss) later c p e = absurd (let k = ap length e in omega arith)
all_received n msgs done (x ∷ rest) ss later c p e = absurd (let k = ap length e in omega arith)

after_chunk :
    (n : ℕ) (msgs more done left : List Bytes) (rest : Bytes) (ss : List Bytes)
    (later : List QmpArrival)
    → Later n ss later
    → All IsMessage more
    → All IsPiece ss
    → n ≡ length msgs + length more
    → more ≡ done ++ left
    → rest ++ joined ss ≡ sent left
    → find_separator rest ≡ none
    → (if length (msgs ++ done) == n
        then all_handled (msgs ++ done) rest (arrivals ss later)
        else qmp_msg_recv n (msgs ++ done) rest (arrivals ss later))
      ≡ received (msgs ++ more) later
after_chunk n msgs more done [] rest ss later ih h p c e r f =
    all_received n msgs done rest ss later
      (c ∙ ap (λ l. length msgs + length l) (e ∙ append-nil done)) p r
    ∙ ap (λ l. received (msgs ++ l) later) (sym (e ∙ append-nil done))
after_chunk n msgs more done (x ∷ left) rest ss later ih h p c e r f =
    ap
      (λ b.
        if b
        then all_handled (msgs ++ done) rest (arrivals ss later)
        else qmp_msg_recv n (msgs ++ done) rest (arrivals ss later))
      (uncounted n (length (msgs ++ done)) (length left) total)
    ∙ ih (msgs ++ done) (x ∷ left) rest (All-right done (x ∷ left) (subst (All IsMessage) e h))
        (λ k. cc) f total r
    ∙ ap (λ l. received l later) (append_assoc msgs done (x ∷ left) ∙ ap (msgs ++◌) (sym e))
  where
    total : n ≡ length (msgs ++ done) + suc (length left)
    total =
        let a = length-append msgs done in
        let b = length-append done (x ∷ left) in let d = ap length e in omega arith

recv-sent : (n : ℕ) (ss : List Bytes) (later : List QmpArrival) → All IsPiece ss → Later n ss later
recv-sent n [] later p msgs [] left h w f c e = absurd (w refl)
recv-sent n [] later p msgs (m ∷ more) left h w f c e = absurd (
    none-ne-some _
      (sym f ∙ ap find_separator (sym (append-nil left) ∙ e) ∙ find_whole m (sent more) h.0))
recv-sent n (s ∷ ss) later (p, ps) msgs more left h w f c e =
    let d =
      drained more (length (left ++ s)) (left ++ s) (joined ss) h (omega arith)
        (append_assoc left s (joined ss) ∙ e) in
    recv_step n msgs d.done left s d.rest (arrivals ss later) d.reads
    ∙ after_chunk n msgs more d.done d.later d.rest ss later (recv-sent n ss later ps) h ps c
        d.parts d.remains d.complete

-- The messages that the hypervisor sends are received whole and in order, in whatever pieces their
-- bytes arrive, and nothing that arrives later is touched: for at least one message, as many as are
-- expected, none with a NUL or a carriage return, and pieces that are not empty.
pub qmp_msg_recv-sent :
    (msg : Bytes) (msgs pieces : List Bytes) (later : List QmpArrival)
    → All IsMessage (msg ∷ msgs)
    → All IsPiece pieces
    → joined pieces ≡ sent (msg ∷ msgs)
    → qmp_msg_recv (length (msg ∷ msgs)) [] [] (arrivals pieces later) ≡ received (msg ∷ msgs) later
qmp_msg_recv-sent msg msgs pieces later h p e =
    recv-sent (length (msg ∷ msgs)) pieces later p [] (msg ∷ msgs) [] h (λ k. cc) find_empty
      (omega arith) e
