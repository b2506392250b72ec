-- ===== src/QmpExamples.antt =====
-- The theorems on the control socket of the hypervisor at small inputs.
use cc_oci_runtime.Prelude.{◌≡◌, refl, List, [], ◌∷◌, Bytes, codes, arith}
use cc_oci_runtime.Qmp.{closed, received, qmp_msg_recv}
use cc_oci_runtime.Qmp.Received.{arrivals, qmp_msg_recv-sent}

-- Two messages in three pieces, one of which ends inside a separator.
abbrev pieces : List Bytes
pieces = codes "{}\r" ∷ codes "\n{" ∷ codes "}\r\n" ∷ []

qmp_msg_recv-sent_example :
    qmp_msg_recv 2 [] [] (arrivals pieces (closed ∷ []))
    ≡ received (codes "{}" ∷ codes "{}" ∷ []) (closed ∷ [])
qmp_msg_recv-sent_example =
    qmp_msg_recv-sent (codes "{}") (codes "{}" ∷ []) pieces (closed ∷ [])
      (
        ((omega arith, omega arith), ((omega arith, omega arith), tt)),
        (((omega arith, omega arith), ((omega arith, omega arith), tt)), tt),
      )
      (tt, (tt, (tt, tt))) refl
