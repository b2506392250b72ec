-- ===== src/Process/HypervisorArgs.antt =====
-- src/process.c: how cc_oci_vm_launch hands the hypervisor's arguments to the child that becomes it.
use cc_oci_runtime.Prelude.{
  ℕ, ◌≡◌, ◌≢◌, ◌<◌, refl, ap, ◌∙◌, false, Option, none, some, List, [], ◌∷◌, ◌++◌, leb,
  if◌then◌else◌, Bytes, All, length, take, take_all, strsplit, split_all, arith,
}
use cc_oci_runtime.Semver.Precedence.{Free}
use cc_oci_runtime.Semver.Identifiers.{split_all_none, split_all_first}
use cc_oci_runtime.Proxy.Frame.{utf8_strlen}
use cc_oci_runtime.Proxy.Sent.{IsAscii, utf8_strlen-IsAscii}

-- g_strjoinv ("\n", args).
unfoldable pub join_lines : List Bytes → Bytes
join_lines [] = []
join_lines (arg ∷ []) = arg
join_lines (arg ∷ more ∷ args) = arg ++ (10 ∷ join_lines (more ∷ args))

-- What the parent writes: a length, which is a number of characters, and that many bytes.
unfoldable pub send_args : List Bytes → ℕ × Bytes
unfolding join_lines utf8_strlen
send_args args =
    let hypervisor_args = join_lines args in
    (utf8_strlen hypervisor_args, take (utf8_strlen hypervisor_args) hypervisor_args)

abbrev pub arg_max : ℕ
arg_max = 131072

-- What the child makes of the length and of what its one read gets; `none` is a failure.
unfoldable pub receive_args : ℕ → Bytes → Option (List Bytes)
receive_args len received = if leb arg_max len then none else some (strsplit 10 (take len received))

-- Arguments of one line each, in ASCII.
abbrev pub AreLines : List Bytes → Type 0
AreLines = All (λ arg. IsAscii arg × Free 10 arg)

IsAscii-append : (s t : Bytes) → IsAscii s → IsAscii t → IsAscii (s ++ t)
IsAscii-append [] t h k = k
IsAscii-append (c ∷ s) t h k = (h.0, IsAscii-append s t h.1 k)

join_lines-IsAscii : (args : List Bytes) → AreLines args → IsAscii (join_lines args)
unfolding join_lines
join_lines-IsAscii [] h = tt
join_lines-IsAscii (arg ∷ []) h = h.0.0
join_lines-IsAscii (arg ∷ more ∷ args) h =
    IsAscii-append arg (10 ∷ join_lines (more ∷ args)) h.0.0
      (omega arith, join_lines-IsAscii (more ∷ args) h.1)

split_all-join_lines :
    (arg : Bytes) (args : List Bytes)
    → AreLines (arg ∷ args)
    → split_all 10 (join_lines (arg ∷ args)) ≡ arg ∷ args
unfolding join_lines
split_all-join_lines arg [] h = split_all_none 10 arg h.0.1
split_all-join_lines arg (more ∷ args) h =
    split_all_first 10 arg (join_lines (more ∷ args)) h.0.1
    ∙ ap (arg ∷◌) (split_all-join_lines more args h.1)

strsplit-split_all : (s : Bytes) → s ≢ [] → strsplit 10 s ≡ split_all 10 s
unfolding strsplit
strsplit-split_all [] h = absurd (h refl)
strsplit-split_all (c ∷ s) h = refl

-- The child gets the arguments that the parent has sent, when they are in ASCII without newlines, not
-- all of them are empty, they are shorter than ARG_MAX, and one read gets them all.
pub receive_args-send_args :
    (arg : Bytes) (args : List Bytes)
    → AreLines (arg ∷ args)
    → join_lines (arg ∷ args) ≢ []
    → length (join_lines (arg ∷ args)) < arg_max
    → receive_args (send_args (arg ∷ args)).0 (send_args (arg ∷ args)).1 ≡ some (arg ∷ args)
unfolding receive_args send_args
receive_args-send_args arg args h k l = unsent ∙ split
  where
    sent : Bytes
    sent = join_lines (arg ∷ args)

    got : ℕ → Bytes → Option (List Bytes)
    got len received = if leb arg_max len then none else some (strsplit 10 (take len received))

    whole : take (length sent) sent ≡ sent
    whole = take_all (length sent) sent (omega arith)

    unsent : got (utf8_strlen sent) (take (utf8_strlen sent) sent) ≡ got (length sent) sent
    unsent =
        ap (λ n. got n (take n sent)) (utf8_strlen-IsAscii sent (join_lines-IsAscii (arg ∷ args) h))
        ∙ ap (got (length sent)) whole

    fits : leb arg_max (length sent) ≡ false
    fits = ground arith

    split : got (length sent) sent ≡ some (arg ∷ args)
    split =
        ap (λ b. if b then none else some (strsplit 10 (take (length sent) sent))) fits
        ∙ ap (λ s. some (strsplit 10 s)) whole
        ∙ ap some (strsplit-split_all sent k ∙ split_all-join_lines arg args h)
