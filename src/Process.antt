-- ===== src/Process.antt =====
-- src/process.c: the shim as a child process (cc_shim_launch, cc_oci_setup_shim), with dup_over_stdio
-- of src/util.c. The answers of the system are arguments.
pub mod ShimArgs
pub mod HypervisorArgs
pub mod Launch
pub mod Launched
pub mod Recorded
pub mod Connect
use cc_oci_runtime.Prelude.{
  ℕ, zero, suc, ◌+◌, Bool, true, false, not, ◌&&◌, ◌||◌, Option, none, some, List, [], ◌∷◌, ltb,
  if◌then◌else◌, ℤ, pos, ltb_ℤ, Bytes, codes,
}
use cc_oci_runtime.Container.Types.{Config}
use cc_oci_runtime.StateFile.Json.{show_int}
use cc_oci_runtime.Pods.Create.{next_stream}

-- At most three copies, until one is above 2; behind the end of the answers dup fails.
unfoldable pub dup_loop : ℕ → ℤ → List ℤ → Option ℤ
dup_loop zero fd dups = if ltb_ℤ fd (pos 3) then none else some fd
dup_loop (suc n) fd [] = if ltb_ℤ fd (pos 3) then none else some fd
dup_loop (suc n) fd (new ∷ later) =
    let rest = dup_loop n new later in
    if not (ltb_ℤ fd (pos 3)) then some fd else if ltb_ℤ new (pos 0) then none else rest

-- The descriptor that is left. `opened`: whether fcntl finds the descriptor; `closes`: whether those
-- that are no longer used can be closed.
unfoldable pub dup_over_stdio : Bool → Bool → List ℤ → ℤ → Option ℤ
unfolding dup_loop
dup_over_stdio opened closes dups fd =
    if ltb_ℤ fd (pos 0) || not opened
    then none
    else if ltb_ℤ (pos 2) fd
    then some fd
    else if closes
    then dup_loop 3 fd dups
    else none

-- What the child of cc_shim_launch meets. Each `none` is a failure to read; `dups` has the answers for
-- the three descriptors. `terminal_set`: whether the console could be opened and made the terminal.
pub record ShimChild : Type 0 where
  pub proxy_socket_fd : Option ℤ
  pub proxy_io_base : Option ℤ
  pub proxy_io_fd : Option ℤ
  pub shim_flock_fd : ℤ
  pub opened : Bool
  pub closes : Bool
  pub dups : ℤ → List ℤ
  pub locked : Bool
  pub terminal_set : Bool
  pub executed : Bool

-- How the child ends: it becomes another program, it is aborted, or it reports a failure.
pub data ChildEnd : Type 0 where
  became : List Bytes → ChildEnd
  aborted reported : ChildEnd

abbrev pub default_shim : Bytes → Option Bytes → Bytes
default_shim built none = built
default_shim built (some path) = path

-- `program` is the path of the shim. A vector ends at its first NULL.
unfoldable pub shim_args : Bytes → Option Bytes → Bool → ℤ → ℤ → ℤ → List Bytes
shim_args program container_id terminal sock io base = program ∷ codes "-c" ∷ elim container_id [
  | none ↦ []
  | some id ↦
      id
      ∷ codes "-p"
      ∷ show_int sock
      ∷ codes "-o"
      ∷ show_int io
      ∷ codes "-s"
      ∷ show_int base
      ∷ (if terminal then [] else codes "-e" ∷ show_int (next_stream base) ∷ [])
]

-- cc_oci_setup_shim: the console becomes the terminal, if the process wants one.
unfoldable pub setup_shim : Config → Bool → ℤ → ℤ → ℤ → Bool
setup_shim config terminal_set sock io lock =
    if ltb_ℤ sock (pos 0) || (ltb_ℤ io (pos 0) || ltb_ℤ lock (pos 0))
    then false
    else if config.process.terminal
    then elim config.console [ none ↦ true | some _ ↦ terminal_set ]
    else true

abbrev pub and_dup : Option ℤ → (ℤ → ChildEnd) → ChildEnd
and_dup none next = reported
and_dup (some fd) next = next fd

-- From the descriptors on.
unfoldable pub shim_exec : Bytes → Bool → Config → ShimChild → ℤ → ℤ → ℤ → ChildEnd
unfolding dup_over_stdio shim_args setup_shim
shim_exec program initial_workload config a sock base io =
    if ltb_ℤ sock (pos 0)
    then reported
    else and_dup (dup_over_stdio a.opened a.closes (a.dups sock) sock) λ sock.
      and_dup (dup_over_stdio a.opened a.closes (a.dups io) io) λ io.
        and_dup (dup_over_stdio a.opened a.closes (a.dups a.shim_flock_fd) a.shim_flock_fd) λ lock.
          if initial_workload && not a.locked
          then reported
          else if not (setup_shim config a.terminal_set sock io lock)
          then reported
          else if a.executed
          then became (shim_args program config.container_id config.process.terminal sock io base)
          else aborted

-- The child. A descriptor that could be received is not negative.
unfoldable pub shim_child : Bytes → Bool → Config → ShimChild → ChildEnd
unfolding shim_exec
shim_child program initial_workload config a = elim a.proxy_socket_fd [
  | none ↦ reported
  | some sock ↦ elim a.proxy_io_base [
    | none ↦ reported
    | some base ↦ elim a.proxy_io_fd [
      | none ↦ reported
      | some io ↦ shim_exec program initial_workload config a sock base io
    ]
  ]
]

-- Whether the parent reads an error from the pipe.
abbrev pub has_reported : ChildEnd → Bool
has_reported reported = true
has_reported (became _) = false
has_reported aborted = false

-- The parent's side of cc_shim_launch: whether the pipes, the socket and the lock file could be made,
-- and the pid that fork gives; -1 is 2^32 - 1.
unfoldable pub shim_launch : Bool → Option ℕ → Config → Config × Bool
shim_launch channels forked config = elim config.proxy [
  | none ↦ (config, false)
  | some _ ↦ if not channels then (config, false) else elim forked [
    | none ↦ (record config { workload_pid = 4294967295 }, false)
    | some pid ↦ (record config { workload_pid = pid }, true)
  ]
]
