-- ===== src/Lifecycle.antt =====
-- src/oci.c: the commands that change the status of a container and rewrite its state file. The
-- answers of the system and of cc-proxy, and whether the file can be written, are explicit.
pub mod Steps
pub mod Recovery
pub mod Update
pub mod Stop
pub mod Stopped
pub mod Runtime
pub mod Restored
pub mod Start
pub mod Running
pub mod Unnoticed
pub mod Signals
pub mod KillCommand
pub mod Create
pub mod Dry
use cc_oci_runtime.Prelude.{
  ℕ, ◌^◌, Bool, true, false, not, ◌&&◌, ◌||◌, Option, none, some, List, [], ◌∷◌, ltb, ◌==◌,
  if◌then◌else◌, Bytes,
}
use cc_oci_runtime.Container.Types.{
  Status, created, running, paused, stopped, stopping, invalid, Pod, Config, OciState,
}
use cc_oci_runtime.StateFile.Write.{Disk, state_file_create}

-- The config, the files, and the verdict of a command.
abbrev pub Result : Type 0
Result = Config × Disk × Bool

abbrev pub with_status : Status → Config → Config
with_status s c = record c { status = s }

-- `config->state.status = …` and a new state file.
abbrev pub write_status : Status → Config → Option Bytes → Bool → Disk → Result
write_status s c create_time writable disk =
    state_file_create (with_status s c) create_time writable disk

-- The `error` label: the status goes back to the saved one.
unfoldable pub or_revert : Status → Result → Result
or_revert last (c, disk, true) = (c, disk, true)
or_revert last (c, disk, false) = (with_status last c, disk, false)

unfoldable pub failing : Result → Result
failing (c, disk, _) = (c, disk, false)

-- cc_pod_is_sandbox of src/pod.c.
unfoldable pub pod_is_sandbox : Option Pod → Bool
pod_is_sandbox none = false
pod_is_sandbox (some p) = p.sandbox

-- What a kill meets: whether the state file can be written before and after, whether kill (2) took
-- the signal, and whether cc_proxy_hyper_kill_container succeeded.
pub record KillAnswers : Type 0 where
  pub first_write : Bool
  pub signal_sent : Bool
  pub proxy_killed : Bool
  pub last_write : Bool

-- SIGKILL and SIGSTOP, which the shim cannot catch.
abbrev pub needs_proxy : ℕ → Bool
needs_proxy signum = signum == 9 || signum == 19

-- From the first state file on. After the signal has been sent `last_status` is the status that has
-- been written, so a failure of the last write leaves that one.
unfoldable pub kill_container : Status → Option Bytes → ℕ → KillAnswers → Result → Result
unfolding or_revert failing
kill_container last create_time signum a (c, disk, false) = (with_status last c, disk, false)
kill_container last create_time signum a (c, disk, true) =
    if not a.signal_sent
    then failing (write_status last c create_time a.last_write disk)
    else if needs_proxy signum && not a.proxy_killed
    then (c, disk, false)
    else or_revert c.status (write_status stopped c create_time a.last_write disk)

unfoldable pub oci_kill : Config → OciState → ℕ → KillAnswers → Disk → Result
unfolding pod_is_sandbox or_revert kill_container
oci_kill config state signum a disk =
    if pod_is_sandbox config.pod
    then or_revert config.status (write_status stopped config state.create_time a.first_write disk)
    else kill_container config.status state.create_time signum a
        (write_status stopping config state.create_time a.first_write disk)

abbrev pub same_status : Status → Status → Bool
same_status created created = true
same_status running running = true
same_status paused paused = true
same_status stopped stopped = true
same_status stopping stopping = true
same_status invalid invalid = true
same_status _ _ = false

abbrev pub dest_status : Bool → Status
dest_status pause = if pause then paused else running

-- The requests to the hypervisor, by its socket and the pid that is given.
pub data VmCall : Type 0 where
  pauses resumes : Bytes → ℕ → VmCall

-- A pid that is an int above 0.
abbrev pub above_zero : ℕ → Bool
above_zero pid = ltb 0 pid && ltb pid (2 ^ 31)

abbrev pub ask_vm : (Bytes → ℕ → VmCall) → (VmCall → Bool) → Option Bytes → ℕ → List VmCall × Bool
ask_vm call vm none pid = ([], false)
ask_vm call vm (some socket_path) pid =
    if above_zero pid then (call socket_path pid ∷ [], vm (call socket_path pid)) else ([], false)

-- cc_oci_vm_pause and cc_oci_vm_resume of src/network.c, up to their dialogue: `vm` tells whether the
-- connection and the dialogue of a request succeed.
unfoldable pub vm_pause : (VmCall → Bool) → Option Bytes → ℕ → List VmCall × Bool
vm_pause = ask_vm pauses

unfoldable pub vm_resume : (VmCall → Bool) → Option Bytes → ℕ → List VmCall × Bool
vm_resume = ask_vm resumes

-- The requests that were made, and the result.
abbrev pub Toggled : Type 0
Toggled = List VmCall × Result

unfoldable pub oci_toggle : Config → OciState → Bool → (VmCall → Bool) → Bool → Disk → Toggled
unfolding vm_pause vm_resume
oci_toggle config state pause vm writable disk =
    if same_status state.status (dest_status pause)
    then ([], (config, disk, true))
    else (let r =
          if pause
          then vm_pause vm state.comms_path state.pid
          else vm_resume vm state.comms_path state.pid in
        (
          r.0,
          if not r.1
              then (config, disk, false)
              else write_status (dest_status pause) config state.create_time writable disk,
        ))
