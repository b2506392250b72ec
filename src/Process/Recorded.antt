-- ===== src/Process/Recorded.antt =====
-- What a launch of a virtual machine that returns true has recorded.
use mathlib.Core.Path.{subst}
use cc_oci_runtime.Prelude.{
  ℕ, ◌≡◌, refl, Bool, true, false, not, Option, none, some, List, [], if◌then◌else◌, Bytes,
}
use cc_oci_runtime.Container.Types.{created, VmCfg, Proxy, Config}
use cc_oci_runtime.StateFile.Write.{Disk, state_file_create}
use cc_oci_runtime.Lifecycle.{Result, with_status}
use cc_oci_runtime.Hooks.{Hook}
use cc_oci_runtime.Hooks.Run.{HookAnswers, run_hooks}
use cc_oci_runtime.Proxy.Client.{Session, Outcome, proxy_connect}
use cc_oci_runtime.Process.{shim_launch}
use cc_oci_runtime.Process.Launched.{
  never, gone, HasPids, Written, state_file_create-HasPids, set_up_network-Written,
}
use cc_oci_runtime.Process.Launch.{
  LaunchAnswers, returned, exited, Launched, out, left_early, after_state_file, launch_shim,
  with_vm_pid, fork_hypervisor, vm_launch,
}

-- The children that were forked, the first state file, of the created container with their pids, and
-- what the launch leaves behind it.
pub record LaunchEnds (a : LaunchAnswers) (config : Config) (disk : Disk) (l : Launched)
    : Type 0 where
  pub timestamp : Bytes
  pub has_timestamp : a.timestamp ≡ some timestamp
  pub vm : VmCfg
  pub has_vm : config.vm ≡ some vm
  pub pid : ℕ
  pub has_child : a.forked ≡ some pid
  pub shim : ℕ
  pub has_shim : a.shim_forked ≡ some shim
  pub first_config : Config
  pub first_disk : Disk
  pub first :
      state_file_create
        (record (with_vm_pid pid vm (with_status created config)) { workload_pid = shim })
        (some timestamp)
        a.writable
        disk
      ≡ (first_config, first_disk, true)
  pub written : Written pid shim vm timestamp first_disk l

-- From the shim on.
abbrev Shimmed : ℕ → VmCfg → LaunchAnswers → Bytes → Config → Disk → Launched → Type 0
Shimmed pid vm a t config disk l =
    l.ending ≡ returned true
    → (shim : ℕ) × (a.shim_forked ≡ some shim)
      × ((c : Config) × (d : Disk) × (state_file_create (record config { workload_pid = shim })
              (some t) a.writable disk
            ≡ (c, d, true))
          × Written pid shim vm t d l)

launch_shim-Shimmed :
    (pid : ℕ) (vm : VmCfg) (a : LaunchAnswers) (prestart : List Hook) (hooks : List HookAnswers)
    (id t : Bytes) (config : Config) (s : Session) (disk : Disk)
    → config.status ≡ created
    → config.vm ≡ some (record vm { pid = pid })
    → Shimmed pid vm a t config disk (launch_shim a prestart hooks id t config s disk)
unfolding launch_shim shim_launch
launch_shim-Shimmed pid vm a prestart hooks id t config s disk is_created has_vm =
    by_proxy config.proxy a.channels a.shim_forked refl
  where
    written : ℕ → Result
    written shim =
        state_file_create (record config { workload_pid = shim }) (some t) a.writable disk

    pids : (shim : ℕ) → HasPids pid shim vm (written shim).0
    pids shim =
        state_file_create-HasPids pid shim vm (record config { workload_pid = shim }) (some t)
          a.writable disk (record { status = is_created; has_shim = refl; has_vm = has_vm })

    by_write :
        (shim : ℕ) (r : Result)
        → a.shim_forked ≡ some shim
        → written shim ≡ r
        → Shimmed pid vm a t config disk (after_state_file a prestart hooks id t s r)
    by_write shim (c, d, false) e w h = never h
    by_write shim (c, d, true) e w h =
        let p = subst (λ (r : Result). HasPids pid shim vm r.0) w (pids shim) in
        (
          shim,
          e,
          (
            c,
            d,
            w,
            set_up_network-Written a t pid shim vm id c s d
                (run_hooks true a.state_text prestart hooks).0 p h,
          ),
        )

    given : Option Proxy → Bool → Option ℕ → Config × Bool
    given proxy channels forked = elim proxy [
      | none ↦ (config, false)
      | some _ ↦ if not channels then (config, false) else elim forked [
        | none ↦ (record config { workload_pid = 4294967295 }, false)
        | some pid ↦ (record config { workload_pid = pid }, true)
      ]
    ]

    launched : Config × Bool → Launched
    launched r =
        if r.1
        then after_state_file a prestart hooks id t s
            (state_file_create r.0 (some t) a.writable disk)
        else out false r.0 s disk []

    by_proxy :
        (proxy : Option Proxy) (channels : Bool) (forked : Option ℕ)
        → a.shim_forked ≡ forked
        → Shimmed pid vm a t config disk (launched (given proxy channels forked))
    by_proxy none channels forked e h = never h
    by_proxy (some p) false forked e h = never h
    by_proxy (some p) true none e h = never h
    by_proxy (some p) true (some shim) e h = by_write shim (written shim) e refl h

-- A launch of a virtual machine that returns true had a timestamp, has forked the hypervisor's child
-- and the shim, and has written the state file of the created container, with the pids of both. The
-- files that it leaves are those of this state file, or of a second one that has been written over
-- it, of a created container with the same pids.
pub vm_launch-LaunchEnds :
    (a : LaunchAnswers) (prestart : List Hook) (hooks : List HookAnswers) (id : Bytes)
    (config : Config) (s : Session) (disk : Disk)
    → (vm_launch a prestart hooks id config s disk).ending ≡ returned true
    → LaunchEnds a config disk (vm_launch a prestart hooks id config s disk)
unfolding vm_launch fork_hypervisor
vm_launch-LaunchEnds a prestart hooks id config s disk =
    by_timestamp a.timestamp config.proxy (proxy_connect s) refl
  where
    c : Config
    c = with_status created config

    forked : Bytes → Session → Bool → Option VmCfg → Option ℕ → Launched
    forked t s piped vm pid = if not piped then out false c s disk [] else elim vm [
      | none ↦ left_early exited c s disk []
      | some vm ↦ elim pid [
        | none ↦ out false (with_vm_pid 4294967295 vm c) s disk []
        | some pid ↦ launch_shim a prestart hooks id t (with_vm_pid pid vm c) s disk
      ]
    ]

    by_fork :
        (t : Bytes) (s : Session) (piped : Bool) (vm : Option VmCfg) (pid : Option ℕ)
        → a.timestamp ≡ some t
        → config.vm ≡ vm
        → a.forked ≡ pid
        → (forked t s piped vm pid).ending ≡ returned true
        → LaunchEnds a config disk (forked t s piped vm pid)
    by_fork t s false vm pid e f g h = never h
    by_fork t s true none pid e f g h = gone h
    by_fork t s true (some vm) none e f g h = never h
    by_fork t s true (some vm) (some pid) e f g h =
        let (shim, k, (w, d, first, written)) =
          launch_shim-Shimmed pid vm a prestart hooks id t (with_vm_pid pid vm c) s disk refl refl
            h in
        record {
          timestamp = t;
          has_timestamp = e;
          vm = vm;
          has_vm = f;
          pid = pid;
          has_child = g;
          shim = shim;
          has_shim = k;
          first_config = w;
          first_disk = d;
          first = first;
          written = written;
        }

    given : Option Bytes → Option Proxy → Outcome → Launched
    given time proxy r = elim time [
      | none ↦ out false config s disk []
      | some t ↦ elim proxy [
        | none ↦ left_early (returned false) c s disk []
        | some _ ↦
            if r.0
            then forked t r.1 a.pipes config.vm a.forked
            else left_early (returned false) c r.1 disk []
      ]
    ]

    by_timestamp :
        (time : Option Bytes) (proxy : Option Proxy) (r : Outcome)
        → a.timestamp ≡ time
        → (given time proxy r).ending ≡ returned true
        → LaunchEnds a config disk (given time proxy r)
    by_timestamp none proxy r e h = never h
    by_timestamp (some t) none r e h = never h
    by_timestamp (some t) (some p) (false, q) e h = never h
    by_timestamp (some t) (some p) (true, q) e h =
        by_fork t q a.pipes config.vm a.forked e refl refl h
