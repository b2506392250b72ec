-- ===== src/Process/Launch.antt =====
-- cc_oci_vm_launch of src/process.c, in the parent. The answers of the system are arguments; those of
-- cc-proxy are in the session. The children are in Process and Process/HypervisorArgs.
use cc_oci_runtime.Prelude.{
  ℕ, ◌^◌, Bool, true, false, not, ◌&&◌, Option, none, some, List, [], ltb, if◌then◌else◌, Bytes,
}
use cc_oci_runtime.Container.Types.{created, VmCfg, Proxy, Config, NetIfCfg, Ipv4Route}
use cc_oci_runtime.StateFile.Write.{Disk, state_file_create}
use cc_oci_runtime.Lifecycle.{Result, with_status}
use cc_oci_runtime.Hooks.{Hook}
use cc_oci_runtime.Hooks.Run.{HookCall, HookAnswers, run_hooks}
use cc_oci_runtime.Hypervisor.Tags.{HypervisorAnswers, append_network_args}
use cc_oci_runtime.Hypervisor.Args.{vm_args_get}
use cc_oci_runtime.Proxy.Client.{
  Session, Outcome, and_then, proxy_connect, proxy_disconnect, proxy_wait_until_ready,
}
use cc_oci_runtime.Proxy.Startpod.{proxy_hyper_pod_create, proxy_cmd_allocate_io}
use cc_oci_runtime.Pods.Create.{with_streams}
use cc_oci_runtime.Process.{shim_launch}

-- The network: whether its three steps succeed, and what is found there.
pub record NetworkSetup : Type 0 where
  pub opened : Bool
  pub discovered : Bool
  pub set_up : Bool
  pub hostname : Option Bytes
  pub interfaces : List NetIfCfg
  pub routes : List Ipv4Route

-- What a launch meets, in order. `network` is there for root. `child_reported` and `shim_reported`:
-- something could be read from the pipe of that child. `pid_file`: whether the pid file could be
-- written, if there is to be one.
pub record LaunchAnswers : Type 0 where
  pub timestamp : Option Bytes
  pub pipes : Bool
  pub forked : Option ℕ
  pub channels : Bool
  pub shim_forked : Option ℕ
  pub writable : Bool
  pub state_text : Option Bytes
  pub network : Option NetworkSetup
  pub hypervisor : HypervisorAnswers
  pub contents : Bytes → Option Bytes
  pub args_file : Option Bytes
  pub args_written : Bool
  pub child_reported : Bool
  pub socket_exists : Bool
  pub monitor_made : Bool
  pub socket_valid : Bool
  pub socket_written : Bool
  pub base_written : Bool
  pub connection_made : Bool
  pub descriptor_sent : Bool
  pub shim_reported : Bool
  pub writable_again : Bool
  pub pid_file : Option Bool

-- `exited`: the process of the runtime has ended, as the code for a child that has failed does, and as
-- a crash for want of a machine does.
pub data LaunchEnd : Type 0 where
  returned : Bool → LaunchEnd
  exited : LaunchEnd

-- The pid of the shim that was killed, if it was, stands beside the config, the session, the files and
-- the hooks that were run.
pub record Launched : Type 0 where
  pub config : Config
  pub session : Session
  pub disk : Disk
  pub calls : List HookCall
  pub killed : Option ℕ
  pub ending : LaunchEnd

abbrev pub is_pid : ℕ → Bool
is_pid n = ltb 0 n && ltb n (2 ^ 31)

-- The label `out`.
abbrev pub out : Bool → Config → Session → Disk → List HookCall → Launched
out ret config s disk calls = record {
  config = config;
  session = s;
  disk = disk;
  calls = calls;
  killed = if not ret && is_pid config.workload_pid then some config.workload_pid else none;
  ending = returned ret;
}

abbrev pub left_early : LaunchEnd → Config → Session → Disk → List HookCall → Launched
left_early ending config s disk calls = record {
  config = config;
  session = s;
  disk = disk;
  calls = calls;
  killed = none;
  ending = ending;
}

abbrev pub or_pid_file : Option Bool → Bool → Bool
or_pid_file none ret = ret
or_pid_file (some made) ret = made

abbrev pub after_rewrite : LaunchAnswers → Session → List HookCall → Result → Launched
after_rewrite a s calls (config, disk, false) = out false config s disk calls
after_rewrite a s calls (config, disk, true) =
    let r = proxy_disconnect s in out (or_pid_file a.pid_file r.0) config r.1 disk calls

-- From the answer of the shim on.
unfoldable pub finish_launch :
    LaunchAnswers → Bytes → Config → Session → Disk → List HookCall → Launched
unfolding proxy_disconnect
finish_launch a timestamp config s disk calls =
    if a.shim_reported
    then out false config s disk calls
    else after_rewrite a s calls (state_file_create config (some timestamp) a.writable_again disk)

-- From the streams on. `ret` is set, and still is when one of these steps fails.
unfoldable pub share_streams :
    LaunchAnswers → Bytes → Config → Session → Disk → List HookCall → Launched
unfolding proxy_cmd_allocate_io finish_launch
share_streams a timestamp config s disk calls =
    if not (a.socket_valid && a.socket_written)
    then out true config s disk calls
    else (let r = proxy_cmd_allocate_io config.process.terminal s in
        elim r.0 [
          | none ↦ out true config r.1 disk calls
          | some io_base ↦
              if not (a.base_written && a.connection_made)
              then out true config r.1 disk calls
              else if not a.descriptor_sent
              then out false config r.1 disk calls
              else finish_launch a timestamp (with_streams io_base config) r.1 disk calls
        ])

abbrev pub proxy_ready : LaunchAnswers → NetworkSetup → Bytes → Option Proxy → Session → Outcome
proxy_ready a net container_id none s = (false, s)
proxy_ready a net container_id (some proxy) s =
    and_then (proxy_wait_until_ready proxy container_id a.socket_exists a.monitor_made s)
      (proxy_hyper_pod_create net.hostname net.interfaces net.routes)

-- From the hypervisor's arguments, which have been made, on.
unfoldable pub start_hypervisor :
    LaunchAnswers
    → NetworkSetup
    → Bytes
    → Bytes
    → Config
    → Session
    → Disk
    → List HookCall
    → Launched
unfolding proxy_wait_until_ready proxy_hyper_pod_create share_streams
start_hypervisor a net container_id timestamp config s disk calls =
    if not a.args_written
    then out true config s disk calls
    else if a.child_reported
    then out false config s disk calls
    else (let r = proxy_ready a net container_id config.proxy s in
        if r.0
        then share_streams a timestamp config r.1 disk calls
        else out true config r.1 disk calls)

abbrev pub no_network : NetworkSetup
no_network = record {
  opened = false;
  discovered = false;
  set_up = false;
  hostname = none;
  interfaces = [];
  routes = [];
}

-- The arguments of the hypervisor.
unfoldable pub make_args :
    LaunchAnswers
    → NetworkSetup
    → Bytes
    → Bytes
    → Config
    → Session
    → Disk
    → List HookCall
    → Launched
unfolding vm_args_get append_network_args start_hypervisor
make_args a net container_id timestamp config s disk calls =
    elim (vm_args_get a.hypervisor net.hostname a.contents a.args_file config
      (append_network_args net.interfaces)) [
        | none ↦ out false config s disk calls
        | some made ↦ start_hypervisor a net container_id timestamp made.0 s disk calls
      ]

-- Users other than root have no network; `none` is a failure.
abbrev pub network_of : Option NetworkSetup → Option NetworkSetup
network_of none = some no_network
network_of (some net) = if net.opened && (net.discovered && net.set_up) then some net else none

-- A failure of the network ends the process.
unfoldable pub set_up_network :
    LaunchAnswers → Bytes → Bytes → Config → Session → Disk → List HookCall → Launched
unfolding make_args
set_up_network a container_id timestamp config s disk calls = elim (network_of a.network) [
  | none ↦ left_early exited config s disk calls
  | some net ↦ make_args a net container_id timestamp config s disk calls
]

-- From the first state file on. What the prestart hooks return is only logged.
abbrev pub after_state_file :
    LaunchAnswers → List Hook → List HookAnswers → Bytes → Bytes → Session → Result → Launched
after_state_file a prestart hooks container_id timestamp s (config, disk, false) =
    out false config s disk []
after_state_file a prestart hooks container_id timestamp s (config, disk, true) =
    set_up_network a container_id timestamp config s disk
      (run_hooks true a.state_text prestart hooks).0

-- From the shim on.
unfoldable pub launch_shim :
    LaunchAnswers
    → List Hook
    → List HookAnswers
    → Bytes
    → Bytes
    → Config
    → Session
    → Disk
    → Launched
unfolding shim_launch set_up_network run_hooks
launch_shim a prestart hooks container_id timestamp config s disk =
    let r = shim_launch a.channels a.shim_forked config in
    if r.1
    then after_state_file a prestart hooks container_id timestamp s
        (state_file_create r.0 (some timestamp) a.writable disk)
    else out false r.0 s disk []

abbrev pub with_vm_pid : ℕ → VmCfg → Config → Config
with_vm_pid pid vm config = record config { vm = some (record vm { pid = pid }) }

-- The child that becomes the hypervisor.
unfoldable pub fork_hypervisor :
    LaunchAnswers
    → List Hook
    → List HookAnswers
    → Bytes
    → Bytes
    → Config
    → Session
    → Disk
    → Launched
unfolding launch_shim
fork_hypervisor a prestart hooks container_id timestamp config s disk =
    if not a.pipes then out false config s disk [] else elim config.vm [
      | none ↦ left_early exited config s disk []
      | some vm ↦ elim a.forked [
        | none ↦ out false (with_vm_pid 4294967295 vm config) s disk []
        | some pid ↦
            launch_shim a prestart hooks container_id timestamp (with_vm_pid pid vm config) s disk
      ]
    ]

-- `prestart` are the config's prestart hooks, `hooks` what they answer, and `container_id` is `optarg_container_id`.
unfoldable pub vm_launch :
    LaunchAnswers → List Hook → List HookAnswers → Bytes → Config → Session → Disk → Launched
unfolding proxy_connect fork_hypervisor
vm_launch a prestart hooks container_id config s disk = elim a.timestamp [
  | none ↦ out false config s disk []
  | some timestamp ↦
      let c = with_status created config in
      elim config.proxy [
        | none ↦ left_early (returned false) c s disk []
        | some _ ↦
            let r = proxy_connect s in
            if r.0
            then fork_hypervisor a prestart hooks container_id timestamp c r.1 disk
            else left_early (returned false) c r.1 disk []
      ]
]
