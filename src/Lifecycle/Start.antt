-- ===== src/Lifecycle/Start.antt =====
-- cc_oci_start of src/oci.c, with cc_pod_container_start of src/pod.c. The answers of the system are
-- arguments; those of cc-proxy are in the session.
use cc_oci_runtime.Prelude.{
  Bool, true, false, not, ◌&&◌, ◌||◌, Option, none, some, List, [], if◌then◌else◌, Bytes, codes,
}
use cc_oci_runtime.Container.Types.{
  Status, created, running, stopped, stopping, Process, Config, OciState,
}
use cc_oci_runtime.StateFile.Write.{Disk}
use cc_oci_runtime.Proxy.Request.{Passwd}
use cc_oci_runtime.Proxy.Client.{Session, pod_container_id}
use cc_oci_runtime.Proxy.Commands.{proxy_hyper_new_container, proxy_hyper_new_pod_container}
use cc_oci_runtime.Lifecycle.{Result, same_status, write_status, pod_is_sandbox}
use cc_oci_runtime.Lifecycle.Stop.{Effect, StopAnswers, oci_cleanup}
use cc_oci_runtime.Lifecycle.Runtime.{get_config_and_state}

-- What a start meets. `bundle`: the --bundle option, if there is one, as a resolved path, if it has
-- one. `terminal`: stdin is a terminal. `later` is what has become of the files when the shim has
-- finished, and `cleanup` the answers for the cleanup that follows.
pub record StartAnswers : Type 0 where
  pub prefix : Bytes
  pub bundle : Option (Option Bytes)
  pub terminal : Bool
  pub socket_found : Bool
  pub monitor_made : Bool
  pub passwd : Passwd
  pub stateless_passwd : Passwd
  pub writable : Bool
  pub lock_opened : Bool
  pub lock_taken : Bool
  pub later : Disk → Disk
  pub cleanup : StopAnswers

pub record Started : Type 0 where
  pub config : Config
  pub session : Session
  pub disk : Disk
  pub ran_poststart : Bool
  pub effects : List Effect
  pub result : Bool

abbrev pub with_bundle : Option (Option Bytes) → Config → Config
with_bundle none config = config
with_bundle (some path) config = record config { bundle_path = path }

abbrev pub start_waits : StartAnswers → Config → Bool
start_waits a config =
    a.terminal && (not config.detached_mode && elim config.pod [ none ↦ true | some _ ↦ false ])

abbrev pub with_process : Config → Process × (Bool × Session) → Config × (Bool × Session)
with_process config r = (record config { process = r.0 }, r.1)

-- The commands start only if `config->proxy` is there.
unfoldable pub pod_container_start :
    Passwd → Passwd → Config → Bytes → Session → Config × (Bool × Session)
unfolding pod_container_id pod_is_sandbox proxy_hyper_new_pod_container
pod_container_start passwd stateless config container_id s = elim config.pod [
  | none ↦ (config, (false, s))
  | some pod ↦ if pod.sandbox then (config, (false, s)) else elim pod.sandbox_name [
    | none ↦ (config, (false, s))
    | some pod_id ↦ elim config.proxy [
      | none ↦ (config, (false, s))
      | some _ ↦ with_process config (
          proxy_hyper_new_pod_container passwd stateless config.process container_id pod_id
            (codes "rootfs") container_id s)
    ]
  ]
]

unfoldable pub start_standalone :
    Passwd → Passwd → Config → Bytes → Session → Config × (Bool × Session)
unfolding proxy_hyper_new_container
start_standalone passwd stateless config container_id s = elim config.proxy [
  | none ↦ (config, (false, s))
  | some _ ↦
      with_process config (proxy_hyper_new_container passwd stateless config.process container_id s)
]

-- The result of the command is not looked at.
unfoldable pub start_sandbox :
    Passwd → Passwd → Config → Bytes → Session → Config × (Bool × Session)
unfolding proxy_hyper_new_pod_container
start_sandbox passwd stateless config container_id s = elim config.proxy [
  | none ↦ (config, (true, s))
  | some _ ↦
      let r = with_process config (
        proxy_hyper_new_pod_container passwd stateless config.process container_id container_id
          (codes "rootfs") container_id s) in
      (r.0, (true, r.1.1))
]

unfoldable pub start_container :
    Passwd → Passwd → Config → Bytes → Session → Config × (Bool × Session)
unfolding start_standalone start_sandbox pod_container_start
start_container passwd stateless config container_id s = elim config.pod [
  | none ↦ start_standalone passwd stateless config container_id s
  | some pod ↦
      if pod.sandbox
      then start_sandbox passwd stateless config container_id s
      else pod_container_start passwd stateless config container_id s
]

abbrev pub ends_stopped : Status → Bool
ends_stopped s = same_status s stopped || same_status s stopping

-- Waiting for the shim, whose lock is taken when it has finished.
unfoldable pub wait_shim : StartAnswers → Session → Config → Disk → Started
unfolding get_config_and_state oci_cleanup
wait_shim a s config disk =
    let ended : Config → Disk → List Effect → Bool → Started = λ c d e b. record {
      config = c;
      session = s;
      disk = d;
      ran_poststart = true;
      effects = e;
      result = b;
    } in
    if not (a.lock_opened && a.lock_taken)
    then ended config (a.later disk) [] false
    else elim (get_config_and_state a.prefix config (a.later disk)) [
      | none ↦ ended config (a.later disk) [] false
      | some r ↦
          if ends_stopped r.0.status
          then ended r.0 (a.later disk) [] true
          else (let (e, b) = oci_cleanup r.0 a.cleanup in ended r.0 (a.later disk) e b)
    ]

-- From the new state file on; the poststart hooks cannot make it fail.
unfoldable pub after_write : StartAnswers → Bool → Session → Result → Started
unfolding wait_shim
after_write a wait s (config, disk, false) = record {
  config = config;
  session = s;
  disk = disk;
  ran_poststart = false;
  effects = [];
  result = false;
}
after_write a wait s (config, disk, true) = if wait then wait_shim a s config disk else record {
  config = config;
  session = s;
  disk = disk;
  ran_poststart = true;
  effects = [];
  result = true;
}

abbrev pub not_started : Config → Session → Disk → Started
not_started config s disk = record {
  config = config;
  session = s;
  disk = disk;
  ran_poststart = false;
  effects = [];
  result = false;
}

-- From the start of the container on.
unfoldable pub start_created :
    StartAnswers → Config → Bytes → Option Bytes → Session → Disk → Started
unfolding start_container after_write
start_created a config container_id create_time s disk =
    let r = start_container a.passwd a.stateless_passwd config container_id s in
    if r.1.0
    then after_write a (start_waits a config) r.1.1
        (write_status running r.0 create_time a.writable disk)
    else not_started r.0 r.1.1 disk

-- `container_id` is `optarg_container_id`, which the callers have set.
unfoldable pub oci_start : StartAnswers → Config → Bytes → OciState → Session → Disk → Started
unfolding start_created
oci_start a config container_id state s disk =
    if not (same_status state.status created)
    then not_started config s disk
    else (let c = with_bundle a.bundle config in
        if start_waits a c && (not a.socket_found && not a.monitor_made)
        then not_started c s disk
        else start_created a c container_id state.create_time s disk)
