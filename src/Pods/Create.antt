-- ===== src/Pods/Create.antt =====
-- cc_pod_container_create of src/pod.c. The answers of the system are arguments; those of cc-proxy are
-- in the session.
use cc_oci_runtime.Prelude.{
  ℕ, ◌+◌, ℤ, pos, negsuc, Bool, true, false, not, ◌&&◌, Option, none, some, if◌then◌else◌, Bytes,
  to_int32, zero, suc,
}
use cc_oci_runtime.Container.Types.{created, Config}
use cc_oci_runtime.StateFile.Write.{Disk, state_file_create}
use cc_oci_runtime.Proxy.Client.{
  Session, Outcome, and_then, proxy_connect, proxy_attach, proxy_disconnect,
}
use cc_oci_runtime.Proxy.Startpod.{proxy_cmd_allocate_io}
use cc_oci_runtime.Lifecycle.{with_status}

-- What a create meets. `shim`: the pid of the shim, if it could be launched. `pid_file`: whether the
-- pid file that was asked for, if one was, could be written. `setup_failed`: the shim has reported an
-- error.
pub record PodAnswers : Type 0 where
  pub timestamp : Option Bytes
  pub shim : Option ℕ
  pub pid_file : Option Bool
  pub socket_valid : Bool
  pub socket_written : Bool
  pub base_written : Bool
  pub connection_made : Bool
  pub descriptor_sent : Bool
  pub setup_failed : Bool
  pub writable : Bool

-- The config, the session, the files and the verdict.
pub record PodCreate : Type 0 where
  pub config : Config
  pub session : Session
  pub disk : Disk
  pub result : Bool

abbrev pub pod_created : Config → Session → Disk → Bool → PodCreate
pod_created config s disk ret = record { config = config; session = s; disk = disk; result = ret }

abbrev pub next_stream : ℤ → ℤ
next_stream (pos n) = to_int32 (pos (n + 1))
next_stream (negsuc zero) = pos 0
next_stream (negsuc (suc n)) = negsuc n

-- A terminal has one stream.
abbrev pub with_streams : ℤ → Config → Config
with_streams io_base config = record config {
  process = record config.process {
    stdio_stream = io_base;
    stderr_stream = if config.process.terminal then pos 0 else next_stream io_base;
  };
}

-- The state file, and leaving the proxy.
unfoldable pub finish_create : PodAnswers → Bytes → Config → Session → Disk → PodCreate
unfolding proxy_disconnect
finish_create a timestamp config s disk =
    if a.setup_failed
    then pod_created config s disk false
    else (let (c, d, written) = state_file_create config (some timestamp) a.writable disk in
        if written
        then (let r = proxy_disconnect s in pod_created c r.1 d r.0)
        else pod_created c s d false)

-- From the streams on; `ret` is what the function gives when one of the next steps fails.
unfoldable pub give_streams : PodAnswers → Bytes → Bool → Config → Session → Disk → PodCreate
unfolding proxy_cmd_allocate_io finish_create
give_streams a timestamp ret config s disk =
    if not (a.socket_valid && a.socket_written)
    then pod_created config s disk ret
    else (let r = proxy_cmd_allocate_io config.process.terminal s in
        elim r.0 [
          | none ↦ pod_created config r.1 disk ret
          | some io_base ↦
              if not (a.base_written && a.connection_made)
              then pod_created config r.1 disk ret
              else if not a.descriptor_sent
              then pod_created config r.1 disk false
              else finish_create a timestamp (with_streams io_base config) r.1 disk
        ])

-- From the shim on. A pid file that was written leaves `ret` set.
unfoldable pub launch : PodAnswers → Bytes → Config → Session → Disk → PodCreate
unfolding give_streams
launch a timestamp config s disk = elim a.shim [
  | none ↦ pod_created config s disk false
  | some pid ↦
      let c : Config = record config { workload_pid = pid } in
      elim a.pid_file [
        | none ↦ give_streams a timestamp false c s disk
        | some made ↦
            if made then give_streams a timestamp true c s disk else pod_created c s disk false
      ]
]

-- A pod without a name cannot be attached to.
abbrev pub attach_pod : Option Bytes → Session → Outcome
attach_pod none s = (false, s)
attach_pod (some name) s = proxy_attach name s

unfoldable pub pod_container_create : PodAnswers → Config → Session → Disk → PodCreate
unfolding proxy_connect proxy_attach launch
pod_container_create a config s disk = elim config.pod [
  | none ↦ pod_created config s disk false
  | some pod ↦ elim config.proxy [
    | none ↦ pod_created config s disk false
    | some _ ↦ elim a.timestamp [
      | none ↦ pod_created config s disk false
      | some timestamp ↦
          let c = with_status created config in
          let r = and_then (proxy_connect s) (attach_pod pod.sandbox_name) in
          if r.0 then launch a timestamp c r.1 disk else pod_created c r.1 disk false
    ]
  ]
]
