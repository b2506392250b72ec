-- ===== src/Process/Connect.antt =====
-- Running a command in a container that is there: cc_oci_exec_shim, cc_oci_is_attach_mode and
-- cc_oci_vm_connect of src/process.c, with cc_oci_process_exec_file and cc_oci_exec of src/oci.c.
use cc_oci_runtime.Prelude.{
  ℕ, ℤ, pos, eqb_ℤ, Bool, true, false, not, ◌&&◌, Option, none, some, if◌then◌else◌, Bytes,
}
use cc_oci_runtime.Container.Types.{Pod, Process, Config, OciState}
use cc_oci_runtime.StateFile.Json.{Json, json_parse}
use cc_oci_runtime.StateFile.ProcessSection.{process_handle_section}
use cc_oci_runtime.Proxy.Request.{Passwd}
use cc_oci_runtime.Proxy.Client.{
  Session, Outcome, and_then, proxy_connect, proxy_attach, pod_container_id,
}
use cc_oci_runtime.Proxy.Startpod.{proxy_cmd_allocate_io}
use cc_oci_runtime.Proxy.Commands.{proxy_hyper_exec_command}
use cc_oci_runtime.Pods.Create.{with_streams}
use cc_oci_runtime.Process.{shim_launch}

-- What an exec meets. `terminal`: stdin is a terminal. `exit_code` is the status with which the shim
-- ends. `pid_file`: whether the pid file could be written, if there is to be one.
pub record ExecAnswers : Type 0 where
  pub passwd : Passwd
  pub stateless_passwd : Passwd
  pub channels : Bool
  pub forked : Option ℕ
  pub socket_valid : Bool
  pub socket_written : Bool
  pub base_written : Bool
  pub connection_made : Bool
  pub descriptor_sent : Bool
  pub shim_reported : Bool
  pub terminal : Bool
  pub exit_code : ℤ
  pub pid_file : Option Bool

-- The steps behind the launch of the shim.
abbrev pub hands_over : ExecAnswers → Bool
hands_over a =
    a.socket_valid
    && (a.socket_written
        && (a.base_written && (a.connection_made && (a.descriptor_sent && not a.shim_reported))))

-- The config with the pid that fork has given, the pid that gets SIGTERM, and the result. A failure
-- sends the signal to the pid that the config has, be it that of this shim or an older one.
unfoldable pub exec_shim : ExecAnswers → Config → Config × Option ℕ × Bool
unfolding shim_launch
exec_shim a config =
    let r = shim_launch a.channels a.forked config in
    if r.1 && hands_over a then (r.0, none, true) else (r.0, some r.0.workload_pid, false)

unfoldable pub is_attach_mode : Bool → Config → Bool
is_attach_mode terminal config = terminal && not config.detached_mode

pub record Connected : Type 0 where
  pub config : Config
  pub session : Session
  pub killed : Option ℕ
  pub result : Bool

abbrev pub not_connected : Config → Session → Connected
not_connected config s = record { config = config; session = s; killed = none; result = false }

-- From the shim on: in attach mode its end is waited for.
unfoldable pub attach_shim : ExecAnswers → Config → Session → Connected
unfolding exec_shim is_attach_mode
attach_shim a config s =
    let r = exec_shim a config in
    record {
      config = r.0;
      session = s;
      killed = r.1;
      result = r.2 && (if is_attach_mode a.terminal r.0 then eqb_ℤ a.exit_code (pos 0) else true);
    }

-- From the streams on. `container_id` is `optarg_container_id`.
unfoldable pub exec_process : ExecAnswers → Bytes → ℤ → Config → Session → Connected
unfolding proxy_hyper_exec_command attach_shim
exec_process a container_id io_base config s =
    let c = with_streams io_base config in
    let (p, ran) = proxy_hyper_exec_command a.passwd a.stateless_passwd c.process container_id s in
    let c' : Config = record c { process = p } in
    if ran.0 then attach_shim a c' ran.1 else not_connected c' ran.1

abbrev pub attach_container : Option Bytes → Session → Outcome
attach_container none s = (false, s)
attach_container (some id) s = proxy_attach id s

unfoldable pub vm_connect : ExecAnswers → Bytes → Config → Session → Connected
unfolding proxy_connect proxy_attach pod_container_id proxy_cmd_allocate_io exec_process
vm_connect a container_id config s = elim config.proxy [
  | none ↦ not_connected config s
  | some _ ↦
      let r = and_then (proxy_connect s) (attach_container (pod_container_id config)) in
      if r.0
      then (let streams = proxy_cmd_allocate_io config.process.terminal r.1 in
          elim streams.0 [
            | none ↦ not_connected config streams.1
            | some io_base ↦ exec_process a container_id io_base config streams.1
          ])
      else not_connected config r.1
]

-- The process that a file describes, over what the process has already; the verdict of the section's
-- handler is not used. `none` is a failure to read the file, or a crash of the handler.
unfoldable pub process_exec_file : Bytes → Option Json → Process → Option Process
unfolding json_parse process_handle_section
process_exec_file filename document p = elim document [
  | none ↦ none
  | some root ↦ process_handle_section (json_parse filename root) p
]

abbrev pub file_process : Option (Bytes × Option Json) → Process → Option Process
file_process none p = some p
file_process (some (filename, document)) p = process_exec_file filename document p

abbrev pub or_pod : Option Pod → Option Pod → Option Pod
or_pod none pod = pod
or_pod (some pod) old = some pod

abbrev pub with_pid_file : Option Bool → Connected → Connected
with_pid_file none r = r
with_pid_file (some made) r = record r { result = r.result && made }

-- `process_json` is the file of the --process option, with its document, if it can be read.
unfoldable pub oci_exec :
    ExecAnswers → Bytes → Option (Bytes × Option Json) → Config → OciState → Session → Connected
unfolding process_exec_file vm_connect
oci_exec a container_id process_json config state s =
    elim (file_process process_json config.process) [
      | none ↦ not_connected config s
      | some p ↦
          let c : Config = record config { process = p; pod = or_pod state.pod config.pod } in
          with_pid_file a.pid_file (vm_connect a container_id c s)
    ]
