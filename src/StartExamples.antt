-- ===== src/StartExamples.antt =====
-- The theorems on cc_oci_start at a small container and a small sandbox.
use cc_oci_runtime.Prelude.{
  ◌≡◌, refl, Bool, true, false, none, some, [], ◌∷◌, codes, pos, arith, str_eq, cut,
}
use mathlib.Core.Path.{subst}
use mathlib.Core.Option.{some-injective}
use cc_oci_runtime.Container.Types.{created, running, VmCfg, Process, Pod, Config, OciState}
use cc_oci_runtime.Container.Status.{status_to_str}
use cc_oci_runtime.StateFile.Json.{Json, object, value, boolean, member, no_member}
use cc_oci_runtime.StateFile.Read.{state_file_read, blank_state}
use cc_oci_runtime.StateFile.Write.{
  Disk, state_file_create, state_file_get, check_complete, document, process_to_json,
}
use cc_oci_runtime.StateFile.Recall.{VmFits}
use cc_oci_runtime.StateFile.RoundTrip.{Fits, ReadsBack}
use cc_oci_runtime.Proxy.Client.{
  Session, accepted, proxy_connect, proxy_attach, proxy_run_cmd, proxy_run_hyper_cmd,
  hyper_check_response,
}
use cc_oci_runtime.Proxy.Request.{env_json, set_env_home}
use cc_oci_runtime.Proxy.Commands.{
  proxy_run_hyper_new_container, proxy_hyper_new_pod_container, proxy_hyper_new_container,
}
use cc_oci_runtime.Lifecycle.{with_status, write_status, same_status}
use cc_oci_runtime.Lifecycle.Start.{
  StartAnswers, Started, start_standalone, start_container, after_write, start_created, oci_start,
}
use cc_oci_runtime.Lifecycle.Running.{MayHaveHome, oci_start-ReadsBack}

abbrev vm : VmCfg
vm = record {
  hypervisor_path = codes "/q";
  image_path = codes "/i";
  kernel_path = codes "/k";
  workload_path = codes "/w";
  kernel_params = none;
  pid = 1234;
}

abbrev workload : Process
workload = record {
  args = some (codes "sh" ∷ []);
  cwd = codes "/";
  env = some (codes "HOME=/" ∷ []);
  terminal = true;
  uid = 0;
  gid = 0;
  stdio_stream = pos 1;
  stderr_stream = pos 0;
}

abbrev config : Config
config = record {
  oci_version = none;
  mounts = [];
  annotations = [];
  process = workload;
  root_path = codes "/r";
  vm = some vm;
  state_file_path = [];
  runtime_path = codes "/run/c";
  comms_path = codes "/run/c/h";
  procsock_path = codes "/run/c/p";
  workload_pid = 77;
  status = created;
  pod = none;
  bundle_path = some (codes "/b");
  console = none;
  root_dir = none;
  container_id = some (codes "c");
  dry_run_mode = false;
  detached_mode = true;
  proxy =
      some (record { agent_ctl_socket = none; agent_tty_socket = none; vm_console_socket = none });
}

abbrev state : OciState
state = record blank_state { status = created; create_time = some (codes "now"); pid = 77 }

vm-VmFits : VmFits vm
vm-VmFits = record {
  hypervisor_path = omega arith;
  image_path = omega arith;
  kernel_path = omega arith;
  workload_path = omega arith;
  pid = omega arith;
}

config-Fits : Fits config
config-Fits = record {
  workload_pid = omega arith;
  mounts = tt;
  process = record { cwd = omega arith; stdio_stream = omega arith; stderr_stream = omega arith };
  vm = λ v e. subst VmFits (some-injective vm v e) vm-VmFits;
}

abbrev pub answers : StartAnswers
answers = record {
  prefix = codes "/run";
  bundle = none;
  terminal = true;
  socket_found = true;
  monitor_made = true;
  passwd = none;
  stateless_passwd = none;
  writable = true;
  lock_opened = true;
  lock_taken = true;
  later = λ disk. disk;
  cleanup = record {
    vm_found = false;
    pod_destroyed = true;
    bye_answered = true;
    umount = λ path. true;
    state_file_unlinked = true;
    runtime_dir_deleted = true;
  };
}

abbrev yes : Json
yes = object (member (codes "success") (value (boolean true)) no_member)

-- cc-proxy attaches the process to the pod and starts the container.
abbrev session : Session
session = record {
  connected = false;
  sent = [];
  attempts = accepted ∷ [];
  replies = some yes ∷ some yes ∷ [];
  closes = true;
}

abbrev disk : Disk
disk path = none

abbrev started : Started
started = oci_start answers config (codes "c") state session disk

oci_start-ReadsBack_example :
    (same_status state.status created ≡ true)
    × ((p : Process) × MayHaveHome none none workload p
        × ReadsBack
            (with_status running (record config { process = p }))
            (codes "now")
            (state_file_read started.disk (some started.config.state_file_path)))
unfolding oci_start start_created start_container start_standalone proxy_hyper_new_container
    proxy_hyper_new_pod_container proxy_connect proxy_attach proxy_run_cmd hyper_check_response
    proxy_run_hyper_new_container set_env_home env_json proxy_run_hyper_cmd after_write
    state_file_create check_complete state_file_get document process_to_json status_to_str str_eq
    cut
oci_start-ReadsBack_example =
    oci_start-ReadsBack answers config (codes "c") (codes "now") state session disk config-Fits refl
      refl refl

abbrev pod : Pod
pod = record { sandbox = true; sandbox_name = some (codes "c"); sandbox_workloads = [] }

abbrev sandbox : Config
sandbox = record config { pod = some pod }

abbrev written : Config × Disk × Bool
written = write_status running sandbox (some (codes "now")) true disk
