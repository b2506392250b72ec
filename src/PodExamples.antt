-- ===== src/PodExamples.antt =====
-- The theorems on pods at a small container.
use cc_oci_runtime.Prelude.{Bytes, refl, true, false, none, some, [], ◌∷◌, codes, pos, str_eq}
use cc_oci_runtime.Container.Types.{created, VmCfg, Proxy, Pod, Process, Config}
use cc_oci_runtime.Container.Status.{status_to_str}
use cc_oci_runtime.StateFile.Json.{Json, object, value, boolean, int64, member, no_member}
use cc_oci_runtime.StateFile.Recall.{section}
use cc_oci_runtime.StateFile.Write.{
  Disk, state_file_create, state_file_get, check_complete, document, process_to_json,
}
use cc_oci_runtime.Proxy.Client.{
  Session, accepted, proxy_connect, proxy_attach, proxy_disconnect, proxy_run_cmd,
  hyper_check_response, find_member,
}
use cc_oci_runtime.Proxy.Startpod.{proxy_cmd_allocate_io, io_base_of}
use cc_oci_runtime.Pods.Annotations.{annotations_handle_section}
use cc_oci_runtime.Pods.Create.{
  PodAnswers, pod_container_create, launch, give_streams, finish_create,
}
use cc_oci_runtime.Pods.Created.{CreateEnds, pod_container_create-CreateEnds}
use cc_oci_runtime.Pods.Sandbox.{
  IsMember, annotated, type_note, name_note, annotations_handle_section-IsMember,
}

abbrev pub vm : VmCfg
vm = record {
  hypervisor_path = codes "/q";
  image_path = codes "/i";
  kernel_path = codes "/k";
  workload_path = codes "/w";
  kernel_params = none;
  pid = 1;
}

abbrev pub proxy : Proxy
proxy = record { agent_ctl_socket = none; agent_tty_socket = none; vm_console_socket = none }

abbrev pod : Pod
pod = record { sandbox = false; sandbox_name = some (codes "p"); sandbox_workloads = [] }

abbrev pub workload : Process
workload = record {
  args = some (codes "sh" ∷ []);
  cwd = codes "/";
  env = none;
  terminal = true;
  uid = 0;
  gid = 0;
  stdio_stream = pos 0;
  stderr_stream = pos 0;
}

abbrev pub config : Config
config = record {
  oci_version = none;
  mounts = [];
  annotations = [];
  process = workload;
  root_path = codes "/r";
  vm = some vm;
  state_file_path = [];
  runtime_path = codes "/run/c";
  comms_path = codes "/run/c/h";
  procsock_path = codes "/run/c/p";
  workload_pid = 0;
  status = created;
  pod = some pod;
  bundle_path = some (codes "/b");
  console = none;
  root_dir = none;
  container_id = some (codes "c");
  dry_run_mode = false;
  detached_mode = true;
  proxy = some proxy;
}

-- An annotation that is none of a pod's.
abbrev other_note : Bytes × Bytes
other_note = (codes "note", codes "x")

annotations_handle_section-IsMember_example :
    IsMember (codes "/run") (codes "p") (codes "c") config (
      annotations_handle_section
        (codes "/run")
        (section
          (codes "annotations")
          (object (annotated (other_note ∷ type_note ∷ name_note (codes "p") ∷ other_note ∷ []))))
        config)
    × IsMember (codes "/run") (codes "p") (codes "c") config (
        annotations_handle_section
          (codes "/run")
          (section
            (codes "annotations")
            (object (annotated (other_note ∷ name_note (codes "p") ∷ type_note ∷ other_note ∷ []))))
          config)
unfolding str_eq
annotations_handle_section-IsMember_example =
    annotations_handle_section-IsMember (codes "/run") [] (codes "c") b'p' config (other_note ∷ [])
      [] (other_note ∷ []) refl (refl, tt) tt (refl, tt)

abbrev pub answers : PodAnswers
answers = record {
  timestamp = some (codes "now");
  shim = some 77;
  pid_file = none;
  socket_valid = true;
  socket_written = true;
  base_written = true;
  connection_made = true;
  descriptor_sent = true;
  setup_failed = false;
  writable = true;
}

abbrev pub yes : Json
yes = object (member (codes "success") (value (boolean true)) no_member)

abbrev pub streams : Json
streams = object (
    member (codes "success") (value (boolean true)) (
      member (codes "data") (object (member (codes "ioBase") (value (int64 (pos 5))) no_member))
        no_member))

abbrev pub session : Session
session = record {
  connected = false;
  sent = [];
  attempts = accepted ∷ [];
  replies = some yes ∷ some streams ∷ [];
  closes = true;
}

abbrev pub disk : Disk
disk path = none

pod_container_create-CreateEnds_example :
    CreateEnds answers config session disk (pod_container_create answers config session disk)
unfolding pod_container_create launch give_streams finish_create proxy_connect proxy_attach
    proxy_disconnect proxy_run_cmd hyper_check_response find_member proxy_cmd_allocate_io io_base_of
    state_file_create check_complete state_file_get document process_to_json status_to_str str_eq
pod_container_create-CreateEnds_example =
    pod_container_create-CreateEnds answers config session disk refl refl
