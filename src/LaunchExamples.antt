-- ===== src/LaunchExamples.antt =====
-- The theorems on launching a virtual machine, and on running a command there, at a small container.
use cc_oci_runtime.Prelude.{◌≡◌, refl, true, false, none, some, [], codes, strsplit}
use cc_oci_runtime.Container.Types.{Config}
use cc_oci_runtime.Container.Status.{status_to_str}
use cc_oci_runtime.StateFile.Write.{
  state_file_create, state_file_get, check_complete, document, process_to_json,
}
use cc_oci_runtime.Hypervisor.Lines.{file_to_strv}
use cc_oci_runtime.Hypervisor.Args.{vm_args_get, expand_cmdline}
use cc_oci_runtime.Proxy.Client.{Session, proxy_connect, proxy_run_cmd, proxy_wait_until_ready}
use cc_oci_runtime.Process.{shim_launch}
use cc_oci_runtime.Process.Launch.{LaunchAnswers, returned, vm_launch}
use cc_oci_runtime.Process.Recorded.{LaunchEnds, vm_launch-LaunchEnds}
use cc_oci_runtime.PodExamples as Pod
use cc_oci_runtime.HypervisorExamples as Hypervisor

abbrev pub config : Config
config = record Pod.config { pod = none }

-- Everything succeeds; there is no network, and cc-proxy gives no answer.
abbrev pub answers : LaunchAnswers
answers = record {
  timestamp = some (codes "now");
  pipes = true;
  forked = some 70;
  channels = true;
  shim_forked = some 71;
  writable = true;
  state_text = some (codes "{}");
  network = none;
  hypervisor = Hypervisor.answers;
  contents = λ path. some (codes "/q");
  args_file = some (codes "/f");
  args_written = true;
  child_reported = false;
  socket_exists = true;
  monitor_made = true;
  socket_valid = true;
  socket_written = true;
  base_written = true;
  connection_made = true;
  descriptor_sent = true;
  shim_reported = false;
  writable_again = true;
  pid_file = none;
}

abbrev silent : Session
silent = record Pod.session { replies = [] }

launched_true : (vm_launch answers [] [] (codes "c") config silent Pod.disk).ending ≡ returned true
unfolding vm_launch proxy_connect shim_launch proxy_wait_until_ready proxy_run_cmd vm_args_get
    file_to_strv expand_cmdline state_file_create check_complete state_file_get document
    process_to_json status_to_str strsplit
launched_true = refl

vm_launch-LaunchEnds_example :
    LaunchEnds answers config Pod.disk (vm_launch answers [] [] (codes "c") config silent Pod.disk)
vm_launch-LaunchEnds_example =
    vm_launch-LaunchEnds answers [] [] (codes "c") config silent Pod.disk launched_true
