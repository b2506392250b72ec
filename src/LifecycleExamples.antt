-- ===== src/LifecycleExamples.antt =====
-- The theorems on the state file and on the commands of src/oci.c at a small container.
use cc_oci_runtime.Prelude.{
  Bytes, ◌≡◌, refl, none, some, List, [], ◌∷◌, Bool, true, false, pos, negsuc, codes, arith,
}
use mathlib.Core.Path.{subst}
use mathlib.Core.Option.{some-injective}
use cc_oci_runtime.Container.Types.{running, stopping, VmCfg, Mount, Process, Config, OciState}
use cc_oci_runtime.Container.Status.{status_to_str}
use cc_oci_runtime.StateFile.Read.{state_file_read, blank_state}
use cc_oci_runtime.StateFile.Write.{
  Disk, state_file_create, state_file_get, check_complete, document, process_to_json,
}
use cc_oci_runtime.StateFile.Recall.{VmFits}
use cc_oci_runtime.StateFile.RoundTrip.{Fits, ReadsBack}
use cc_oci_runtime.StateFile.Recovery.{state_file_read-state_file_create}
use cc_oci_runtime.Lifecycle.{
  KillAnswers, with_status, write_status, pod_is_sandbox, oci_kill, oci_toggle, VmCall, pauses,
  resumes, Toggled, vm_pause,
}
use cc_oci_runtime.Lifecycle.Steps.{KillEnds, oci_kill-KillEnds}
use cc_oci_runtime.Lifecycle.Recovery.{ToggleDone, oci_toggle-ReadsBack}
use cc_oci_runtime.Semver.Precedence.{text}
use cc_oci_runtime.ConfigCheck.{config_check, supported, supported-IsVersion, config_check-major}
use cc_oci_runtime.StateFile.RecallMounts.{mounted}
use cc_oci_runtime.StateFile.Write.{Complete}
use cc_oci_runtime.StateFile.RoundTrip.{reread}
use cc_oci_runtime.Lifecycle.Update.{fill_config, config_update}
use cc_oci_runtime.Lifecycle.Restored.{FindsAgain, get_config_and_state-Restores}
use cc_oci_runtime.Prelude.{All, ◌++◌}
use cc_oci_runtime.Lifecycle.Stop.{Effect, ran_poststop, StopAnswers, oci_stop}
use cc_oci_runtime.Lifecycle.Stopped.{full_cleanup, oci_stop_complete}
use cc_oci_runtime.Prelude.{ℕ}
use cc_oci_runtime.Lifecycle.Signals.{choose_signal, get_signum, full_name}
use cc_oci_runtime.Lifecycle.Runtime.{runtime_path_get, get_config_and_state}
use cc_oci_runtime.Lifecycle.KillCommand.{with_id, handler_kill, KillDone, handler_kill-ReadsBack}
use cc_oci_runtime.Mounts.Unmount.{done_paths}
use cc_oci_runtime.Mounts.{handle_unmounts}
use cc_oci_runtime.Mounts.Unmount.{Ends, handle_unmounts-Ends}

abbrev pub vm : VmCfg
vm = record {
  hypervisor_path = codes "/qemu";
  image_path = codes "/image";
  kernel_path = codes "/kernel";
  workload_path = codes "/w";
  kernel_params = none;
  pid = 1234;
}

-- One mount that was done, with the directory that was created for it, and one that was not.
abbrev mounts : List Mount
mounts =
    (record {
      flags = 0;
      mnt_fsname = none;
      mnt_dir = some (codes "/data");
      mnt_type = none;
      mnt_opts = none;
      dest = codes "/r/data";
      ignore_mount = false;
      directory_created = some (codes "/r/data");
    })
    ∷ (record {
      flags = 0;
      mnt_fsname = none;
      mnt_dir = some (codes "/proc");
      mnt_type = none;
      mnt_opts = none;
      dest = [];
      ignore_mount = true;
      directory_created = none;
    })
    ∷ []

abbrev process : Process
process = record {
  args = some (codes "sh" ∷ []);
  cwd = codes "/";
  env = none;
  terminal = true;
  uid = 7;
  gid = 7;
  stdio_stream = pos 5;
  stderr_stream = negsuc 0;
}

abbrev config : Config
config = record {
  oci_version = none;
  mounts = mounts;
  annotations = [];
  process = process;
  root_path = codes "/r";
  vm = some vm;
  state_file_path = [];
  runtime_path = codes "/run/c";
  comms_path = codes "/run/c/h";
  procsock_path = codes "/run/c/p";
  workload_pid = 77;
  status = running;
  pod = none;
  bundle_path = some (codes "/b");
  console = none;
  root_dir = none;
  container_id = some (codes "c");
  dry_run_mode = false;
  detached_mode = false;
  proxy =
      some (record { agent_ctl_socket = none; agent_tty_socket = none; vm_console_socket = none });
}

abbrev state : OciState
state = record blank_state { status = running; create_time = some (codes "now"); pid = 77 }

vm-VmFits : VmFits vm
vm-VmFits = record {
  hypervisor_path = omega arith;
  image_path = omega arith;
  kernel_path = omega arith;
  workload_path = omega arith;
  pid = omega arith;
}

config-Fits : Fits config
config-Fits = record {
  workload_pid = omega arith;
  mounts = (omega arith, (omega arith, tt));
  process = record { cwd = omega arith; stdio_stream = omega arith; stderr_stream = omega arith };
  vm = λ v e. subst VmFits (some-injective vm v e) vm-VmFits;
}

abbrev disk : Disk
disk path = none

abbrev pub written : Config × Disk × Bool
written = state_file_create config (some (codes "now")) true disk

state_file_read-state_file_create_example :
    ReadsBack config (codes "now") (state_file_read written.1 (some written.0.state_file_path))
unfolding state_file_create check_complete state_file_get document process_to_json status_to_str
state_file_read-state_file_create_example =
    state_file_read-state_file_create config written.0 (codes "now") true disk written.1 config-Fits
      refl

abbrev answers : KillAnswers
answers = record { first_write = true; signal_sent = true; proxy_killed = true; last_write = true }

oci_kill-KillEnds_example : KillEnds running (oci_kill config state 15 answers disk)
oci_kill-KillEnds_example = oci_kill-KillEnds config state 15 answers disk

abbrev killed : Config × Disk × Bool
killed = oci_kill config state 9 answers disk

abbrev refusal : KillAnswers
refusal = record { first_write = true; signal_sent = false; proxy_killed = true; last_write = true }

abbrev stopping_written : Config × Disk × Bool
stopping_written = write_status stopping config (some (codes "now")) true disk

abbrev restored : Config × Disk × Bool
restored = write_status running stopping_written.0 (some (codes "now")) true stopping_written.1

-- The state of the container as it is known to a toggle, and a hypervisor that only pauses.
abbrev toggled_state : OciState
toggled_state = record state { comms_path = some (codes "/run/c/h") }

abbrev only_pauses : VmCall → Bool
only_pauses (pauses path pid) = true
only_pauses (resumes path pid) = false

abbrev toggled : Toggled
toggled = oci_toggle config toggled_state true only_pauses true disk

oci_toggle-ReadsBack_example :
    ToggleDone config toggled.1.0 toggled_state true only_pauses toggled.0 toggled.1.1
unfolding oci_toggle vm_pause state_file_create check_complete state_file_get document
    process_to_json status_to_str
oci_toggle-ReadsBack_example =
    oci_toggle-ReadsBack config toggled.1.0 toggled_state true only_pauses true disk toggled.1.1
      toggled.0 config-Fits refl refl

config_check-major_example : config_check (some (text supported)) ≡ some true
config_check-major_example = config_check-major supported supported-IsVersion

-- An umount that fails on every path.
abbrev no_umount : Bytes → Bool
no_umount path = false

handle_unmounts-Ends_example : Ends no_umount mounts (handle_unmounts no_umount mounts)
handle_unmounts-Ends_example = handle_unmounts-Ends no_umount mounts

abbrev pub fresh : Config
fresh = record config {
  mounts = [];
  process = record process { args = none };
  vm = none;
  proxy = none;
  comms_path = [];
  procsock_path = [];
  workload_pid = 0;
}

abbrev complete : Complete
complete = record {
  container_id = codes "c";
  bundle_path = codes "/b";
  vm = vm;
  proxy = record { agent_ctl_socket = none; agent_tty_socket = none; vm_console_socket = none };
}

abbrev reread_state : OciState
reread_state = reread config complete (codes "sh" ∷ []) (codes "now") []

get_config_and_state-Restores_example : FindsAgain (codes "/run") fresh config written.1
unfolding runtime_path_get state_file_create check_complete state_file_get document process_to_json
    status_to_str
get_config_and_state-Restores_example =
    get_config_and_state-Restores (codes "/run") (codes "/b") (codes "now") fresh
      (record fresh { runtime_path = codes "/run/c" }) config written.0 true disk written.1
      (record { mounts = refl; args = refl; console = refl; pod = refl }) config-Fits (omega arith)
      (omega arith) refl refl refl refl refl

abbrev pub all_well : StopAnswers
all_well = record {
  vm_found = true;
  pod_destroyed = true;
  bye_answered = true;
  umount = λ path. true;
  state_file_unlinked = true;
  runtime_dir_deleted = true;
}

abbrev stopping_state : OciState
stopping_state = record blank_state { vm = some vm; mounts = mounts }

abbrev effects : List Effect
effects = (oci_stop config stopping_state all_well).0

oci_stop_complete_example :
    All (λ p. all_well.umount p ≡ true) (done_paths mounts)
    × ((first : List Effect) × (effects ≡ first ++ (ran_poststop ∷ full_cleanup mounts)))
unfolding oci_stop handle_unmounts
oci_stop_complete_example = oci_stop_complete config stopping_state all_well effects refl

-- What a kill command finds of the container whose state has been written.
abbrev pub found_state : OciState
found_state = reread_state

abbrev pub found_config : Config
found_config = record (with_id (codes "c") fresh) {
  state_file_path = codes "/run/c/state.json";
  bundle_path = some (codes "/b");
  workload_pid = 77;
  status = running;
  comms_path = codes "/run/c/h";
  procsock_path = codes "/run/c/p";
}

abbrev updated : Config
updated = (config_update found_config found_state).0

updated-Fits : Fits updated
unfolding config_update mounted
updated-Fits = record {
  workload_pid = omega arith;
  mounts = (omega arith, tt);
  process = record { cwd = omega arith; stdio_stream = omega arith; stderr_stream = omega arith };
  vm = λ v e. subst VmFits (some-injective (record vm { kernel_params = some [] }) v e) (record {
    hypervisor_path = omega arith;
    image_path = omega arith;
    kernel_path = omega arith;
    workload_path = omega arith;
    pid = omega arith;
  });
}

abbrev kill_line : List Bytes
kill_line = codes "c" ∷ codes "KILL" ∷ []

abbrev commanded : Config × Disk × Bool
commanded = handler_kill (codes "/run") kill_line answers fresh written.1

handler_kill-ReadsBack_example :
    KillDone (codes "/run") kill_line fresh commanded.0 written.1 commanded.1
unfolding handler_kill cc_oci_runtime.Commands.Usage.handle_default_usage choose_signal get_signum
    full_name get_config_and_state runtime_path_get state_file_get state_file_read fill_config
    config_update oci_kill state_file_create check_complete document process_to_json status_to_str
    cc_oci_runtime.Prelude.has_number cc_oci_runtime.Container.Status.oci_status_map
    cc_oci_runtime.Container.Status.str_to_status cc_oci_runtime.Lifecycle.Signals.signal_table
    cc_oci_runtime.Lifecycle.failing cc_oci_runtime.Lifecycle.kill_container
    cc_oci_runtime.Lifecycle.or_revert pod_is_sandbox cc_oci_runtime.Prelude.decimal
    cc_oci_runtime.Prelude.decimal_onto cc_oci_runtime.Prelude.atol
    cc_oci_runtime.Prelude.digits_from cc_oci_runtime.Prelude.is_digit
    cc_oci_runtime.Prelude.is_space cc_oci_runtime.Prelude.skip_space
    cc_oci_runtime.Prelude.strip_sign cc_oci_runtime.StateFile.Json.json_string
    cc_oci_runtime.StateFile.Json.show_int cc_oci_runtime.StateFile.ProcessSection.handle_process
    cc_oci_runtime.StateFile.ProcessSection.handle_process_member
    cc_oci_runtime.StateFile.ProcessSection.handle_user_section
    cc_oci_runtime.StateFile.ProcessSection.node_to_strv
    cc_oci_runtime.StateFile.ProcessSection.process_handle_section
    cc_oci_runtime.StateFile.Read.all_found cc_oci_runtime.StateFile.Read.state_handlers
    cc_oci_runtime.StateFile.Sections.annotation_value
    cc_oci_runtime.StateFile.Sections.console_value cc_oci_runtime.StateFile.Sections.handle_pid
    cc_oci_runtime.StateFile.Sections.mount_value cc_oci_runtime.StateFile.Sections.pod_value
    cc_oci_runtime.StateFile.Sections.set_last_created
    cc_oci_runtime.StateFile.Write.annotations_to_json cc_oci_runtime.StateFile.Write.console_json
    cc_oci_runtime.StateFile.Write.mount_members cc_oci_runtime.StateFile.Write.mounts_to_json
    cc_oci_runtime.StateFile.Write.pod_members cc_oci_runtime.StateFile.Write.process_members
    cc_oci_runtime.StateFile.Write.set_member cc_oci_runtime.StateFile.Write.strings
    cc_oci_runtime.Prelude.str_eq cc_oci_runtime.StateFile.Read.read_document
    cc_oci_runtime.StateFile.Read.finish_read cc_oci_runtime.StateFile.Json.foreach
    cc_oci_runtime.StateFile.Json.json_parse cc_oci_runtime.StateFile.Json.parse_aux
    cc_oci_runtime.StateFile.Write.state_members cc_oci_runtime.StateFile.Write.pod_section
    cc_oci_runtime.StateFile.Write.annotations_section
    cc_oci_runtime.StateFile.Read.handle_state_sections
    cc_oci_runtime.StateFile.Read.handle_state_section cc_oci_runtime.StateFile.Write.proxy_members
    cc_oci_runtime.StateFile.Read.handle_section cc_oci_runtime.StateFile.Sections.proxy_value
    cc_oci_runtime.StateFile.Write.vm_members cc_oci_runtime.StateFile.Sections.vm_value mounted
handler_kill-ReadsBack_example =
    handler_kill-ReadsBack (codes "/run") kill_line answers fresh commanded.0 written.1 commanded.1
      (λ filled state e.
        subst (λ (found : Config × OciState). Fits (config_update found.0 found.1).0)
          (some-injective (found_config, found_state) (filled, state) e) updated-Fits)
      refl
