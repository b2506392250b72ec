-- ===== src/Lib.antt =====
-- Verification of the core of cc-oci-runtime, an OCI runtime that runs containers in virtual
-- machines, and of its shim.
--
-- The program. The runtime (src/) reads an OCI bundle, starts a hypervisor through cc-proxy and
-- keeps what it knows of a container in a state file, from which every later command starts. The
-- shim (shim/) is the process that stands for the container on the host: it passes stdin and signals
-- to cc-proxy, and the output and the exit status of the workload back. cc-proxy (proxy/) is another
-- program, in Go.
--
-- The files.
--   Prelude: numbers, lists, options, and the functions of the C library and of GLib that the code
--     calls on strings (atol, strcmp, strchr, g_strsplit), as their documentation describes them. A
--     string is the list of its bytes without the final NUL.
--   Semver: src/semver.c, function by function. Semver/Precedence is the specification that its
--     comments quote, Semver/Refines the comparison of the two, Semver/Limits where they part.
--   Shim: shim/utils.c (Shim/Endian) and shim/shim.c. Shim/Kernel is what read and write may do: the
--     input in the pieces in which it arrives, and how many bytes each write accepts. Shim/Control
--     has get_proxy_ctl_msg, send_proxy_hyper_message and handle_signals; Shim/Stream handle_stdin,
--     read_IO_message, handle_proxy_output and handle_proxy_ctl; Shim/Loop the loop of main; Shim/Options the command line.
--   Container: the structures of src/oci.h (Container/Types) and the names of the statuses in
--     src/state.c (Container/Status).
--   StateFile: the state file. StateFile/Json has JSON values and the trees that src/json.c makes of
--     them; StateFile/Sections has the handlers of src/state.c, StateFile/ProcessSection those of
--     src/spec_handlers/process.c, and StateFile/Read cc_oci_state_file_read; StateFile/Write is
--     cc_oci_state_file_create with cc_oci_mounts_to_json, cc_oci_annotations_to_json and
--     cc_oci_process_to_json. The Recall files are about what the handlers make of each section that
--     is written, RoundTrip about the document, and Recovery about the file.
--   Lifecycle: cc_oci_kill and cc_oci_toggle of src/oci.c; in Lifecycle/Update, cc_oci_config_update
--     and the end of cc_oci_get_config_and_state; in Lifecycle/Stop, cc_oci_stop and cc_oci_cleanup;
--     in Lifecycle/Runtime, src/runtime.c and the whole of cc_oci_get_config_and_state, with
--     Lifecycle/Restored about what it finds; in Lifecycle/Start, cc_oci_start; in
--     Lifecycle/KillCommand, src/commands/kill.c, with the names of signals of src/util.c
--     (Lifecycle/Signals). A disk is a map from paths to documents, and the answers of kill (2), of
--     the file system and of the hypervisor are arguments.
--   Proxy: src/proxy.c. Proxy/Frame is cc_proxy_msg_write and Proxy/Reply cc_proxy_msg_read: each call
--     of the system takes its answer from a list. Proxy/Request has the JSON of the requests, with
--     set_env_home of src/oci.c; Proxy/Client connecting, cc_proxy_run_cmd and the commands of
--     cc-proxy; Proxy/Commands and Proxy/Startpod those for the agent in the virtual machine. A
--     session holds what has been sent, and the answers that are still to come.
--   Pods: the annotations of src/pod.c and src/spec_handlers/annotations.c (Pods/Annotations) and
--     cc_pod_container_create (Pods/Create).
--   Mounts: cc_oci_handle_unmounts and cc_oci_mount_ignore of src/mount.c; Mounts/Mounting is
--     cc_oci_handle_mounts, over a file system that is a parameter, and Mounts/Section
--     src/spec_handlers/mounts.c.
--   Namespaces: src/namespace.c, and in Namespaces/Linux src/spec_handlers/linux.c.
--   Hypervisor: src/hypervisor.c: the lines of the file (Hypervisor/Lines, with two functions of
--     src/util.c), the tags and the network (Hypervisor/Tags), and the command line
--     (Hypervisor/Args).
--   ConfigCheck: cc_oci_config_check of src/oci-config.c.
--   Hooks: src/spec_handlers/hooks.c, with what a config file lists in Hooks/Listed; Hooks/Run is
--     cc_run_hook and cc_run_hooks of src/process.c, Hooks/Order the order in which hooks are run.
--   Spec: the sections of a config file on the root, the platform and the machine
--     (src/spec_handlers/root.c, platform.c and vm.c). Spec/Sections is cc_oci_process_config of
--     src/oci-config.c with all the handlers, and src/spec_handler.c; Spec/Kept, Spec/Valid and
--     Spec/Accepted are about a file that is accepted.
--   Process: src/process.c. Process is the shim as a child process, and Process/ShimArgs its command
--     line as the shim reads it; Process/HypervisorArgs is the pipe to the hypervisor's child;
--     Process/Launch is cc_oci_vm_launch, of which Process/Launched and Process/Recorded say what it
--     has done; Process/Connect is cc_oci_exec_shim, cc_oci_vm_connect and cc_oci_exec.
--   Qmp: cc_oci_qmp_msg_recv of src/network.c, which a pause and a resume use. Qmp/Drained is about
--     one round of its inner loop, Qmp/Received about all of it.
--   Lifecycle/Create: cc_oci_create and cc_oci_run of src/oci.c, which put the parts above together;
--     Lifecycle/Dry is about a dry run.
--   Listing: cc_oci_list of src/oci.c and src/commands/list.c; Listing/Aligned is about its table.
--   Commands: src/command.c, and start.c, state.c and exec.c of src/commands/; Commands/Users is the
--     --user option, and Commands/Usage the test of their words that commands make first.
--   Examples, and the other files whose names end so: the theorems at concrete inputs.
--
-- Conventions. `none` stands for NULL, and for a call that the C language leaves undefined, as each
-- definition says. Machine integers wrap as the source's types do; a signed difference that is cut to
-- an int is written out. Pointers that the code asserts not to be NULL are not optional.
--
-- Fuel. The loop of read_IO_message is on fuel: 10242 rounds, since each round reads a byte at least
-- and no message is longer than HYPERSTART_MAX_RECV_BYTES. So is the inner loop of
-- cc_oci_qmp_msg_recv, on as many rounds as it has bytes, each of which takes two. All other loops
-- are structural: those that wait for cc-proxy or the system recur on the answers that are given, the
-- loop of the shim's main on what its polls find, and the search for the first directory that is
-- missing on the slashes of the path.
--
-- Not modelled: the parser and printer of json-glib (a file is the document that it holds), logging,
-- memory, the terminal settings of the shim, the discovery and set-up of the network (what it finds
-- is an answer), the rest of the dialogue with the hypervisor, closing descriptors and the log of the
-- hypervisor's child, the parsing of options by GOption and main of the runtime, the events command,
-- the privilege checks, cc-proxy itself, and the tests. fork, exec and the other calls of the system are answers that a definition is given.
pub mod Prelude
pub mod Semver
pub mod Shim
pub mod Container
pub mod StateFile
pub mod Lifecycle
pub mod ConfigCheck
pub mod Mounts
pub mod Namespaces
pub mod Hypervisor
pub mod Hooks
pub mod Pods
pub mod Proxy
pub mod Qmp
pub mod Process
pub mod Spec
pub mod Listing
pub mod Commands
mod Examples
mod LifecycleExamples
mod ProxyExamples
mod StartExamples
mod SpecExamples
mod HypervisorExamples
mod PodExamples
mod ProcessExamples
mod LaunchExamples
mod CommandExamples
mod ListingExamples
mod QmpExamples
