-- ===== src/ProxyExamples.antt =====
-- The theorems on the connection to cc-proxy at small messages.
use cc_oci_runtime.Prelude.{◌≡◌, refl, true, false, none, some, List, [], ◌∷◌, codes, pos, arith}
use cc_oci_runtime.Container.Types.{created, Process, Config}
use cc_oci_runtime.Shim.Control.{get_proxy_ctl_msg}
use cc_oci_runtime.Proxy.Frame.{IoStatus, normal, again, awaits_reply, msg_write}
use cc_oci_runtime.Proxy.Sent.{done, more, Takes, msg_write-get_proxy_ctl_msg}
use cc_oci_runtime.Proxy.Reply.{packet, eagain, Watch, quits_loop, run_reads}
use cc_oci_runtime.Proxy.Received.{complete, some_part, nothing_yet, frame_start, run_reads-Arrives}
use cc_oci_runtime.Proxy.Client.{accepted, Session}

-- The channel is full once and then takes all.
abbrev answers : List IoStatus
answers = again 0 ∷ normal ∷ normal ∷ normal ∷ []

abbrev taken : Takes answers
taken = record {
  second = normal ∷ normal ∷ [];
  third = normal ∷ [];
  rest = [];
  header = more _ _ (done _);
  text = done _;
  flush = done _;
}

msg_write-get_proxy_ctl_msg_example :
    msg_write false (codes "{}") answers ≡ awaits_reply (get_proxy_ctl_msg (codes "{}"))
msg_write-get_proxy_ctl_msg_example =
    msg_write-get_proxy_ctl_msg (codes "{}") answers (omega arith, (omega arith, tt)) taken

abbrev watch : Watch
watch = record { wants_fd = false; oob_fd_found = false; oob_fd = none; msg_received = [] }

run_reads-Arrives_example :
    run_reads watch
      (packet (frame_start 4 (1 ∷ 2 ∷ [])) none ∷ eagain ∷ packet (3 ∷ 4 ∷ []) none ∷ eagain ∷ [])
    ≡ quits_loop (record watch { msg_received = 1 ∷ 2 ∷ 3 ∷ 4 ∷ [] })
run_reads-Arrives_example =
    run_reads-Arrives watch (1 ∷ 2 ∷ []) (3 ∷ 4 ∷ []) none
      (eagain ∷ packet (3 ∷ 4 ∷ []) none ∷ eagain ∷ []) refl (omega arith)
      (nothing_yet (3 ∷ 4 ∷ []) _ (omega arith)
        (some_part (3 ∷ 4 ∷ []) [] none (eagain ∷ []) (complete [])))

abbrev workload : Process
workload = record {
  args = some (codes "sh" ∷ []);
  cwd = codes "/";
  env = some (codes "A=B" ∷ []);
  terminal = true;
  uid = 0;
  gid = 0;
  stdio_stream = pos 1;
  stderr_stream = pos 2;
}

abbrev config : Config
config = record {
  oci_version = none;
  mounts = [];
  annotations = [];
  process = workload;
  root_path = [];
  vm = none;
  state_file_path = [];
  runtime_path = [];
  comms_path = [];
  procsock_path = [];
  workload_pid = 0;
  status = created;
  pod = none;
  bundle_path = none;
  console = none;
  root_dir = none;
  container_id = some (codes "c");
  dry_run_mode = false;
  detached_mode = false;
  proxy = none;
}

abbrev session : Session
session = record {
  connected = false;
  sent = [];
  attempts = accepted ∷ [];
  replies = none ∷ [];
  closes = true;
}

-- The same container with a proxy that can be reached.
abbrev proxied : Config
proxied = record config {
  proxy =
      some (record { agent_ctl_socket = none; agent_tty_socket = none; vm_console_socket = none });
}
