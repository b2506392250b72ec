-- ===== src/HypervisorExamples.antt =====
-- The theorems on the command line of the hypervisor at a small file.
use cc_oci_runtime.Prelude.{
  ◌≡◌, refl, ◌++◌, Bool, true, false, Option, none, some, List, [], ◌∷◌, Bytes, codes, arith,
  strsplit,
}
use cc_oci_runtime.Container.Types.{created, VmCfg, Proxy, Config}
use cc_oci_runtime.Mounts.Mounting.{get_workload_dir}
use cc_oci_runtime.Hypervisor.Lines.{file_to_strv, strip_right}
use cc_oci_runtime.Hypervisor.Tags.{HypervisorAnswers, with_sockets}
use cc_oci_runtime.Hypervisor.Args.{strip_all, vm_args_get}
use cc_oci_runtime.Hypervisor.Plain.{
  IsStripped, comment, argument, commented, AllMake, no_line, first_line,
}
use cc_oci_runtime.Hypervisor.Made.{IsReady, vm_args_get-AllMake}

abbrev vm : VmCfg
vm = record {
  hypervisor_path = codes "/q";
  image_path = codes "/i";
  kernel_path = codes "/k";
  workload_path = codes "/w";
  kernel_params = none;
  pid = 0;
}

abbrev proxy : Proxy
proxy = record { agent_ctl_socket = none; agent_tty_socket = none; vm_console_socket = none }

abbrev config : Config
config = record {
  oci_version = none;
  mounts = [];
  annotations = [];
  process = record {
    args = none;
    cwd = [];
    env = none;
    terminal = false;
    uid = 0;
    gid = 0;
    stdio_stream = cc_oci_runtime.Prelude.pos 0;
    stderr_stream = cc_oci_runtime.Prelude.pos 0;
  };
  root_path = codes "/r";
  vm = some vm;
  state_file_path = [];
  runtime_path = codes "/run/c";
  comms_path = codes "/run/c/h";
  procsock_path = codes "/run/c/p";
  workload_pid = 0;
  status = created;
  pod = none;
  bundle_path = some (codes "/b");
  console = none;
  root_dir = none;
  container_id = some (codes "c");
  dry_run_mode = false;
  detached_mode = false;
  proxy = some proxy;
}

abbrev pub answers : HypervisorAnswers
answers = record {
  image_size = some 4096;
  kernel_found = true;
  workload_found = true;
  uuid = 1 ∷ 2 ∷ 3 ∷ 4 ∷ 5 ∷ [];
  find_program = λ name. none;
  build_path = λ dir file. dir ++ (b'/' ∷ file);
}

ready : IsReady answers config
unfolding get_workload_dir
ready = record {
  vm = vm;
  has_vm = refl;
  bundle_path = codes "/b";
  has_bundle = refl;
  proxy = proxy;
  has_proxy = refl;
  size = 4096;
  has_image = refl;
  files = refl;
}

-- A command, a comment and an argument with a comment.
abbrev contents : Bytes → Option Bytes
contents path = some (codes "/q\n#c\n-m #x\n")

abbrev lines : List Bytes
lines = codes "/q" ∷ codes "#c" ∷ codes "-m #x" ∷ []

q-IsStripped : IsStripped (codes "/q")
unfolding strip_right
q-IsStripped = record {
  first = b'/';
  others = codes "q";
  begins = refl;
  visible = refl;
  ends = refl;
}

m-IsStripped : IsStripped (codes "-m")
unfolding strip_right
m-IsStripped = record {
  first = b'-';
  others = codes "m";
  begins = refl;
  visible = refl;
  ends = refl;
}

lines-AllMake : AllMake lines (codes "/q" ∷ codes "-m" ∷ [])
lines-AllMake =
    first_line (codes "/q") (codes "/q" ∷ []) _ _
      (argument (codes "/q") ((ground arith, ground arith), ((ground arith, ground arith), tt))
        q-IsStripped)
      (first_line (codes "#c") [] _ _ (comment (codes "c")) (
        first_line (codes "-m #x") (codes "-m" ∷ []) [] []
          (commented (codes "-m") (codes "x")
            ((ground arith, ground arith), ((ground arith, ground arith), tt)) m-IsStripped
            (omega arith))
          no_line))

vm_args_get-AllMake_example :
    vm_args_get answers none contents (some (codes "/f")) config (codes "-net" ∷ [])
    ≡ some (
      record config { proxy = some (with_sockets answers config) },
      (codes "/q" ∷ codes "-m" ∷ []) ++ strip_all (codes "-net" ∷ []),
    )
unfolding file_to_strv strsplit
vm_args_get-AllMake_example =
    vm_args_get-AllMake answers none (some (codes "/f")) contents config (codes "-net" ∷ []) lines
      (codes "/q" ∷ codes "-m" ∷ []) ready refl refl lines-AllMake
