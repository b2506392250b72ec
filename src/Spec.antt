-- ===== src/Spec.antt =====
-- src/spec_handlers/root.c, platform.c and vm.c: the sections of a config file on the root file
-- system, the platform and the virtual machine. The answers of the file system are parameters.
pub mod Sections
pub mod Kept
pub mod Valid
pub mod Accepted
use cc_oci_runtime.Prelude.{
  Bool, true, false, not, ◌&&◌, Option, none, some, List, [], ◌∷◌, ◌==◌, if◌then◌else◌, Bytes,
  codes, str_eq,
}
use cc_oci_runtime.Container.Types.{VmCfg, Config, fit_path}
use cc_oci_runtime.StateFile.Json.{Node, Nodes, node, nil, cons, children, foreach}
use cc_oci_runtime.Hooks.{Hooks}
use cc_oci_runtime.Namespaces.{NamespaceCfg}

-- The config with the parts of struct oci_cfg that only the handlers use.
pub record Spec : Type 0 where
  pub config : Config
  pub hostname : Option Bytes
  pub os : Option Bytes
  pub arch : Option Bytes
  pub read_only : Bool
  pub hooks : Hooks
  pub namespaces : List NamespaceCfg

-- `real_path` is realpath (3) on a path that is not empty; `is_dir` and `found` are g_file_test and
-- stat (2); `runtime_dir` is CC_OCI_RUNTIME_DIR_PREFIX.
pub record SpecSystem : Type 0 where
  pub real_path : Bytes → Option Bytes
  pub is_dir : Bytes → Bool
  pub found : Bytes → Bool
  pub runtime_dir : Bytes

-- cc_oci_resolve_path of src/util.c.
unfoldable pub resolve_path : (Bytes → Option Bytes) → Option Bytes → Option Bytes
resolve_path real_path none = none
resolve_path real_path (some []) = none
resolve_path real_path (some (c ∷ s)) = real_path (c ∷ s)

abbrev pub kept_path : Option Bytes → Bytes → Bytes
kept_path none old = old
kept_path (some path) old = fit_path path

abbrev is_text : Option Bytes → Bytes → Bool
is_text none s = false
is_text (some t) s = str_eq t s

abbrev pub root_flag : Option Bytes → Bool → Bool
root_flag value old =
    if is_text value (codes "true")
    then true
    else if is_text value (codes "false")
    then false
    else old

unfoldable pub handle_root_section : SpecSystem → Node → Spec → Spec
unfolding resolve_path
handle_root_section sys (node name nil) s = s
handle_root_section sys (node name (cons (node value below) ns)) s =
    if is_text name (codes "path")
    then record s {
      config = record s.config {
        root_path = kept_path (resolve_path sys.real_path value) s.config.root_path;
      };
    }
    else if is_text name (codes "readonly")
    then record s { read_only = root_flag value s.read_only }
    else s

abbrev pub is_empty_path : Bytes → Bool
is_empty_path [] = true
is_empty_path (_ ∷ _) = false

abbrev pub root_is_valid : SpecSystem → Spec → Bool
root_is_valid sys s = not (is_empty_path s.config.root_path) && sys.is_dir s.config.root_path

unfoldable pub root_handle_section : SpecSystem → Node → Spec → Spec × Bool
unfolding handle_root_section
root_handle_section sys n s =
    let s' = foreach (handle_root_section sys) (children n) s in (s', root_is_valid sys s')

unfoldable pub handle_platform_section : Node → Spec → Spec
handle_platform_section (node name nil) s = s
handle_platform_section (node name (cons (node value below) ns)) s =
    if is_text name (codes "os")
    then record s { os = value }
    else if is_text name (codes "arch")
    then record s { arch = value }
    else s

abbrev pub expected_platform : Bytes
expected_platform = codes "linux"

abbrev pub expected_architecture : Bytes
expected_architecture = codes "amd64"

abbrev pub platform_is_valid : Spec → Bool
platform_is_valid s = is_text s.os expected_platform && is_text s.arch expected_architecture

unfoldable pub platform_handle_section : Node → Spec → Spec × Bool
unfolding handle_platform_section
platform_handle_section n s =
    let s' = foreach handle_platform_section (children n) s in (s', platform_is_valid s')

unfoldable pub handle_kernel_section : SpecSystem → Node → VmCfg → VmCfg
unfolding resolve_path
handle_kernel_section sys (node name nil) vm = vm
handle_kernel_section sys (node name (cons (node value below) ns)) vm =
    if is_text name (codes "path")
    then record vm { kernel_path = kept_path (resolve_path sys.real_path value) vm.kernel_path }
    else if is_text name (codes "parameters")
    then record vm { kernel_params = value }
    else vm

unfoldable pub handle_vm_section : SpecSystem → Node → VmCfg → VmCfg
unfolding resolve_path handle_kernel_section
handle_vm_section sys (node name nil) vm = vm
handle_vm_section sys (node name (cons (node value below) ns)) vm =
    if is_text name (codes "path")
    then record vm {
      hypervisor_path = kept_path (resolve_path sys.real_path value) vm.hypervisor_path;
    }
    else if is_text name (codes "image")
    then record vm { image_path = kept_path (resolve_path sys.real_path value) vm.image_path }
    else if is_text name (codes "kernel")
    then foreach (handle_kernel_section sys) (cons (node value below) ns) vm
    else vm

abbrev pub blank_vm : VmCfg
blank_vm = record {
  hypervisor_path = [];
  image_path = [];
  kernel_path = [];
  workload_path = [];
  kernel_params = none;
  pid = 0;
}

abbrev pub vm_or_new : Option VmCfg → VmCfg
vm_or_new none = blank_vm
vm_or_new (some vm) = vm

abbrev pub path_is_found : SpecSystem → Bytes → Bool
path_is_found sys path = not (is_empty_path path) && sys.found path

abbrev pub vm_is_valid : SpecSystem → VmCfg → Bool
vm_is_valid sys vm =
    path_is_found sys vm.hypervisor_path
    && (path_is_found sys vm.image_path && path_is_found sys vm.kernel_path)

-- A machine that is not valid is taken away again.
unfoldable pub vm_handle_section : SpecSystem → Node → Spec → Spec × Bool
unfolding handle_vm_section
vm_handle_section sys n s =
    let vm = foreach (handle_vm_section sys) (children n) (vm_or_new s.config.vm) in
    if vm_is_valid sys vm
    then (record s { config = record s.config { vm = some vm } }, true)
    else (record s { config = record s.config { vm = none } }, false)
