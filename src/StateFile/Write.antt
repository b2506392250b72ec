-- ===== src/StateFile/Write.antt =====
-- What `cc_oci_state_file_create` of src/state.c writes, and the parts of it that stand in
-- src/mount.c, src/annotation.c and src/oci.c.
use cc_oci_runtime.Prelude.{
  Bool, true, false, ◌||◌, Option, none, some, List, [], ◌∷◌, ◌++◌, if◌then◌else◌, pos, Bytes,
  codes, str_eq, ◌>>=◌,
}
use cc_oci_runtime.Container.Types.{VmCfg, Proxy, Pod, Mount, Annotation, Process, Config, fit_path}
use cc_oci_runtime.Container.Status.{status_to_str}
use cc_oci_runtime.StateFile.Json.{
  text, int64, boolean, Json, object, array, value, null, Members, no_member, member, Elements,
  no_element, element,
}

abbrev string : Bytes → Json
string s = value (text s)

-- A string, or a blank one for NULL.
abbrev pub or_blank : Option Bytes → Bytes
or_blank none = []
or_blank (some s) = s

abbrev pub is_empty : Bytes → Bool
is_empty [] = true
is_empty (_ ∷ _) = false

unfoldable pub mount_members : Mount → Members
mount_members m = member (codes "destination") (string m.dest) (elim m.directory_created [
  | none ↦ no_member
  | some dir ↦ member (codes "directory_created") (string dir) no_member
])

unfoldable pub mounts_to_json : List Mount → Elements
unfolding mount_members
mounts_to_json [] = no_element
mounts_to_json (m ∷ ms) =
    let rest = mounts_to_json ms in
    if m.ignore_mount then rest else element (object (mount_members m)) rest

-- json_object_set_member: a member of the same name gets the new value and keeps its place.
unfoldable pub set_member : Bytes → Json → Members → Members
set_member key v no_member = member key v no_member
set_member key v (member k w ms) =
    if str_eq k key then member key v ms else member k w (set_member key v ms)

-- A NULL value is written as null.
abbrev annotation_json : Option Bytes → Json
annotation_json none = null
annotation_json (some s) = string s

add_annotations : List Annotation → Members → Members
add_annotations [] obj = obj
add_annotations (a ∷ rest) obj =
    add_annotations rest (set_member a.key (annotation_json a.value) obj)

unfoldable pub annotations_to_json : List Annotation → Members
unfolding add_annotations set_member
annotations_to_json annotations = add_annotations annotations no_member

unfoldable pub strings : List Bytes → Elements
strings [] = no_element
strings (s ∷ ss) = element (string s) (strings ss)

abbrev pub vector : Option (List Bytes) → List Bytes
vector none = []
vector (some ss) = ss

-- The members of the user object are not written.
unfoldable pub process_members : Process → List Bytes → Members
process_members p args = member (codes "cwd") (string p.cwd) (
    member (codes "terminal") (value (boolean p.terminal)) (
      member (codes "user") (object no_member) (
        member (codes "args") (array (strings args)) (
          member (codes "env") (array (strings (vector p.env))) (
            member (codes "stdio_stream") (value (int64 p.stdio_stream))
              (member (codes "stderr_stream") (value (int64 p.stderr_stream)) no_member))))))

unfoldable pub process_to_json : Process → Option Members
unfolding strings process_members
process_to_json p = elim p.args [
  | none ↦ none
  | some args ↦ if is_empty p.cwd then none else some (process_members p args)
]

unfoldable pub vm_members : VmCfg → Members
vm_members vm = member (codes "pid") (value (int64 (pos vm.pid))) (
    member (codes "hypervisor_path") (string vm.hypervisor_path) (
      member (codes "image_path") (string vm.image_path) (
        member (codes "kernel_path") (string vm.kernel_path) (
          member (codes "workload_path") (string vm.workload_path)
            (member (codes "kernel_params") (string (or_blank vm.kernel_params)) no_member)))))

unfoldable pub proxy_members : Proxy → Members
proxy_members proxy = member (codes "ctlSocket") (string (or_blank proxy.agent_ctl_socket)) (
    member (codes "ioSocket") (string (or_blank proxy.agent_tty_socket))
      (member (codes "consoleSocket") (string (or_blank proxy.vm_console_socket)) no_member))

unfoldable pub pod_members : Pod → Members
pod_members pod =
    member (codes "sandbox") (value (boolean pod.sandbox))
      (member (codes "sandbox_name") (string (or_blank pod.sandbox_name)) no_member)

-- No console is written as null.
unfoldable pub console_json : Option Bytes → Json
console_json none = null
console_json (some path) = object (member (codes "path") (string path) no_member)

unfoldable pub pod_section : Option Pod → Members → Members
unfolding pod_members
pod_section none rest = rest
pod_section (some pod) rest = member (codes "pod") (object (pod_members pod)) rest

unfoldable pub annotations_section : List Annotation → Members
unfolding annotations_to_json
annotations_section [] = no_member
annotations_section (a ∷ rest) =
    member (codes "annotations") (object (annotations_to_json (a ∷ rest))) no_member

-- What the guards at the head of the function let through.
pub record Complete : Type 0 where
  pub container_id : Bytes
  pub bundle_path : Bytes
  pub vm : VmCfg
  pub proxy : Proxy

-- `config->…` and `created_timestamp` are there, and the paths are not empty.
unfoldable pub check_complete : Config → Option Complete
check_complete c = do
  container_id ← c.container_id
  bundle_path ← c.bundle_path
  vm ← c.vm
  proxy ← c.proxy
  let blank =
      is_empty container_id
      || is_empty c.runtime_path
      || is_empty c.comms_path
      || is_empty c.procsock_path
  let k : Complete = record {
    container_id = container_id;
    bundle_path = bundle_path;
    vm = vm;
    proxy = proxy;
  }
  if blank then none else some k

-- The members of the document, for a status and a process that have been turned into JSON.
unfoldable pub state_members : Bytes → Config → Complete → Bytes → Members → Bytes → Members
state_members spec_version c k status process created =
    member (codes "ociVersion") (string spec_version) (
      member (codes "id") (string k.container_id) (
        member (codes "pid") (value (int64 (pos c.workload_pid))) (
          member (codes "bundlePath") (string k.bundle_path) (
            member (codes "commsPath") (string c.comms_path) (
              member (codes "processPath") (string c.procsock_path) (
                member (codes "status") (string status) (
                  member (codes "created") (string created) (
                    member (codes "mounts") (array (mounts_to_json c.mounts)) (
                      member (codes "process") (object process) (
                        member (codes "console") (console_json c.console) (
                          member (codes "vm") (object (vm_members k.vm)) (
                            member (codes "proxy") (object (proxy_members k.proxy))
                              (pod_section c.pod (annotations_section c.annotations))))))))))))))

-- CC_OCI_SUPPORTED_SPEC_VERSION of src/oci.h.
abbrev pub supported_spec_version : Bytes
supported_spec_version = codes "1.0.0-rc1"

abbrev pub state_file : Bytes
state_file = codes "state.json"

-- The path that `cc_oci_state_file_get` writes into the config; `none` if there is no runtime path.
unfoldable pub state_file_get : Config → Option Config
state_file_get c =
    if is_empty c.runtime_path
    then none
    else some (record c { state_file_path = fit_path (c.runtime_path ++ (b'/' ∷ state_file)) })

-- What is written for a config whose state file path has been set.
unfoldable pub document : Config → Complete → Bytes → Option Json
document c k created = do
  status ← status_to_str c.status
  process ← process_to_json c.process
  some (object (state_members supported_spec_version c k status process created))

-- Files by path: what a JSON parser makes of their contents, or nothing.
abbrev pub Disk : Type 0
Disk = Bytes → Option Json

abbrev pub write_file : Bytes → Json → Disk → Disk
write_file path doc disk other = if str_eq path other then some doc else disk other

-- The config with its state file path, the files, and the verdict. `writable` is the answer of
-- g_file_set_contents, which replaces the file as a whole or leaves it alone.
unfoldable pub state_file_create : Config → Option Bytes → Bool → Disk → Config × Disk × Bool
unfolding check_complete state_file_get document
state_file_create config none writable disk = (config, disk, false)
state_file_create config (some created) writable disk = elim (check_complete config) [
  | none ↦ (config, disk, false)
  | some k ↦ elim (state_file_get config) [
    | none ↦ (config, disk, false)
    | some c ↦ elim (document c k created) [
      | none ↦ (c, disk, false)
      | some doc ↦
          if writable then (c, write_file c.state_file_path doc disk, true) else (c, disk, false)
    ]
  ]
]
