-- ===== src/Pods/Annotations.antt =====
-- cc_pod_handle_annotations of src/pod.c, and src/spec_handlers/annotations.c.
use cc_oci_runtime.Prelude.{
  ◌^◌, Bool, true, false, not, Option, none, some, [], ◌∷◌, ◌++◌, if◌then◌else◌, Bytes, codes,
  str_eq, take,
}
use cc_oci_runtime.Container.Types.{Mount, Annotation, Pod, Config, fit_path}
use cc_oci_runtime.StateFile.Json.{Node, node, nil, cons, foreach}

-- MS_BIND, and the destination below the workloads of the pod. A NULL id is printed as (null).
abbrev pub id_text : Option Bytes → Bytes
id_text none = codes "(null)"
id_text (some id) = id

unfoldable pub container_mount : Config → Mount
container_mount config = record {
  flags = 2 ^ 12;
  mnt_fsname = some config.root_path;
  mnt_dir = some (fit_path (b'/' ∷ (id_text config.container_id ++ codes "/rootfs")));
  mnt_type = some (codes "bind");
  mnt_opts = none;
  dest = [];
  ignore_mount = false;
  directory_created = none;
}

unfoldable pub add_container_mount : Config → Config
unfolding container_mount
add_container_mount config = record config { mounts = config.mounts ++ container_mount config ∷ [] }

abbrev pub blank_pod : Pod
blank_pod = record { sandbox = false; sandbox_name = none; sandbox_workloads = [] }

abbrev pub pod_or_new : Option Pod → Pod
pod_or_new none = blank_pod
pod_or_new (some pod) = pod

abbrev pub with_pod : Pod → Config → Config
with_pod pod config = record config { pod = some pod }

-- `prefix` is CC_OCI_RUNTIME_DIR_PREFIX.
abbrev pub workloads_path : Bytes → Bytes → Bytes
workloads_path prefix name = fit_path (prefix ++ (b'/' ∷ (name ++ codes "/workloads")))

abbrev pub is_ocid : Bytes → Bool
is_ocid key = str_eq (take 5 key) (codes "ocid/")

-- The container is the sandbox.
unfoldable pub make_sandbox : Bytes → Pod → Config → Config
unfolding add_container_mount
make_sandbox prefix pod config =
    let c =
      add_container_mount
        (with_pod (record pod { sandbox = true; sandbox_name = config.container_id }) config) in
    with_pod
      (record pod {
        sandbox = true;
        sandbox_name = config.container_id;
        sandbox_workloads = workloads_path prefix (id_text config.container_id);
      })
      c

-- The container is in the pod of the given name.
unfoldable pub join_sandbox : Bytes → Bytes → Pod → Config → Config
unfolding add_container_mount
join_sandbox prefix name pod config = add_container_mount (
    with_pod
      (record pod { sandbox_name = some name; sandbox_workloads = workloads_path prefix name })
      config)

unfoldable pub handle_ocid : Bytes → Bytes → Bytes → Pod → Config → Config
unfolding make_sandbox join_sandbox
handle_ocid prefix key value pod config =
    if str_eq key (codes "ocid/container_type")
    then (if str_eq value (codes "sandbox")
        then make_sandbox prefix pod config
        else if str_eq value (codes "container")
        then with_pod (record pod { sandbox = false }) config
        else with_pod pod config)
    else if str_eq key (codes "ocid/sandbox_name")
    then join_sandbox prefix value pod config
    else with_pod pod config

-- The config, and whether the function has given 0.
unfoldable pub pod_handle_annotations : Bytes → Annotation → Config → Config × Bool
unfolding handle_ocid
pod_handle_annotations prefix annotation config = elim annotation.value [
  | none ↦ (config, false)
  | some value ↦
      if not (is_ocid annotation.key)
      then (config, true)
      else (handle_ocid prefix annotation.key value (pod_or_new config.pod) config, true)
]

abbrev pub value_of : Option Bytes → Option Bytes
value_of none = none
value_of (some []) = none
value_of (some (c ∷ s)) = some (c ∷ s)

abbrev pub prepend : Annotation → Config → Config
prepend a config = record config { annotations = a ∷ config.annotations }

-- A failure of the pod's handler is only logged.
unfoldable pub handle_annotation : Bytes → Node → Config → Config
unfolding pod_handle_annotations
handle_annotation prefix (node none ns) config = config
handle_annotation prefix (node (some key) nil) config = config
handle_annotation prefix (node (some []) (cons n ns)) config = config
handle_annotation prefix (node (some (k ∷ key)) (cons (node value below) ns)) config =
    let a : Annotation = record { key = k ∷ key; value = value_of value } in
    prepend a (pod_handle_annotations prefix a config).0

unfoldable pub annotations_handle_section : Bytes → Node → Config → Config
unfolding handle_annotation
annotations_handle_section prefix (node name nodes) config =
    foreach (handle_annotation prefix) nodes config
