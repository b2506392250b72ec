-- ===== src/Spec/Sections.antt =====
-- cc_oci_process_config of src/oci-config.c, with the handlers of start_spec_handlers of src/oci.c and
-- of stop_spec_handlers of src/command.c, and get_spec_vm_from_cfg_file of src/spec_handler.c.
use cc_oci_runtime.Prelude.{
  Bool, true, false, ◌&&◌, Option, none, some, List, [], ◌∷◌, ◌==◌, if◌then◌else◌, Bytes, codes,
  str_eq,
}
use cc_oci_runtime.Container.Types.{Process, Config}
use cc_oci_runtime.StateFile.Json.{Json, json_parse, Node, Nodes, node, nil, cons, children}
use cc_oci_runtime.StateFile.ProcessSection.{process_handle_section}
use cc_oci_runtime.Mounts.Section.{mounts_handle_section}
use cc_oci_runtime.Namespaces.Linux.{linux_handle_section}
use cc_oci_runtime.Pods.Annotations.{annotations_handle_section}
use cc_oci_runtime.Hooks.{hooks_handle_section}
use cc_oci_runtime.Spec.{
  Spec, SpecSystem, root_handle_section, platform_handle_section, vm_handle_section,
}

-- The handlers, by the sections they are for.
pub data SpecHandler : Type 0 where
  annotations hooks mounts platform process root vm linux : SpecHandler

abbrev pub handler_name : SpecHandler → Bytes
handler_name annotations = codes "annotations"
handler_name hooks = codes "hooks"
handler_name mounts = codes "mounts"
handler_name platform = codes "platform"
handler_name process = codes "process"
handler_name root = codes "root"
handler_name vm = codes "vm"
handler_name linux = codes "linux"

abbrev pub start_spec_handlers : List SpecHandler
start_spec_handlers = annotations ∷ hooks ∷ mounts ∷ platform ∷ process ∷ root ∷ vm ∷ linux ∷ []

abbrev pub stop_spec_handlers : List SpecHandler
stop_spec_handlers = hooks ∷ []

abbrev pub has_items : Option (List Bytes) → Bool
has_items none = false
has_items (some _) = true

abbrev pub is_absolute_path : Bytes → Bool
is_absolute_path [] = false
is_absolute_path (c ∷ s) = c == b'/'

-- The verdict of the handler of the process section.
unfoldable pub process_is_valid : Process → Bool
process_is_valid p = is_absolute_path p.cwd && has_items p.args

abbrev pub with_config : Spec → Config → Spec
with_config s config = record s { config = config }

-- `none` is a crash, as in the handler of the process section.
unfoldable pub handle_section_of : SpecSystem → SpecHandler → Node → Spec → Option (Spec × Bool)
unfolding root_handle_section platform_handle_section vm_handle_section mounts_handle_section
    linux_handle_section annotations_handle_section hooks_handle_section process_handle_section
    process_is_valid
handle_section_of sys annotations n s =
    some (with_config s (annotations_handle_section sys.runtime_dir n s.config), true)
handle_section_of sys hooks n s =
    let r = hooks_handle_section n s.hooks in some (record s { hooks = r.0 }, r.1)
handle_section_of sys mounts n s =
    let r = mounts_handle_section n s.config.mounts in
    some (with_config s (record s.config { mounts = r.0 }), r.1)
handle_section_of sys platform n s = some (platform_handle_section n s)
handle_section_of sys process n s = elim (process_handle_section n s.config.process) [
  | none ↦ none
  | some p ↦ some (with_config s (record s.config { process = p }), process_is_valid p)
]
handle_section_of sys root n s = some (root_handle_section sys n s)
handle_section_of sys vm n s = some (vm_handle_section sys n s)
handle_section_of sys linux n s =
    let r = linux_handle_section n s.namespaces in some (record s { namespaces = r.0 }, r.1)

unfoldable pub find_handler : Bytes → List SpecHandler → Option SpecHandler
find_handler name [] = none
find_handler name (h ∷ hs) =
    let rest = find_handler name hs in if str_eq (handler_name h) name then some h else rest

-- The two members that are not sections.
unfoldable pub plain_member : Bytes → Nodes → Spec → Spec
plain_member name nil s = s
plain_member name (cons (node value below) ns) s =
    if str_eq name (codes "ociVersion")
    then with_config s (record s.config { oci_version = value })
    else if str_eq name (codes "hostname")
    then record s { hostname = value }
    else s

-- What becomes of one member, and of those behind it if its section is accepted.
unfoldable pub process_nodes : SpecSystem → List SpecHandler → Nodes → Spec → Option (Spec × Bool)
unfolding handle_section_of find_handler plain_member
process_nodes sys handlers nil s = some (s, true)
process_nodes sys handlers (cons (node none below) ns) s = process_nodes sys handlers ns s
process_nodes sys handlers (cons (node (some name) below) ns) s =
    let s' = plain_member name below s in
    elim (find_handler name handlers) [
      | none ↦ process_nodes sys handlers ns s'
      | some h ↦ elim (handle_section_of sys h (node (some name) below) s') [
        | none ↦ none
        | some r ↦ elim r.1 [ true ↦ process_nodes sys handlers ns r.0 | false ↦ some (r.0, false) ]
      ]
    ]

unfoldable pub process_config : SpecSystem → List SpecHandler → Node → Spec → Option (Spec × Bool)
unfolding process_nodes
process_config sys handlers tree s = process_nodes sys handlers (children tree) s

unfoldable pub find_node : Bytes → Nodes → Option Node
find_node name nil = none
find_node name (cons (node none below) ns) = find_node name ns
find_node name (cons (node (some key) below) ns) =
    let rest = find_node name ns in if str_eq key name then some (node (some key) below) else rest

-- `filename` is the file that exists, of the two that may hold the machine, with its document, if it
-- can be read. A section that is not there fails in the handler, which is given NULL.
unfoldable pub get_spec_vm : SpecSystem → Bytes → Option Json → Spec → Spec × Bool
unfolding vm_handle_section find_node json_parse
get_spec_vm sys filename document s = elim s.config.vm [
  | some _ ↦ (s, true)
  | none ↦ elim document [
    | none ↦ (s, false)
    | some doc ↦ elim (find_node (codes "vm") (children (json_parse filename doc))) [
      | none ↦ (s, false)
      | some n ↦ vm_handle_section sys n s
    ]
  ]
]
