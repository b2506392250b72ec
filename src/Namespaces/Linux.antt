-- ===== src/Namespaces/Linux.antt =====
-- src/spec_handlers/linux.c: the namespaces of a container's config file.
use cc_oci_runtime.Prelude.{
  Bool, true, false, Option, none, some, List, [], ◌∷◌, ◌++◌, if◌then◌else◌, Bytes, codes, str_eq,
}
use cc_oci_runtime.StateFile.Json.{Node, node, nil, cons, foreach}
use cc_oci_runtime.Namespaces.{ns_unset, ns_invalid, NamespaceCfg, same_namespace, str_to_ns}

-- The variables of the file, with the list of the config.
pub record LinuxSection : Type 0 where
  pub namespaces : List NamespaceCfg
  pub current_ns : Option NamespaceCfg
  pub error_detected : Bool

unfoldable pub save_current_ns : LinuxSection → LinuxSection
save_current_ns l = elim l.current_ns [
  | none ↦ l
  | some ns ↦ record l { namespaces = l.namespaces ++ ns ∷ []; current_ns = none }
]

abbrev pub ns_or_new : Option NamespaceCfg → NamespaceCfg
ns_or_new none = record { kind = ns_unset; path = none }
ns_or_new (some ns) = ns

abbrev pub ns_error : LinuxSection → LinuxSection
ns_error l = record l { current_ns = none; error_detected = true }

abbrev pub keep_ns : NamespaceCfg → LinuxSection → LinuxSection
keep_ns ns l = record l { current_ns = some ns }

-- An empty path is none.
abbrev pub path_of : Option Bytes → Option Bytes → Option Bytes
path_of none old = old
path_of (some []) old = old
path_of (some (c ∷ s)) old = some (c ∷ s)

unfoldable pub ns_member : Bytes → Option Bytes → NamespaceCfg → LinuxSection → LinuxSection
unfolding str_to_ns
ns_member name child ns l =
    if str_eq name (codes "type")
    then (let kind = str_to_ns child in
        if same_namespace kind ns_invalid
        then ns_error l
        else keep_ns (record ns { kind = kind }) l)
    else if str_eq name (codes "path")
    then keep_ns (record ns { path = path_of child ns.path }) l
    else keep_ns ns l

unfoldable pub handle_namespaces_section : Node → LinuxSection → LinuxSection
unfolding save_current_ns ns_member
handle_namespaces_section (node none ns) l = if l.error_detected then l else save_current_ns l
handle_namespaces_section (node (some name) nil) l = l
handle_namespaces_section (node (some name) (cons (node child _) _)) l =
    if l.error_detected then l else ns_member name child (ns_or_new l.current_ns) l

unfoldable pub handle_linux_section : Node → LinuxSection → LinuxSection
unfolding handle_namespaces_section
handle_linux_section (node data' nil) l = l
handle_linux_section (node none (cons n ns)) l = l
handle_linux_section (node (some name) (cons n ns)) l =
    if str_eq name (codes "namespaces") then foreach handle_namespaces_section (cons n ns) l else l

-- The namespaces of the config, and the verdict. `current_ns` starts as NULL.
unfoldable pub linux_handle_section : Node → List NamespaceCfg → List NamespaceCfg × Bool
unfolding handle_linux_section save_current_ns
linux_handle_section (node name members) namespaces =
    let l =
      foreach handle_linux_section members
        (record { namespaces = namespaces; current_ns = none; error_detected = false }) in
    if l.error_detected then (l.namespaces, false) else ((save_current_ns l).namespaces, true)
