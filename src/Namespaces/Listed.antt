-- ===== src/Namespaces/Listed.antt =====
-- What the handler makes of a list of namespaces in a config file.
use cc_oci_runtime.Prelude.{
  ℕ, ◌≡◌, refl, sym, ap, ◌∙◌, Bool, true, false, Option, none, some, List, [], ◌∷◌, ◌++◌,
  append_assoc, append-nil, Bytes, codes, str_eq, if◌then◌else◌,
}
use mathlib.Core.Option.{some-injective, none-ne-some}
use cc_oci_runtime.StateFile.Json.{
  object, array, value, text, Members, no_member, member, Elements, no_element, element, Node, node,
  nil, cons, json_string, parse_aux, parse_elements, foreach,
}
use cc_oci_runtime.StateFile.Recall.{section}
use cc_oci_runtime.StateFile.RecallMounts.{foreach-append_nodes, foreach-cons}
use cc_oci_runtime.Namespaces.{
  Namespace, ns_unset, ns_cgroup, ns_ipc, ns_mount, ns_net, ns_pid, ns_user, ns_uts, ns_invalid,
  NamespaceCfg, same_namespace, ns_to_str, str_to_ns,
}
use cc_oci_runtime.Namespaces.Linux.{
  LinuxSection, save_current_ns, ns_error, ns_member, handle_namespaces_section,
  handle_linux_section, linux_handle_section,
}

-- A namespace that a config file can ask for: one with a name, and with a path that is not empty.
pub data Asks : NamespaceCfg → Bytes → Type 0 where
  new_one :
      (kind : Namespace) (name : Bytes)
      → ns_to_str kind ≡ some name
      → Asks (record { kind = kind; path = none }) name
  given :
      (kind : Namespace) (name : Bytes) (c : ℕ) (s : Bytes)
      → ns_to_str kind ≡ some name
      → Asks (record { kind = kind; path = some (c ∷ s) }) name

-- The members by which a config file asks for a namespace.
abbrev pub namespace_members : NamespaceCfg → Bytes → Members
namespace_members ns name = member (codes "type") (value (text name)) (elim ns.path [
  | none ↦ no_member
  | some path ↦ member (codes "path") (value (text path)) no_member
])

-- The list of a config file, with each namespace's name.
pub data Listed : List NamespaceCfg → Elements → Type 0 where
  end : Listed [] no_element
  listed :
      (ns : NamespaceCfg) (name : Bytes) (rest : List NamespaceCfg) (es : Elements)
      → Asks ns name
      → Listed rest es
      → Listed (ns ∷ rest) (element (object (namespace_members ns name)) es)

same_name :
    {kind : Namespace} (this name : Bytes)
    → str_to_ns (some this) ≡ kind
    → some this ≡ some name
    → str_to_ns (some name) ≡ kind
same_name this name e h = ap (λ n. str_to_ns (some n)) (sym (some-injective this name h)) ∙ e

str_to_ns-ns_to_str :
    (kind : Namespace) (name : Bytes) → ns_to_str kind ≡ some name → str_to_ns (some name) ≡ kind
unfolding ns_to_str str_to_ns str_eq
str_to_ns-ns_to_str ns_unset name h = absurd (none-ne-some _ h)
str_to_ns-ns_to_str ns_invalid name h = absurd (none-ne-some _ h)
str_to_ns-ns_to_str ns_cgroup name h = same_name (codes "cgroup") name refl h
str_to_ns-ns_to_str ns_ipc name h = same_name (codes "ipc") name refl h
str_to_ns-ns_to_str ns_mount name h = same_name (codes "mount") name refl h
str_to_ns-ns_to_str ns_net name h = same_name (codes "network") name refl h
str_to_ns-ns_to_str ns_pid name h = same_name (codes "pid") name refl h
str_to_ns-ns_to_str ns_user name h = same_name (codes "user") name refl h
str_to_ns-ns_to_str ns_uts name h = same_name (codes "uts") name refl h

-- A namespace with a name is a valid one.
named-valid :
    (kind : Namespace) (name : Bytes)
    → ns_to_str kind ≡ some name
    → same_namespace kind ns_invalid ≡ false
unfolding ns_to_str
named-valid ns_unset name h = refl
named-valid ns_invalid name h = absurd (none-ne-some _ h)
named-valid ns_cgroup name h = refl
named-valid ns_ipc name h = refl
named-valid ns_mount name h = refl
named-valid ns_net name h = refl
named-valid ns_pid name h = refl
named-valid ns_user name h = refl
named-valid ns_uts name h = refl

-- A walk over the list, with no error so far.
abbrev walking : List NamespaceCfg → Option NamespaceCfg → LinuxSection
walking done current = record { namespaces = done; current_ns = current; error_detected = false }

abbrev saves : List NamespaceCfg → Option NamespaceCfg → List NamespaceCfg
saves done none = done
saves done (some ns) = done ++ ns ∷ []

type_member :
    (kind : Namespace) (name : Bytes) (ns : NamespaceCfg) (l : LinuxSection)
    → ns_to_str kind ≡ some name
    → ns_member (codes "type") (some name) ns l
      ≡ record l { current_ns = some (record ns { kind = kind }) }
unfolding ns_member str_eq
type_member kind name ns l h =
    ap
      (λ kind.
        if same_namespace kind ns_invalid
        then ns_error l
        else record l { current_ns = some (record ns { kind = kind }) })
      (str_to_ns-ns_to_str kind name h)
    ∙ ap (λ b. if b then ns_error l else record l { current_ns = some (record ns { kind = kind }) })
        (named-valid kind name h)

abbrev type_node : Bytes → Node
type_node name = node (some (codes "type")) (cons (node (some name) nil) nil)

abbrev path_node : Bytes → Node
path_node path = node (some (codes "path")) (cons (node (some path) nil) nil)

path_step :
    (kind : Namespace) (c : ℕ) (s : Bytes) (done : List NamespaceCfg)
    → foreach handle_namespaces_section
        (cons (path_node (c ∷ s)) nil)
        (walking done (some (record { kind = kind; path = none })))
      ≡ walking done (some (record { kind = kind; path = some (c ∷ s) }))
unfolding foreach ns_member str_eq handle_namespaces_section
path_step kind c s done = refl

foreach-given :
    (kind : Namespace) (name : Bytes) (c : ℕ) (s : Bytes) (done : List NamespaceCfg)
    → ns_to_str kind ≡ some name
    → foreach handle_namespaces_section
        (cons (type_node name) (cons (path_node (c ∷ s)) nil))
        (walking done none)
      ≡ walking done (some (record { kind = kind; path = some (c ∷ s) }))
unfolding handle_namespaces_section
foreach-given kind name c s done h =
    foreach-cons handle_namespaces_section (type_node name) (cons (path_node (c ∷ s)) nil)
      (type_member kind name (record { kind = ns_unset; path = none }) (walking done none) h)
      (path_step kind c s done)

-- One namespace of the list.
foreach-namespace :
    (ns : NamespaceCfg) (name : Bytes) (done : List NamespaceCfg) (current : Option NamespaceCfg)
    → Asks ns name
    → foreach handle_namespaces_section
        (parse_aux (object (namespace_members ns name)) true)
        (walking done current)
      ≡ walking (saves done current) (some ns)
unfolding foreach handle_namespaces_section parse_aux json_string save_current_ns
foreach-namespace _ name done none (new_one kind n h) = type_member kind n _ (walking done none) h
foreach-namespace _ name done (some old) (new_one kind n h) =
    type_member kind n _ (walking (done ++ old ∷ []) none) h
foreach-namespace _ name done none (given kind n c s h) = foreach-given kind n c s done h
foreach-namespace _ name done (some old) (given kind n c s h) =
    foreach-given kind n c s (done ++ old ∷ []) h

-- How a walk ends that has met no error.
abbrev Reads : List NamespaceCfg → LinuxSection → Type 0
Reads done l = (l.error_detected ≡ false) × ((save_current_ns l).namespaces ≡ done)

foreach-Listed :
    (nss : List NamespaceCfg) (es : Elements) (done : List NamespaceCfg)
    (current : Option NamespaceCfg)
    → Listed nss es
    → Reads
        (saves done current ++ nss)
        (foreach handle_namespaces_section (parse_elements es) (walking done current))
unfolding foreach parse_elements save_current_ns
foreach-Listed _ _ done none end = (refl, sym (append-nil done))
foreach-Listed _ _ done (some ns) end = (refl, sym (append-nil (done ++ ns ∷ [])))
foreach-Listed _ _ done current (listed ns name rest es a t) =
    let walked =
      foreach-append_nodes handle_namespaces_section
        (parse_aux (object (namespace_members ns name)) true) (parse_elements es)
        (walking done current)
      ∙ ap (foreach handle_namespaces_section (parse_elements es))
          (foreach-namespace ns name done current a) in
    let (well, all) = foreach-Listed rest es (saves done current) (some ns) t in
    (
      ap (λ l. l.error_detected) walked ∙ well,
      ap (λ l. (save_current_ns l).namespaces) walked
          ∙ all
          ∙ append_assoc (saves done current) (ns ∷ []) rest,
    )

read_result :
    (done : List NamespaceCfg) (l : LinuxSection)
    → Reads done l
    → Path
        (List NamespaceCfg × Bool)
        (if l.error_detected then (l.namespaces, false) else ((save_current_ns l).namespaces, true))
        (done, true)
read_result done l (well, all) =
    ap (λ b. if b then (l.namespaces, false) else ((save_current_ns l).namespaces, true)) well
    ∙ ap (λ nss. (nss, true)) all

-- The namespaces that the config file asks for are added to the config, in order, each with its type
-- and its path, if all of them have known types and no path is empty.
pub linux_handle_section-Listed :
    (nss old : List NamespaceCfg) (es : Elements)
    → Listed nss es
    → linux_handle_section
        (section (codes "linux") (object (member (codes "namespaces") (array es) no_member)))
        old
      ≡ (old ++ nss, true)
unfolding linux_handle_section handle_linux_section parse_aux parse_elements foreach save_current_ns
    str_eq
linux_handle_section-Listed nss old es end = ap (λ nss. (nss, true)) (sym (append-nil old))
linux_handle_section-Listed nss old es (listed ns name rest els a t) =
    read_result (old ++ nss)
      (foreach handle_namespaces_section (parse_elements es) (walking old none))
      (foreach-Listed nss es old none (listed ns name rest els a t))
