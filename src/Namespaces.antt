-- ===== src/Namespaces.antt =====
-- src/namespace.c: the names of namespaces, and joining or creating those of a container. The answers
-- of the system are arguments; what it has done is recorded in order.
pub mod Linux
pub mod Listed
pub mod Joined
use cc_oci_runtime.Prelude.{
  ℕ, Bool, true, false, not, ◌||◌, Option, none, some, List, [], ◌∷◌, ◌==◌, if◌then◌else◌, Bytes,
  codes, str_eq,
}

-- enum oci_namespace. `ns_unset` is the 0 that g_new0 leaves, which is none of the source's values.
pub data Namespace : Type 0 where
  ns_unset ns_cgroup ns_ipc ns_mount ns_net ns_pid ns_user ns_uts ns_invalid : Namespace

-- Numbers that tell the values apart: CLONE_NEW* of the Linux kernel in units of 2^17, with 2 for -1.
abbrev pub namespace_number : Namespace → ℕ
namespace_number ns_unset = 0
namespace_number ns_invalid = 2
namespace_number ns_mount = 1
namespace_number ns_cgroup = 256
namespace_number ns_uts = 512
namespace_number ns_ipc = 1024
namespace_number ns_user = 2048
namespace_number ns_pid = 4096
namespace_number ns_net = 8192

abbrev pub same_namespace : Namespace → Namespace → Bool
same_namespace m n = namespace_number m == namespace_number n

-- struct oci_cfg_namespace.
pub record NamespaceCfg : Type 0 where
  pub kind : Namespace
  pub path : Option Bytes

-- The entries above the terminator.
unfoldable pub oci_ns_map : List (Namespace × Bytes)
oci_ns_map =
    (ns_cgroup, codes "cgroup")
    ∷ (ns_ipc, codes "ipc")
    ∷ (ns_mount, codes "mount")
    ∷ (ns_net, codes "network")
    ∷ (ns_pid, codes "pid")
    ∷ (ns_user, codes "user")
    ∷ (ns_uts, codes "uts")
    ∷ []

find_ns_name : Namespace → List (Namespace × Bytes) → Option Bytes
find_ns_name ns [] = none
find_ns_name ns ((num, name) ∷ rest) =
    if same_namespace num ns then some name else find_ns_name ns rest

unfoldable pub ns_to_str : Namespace → Option Bytes
unfolding find_ns_name oci_ns_map
ns_to_str ns = find_ns_name ns oci_ns_map

find_ns : Bytes → List (Namespace × Bytes) → Namespace
find_ns str [] = ns_invalid
find_ns str ((num, name) ∷ rest) = if str_eq str name then num else find_ns str rest

abbrev pub is_blank : Bytes → Bool
is_blank [] = true
is_blank (_ ∷ _) = false

unfoldable pub str_to_ns : Option Bytes → Namespace
unfolding find_ns oci_ns_map
str_to_ns none = ns_invalid
str_to_ns (some str) = if is_blank str then ns_invalid else find_ns str oci_ns_map

-- What has succeeded.
pub data NsCall : Type 0 where
  joined : Bytes → Namespace → NsCall
  unshared : Namespace → NsCall

-- Whether open, setns and unshare succeed.
pub record NsAnswers : Type 0 where
  pub opens : Bytes → Bool
  pub joins : Bytes → Namespace → Bool
  pub unshares : Namespace → Bool

abbrev pub ns_enter : NsAnswers → NamespaceCfg → Option NsCall
ns_enter a ns = elim ns.path [
  | some path ↦
      if not (a.opens path)
      then none
      else if a.joins path ns.kind
      then some (joined path ns.kind)
      else none
  | none ↦ if a.unshares ns.kind then some (unshared ns.kind) else none
]

abbrev pub is_supported : Namespace → Bool
is_supported kind = same_namespace kind ns_net || same_namespace kind ns_mount

-- An invalid namespace is passed over like the others that are not supported.
unfoldable pub ns_setup : NsAnswers → List NamespaceCfg → List NsCall × Bool
ns_setup a [] = ([], true)
ns_setup a (ns ∷ rest) =
    let later = ns_setup a rest in
    if same_namespace ns.kind ns_invalid
    then later
    else if not (is_supported ns.kind)
    then later
    else elim (ns_enter a ns) [ none ↦ ([], false) | some call ↦ (call ∷ later.0, later.1) ]
