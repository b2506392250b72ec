-- ===== src/StateFile/Sections.antt =====
-- The handlers of src/state.c, one for each section of the state file but the process.
use cc_oci_runtime.Prelude.{
  ℕ, suc, ◌-◌, ◌%◌, ◌^◌, Bool, false, Option, none, some, List, [], ◌∷◌, ◌++◌, ◌==◌, if◌then◌else◌,
  ℤ, pos, negsuc, Bytes, codes, str_eq, atol, has_number,
}
use cc_oci_runtime.Container.Types.{VmCfg, Proxy, Pod, Mount, OciState, fit_path}
use cc_oci_runtime.StateFile.Json.{Node, data_of, first_data}

-- The sections that `state_handlers` lists.
pub data Section : Type 0 where
  oci_version id pid bundle_path comms_path process_path status created_at mounts console : Section
  vm proxy pod annotations : Section

abbrev pub section_number : Section → ℕ
section_number oci_version = 0
section_number id = 1
section_number pid = 2
section_number bundle_path = 3
section_number comms_path = 4
section_number process_path = 5
section_number status = 6
section_number created_at = 7
section_number mounts = 8
section_number console = 9
section_number vm = 10
section_number proxy = 11
section_number pod = 12
section_number annotations = 13

abbrev pub same_section : Section → Section → Bool
same_section s t = section_number s == section_number t

-- What the handlers fill in. `vm` and `proxy` are the objects that are allocated before the handlers
-- run, and `counts` the `subelements_count` of each section. `crashed`: a NULL pointer was given to
-- atoi.
pub record Handling : Type 0 where
  pub state : OciState
  pub vm_cfg : VmCfg
  pub proxy_cfg : Proxy
  pub counts : Section → ℕ
  pub crashed : Bool

abbrev pub bump : Section → (Section → ℕ) → Section → ℕ
bump s c t = if same_section s t then suc (c t) else c t

-- `(*(data->subelements_count))++`.
abbrev pub counted : Section → Handling → Handling
counted s h = record h { counts = bump s h.counts }

-- (GPid) of a long integer, as a 32-bit pattern.
abbrev pub to_pid : ℤ → ℕ
to_pid (pos n) = n % 2 ^ 32
to_pid (negsuc n) = 2 ^ 32 - 1 - n % 2 ^ 32

-- The sections with one value: what is kept of its text.
abbrev pub plain : Section → (Bytes → OciState → OciState) → Node → Handling → Handling
plain s keep n h = elim (data_of n) [
  | none ↦ h
  | some text ↦ counted s (record h { state = keep text h.state })
]

-- The handlers that want a name with a value below it; other nodes are passed over.
abbrev pub with_value : (Bytes → Bytes → Handling → Handling) → Node → Handling → Handling
with_value f n h = elim (data_of n) [
  | none ↦ h
  | some name ↦ elim (first_data n) [ none ↦ h | some text ↦ f name text h ]
]

unfoldable pub handle_pid : Node → Handling → Handling
handle_pid n h = elim (data_of n) [
  | none ↦ h
  | some text ↦
      let h' = record h { state = record h.state { pid = to_pid (atol text) } } in
      if has_number text then counted pid h' else h'
]

unfoldable pub set_last_created : Bytes → List Mount → List Mount
set_last_created dir [] = []
set_last_created dir (m ∷ []) = record m { directory_created = some dir } ∷ []
set_last_created dir (m ∷ n ∷ ms) = m ∷ set_last_created dir (n ∷ ms)

abbrev pub new_mount : Bytes → Mount
new_mount dest = record {
  flags = 0;
  mnt_fsname = none;
  mnt_dir = none;
  mnt_type = none;
  mnt_opts = none;
  dest = fit_path dest;
  ignore_mount = false;
  directory_created = none;
}

unfoldable pub mount_value : Bytes → Bytes → Handling → Handling
unfolding set_last_created
mount_value name text h =
    if str_eq name (codes "destination")
    then record h { state = record h.state { mounts = h.state.mounts ++ new_mount text ∷ [] } }
    else if str_eq name (codes "directory_created")
    then record h { state = record h.state { mounts = set_last_created text h.state.mounts } }
    else h

unfoldable pub console_value : Bytes → Bytes → Handling → Handling
console_value name text h =
    if str_eq name (codes "path")
    then counted console (record h { state = record h.state { console = some text } })
    else h

unfoldable pub vm_value : Bytes → Bytes → Handling → Handling
vm_value name text h =
    if str_eq name (codes "workload_path")
    then counted vm (record h { vm_cfg = record h.vm_cfg { workload_path = fit_path text } })
    else if str_eq name (codes "hypervisor_path")
    then counted vm (record h { vm_cfg = record h.vm_cfg { hypervisor_path = fit_path text } })
    else if str_eq name (codes "kernel_path")
    then counted vm (record h { vm_cfg = record h.vm_cfg { kernel_path = fit_path text } })
    else if str_eq name (codes "image_path")
    then counted vm (record h { vm_cfg = record h.vm_cfg { image_path = fit_path text } })
    else if str_eq name (codes "kernel_params")
    then counted vm (record h { vm_cfg = record h.vm_cfg { kernel_params = some text } })
    else if str_eq name (codes "pid")
    then (let h' = record h { vm_cfg = record h.vm_cfg { pid = to_pid (atol text) } } in
        if has_number text then counted vm h' else h')
    else h

unfoldable pub proxy_value : Bytes → Bytes → Handling → Handling
proxy_value name text h =
    if str_eq name (codes "ctlSocket")
    then counted proxy
        (record h { proxy_cfg = record h.proxy_cfg { agent_ctl_socket = some text } })
    else if str_eq name (codes "ioSocket")
    then counted proxy
        (record h { proxy_cfg = record h.proxy_cfg { agent_tty_socket = some text } })
    else if str_eq name (codes "consoleSocket")
    then counted proxy
        (record h { proxy_cfg = record h.proxy_cfg { vm_console_socket = some text } })
    else h

-- The pod that is there, or the blank one that is allocated.
abbrev pub pod_or_new : Option Pod → Pod
pod_or_new none = record { sandbox = false; sandbox_name = none; sandbox_workloads = [] }
pod_or_new (some p) = p

unfoldable pub pod_value : Bytes → Bytes → Handling → Handling
pod_value name text h =
    let p = pod_or_new h.state.pod in
    if str_eq name (codes "sandbox")
    then counted pod (record h {
      state = record h.state { pod = some (record p { sandbox = str_eq text (codes "true") }) };
    })
    else if str_eq name (codes "sandbox_name")
    then counted pod
        (record h { state = record h.state { pod = some (record p { sandbox_name = some text }) } })
    else record h { state = record h.state { pod = some p } }

unfoldable pub annotation_value : Bytes → Bytes → Handling → Handling
annotation_value name text h = record h {
  state = record h.state {
    annotations = (record { key = name; value = some text }) ∷ h.state.annotations;
  };
}
