-- ===== src/StateFile/Read.antt =====
-- `cc_oci_state_file_read` of src/state.c. The files are those that the JSON parser accepts, by path.
use cc_oci_runtime.Prelude.{
  ℕ, Bool, true, false, ◌&&◌, Option, none, some, List, [], ◌∷◌, leb, if◌then◌else◌, Bytes, codes,
  str_eq,
}
use cc_oci_runtime.Container.Types.{created, OciState}
use cc_oci_runtime.Container.Status.{str_to_status}
use cc_oci_runtime.StateFile.Json.{Json, Node, children, data_of, foreach, json_parse}
use cc_oci_runtime.StateFile.Sections.{
  Section, oci_version, id, pid, bundle_path, comms_path, process_path, status, created_at, mounts,
  console, vm, proxy, pod, annotations, Handling, plain, with_value, handle_pid, mount_value,
  console_value, vm_value, proxy_value, pod_value, annotation_value,
}
use cc_oci_runtime.StateFile.ProcessSection.{handle_process}

-- `state_handlers`: the names, and how many subelements each section needs.
unfoldable pub state_handlers : List (Bytes × Section)
state_handlers =
    (codes "ociVersion", oci_version)
    ∷ (codes "id", id)
    ∷ (codes "pid", pid)
    ∷ (codes "bundlePath", bundle_path)
    ∷ (codes "commsPath", comms_path)
    ∷ (codes "processPath", process_path)
    ∷ (codes "status", status)
    ∷ (codes "created", created_at)
    ∷ (codes "mounts", mounts)
    ∷ (codes "console", console)
    ∷ (codes "vm", vm)
    ∷ (codes "proxy", proxy)
    ∷ (codes "pod", pod)
    ∷ (codes "annotations", annotations)
    ∷ []

abbrev pub subelements_needed : Section → ℕ
subelements_needed mounts = 0
subelements_needed console = 0
subelements_needed vm = 6
subelements_needed proxy = 2
subelements_needed pod = 0
subelements_needed annotations = 0
subelements_needed _ = 1

unfoldable pub handle_section : Section → Node → Handling → Handling
handle_section oci_version = plain oci_version (λ s st. record st { oci_version = some s })
handle_section id = plain id (λ s st. record st { id = some s })
handle_section pid = handle_pid
handle_section bundle_path = plain bundle_path (λ s st. record st { bundle_path = some s })
handle_section comms_path = plain comms_path (λ s st. record st { comms_path = some s })
handle_section process_path = plain process_path (λ s st. record st { procsock_path = some s })
handle_section status = plain status (λ s st. record st { status = str_to_status s })
handle_section created_at = plain created_at (λ s st. record st { create_time = some s })
handle_section mounts = with_value mount_value
handle_section console = with_value console_value
handle_section vm = with_value vm_value
handle_section proxy = with_value proxy_value
handle_section pod = with_value pod_value
handle_section annotations = with_value annotation_value

find_handler : Bytes → List (Bytes × Section) → Option Section
find_handler name [] = none
find_handler name ((n, s) ∷ rest) = if str_eq n name then some s else find_handler name rest

-- One section: the handler of its name is run on each of its children.
unfoldable pub handle_state_section : Bytes → Node → Handling → Handling
unfolding find_handler state_handlers
handle_state_section name n h = elim (find_handler name state_handlers) [
  | some s ↦ foreach (handle_section s) (children n) h
  | none ↦ if str_eq name (codes "process") then handle_process n h else h
]

unfoldable pub handle_state_sections : Node → Handling → Handling
handle_state_sections n h = elim (data_of n) [
  | none ↦ h
  | some name ↦ handle_state_section name n h
]

abbrev pub blank_state : OciState
blank_state = record {
  oci_version = none;
  id = none;
  pid = 0;
  bundle_path = none;
  comms_path = none;
  procsock_path = none;
  status = created;
  create_time = none;
  mounts = [];
  annotations = [];
  console = none;
  vm = none;
  proxy = none;
  pod = none;
  process = none;
}

abbrev pub blank_handling : Handling
blank_handling = record {
  state = blank_state;
  vm_cfg = record {
    hypervisor_path = [];
    image_path = [];
    kernel_path = [];
    workload_path = [];
    kernel_params = none;
    pid = 0;
  };
  proxy_cfg = record { agent_ctl_socket = none; agent_tty_socket = none; vm_console_socket = none };
  counts = λ s. 0;
  crashed = false;
}

abbrev pub sections : List Section
sections =
    oci_version ∷ id ∷ pid ∷ bundle_path ∷ comms_path ∷ process_path ∷ status ∷ created_at ∷ mounts
    ∷ console ∷ vm ∷ proxy ∷ pod ∷ annotations ∷ []

-- The second loop over `state_handlers`.
unfoldable pub all_found : (Section → ℕ) → List Section → Bool
all_found counts [] = true
all_found counts (s ∷ ss) = leb (subelements_needed s) (counts s) && all_found counts ss

-- The state, NULL, or a crash on the way.
pub data ReadResult : Type 0 where
  state_read : OciState → ReadResult
  no_state : ReadResult
  crash : ReadResult

unfoldable pub finish_read : Handling → ReadResult
unfolding all_found
finish_read h =
    if h.crashed
    then crash
    else if all_found h.counts sections
    then state_read (record h.state { vm = some h.vm_cfg; proxy = some h.proxy_cfg })
    else no_state

abbrev is_empty : Bytes → Bool
is_empty [] = true
is_empty (_ ∷ _) = false

-- What is made of the document that the parser has found.
unfoldable pub read_document : Bytes → Json → ReadResult
read_document file root =
    finish_read (foreach handle_state_sections (children (json_parse file root)) blank_handling)

unfoldable pub state_file_read : (Bytes → Option Json) → Option Bytes → ReadResult
state_file_read disk none = no_state
state_file_read disk (some file) =
    if is_empty file
    then no_state
    else elim (disk file) [ none ↦ no_state | some root ↦ read_document file root ]
