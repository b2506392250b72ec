-- ===== src/Listing.antt =====
-- cc_oci_list of src/oci.c, with cc_oci_list_vm, cc_oci_vm_get_state and cc_oci_update_options, and
-- src/commands/list.c. The answers of the file system and of kill (2) are arguments.
pub mod Aligned
use cc_oci_runtime.Prelude.{
  ℕ, zero, suc, Bool, true, false, Option, none, some, List, [], ◌∷◌, ◌++◌, ltb, ◌==◌, take, length,
  not, if◌then◌else◌, pos, Bytes, codes, str_eq, decimal,
}
use cc_oci_runtime.Container.Types.{VmCfg, Config, OciState, stopped}
use cc_oci_runtime.Container.Status.{status_to_str, status_length}
use cc_oci_runtime.StateFile.Json.{
  Json, object, array, value, text, int64, null, Members, no_member, member, Elements, no_element,
  element,
}
use cc_oci_runtime.StateFile.Read.{ReadResult, state_read, no_state, crash, state_file_read}
use cc_oci_runtime.StateFile.Write.{Disk, state_file_get}
use cc_oci_runtime.Lifecycle.Runtime.{runtime_path_get}
use cc_oci_runtime.Lifecycle.Stop.{vm_running}
use cc_oci_runtime.Proxy.Request.{string_or_null}

-- The widths of struct format_options, and `status_max` of cc_oci_update_options. The length of a
-- text fits an int.
pub record Widths : Type 0 where
  pub status_max : ℕ
  pub id : ℕ
  pub pid : ℕ
  pub status : ℕ
  pub bundle : ℕ
  pub created : ℕ
  pub hypervisor : ℕ
  pub image : ℕ
  pub kernel : ℕ

abbrev pub no_widths : Widths
no_widths = record {
  status_max = 0;
  id = 0;
  pid = 0;
  status = 0;
  bundle = 0;
  created = 0;
  hypervisor = 0;
  image = 0;
  kernel = 0;
}

-- CC_OCI_MAX.
unfoldable pub larger : ℕ → ℕ → ℕ
larger a b = if ltb b a then a else b

-- g_string_assign, which leaves the string as it is for NULL.
abbrev pub assign : Bytes → Option Bytes → Bytes
assign old none = old
assign old (some s) = s

unfoldable pub update_options : OciState → VmCfg → Widths → Widths
unfolding larger
update_options state vm w =
    let str : Bytes = assign (decimal state.pid) state.bundle_path in
    record {
      status_max = if w.status_max == 0 then status_length else w.status_max;
      id = larger w.id (length (assign [] state.id));
      pid = larger (larger w.pid (length (decimal state.pid))) 3;
      status = if w.status_max == 0 then status_length else w.status;
      bundle = larger w.bundle (length str);
      created = larger w.created (length (assign str state.create_time));
      hypervisor = larger w.hypervisor (length vm.hypervisor_path);
      image = larger w.image (length vm.image_path);
      kernel = larger w.kernel (length vm.kernel_path);
    }

-- The widths for all states; a state without a machine is an assertion that fails.
unfoldable pub update_all : List OciState → Widths → Option Widths
unfolding update_options
update_all [] w = some w
update_all (state ∷ states) w = elim state.vm [
  | none ↦ none
  | some vm ↦ update_all states (update_options state vm w)
]

unfoldable pub spaces : ℕ → Bytes
spaces zero = []
spaces (suc n) = b' ' ∷ spaces n

-- "%-*s".
unfoldable pub padded : ℕ → Bytes → Bytes
unfolding spaces
padded n [] = spaces n
padded zero (c ∷ s) = c ∷ s
padded (suc n) (c ∷ s) = c ∷ padded n s

abbrev pub shown : Option Bytes → Bytes
shown none = codes "(null)"
shown (some s) = s

-- "%-*.*s" of "0", or "%-*.u".
abbrev pub pid_text : ℕ → ℕ → Bytes
pid_text width pid = if pid == 0 then take width (codes "0") else decimal pid

-- `found` is what kill (2) says of a pid.
unfoldable pub shown_status : (ℕ → Bool) → OciState → Option Bytes
unfolding vm_running status_to_str
shown_status found state =
    let there : Bool = elim state.vm [ none ↦ false | some vm ↦ found vm.pid ] in
    if vm_running state.vm there then status_to_str state.status else status_to_str stopped

abbrev pub machine_cells : Bool → Widths → Bytes → Bytes → Bytes → List Bytes
machine_cells show_all w hypervisor kernel image =
    if show_all
    then padded w.hypervisor hypervisor ∷ padded w.kernel kernel ∷ padded w.image image ∷ []
    else []

unfoldable pub cells : Bool → (ℕ → Bool) → Widths → OciState → VmCfg → List Bytes
unfolding padded shown_status
cells show_all found w state vm =
    padded w.id (shown state.id)
    ∷ padded w.pid (pid_text w.pid state.pid)
    ∷ padded w.status (shown (shown_status found state))
    ∷ padded w.bundle (shown state.bundle_path)
    ∷ padded w.created (shown state.create_time)
    ∷ machine_cells show_all w vm.hypervisor_path vm.kernel_path vm.image_path

-- Cells with a space between, and a newline.
unfoldable pub line : List Bytes → Bytes
line [] = codes "\n"
line (cell ∷ []) = cell ++ codes "\n"
line (cell ∷ next ∷ more) = cell ++ (b' ' ∷ line (next ∷ more))

unfoldable pub header : Bool → Widths → Bytes
unfolding padded line
header show_all w = line (
    padded w.id (codes "ID")
    ∷ padded w.pid (codes "PID")
    ∷ padded w.status (codes "STATUS")
    ∷ padded w.bundle (codes "BUNDLE")
    ∷ padded w.created (codes "CREATED")
    ∷ machine_cells show_all w (codes "HYPERVISOR") (codes "KERNEL") (codes "IMAGE"))

unfoldable pub list_vms : Bool → (ℕ → Bool) → Widths → List OciState → Option Bytes
unfolding cells line
list_vms show_all found w [] = some []
list_vms show_all found w (state ∷ states) = elim state.vm [
  | none ↦ none
  | some vm ↦ elim (list_vms show_all found w states) [
    | none ↦ none
    | some rest ↦ some (line (cells show_all found w state vm) ++ rest)
  ]
]

unfoldable pub list_table : Bool → (ℕ → Bool) → List OciState → Option Bytes
unfolding update_all header list_vms
list_table show_all found states = elim (update_all states no_widths) [
  | none ↦ none
  | some w ↦ elim (list_vms show_all found w states) [
    | none ↦ none
    | some rows ↦ some (header show_all w ++ rows)
  ]
]

abbrev pub machine_members : Option VmCfg → Option Members
machine_members none = none
machine_members (some vm) = some (
    member (codes "hypervisor") (value (text vm.hypervisor_path)) (
      member (codes "kernel") (value (text vm.kernel_path))
        (member (codes "image") (value (text vm.image_path)) no_member)))

-- The members of a state; `none` is a crash, for want of a machine that is to be shown.
unfoldable pub vm_members_json : Bool → (ℕ → Bool) → OciState → Option Members
unfolding shown_status
vm_members_json show_all found state =
    elim (if show_all then machine_members state.vm else some no_member) [
      | none ↦ none
      | some more ↦ some (
          member (codes "id") (string_or_null state.id) (
            member (codes "pid") (value (int64 (pos state.pid))) (
              member (codes "status") (string_or_null (shown_status found state)) (
                member (codes "bundle") (string_or_null state.bundle_path)
                  (member (codes "created") (string_or_null state.create_time) more)))))
    ]

unfoldable pub vms_json : Bool → (ℕ → Bool) → List OciState → Option Elements
unfolding vm_members_json
vms_json show_all found [] = some no_element
vms_json show_all found (state ∷ states) = elim (vm_members_json show_all found state) [
  | none ↦ none
  | some m ↦ elim (vms_json show_all found states) [
    | none ↦ none
    | some rest ↦ some (element (object m) rest)
  ]
]

-- What is printed: text, or a document.
pub data Printed : Type 0 where
  nothing : Printed
  printed : Bytes → Printed
  document_printed : Json → Printed

abbrev pub as_text : Option Bytes → Option (Printed × Bool)
as_text none = none
as_text (some s) = some (printed s, true)

abbrev pub as_document : Option Elements → Option (Printed × Bool)
as_document none = none
as_document (some es) = some (document_printed (array es), true)

unfoldable pub list_json : Bool → (ℕ → Bool) → List OciState → Option (Printed × Bool)
unfolding vms_json
list_json show_all found [] = some (printed (codes "null"), true)
list_json show_all found (state ∷ states) = as_document (vms_json show_all found (state ∷ states))

-- `blank` is the config of cc_oci_config_create.
unfoldable pub vm_get_state : Config → Bytes → Disk → Bytes → Bytes → ReadResult
unfolding runtime_path_get state_file_get state_file_read
vm_get_state blank prefix disk root_dir name =
    elim (runtime_path_get prefix
      (record blank { container_id = some name; root_dir = some root_dir })) [
        | none ↦ no_state
        | some c ↦ elim (state_file_get c) [
          | none ↦ no_state
          | some c' ↦ state_file_read disk (some c'.state_file_path)
        ]
      ]

-- The entries of the directory, with whether each is one. `none` is a crash of a reader.
unfoldable pub read_states :
    Config → Bytes → Disk → Bytes → List (Bytes × Bool) → Option (List OciState)
unfolding vm_get_state
read_states blank prefix disk root_dir [] = some []
read_states blank prefix disk root_dir ((name, is_dir) ∷ names) =
    let rest = read_states blank prefix disk root_dir names in
    if not is_dir then rest else elim (vm_get_state blank prefix disk root_dir name) [
      | no_state ↦ rest
      | crash ↦ none
      | state_read state ↦ elim rest [ none ↦ none | some states ↦ some (state ∷ states) ]
    ]

abbrev pub list_states : Bool → Bool → (ℕ → Bool) → Option (List OciState) → Option (Printed × Bool)
list_states use_json show_all found none = none
list_states use_json show_all found (some states) =
    if use_json then list_json show_all found states else as_text (list_table show_all found states)

-- `dir` has the entries of the directory, if it can be opened. `none` is a crash.
unfoldable pub oci_list :
    Config
    → Bytes
    → Disk
    → Option (List (Bytes × Bool))
    → (ℕ → Bool)
    → Config
    → Bytes
    → Bool
    → Option (Printed × Bool)
unfolding read_states list_json list_table
oci_list blank prefix disk dir found config format show_all =
    let dirname : Bytes = elim config.root_dir [ none ↦ prefix | some root_dir ↦ root_dir ] in
    let states : Option (List OciState) = elim dir [
      | none ↦ some []
      | some names ↦ read_states blank prefix disk dirname names
    ] in
    if str_eq format (codes "json")
    then list_states true show_all found states
    else if str_eq format (codes "table")
    then list_states false show_all found states
    else some (nothing, false)

unfoldable pub handler_list :
    Config
    → Bytes
    → Disk
    → Option (List (Bytes × Bool))
    → (ℕ → Bool)
    → Config
    → Option Bytes
    → Bool
    → Option (Printed × Bool)
unfolding oci_list
handler_list blank prefix disk dir found config format show_all =
    oci_list blank prefix disk dir found config (elim format [ none ↦ codes "table" | some f ↦ f ])
      show_all
