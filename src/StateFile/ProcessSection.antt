-- ===== src/StateFile/ProcessSection.antt =====
-- The handler of the process section, which is that of src/spec_handlers/process.c.
use cc_oci_runtime.Prelude.{
  Bool, true, false, Option, none, some, List, [], ◌∷◌, if◌then◌else◌, ℤ, pos, negsuc, to_int32,
  Bytes, codes, str_eq, atol,
}
use cc_oci_runtime.Container.Types.{Process, fit_path}
use cc_oci_runtime.StateFile.Json.{
  Node, node, Nodes, nil, cons, children, data_of, first_data, foreach,
}
use cc_oci_runtime.StateFile.Sections.{Handling, to_pid}

-- node_to_strv: a vector ends at its first NULL.
unfoldable pub node_to_strv : Nodes → List Bytes
node_to_strv nil = []
node_to_strv (cons (node none _) ns) = []
node_to_strv (cons (node (some text) _) ns) = text ∷ node_to_strv ns

abbrev is_nil : Nodes → Bool
is_nil nil = true
is_nil (cons _ _) = false

-- atoi on the data of the first child, which is undefined if there is none.
abbrev atoi_child : Node → (ℤ → Process → Process) → Process → Option Process
atoi_child n keep p = elim (first_data n) [
  | none ↦ none
  | some text ↦ some (keep (to_int32 (atol text)) p)
]

abbrev text_is : Option Bytes → Bytes → Bool
text_is none s = false
text_is (some t) s = str_eq t s

-- What "%s" prints for a NULL pointer in the C library of GNU.
abbrev print_text : Option Bytes → Bytes
print_text none = codes "(null)"
print_text (some s) = s

unfoldable pub handle_user_section : Node → Option Process → Option Process
handle_user_section n none = none
handle_user_section n (some p) =
    if text_is (data_of n) (codes "uid")
    then atoi_child n (λ z q. record q { uid = to_pid z }) p
    else if text_is (data_of n) (codes "gid")
    then atoi_child n (λ z q. record q { gid = to_pid z }) p
    else some p

unfoldable pub handle_process_member : Node → Option Process → Option Process
unfolding node_to_strv handle_user_section foreach
handle_process_member n none = none
handle_process_member n (some p) =
    if is_nil (children n)
    then some p
    else if text_is (data_of n) (codes "cwd")
    then some (record p { cwd = fit_path (print_text (first_data n)) })
    else if text_is (data_of n) (codes "args")
    then some (record p { args = some (node_to_strv (children n)) })
    else if text_is (data_of n) (codes "env")
    then some (record p { env = some (node_to_strv (children n)) })
    else if text_is (data_of n) (codes "terminal")
    then some (record p { terminal = text_is (first_data n) (codes "true") })
    else if text_is (data_of n) (codes "user")
    then foreach handle_user_section (children n) (some p)
    else if text_is (data_of n) (codes "stdio_stream")
    then atoi_child n (λ z q. record q { stdio_stream = z }) p
    else if text_is (data_of n) (codes "stderr_stream")
    then atoi_child n (λ z q. record q { stderr_stream = z }) p
    else some p

-- The process that the section describes; the verdict of the handler is not used by the caller.
unfoldable pub process_handle_section : Node → Process → Option Process
unfolding handle_process_member foreach
process_handle_section n p =
    foreach handle_process_member (children n)
      (some (record p { stdio_stream = negsuc 0; stderr_stream = negsuc 0 }))

abbrev pub blank_process : Process
blank_process = record {
  args = none;
  cwd = [];
  env = none;
  terminal = false;
  uid = 0;
  gid = 0;
  stdio_stream = pos 0;
  stderr_stream = pos 0;
}

unfoldable pub handle_process : Node → Handling → Handling
unfolding process_handle_section
handle_process n h = elim (process_handle_section n blank_process) [
  | none ↦ record h { crashed = true }
  | some p ↦ record h { state = record h.state { process = some p } }
]
