-- ===== src/StateFile/RecallProcess.antt =====
-- What the handlers make of the process that `cc_oci_state_file_create` writes.
use cc_oci_runtime.Prelude.{
  suc, ◌^◌, ◌<◌, ◌≡◌, refl, ap, Bool, true, false, Option, none, some, List, [], ◌∷◌, ℤ, pos,
  negsuc, to_int32, to_int32_pos, Bytes, codes, str_eq, atol, digits_from-decimal, atol-decimal,
  arith, skip_space, strip_sign,
}
use cc_oci_runtime.Container.Types.{Process}
use cc_oci_runtime.StateFile.Json.{
  no_member, Node, text, value, int64, boolean, object, array, leaf, show_int, json_string,
  parse_aux, parse_elements, foreach,
}
use cc_oci_runtime.StateFile.Sections.{Handling}
use cc_oci_runtime.StateFile.ProcessSection.{
  node_to_strv, handle_process_member, process_handle_section, blank_process, handle_process,
  handle_user_section,
}
use cc_oci_runtime.StateFile.Read.{handle_state_section, handle_state_sections}
use cc_oci_runtime.StateFile.Write.{strings, vector, process_members}
use cc_oci_runtime.StateFile.Recall.{section, FitsPath, fit_path_lem}
use cc_oci_runtime.StateFile.RecallMounts.{foreach-cons, foreach-nil}

abbrev pub IsInt32 : ℤ → Type 0
IsInt32 (pos n) = n < 2 ^ 31
IsInt32 (negsuc n) = n < 2 ^ 31

pub to_int32-show_int : (z : ℤ) → IsInt32 z → to_int32 (atol (show_int z)) ≡ z
unfolding show_int atol skip_space strip_sign
to_int32-show_int (pos n) h = rw (atol-decimal n (omega arith)) (to_int32_pos n h)
to_int32-show_int (negsuc n) h = rw (digits_from-decimal (suc n)) (ground arith)

-- A vector that is empty is left out.
abbrev pub kept_vector : List Bytes → Option (List Bytes)
kept_vector [] = none
kept_vector (s ∷ ss) = some (s ∷ ss)

-- The process as it is read back: the ids of the user are lost, and so is an empty vector.
abbrev pub reread_process : Process → List Bytes → Process
reread_process p args = record {
  args = kept_vector args;
  cwd = p.cwd;
  env = kept_vector (vector p.env);
  terminal = p.terminal;
  uid = 0;
  gid = 0;
  stdio_stream = p.stdio_stream;
  stderr_stream = p.stderr_stream;
}

pub node_to_strv-strings : (ss : List Bytes) → node_to_strv (parse_elements (strings ss)) ≡ ss
unfolding node_to_strv parse_elements strings json_string
node_to_strv-strings [] = refl
node_to_strv-strings (s ∷ ss) = ap (◌∷◌ s) (node_to_strv-strings ss)

abbrev args_node : List Bytes → Node
args_node ss = section (codes "args") (array (strings ss))

abbrev env_node : List Bytes → Node
env_node ss = section (codes "env") (array (strings ss))

args_member :
    (ss : List Bytes) (p : Process)
    → p.args ≡ none
    → handle_process_member (args_node ss) (some p) ≡ some (record p { args = kept_vector ss })
unfolding handle_process_member str_eq parse_elements strings json_string node_to_strv
args_member [] p e = ap (λ a. some (record p { args = a })) e
args_member (s ∷ ss) p e =
    ap (λ a. some (record p { args = some (s ∷ a) })) (node_to_strv-strings ss)

env_member :
    (ss : List Bytes) (p : Process)
    → p.env ≡ none
    → handle_process_member (env_node ss) (some p) ≡ some (record p { env = kept_vector ss })
unfolding handle_process_member str_eq parse_elements strings json_string node_to_strv
env_member [] p e = ap (λ a. some (record p { env = a })) e
env_member (s ∷ ss) p e = ap (λ a. some (record p { env = some (s ∷ a) })) (node_to_strv-strings ss)

terminal_member :
    (b : Bool) (p : Process)
    → handle_process_member (section (codes "terminal") (value (boolean b))) (some p)
      ≡ some (record p { terminal = b })
unfolding handle_process_member str_eq parse_aux json_string
terminal_member true p = refl
terminal_member false p = refl

stdio_member :
    (z : ℤ) (p : Process)
    → IsInt32 z
    → handle_process_member (section (codes "stdio_stream") (value (int64 z))) (some p)
      ≡ some (record p { stdio_stream = z })
unfolding handle_process_member str_eq parse_aux json_string
stdio_member z p h = ap (λ y. some (record p { stdio_stream = y })) (to_int32-show_int z h)

stderr_member :
    (z : ℤ) (p : Process)
    → IsInt32 z
    → handle_process_member (section (codes "stderr_stream") (value (int64 z))) (some p)
      ≡ some (record p { stderr_stream = z })
unfolding handle_process_member str_eq parse_aux json_string
stderr_member z p h = ap (λ y. some (record p { stderr_stream = y })) (to_int32-show_int z h)

cwd_member :
    (s : Bytes) (p : Process)
    → FitsPath s
    → handle_process_member (section (codes "cwd") (value (text s))) (some p)
      ≡ some (record p { cwd = s })
unfolding handle_process_member str_eq parse_aux json_string
cwd_member s p h = ap (λ y. some (record p { cwd = y })) (fit_path_lem s h)

pub record ProcessFits (p : Process) : Type 0 where
  pub cwd : FitsPath p.cwd
  pub stdio_stream : IsInt32 p.stdio_stream
  pub stderr_stream : IsInt32 p.stderr_stream

leaf_member : (p : Process) → handle_process_member (leaf none) (some p) ≡ some p
unfolding handle_process_member
leaf_member p = refl

user_member :
    (p : Process)
    → handle_process_member (section (codes "user") (object no_member)) (some p) ≡ some p
unfolding handle_process_member handle_user_section foreach str_eq parse_aux
user_member p = refl

abbrev pub put_process : Process → Handling → Handling
put_process p h = record h { state = record h.state { process = some p } }

process_members-lem :
    (p : Process) (args : List Bytes)
    → ProcessFits p
    → foreach handle_process_member
        (parse_aux (object (process_members p args)) false)
        (some (record blank_process { stdio_stream = negsuc 0; stderr_stream = negsuc 0 }))
      ≡ some (reread_process p args)
unfolding parse_aux process_members
process_members-lem p args h =
    let p0 : Process = record blank_process { stdio_stream = negsuc 0; stderr_stream = negsuc 0 } in
    let p1 : Process = record p0 { cwd = p.cwd } in
    let p2 : Process = record p1 { terminal = p.terminal } in
    let p3 : Process = record p2 { args = kept_vector args } in
    let p4 : Process = record p3 { env = kept_vector (vector p.env) } in
    let p5 : Process = record p4 { stdio_stream = p.stdio_stream } in
    foreach-cons _ _ _ (leaf_member p0) (
      foreach-cons _ _ _ (cwd_member p.cwd p0 h.cwd) (
        foreach-cons _ _ _ (terminal_member p.terminal p1) (
          foreach-cons _ _ _ (user_member p2) (
            foreach-cons _ _ _ (args_member args p2 refl) (
              foreach-cons _ _ _ (env_member (vector p.env) p3 refl) (
                foreach-cons _ _ _ (stdio_member p.stdio_stream p4 h.stdio_stream) (
                  foreach-cons _ _ _ (stderr_member p.stderr_stream p5 h.stderr_stream)
                    (foreach-nil _ _))))))))

pub process_section :
    (p : Process) (args : List Bytes) (h : Handling)
    → ProcessFits p
    → handle_state_sections (section (codes "process") (object (process_members p args))) h
      ≡ put_process (reread_process p args) h
unfolding handle_state_sections handle_state_section str_eq handle_process process_handle_section
process_section p args h k =
    ap (λ o. elim o [ none ↦ record h { crashed = true } | some q ↦ put_process q h ])
      (process_members-lem p args k)
