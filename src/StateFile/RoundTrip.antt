-- ===== src/StateFile/RoundTrip.antt =====
-- A state file that has been written is read back.
use mathlib.Core.Option.{some-injective, none-ne-some}
use cc_oci_runtime.Prelude.{
  ◌^◌, ◌<◌, ◌≡◌, refl, sym, ap, ◌∙◌, false, inl, inr, Option, none, some, List, Bytes, All,
  Bool-cases,
}
use cc_oci_runtime.Container.Types.{VmCfg, Pod, Annotation, Process, Config, OciState}
use cc_oci_runtime.Container.Status.{status_to_str}
use cc_oci_runtime.StateFile.Json.{Json, Members, leaf, object, parse_aux, foreach, json_parse}
use cc_oci_runtime.StateFile.Sections.{
  Handling, oci_version, id, bundle_path, comms_path, process_path, status, created_at,
}
use cc_oci_runtime.StateFile.Read.{
  handle_state_sections, blank_handling, ReadResult, state_read, finish_read, read_document,
}
use cc_oci_runtime.StateFile.Write.{
  or_blank, Complete, check_complete, state_members, document, supported_spec_version, is_empty,
  process_to_json, process_members,
}
use cc_oci_runtime.StateFile.Recall.{FitsPath, put_pid, pid_section, put_vm, vm_section, VmFits}
use cc_oci_runtime.StateFile.RecallMounts.{Option-cases, put_mounts, mounted, foreach-cons}
use cc_oci_runtime.StateFile.RecallProcess.{
  put_process, process_section, reread_process, ProcessFits,
}
use cc_oci_runtime.StateFile.RecallSections.{
  put_text, put_proxy, put_console, put_pods, with_annotations, proxy_section, console_section,
  mounts_section, status_section, tail_sections, oci_version_section, id_section,
  bundle_path_section, comms_path_section, process_path_section, created_section, reread_pods,
}

-- The state that is read back, but for the annotations, of which nothing is said.
abbrev pub reread : Config → Complete → List Bytes → Bytes → List Annotation → OciState
reread c k args create_time notes = record {
  oci_version = some supported_spec_version;
  id = some k.container_id;
  pid = c.workload_pid;
  bundle_path = some k.bundle_path;
  comms_path = some c.comms_path;
  procsock_path = some c.procsock_path;
  status = c.status;
  create_time = some create_time;
  mounts = mounted c.mounts;
  annotations = notes;
  console = c.console;
  vm = some (record k.vm { kernel_params = some (or_blank k.vm.kernel_params) });
  proxy = some (record {
    agent_ctl_socket = some (or_blank k.proxy.agent_ctl_socket);
    agent_tty_socket = some (or_blank k.proxy.agent_tty_socket);
    vm_console_socket = some (or_blank k.proxy.vm_console_socket);
  });
  pod = reread_pods c.pod;
  process = some (reread_process c.process args);
}

-- The texts fit the arrays of the structures, and the numbers their types.
pub record Fits (c : Config) : Type 0 where
  pub workload_pid : c.workload_pid < 2 ^ 32
  pub mounts : All (λ m. FitsPath m.dest) c.mounts
  pub process : ProcessFits c.process
  pub vm : (v : VmCfg) → c.vm ≡ some v → VmFits v

-- The sections before the console.
abbrev first_part : Config → Complete → List Bytes → Bytes → Handling
first_part c k args create_time = put_process (reread_process c.process args) (
    put_mounts (mounted c.mounts) (
      put_text created_at (λ st. record st { create_time = some create_time })
        (put_text status (λ st. record st { status = c.status })
          (put_text process_path (λ st. record st { procsock_path = some c.procsock_path })
            (put_text comms_path (λ st. record st { comms_path = some c.comms_path })
              (put_text bundle_path (λ st. record st { bundle_path = some k.bundle_path })
                (put_pid c.workload_pid (
                  put_text id (λ st. record st { id = some k.container_id })
                    (put_text oci_version
                      (λ st. record st { oci_version = some supported_spec_version })
                      blank_handling)))))))))

abbrev all_parts : Config → Complete → List Bytes → Bytes → Handling
all_parts c k args create_time =
    put_pods c.pod
      (put_proxy k.proxy (put_vm k.vm (put_console c.console (first_part c k args create_time))))

leaf_section : (h : Handling) → handle_state_sections (leaf none) h ≡ h
unfolding handle_state_sections
leaf_section h = refl

console_pod :
    (c : Option Bytes) (h : Handling) → h.state.pod ≡ none → (put_console c h).state.pod ≡ none
console_pod none h e = e
console_pod (some path) h e = e

members_read :
    (c : Config) (k : Complete) (args : List Bytes) (name create_time : Bytes)
    → Fits c
    → VmFits k.vm
    → status_to_str c.status ≡ some name
    → (bs : List Annotation) × (foreach handle_state_sections
          (parse_aux
            (object (
              state_members supported_spec_version c k name
                (process_members c.process args)
                create_time))
            false)
          blank_handling
        ≡ with_annotations bs (all_parts c k args create_time))
unfolding parse_aux state_members
members_read c k args name create_time f v e =
    let h1 : Handling =
      put_text oci_version (λ st. record st { oci_version = some supported_spec_version })
        blank_handling in
    let h2 : Handling = put_text id (λ st. record st { id = some k.container_id }) h1 in
    let h3 : Handling = put_pid c.workload_pid h2 in
    let h4 : Handling =
      put_text bundle_path (λ st. record st { bundle_path = some k.bundle_path }) h3 in
    let h5 : Handling =
      put_text comms_path (λ st. record st { comms_path = some c.comms_path }) h4 in
    let h6 : Handling =
      put_text process_path (λ st. record st { procsock_path = some c.procsock_path }) h5 in
    let h7 : Handling = put_text status (λ st. record st { status = c.status }) h6 in
    let h8 : Handling =
      put_text created_at (λ st. record st { create_time = some create_time }) h7 in
    let h9 : Handling = put_mounts (mounted c.mounts) h8 in
    let h10 : Handling = put_process (reread_process c.process args) h9 in
    let h11 : Handling = put_console c.console h10 in
    let h12 : Handling = put_vm k.vm h11 in
    let h13 : Handling = put_proxy k.proxy h12 in
    let (bs, last) = tail_sections c.pod c.annotations h13 (console_pod c.console h10 refl) in
    (
      bs,
      foreach-cons _ _ _ (leaf_section blank_handling) (
          foreach-cons _ _ _ (oci_version_section supported_spec_version blank_handling) (
            foreach-cons _ _ _ (id_section k.container_id h1) (
              foreach-cons _ _ _ (pid_section c.workload_pid h2 f.workload_pid) (
                foreach-cons _ _ _ (bundle_path_section k.bundle_path h3) (
                  foreach-cons _ _ _ (comms_path_section c.comms_path h4) (
                    foreach-cons _ _ _ (process_path_section c.procsock_path h5) (
                      foreach-cons _ _ _ (status_section c.status name h6 e) (
                        foreach-cons _ _ _ (created_section create_time h7) (
                          foreach-cons _ _ _ (mounts_section c.mounts h8 f.mounts refl) (
                            foreach-cons _ _ _ (process_section c.process args h9 f.process) (
                              foreach-cons _ _ _ (console_section c.console h10) (
                                foreach-cons _ _ _ (vm_section k.vm h11 v)
                                  (foreach-cons _ _ _ (proxy_section k.proxy h12) last))))))))))))),
    )

finish_parts :
    (c : Config) (k : Complete) (args : List Bytes) (create_time : Bytes) (bs : List Annotation)
    → finish_read (with_annotations bs (all_parts c k args create_time))
      ≡ state_read (reread c k args create_time bs)
unfolding finish_read
finish_parts c k args create_time bs = go c.console c.pod
  where
    go :
        (path : Option Bytes) (p : Option Pod)
        → finish_read (
            with_annotations bs (
              put_pods p (
                put_proxy k.proxy
                  (put_vm k.vm (put_console path (first_part c k args create_time))))))
          ≡ state_read
              (record (reread c k args create_time bs) { console = path; pod = reread_pods p })
    go none none = refl
    go none (some p) = refl
    go (some path) none = refl
    go (some path) (some p) = refl

-- What reading a file gives, for a config that is complete and has arguments.
pub record ReadsBack (c : Config) (create_time : Bytes) (r : ReadResult) : Type 0 where
  pub complete : Complete
  pub is_complete : check_complete c ≡ some complete
  pub args : List Bytes
  pub has_args : c.process.args ≡ some args
  pub notes : List Annotation
  pub reads : r ≡ state_read (reread c complete args create_time notes)

process_to_json-cases :
    (p : Process) (ms : Members)
    → process_to_json p ≡ some ms
    → (args : List Bytes) × (p.args ≡ some args) × (ms ≡ process_members p args)
unfolding process_to_json
process_to_json-cases p ms h = elim (Option-cases p.args) [
  | inl e ↦ absurd (none-ne-some _ (rw (e, process_to_json) at h))
  | inr (args, e) ↦ elim (Bool-cases (is_empty p.cwd)) [
    | inl blank ↦ absurd (none-ne-some _ (rw (e, blank, process_to_json) at h))
    | inr there ↦ (args, e, sym (some-injective _ _ (rw (e, there, process_to_json) at h)))
  ]
]

document-cases :
    (c : Config) (k : Complete) (create_time : Bytes) (doc : Json)
    → document c k create_time ≡ some doc
    → (name : Bytes) × (args : List Bytes) × (status_to_str c.status ≡ some name)
      × (c.process.args ≡ some args)
      × (doc
          ≡ object (
              state_members supported_spec_version c k name
                (process_members c.process args)
                create_time))
unfolding document
document-cases c k create_time doc h = elim (Option-cases (status_to_str c.status)) [
  | inl e ↦ absurd (none-ne-some _ (rw (e, document) at h))
  | inr (name, e) ↦ elim (Option-cases (process_to_json c.process)) [
    | inl none_there ↦ absurd (none-ne-some _ (rw (e, none_there, document) at h))
    | inr (ms, p) ↦
        let (args, has_args, same) = process_to_json-cases c.process ms p in
        (
          name,
          args,
          e,
          has_args,
          sym (some-injective _ _ (rw (e, p, document) at h))
              ∙ ap (λ m. object (state_members supported_spec_version c k name m create_time)) same,
        )
  ]
]

pub document-ReadsBack :
    (c : Config) (k : Complete) (create_time file : Bytes) (doc : Json)
    → Fits c
    → check_complete c ≡ some k
    → VmFits k.vm
    → document c k create_time ≡ some doc
    → ReadsBack c create_time (read_document file doc)
unfolding read_document json_parse
document-ReadsBack c k create_time file doc f complete v e =
    let (name, args, named, has_args, same) = document-cases c k create_time doc e in
    let (bs, read) = members_read c k args name create_time f v named in
    record {
      complete = k;
      is_complete = complete;
      args = args;
      has_args = has_args;
      notes = bs;
      reads =
          ap (λ d. finish_read (foreach handle_state_sections (parse_aux d false) blank_handling))
            same
          ∙ ap finish_read read
          ∙ finish_parts c k args create_time bs;
    }
