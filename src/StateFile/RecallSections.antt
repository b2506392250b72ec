-- ===== src/StateFile/RecallSections.antt =====
-- What the handlers make of the other sections of a document, and of its last ones.
use cc_oci_runtime.Prelude.{
  ◌≡◌, refl, ap, ◌∙◌, Bool, true, false, Option, none, some, List, [], ◌∷◌, ◌++◌, Bytes, codes,
  str_eq, All,
}
use cc_oci_runtime.Container.Types.{Status, Proxy, Pod, Mount, Annotation, OciState}
use cc_oci_runtime.Container.Status.{status_to_str, name_reads_back}
use cc_oci_runtime.StateFile.Json.{
  node, Nodes, nil, cons, text, value, boolean, object, array, json_string, parse_aux,
  parse_members, foreach,
}
use cc_oci_runtime.StateFile.Sections.{
  Handling, counted, Section, oci_version, id, bundle_path, comms_path, process_path, status,
  created_at, console, proxy, pod, annotations, proxy_value, console_value, pod_value,
  annotation_value,
}
use cc_oci_runtime.StateFile.Read.{handle_section, handle_state_section, handle_state_sections}
use cc_oci_runtime.StateFile.Write.{
  mounts_to_json, annotations_to_json, proxy_members, pod_members, console_json, or_blank,
  pod_section, annotations_section,
}
use cc_oci_runtime.StateFile.Recall.{section, FitsPath}
use cc_oci_runtime.StateFile.RecallMounts.{put_mounts, mounted, foreach-mounts}

-- The sections with one text, whatever is done with it.
abbrev pub put_text : Section → (OciState → OciState) → Handling → Handling
put_text s keep h = counted s (record h { state = keep h.state })

abbrev pub put_proxy : Proxy → Handling → Handling
put_proxy p h = counted proxy (
    counted proxy (
      counted proxy (record h {
        proxy_cfg = record {
          agent_ctl_socket = some (or_blank p.agent_ctl_socket);
          agent_tty_socket = some (or_blank p.agent_tty_socket);
          vm_console_socket = some (or_blank p.vm_console_socket);
        };
      })))

pub proxy_section :
    (p : Proxy) (h : Handling)
    → handle_state_sections (section (codes "proxy") (object (proxy_members p))) h ≡ put_proxy p h
unfolding handle_state_sections handle_state_section handle_section str_eq foreach parse_aux
    json_string proxy_members proxy_value
proxy_section p h = refl

abbrev pub put_console : Option Bytes → Handling → Handling
put_console none h = h
put_console (some path) h =
    counted console (record h { state = record h.state { console = some path } })

pub console_section :
    (c : Option Bytes) (h : Handling)
    → handle_state_sections (section (codes "console") (console_json c)) h ≡ put_console c h
unfolding handle_state_sections handle_state_section handle_section str_eq foreach parse_aux
    json_string console_json console_value
console_section none h = refl
console_section (some path) h = refl

pub mounts_section :
    (ms : List Mount) (h : Handling)
    → All (λ m. FitsPath m.dest) ms
    → h.state.mounts ≡ []
    → handle_state_sections (section (codes "mounts") (array (mounts_to_json ms))) h
      ≡ put_mounts (mounted ms) h
unfolding handle_state_sections handle_state_section str_eq parse_aux
mounts_section ms h k e =
    foreach-mounts ms h k ∙ ap (λ before. put_mounts (before ++ mounted ms) h) e

pub status_section :
    (s : Status) (name : Bytes) (h : Handling)
    → status_to_str s ≡ some name
    → handle_state_sections (section (codes "status") (value (text name))) h
      ≡ put_text status (λ st. record st { status = s }) h
unfolding handle_state_sections handle_state_section handle_section str_eq foreach parse_aux
    json_string
status_section s name h e =
    ap (λ t. put_text status (λ st. record st { status = t }) h) (name_reads_back s name e)

-- What becomes of a pod.
abbrev pub reread_pod : Pod → Pod
reread_pod p = record {
  sandbox = p.sandbox;
  sandbox_name = some (or_blank p.sandbox_name);
  sandbox_workloads = [];
}

abbrev pub reread_pods : Option Pod → Option Pod
reread_pods none = none
reread_pods (some p) = some (reread_pod p)

abbrev pub put_pod : Pod → Handling → Handling
put_pod p h =
    counted pod (counted pod (record h { state = record h.state { pod = some (reread_pod p) } }))

boolean_reads_back : (b : Bool) → str_eq (json_string (boolean b)) (codes "true") ≡ b
unfolding str_eq json_string
boolean_reads_back true = refl
boolean_reads_back false = refl

pod_section-put_pod :
    (p : Pod) (h : Handling)
    → h.state.pod ≡ none
    → handle_state_sections (section (codes "pod") (object (pod_members p))) h ≡ put_pod p h
unfolding handle_state_sections handle_state_section handle_section str_eq foreach parse_aux
    json_string pod_members pod_value
pod_section-put_pod p h e = rw (boolean_reads_back p.sandbox, e) refl

abbrev pub put_pods : Option Pod → Handling → Handling
put_pods none h = h
put_pods (some p) h = put_pod p h

-- The annotations section changes the annotations, and nothing else.
abbrev pub with_annotations : List Annotation → Handling → Handling
with_annotations as' h = record h { state = record h.state { annotations = as' } }

foreach-annotations :
    (ns : Nodes) (h : Handling)
    → (as' : List Annotation) × (foreach (handle_section annotations) ns h ≡ with_annotations as' h)
unfolding foreach handle_section annotation_value
foreach-annotations nil h = (h.state.annotations, refl)
foreach-annotations (cons (node none ms) ns) h = foreach-annotations ns h
foreach-annotations (cons (node (some name) nil) ns) h = foreach-annotations ns h
foreach-annotations (cons (node (some name) (cons (node none ks) ms)) ns) h =
    foreach-annotations ns h
foreach-annotations (cons (node (some name) (cons (node (some v) ks) ms)) ns) h =
    foreach-annotations ns
      (with_annotations (record { key = name; value = some v } ∷ h.state.annotations) h)

abbrev pub annotations_nodes : List Annotation → Nodes
annotations_nodes as' = parse_members (annotations_section as')

annotations_tail :
    (as' : List Annotation) (h : Handling)
    → (bs : List Annotation) × (foreach handle_state_sections (annotations_nodes as') h
        ≡ with_annotations bs h)
unfolding annotations_section foreach parse_members handle_state_sections handle_state_section
    str_eq
annotations_tail [] h = (h.state.annotations, refl)
annotations_tail (a ∷ rest) h =
    foreach-annotations (parse_aux (object (annotations_to_json (a ∷ rest))) false) h

-- The tail of the document: a pod if there is one, and the annotations if there are any.
pub tail_sections :
    (p : Option Pod) (as' : List Annotation) (h : Handling)
    → h.state.pod ≡ none
    → (bs : List Annotation) × (foreach handle_state_sections
          (parse_members (pod_section p (annotations_section as')))
          h
        ≡ with_annotations bs (put_pods p h))
unfolding pod_section foreach parse_members
tail_sections none as' h e = annotations_tail as' h
tail_sections (some p) as' h e =
    let (bs, q) = annotations_tail as' (put_pod p h) in
    (bs, ap (foreach handle_state_sections (annotations_nodes as')) (pod_section-put_pod p h e) ∙ q)

-- How a section with one text is read.
abbrev ReadsAs : Bytes → Section → (Bytes → OciState → OciState) → Type 0
ReadsAs key s keep =
    (v : Bytes) (h : Handling)
    → handle_state_sections (section key (value (text v))) h ≡ put_text s (keep v) h

pub oci_version_section :
    ReadsAs (codes "ociVersion") oci_version (λ v st. record st { oci_version = some v })
unfolding handle_state_sections handle_state_section handle_section str_eq foreach parse_aux
    json_string
oci_version_section v h = refl

pub id_section : ReadsAs (codes "id") id (λ v st. record st { id = some v })
unfolding handle_state_sections handle_state_section handle_section str_eq foreach parse_aux
    json_string
id_section v h = refl

pub bundle_path_section :
    ReadsAs (codes "bundlePath") bundle_path (λ v st. record st { bundle_path = some v })
unfolding handle_state_sections handle_state_section handle_section str_eq foreach parse_aux
    json_string
bundle_path_section v h = refl

pub comms_path_section :
    ReadsAs (codes "commsPath") comms_path (λ v st. record st { comms_path = some v })
unfolding handle_state_sections handle_state_section handle_section str_eq foreach parse_aux
    json_string
comms_path_section v h = refl

pub process_path_section :
    ReadsAs (codes "processPath") process_path (λ v st. record st { procsock_path = some v })
unfolding handle_state_sections handle_state_section handle_section str_eq foreach parse_aux
    json_string
process_path_section v h = refl

pub created_section :
    ReadsAs (codes "created") created_at (λ v st. record st { create_time = some v })
unfolding handle_state_sections handle_state_section handle_section str_eq foreach parse_aux
    json_string
created_section v h = refl
