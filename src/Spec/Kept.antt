-- ===== src/Spec/Kept.antt =====
-- What the handlers of a config file leave alone.
use cc_oci_runtime.Prelude.{
  ◌≡◌, refl, ◌∙◌, Bool, true, false, not, Option, none, some, [], ◌∷◌, if◌then◌else◌, Bytes, arith,
}
use cc_oci_runtime.Container.Types.{Annotation, Pod, Config}
use cc_oci_runtime.StateFile.Json.{Node, Nodes, node, nil, cons, foreach}
use cc_oci_runtime.Pods.Annotations.{
  handle_ocid, pod_handle_annotations, handle_annotation, make_sandbox, join_sandbox,
  add_container_mount, pod_or_new, value_of, is_ocid,
}
use cc_oci_runtime.Spec.{Spec, SpecSystem, handle_root_section, handle_platform_section}
use cc_oci_runtime.Spec.Sections.{plain_member}

-- What the handler of the annotations leaves alone.
pub record Keeps (b c : Config) : Type 0 where
  pub root_path : b.root_path ≡ c.root_path
  pub process : b.process ≡ c.process
  pub vm : b.vm ≡ c.vm

Keeps-trans : {a b c : Config} → Keeps a b → Keeps b c → Keeps a c
Keeps-trans h k = record {
  root_path = h.root_path ∙ k.root_path;
  process = h.process ∙ k.process;
  vm = h.vm ∙ k.vm;
}

handle_ocid-Keeps :
    (prefix key value : Bytes) (pod : Pod) (c : Config)
    → Keeps c (handle_ocid prefix key value pod c)
unfolding handle_ocid make_sandbox join_sandbox add_container_mount
handle_ocid-Keeps prefix key value pod c = ground arith

pod_handle_annotations-Keeps :
    (prefix : Bytes) (a : Annotation) (c : Config) → Keeps c (pod_handle_annotations prefix a c).0
unfolding pod_handle_annotations
pod_handle_annotations-Keeps prefix a c = by_value a.value
  where
    by_value :
        (o : Option Bytes)
        → Keeps c
            (elim o as (λ _. Config × Bool) [
              | none ↦ (c, false)
              | some value ↦
                  if not (is_ocid a.key)
                  then (c, true)
                  else (handle_ocid prefix a.key value (pod_or_new c.pod) c, true)
            ]).0
    by_value none = record { root_path = refl; process = refl; vm = refl }
    by_value (some value) =
        ground (arith, handle_ocid-Keeps prefix a.key value (pod_or_new c.pod) c)

handle_annotation-Keeps :
    (prefix : Bytes) (n : Node) (c : Config) → Keeps c (handle_annotation prefix n c)
unfolding handle_annotation
handle_annotation-Keeps prefix (node none ns) c = record {
  root_path = refl;
  process = refl;
  vm = refl;
}
handle_annotation-Keeps prefix (node (some key) nil) c = record {
  root_path = refl;
  process = refl;
  vm = refl;
}
handle_annotation-Keeps prefix (node (some []) (cons n ns)) c = record {
  root_path = refl;
  process = refl;
  vm = refl;
}
handle_annotation-Keeps prefix (node (some (k ∷ key)) (cons (node value below) ns)) c =
    let h =
      pod_handle_annotations-Keeps prefix (record { key = k ∷ key; value = value_of value }) c in
    record { root_path = h.root_path; process = h.process; vm = h.vm }

pub annotations-Keeps :
    (prefix : Bytes) (ns : Nodes) (c : Config) → Keeps c (foreach (handle_annotation prefix) ns c)
unfolding foreach
annotations-Keeps prefix nil c = record { root_path = refl; process = refl; vm = refl }
annotations-Keeps prefix (cons n ns) c =
    Keeps-trans (handle_annotation-Keeps prefix n c)
      (annotations-Keeps prefix ns (handle_annotation prefix n c))

-- What the handler of the root section leaves alone.
pub record RootKeeps (b c : Spec) : Type 0 where
  pub process : b.config.process ≡ c.config.process
  pub vm : b.config.vm ≡ c.config.vm
  pub os : b.os ≡ c.os
  pub arch : b.arch ≡ c.arch

root_step-RootKeeps :
    (sys : SpecSystem) (n : Node) (s : Spec) → RootKeeps s (handle_root_section sys n s)
unfolding handle_root_section
root_step-RootKeeps sys (node name nil) s = record {
  process = refl;
  vm = refl;
  os = refl;
  arch = refl;
}
root_step-RootKeeps sys (node name (cons (node value below) ns)) s = ground arith

pub root-RootKeeps :
    (sys : SpecSystem) (ns : Nodes) (s : Spec)
    → RootKeeps s (foreach (handle_root_section sys) ns s)
unfolding foreach
root-RootKeeps sys nil s = record { process = refl; vm = refl; os = refl; arch = refl }
root-RootKeeps sys (cons n ns) s =
    let h = root_step-RootKeeps sys n s in
    let k = root-RootKeeps sys ns (handle_root_section sys n s) in
    record {
      process = h.process ∙ k.process;
      vm = h.vm ∙ k.vm;
      os = h.os ∙ k.os;
      arch = h.arch ∙ k.arch;
    }

platform_step-config : (n : Node) (s : Spec) → s.config ≡ (handle_platform_section n s).config
unfolding handle_platform_section
platform_step-config (node name nil) s = refl
platform_step-config (node name (cons (node value below) ns)) s = ground arith

-- The handler of the platform section leaves the config alone.
pub platform-config :
    (ns : Nodes) (s : Spec) → s.config ≡ (foreach handle_platform_section ns s).config
unfolding foreach
platform-config nil s = refl
platform-config (cons n ns) s =
    platform_step-config n s ∙ platform-config ns (handle_platform_section n s)

-- The version and the hostname are no part of any section.
pub plain_member-RootKeeps :
    (name : Bytes) (ns : Nodes) (s : Spec)
    → RootKeeps s (plain_member name ns s)
      × (s.config.root_path ≡ (plain_member name ns s).config.root_path)
unfolding plain_member
plain_member-RootKeeps name nil s =
    (record { process = refl; vm = refl; os = refl; arch = refl }, refl)
plain_member-RootKeeps name (cons (node value below) ns) s = (ground arith, ground arith)
