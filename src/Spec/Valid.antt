-- ===== src/Spec/Valid.antt =====
-- What holds of a config whose sections have been accepted.
use mathlib.Core.Bool.{false≢true}
use mathlib.Core.Path.{subst}
use mathlib.Core.Option.{some-injective, none-ne-some}
use cc_oci_runtime.Prelude.{
  ◌≡◌, refl, sym, ap, ◌∙◌, Bool, true, false, Option, none, some, if◌then◌else◌, Bytes,
}
use cc_oci_runtime.Container.Types.{VmCfg, Process, Config}
use cc_oci_runtime.StateFile.Json.{Node, Nodes, node, children, foreach}
use cc_oci_runtime.StateFile.ProcessSection.{process_handle_section}
use cc_oci_runtime.Pods.Annotations.{annotations_handle_section}
use cc_oci_runtime.Spec.{
  Spec, SpecSystem, root_is_valid, root_handle_section, platform_is_valid, platform_handle_section,
  vm_is_valid, vm_handle_section, handle_vm_section, vm_or_new,
}
use cc_oci_runtime.Spec.Sections.{
  SpecHandler, annotations, hooks, mounts, platform, process, root, vm, linux, process_is_valid,
  handle_section_of, plain_member, with_config,
}
use cc_oci_runtime.Spec.Kept.{
  Keeps, annotations-Keeps, RootKeeps, root-RootKeeps, platform-config, plain_member-RootKeeps,
}

-- What a section that has been accepted stands for.
pub record HasVm (sys : SpecSystem) (s : Spec) : Type 0 where
  pub machine : VmCfg
  pub has_machine : s.config.vm ≡ some machine
  pub files_found : vm_is_valid sys machine ≡ true

abbrev pub IsValid : SpecSystem → SpecHandler → Spec → Type 0
IsValid sys annotations s = Unit
IsValid sys hooks s = Unit
IsValid sys mounts s = Unit
IsValid sys platform s = platform_is_valid s ≡ true
IsValid sys process s = process_is_valid s.config.process ≡ true
IsValid sys root s = root_is_valid sys s ≡ true
IsValid sys vm s = HasVm sys s
IsValid sys linux s = Unit

HasVm-same : {sys : SpecSystem} {s t : Spec} → s.config.vm ≡ t.config.vm → HasVm sys s → HasVm sys t
HasVm-same e h = record {
  machine = h.machine;
  has_machine = sym e ∙ h.has_machine;
  files_found = h.files_found;
}

abbrev pub AllKept : SpecSystem → Spec → Spec → Type 0
AllKept sys s t = (k : SpecHandler) → IsValid sys k s → IsValid sys k t

pub plain_member-AllKept :
    (sys : SpecSystem) (name : Bytes) (ns : Nodes) (s : Spec)
    → AllKept sys s (plain_member name ns s)
plain_member-AllKept sys name ns s annotations h = tt
plain_member-AllKept sys name ns s hooks h = tt
plain_member-AllKept sys name ns s mounts h = tt
plain_member-AllKept sys name ns s linux h = tt
plain_member-AllKept sys name ns s platform h = let (k, e) = plain_member-RootKeeps name ns s in cc
plain_member-AllKept sys name ns s process h =
    let (k, e) = plain_member-RootKeeps name ns s in sym (ap process_is_valid k.process) ∙ h
plain_member-AllKept sys name ns s root h = let (k, e) = plain_member-RootKeeps name ns s in cc
plain_member-AllKept sys name ns s vm h =
    let (k, e) = plain_member-RootKeeps name ns s in HasVm-same k.vm h

-- A section that is accepted: what was valid before still is, and so is what it stands for.
abbrev pub Accepts : SpecSystem → SpecHandler → Spec → Spec → Type 0
Accepts sys h s t = AllKept sys s t × IsValid sys h t

accept :
    (sys : SpecSystem) (h : SpecHandler) (s : Spec) (r : Spec × Bool) (t : Spec)
    → some r ≡ some (t, true)
    → (r.1 ≡ true → Accepts sys h s r.0)
    → Accepts sys h s t
accept sys h s r t e k =
    let p = some-injective r (t, true) e in
    subst (λ u. Accepts sys h s u) (ap (λ q. q.0) p) (k (ap (λ q. q.1) p))

config_kept :
    (sys : SpecSystem) (s : Spec) (c : Config) → Keeps s.config c → AllKept sys s (with_config s c)
config_kept sys s c e annotations h = tt
config_kept sys s c e hooks h = tt
config_kept sys s c e mounts h = tt
config_kept sys s c e linux h = tt
config_kept sys s c e platform h = h
config_kept sys s c e process h = sym (ap process_is_valid e.process) ∙ h
config_kept sys s c e root h = let k = e.root_path in cc
config_kept sys s c e vm h = HasVm-same e.vm h

root_kept :
    (sys : SpecSystem) (s t : Spec) → RootKeeps s t → root_is_valid sys t ≡ true → AllKept sys s t
root_kept sys s t e v annotations h = tt
root_kept sys s t e v hooks h = tt
root_kept sys s t e v mounts h = tt
root_kept sys s t e v linux h = tt
root_kept sys s t e v platform h = let a = e.os in let b = e.arch in cc
root_kept sys s t e v process h = sym (ap process_is_valid e.process) ∙ h
root_kept sys s t e v root h = v
root_kept sys s t e v vm h = HasVm-same e.vm h

platform_kept :
    (sys : SpecSystem) (s t : Spec)
    → s.config ≡ t.config
    → platform_is_valid t ≡ true
    → AllKept sys s t
platform_kept sys s t e v annotations h = tt
platform_kept sys s t e v hooks h = tt
platform_kept sys s t e v mounts h = tt
platform_kept sys s t e v linux h = tt
platform_kept sys s t e v platform h = v
platform_kept sys s t e v process h = sym (ap (λ c. process_is_valid c.process) e) ∙ h
platform_kept sys s t e v root h = let k = ap (λ c. c.root_path) e in cc
platform_kept sys s t e v vm h = HasVm-same (ap (λ c. c.vm) e) h

process_kept :
    (sys : SpecSystem) (s : Spec) (p : Process)
    → process_is_valid p ≡ true
    → AllKept sys s (with_config s (record s.config { process = p }))
process_kept sys s p v annotations h = tt
process_kept sys s p v hooks h = tt
process_kept sys s p v mounts h = tt
process_kept sys s p v linux h = tt
process_kept sys s p v platform h = h
process_kept sys s p v process h = v
process_kept sys s p v root h = h
process_kept sys s p v vm h = HasVm-same refl h

vm_kept :
    (sys : SpecSystem) (s : Spec) (m : VmCfg)
    → vm_is_valid sys m ≡ true
    → AllKept sys s (with_config s (record s.config { vm = some m }))
vm_kept sys s m v annotations h = tt
vm_kept sys s m v hooks h = tt
vm_kept sys s m v mounts h = tt
vm_kept sys s m v linux h = tt
vm_kept sys s m v platform h = h
vm_kept sys s m v process h = h
vm_kept sys s m v root h = h
vm_kept sys s m v vm h = record { machine = m; has_machine = refl; files_found = v }

-- A change of the hooks or of the namespaces.
other_kept :
    (sys : SpecSystem) (s t : Spec)
    → s.config ≡ t.config
    → s.os ≡ t.os
    → s.arch ≡ t.arch
    → AllKept sys s t
other_kept sys s t e f g annotations h = tt
other_kept sys s t e f g hooks h = tt
other_kept sys s t e f g mounts h = tt
other_kept sys s t e f g linux h = tt
other_kept sys s t e f g platform h = cc
other_kept sys s t e f g process h = sym (ap (λ c. process_is_valid c.process) e) ∙ h
other_kept sys s t e f g root h = let k = ap (λ c. c.root_path) e in cc
other_kept sys s t e f g vm h = HasVm-same (ap (λ c. c.vm) e) h

pub handle_section_of-Accepts :
    (sys : SpecSystem) (h : SpecHandler) (n : Node) (s t : Spec)
    → handle_section_of sys h n s ≡ some (t, true)
    → Accepts sys h s t
unfolding handle_section_of root_handle_section platform_handle_section vm_handle_section
    annotations_handle_section
handle_section_of-Accepts sys annotations (node name ns) s t e =
    accept sys annotations s _ t e
      (λ v. (config_kept sys s _ (annotations-Keeps sys.runtime_dir ns s.config), tt))
handle_section_of-Accepts sys hooks n s t e =
    accept sys hooks s _ t e (λ v. (other_kept sys s _ refl refl refl, tt))
handle_section_of-Accepts sys mounts n s t e =
    accept sys mounts s _ t e
      (λ v. (config_kept sys s _ (record { root_path = refl; process = refl; vm = refl }), tt))
handle_section_of-Accepts sys linux n s t e =
    accept sys linux s _ t e (λ v. (other_kept sys s _ refl refl refl, tt))
handle_section_of-Accepts sys platform n s t e =
    accept sys platform s _ t e (λ v. (platform_kept sys s _ (platform-config (children n) s) v, v))
handle_section_of-Accepts sys root n s t e =
    accept sys root s _ t e (λ v. (root_kept sys s _ (root-RootKeeps sys (children n) s) v, v))
handle_section_of-Accepts sys process n s t e =
    by_process (process_handle_section n s.config.process) e
  where
    by_process :
        (o : Option Process)
        → Path
            (Option (Spec × Bool))
            (elim o as (λ _. Option (Spec × Bool)) [
              | none ↦ none
              | some p ↦ some (with_config s (record s.config { process = p }), process_is_valid p)
            ])
            (some (t, true))
        → Accepts sys process s t
    by_process none e = absurd (none-ne-some _ e)
    by_process (some p) e =
        accept sys process s (with_config s (record s.config { process = p }), process_is_valid p) t
          e (λ v. (process_kept sys s p v, v))
handle_section_of-Accepts sys vm n s t e = by_valid (vm_is_valid sys machine) refl e
  where
    machine : VmCfg
    machine = foreach (handle_vm_section sys) (children n) (vm_or_new s.config.vm)

    by_valid :
        (b : Bool)
        → vm_is_valid sys machine ≡ b
        → Path
            (Option (Spec × Bool))
            (some (
              if b
              then (with_config s (record s.config { vm = some machine }), true)
              else (with_config s (record s.config { vm = none }), false)))
            (some (t, true))
        → Accepts sys vm s t
    by_valid true v e =
        accept sys vm s (with_config s (record s.config { vm = some machine }), true) t e
          (λ _. (
            vm_kept sys s machine v,
            record { machine = machine; has_machine = refl; files_found = v },
          ))
    by_valid false v e =
        accept sys vm s (with_config s (record s.config { vm = none }), false) t e
          (λ f. absurd (false≢true f))
