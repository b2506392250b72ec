-- ===== src/StateFile/Recall.antt =====
-- What the handlers make of each section that `cc_oci_state_file_create` writes.
use cc_oci_runtime.Prelude.{
  ℕ, ◌%◌, ◌^◌, ◌<◌, ◌≡◌, refl, ap, false, some, pos, Bytes, codes, str_eq, length, take_all,
  atol-decimal, has_number-decimal, arith,
}
use cc_oci_runtime.Container.Types.{VmCfg, fit_path, path_max}
use cc_oci_runtime.StateFile.Json.{
  Json, Node, node, text, value, int64, object, show_int, json_string, parse_aux, foreach,
}
use cc_oci_runtime.StateFile.Sections.{Handling, counted, id, pid, vm, handle_pid, vm_value}
use cc_oci_runtime.StateFile.Read.{handle_section, handle_state_section, handle_state_sections}
use cc_oci_runtime.StateFile.Write.{vm_members, or_blank}

abbrev pub section : Bytes → Json → Node
section key v = node (some key) (parse_aux v false)

-- A string that fits an array of PATH_MAX characters.
abbrev pub FitsPath : Bytes → Type 0
FitsPath s = length s < path_max

pub fit_path_lem : (s : Bytes) → FitsPath s → fit_path s ≡ s
fit_path_lem s h = take_all 4095 s (omega arith)

pub id_section :
    (s : Bytes) (h : Handling)
    → handle_state_sections (section (codes "id") (value (text s))) h
      ≡ counted id (record h { state = record h.state { id = some s } })
unfolding handle_state_sections handle_state_section handle_section str_eq foreach parse_aux
    json_string
id_section s h = refl

abbrev pub put_pid : ℕ → Handling → Handling
put_pid n h = counted pid (record h { state = record h.state { pid = n } })

pub pid_section :
    (n : ℕ) (h : Handling)
    → n < 2 ^ 32
    → handle_state_sections (section (codes "pid") (value (int64 (pos n)))) h ≡ put_pid n h
unfolding handle_state_sections handle_state_section handle_section str_eq foreach parse_aux
    json_string handle_pid show_int
pid_section n h k =
    let low : n % 2 ^ 32 ≡ n = omega arith in
    rw (has_number-decimal n, atol-decimal n (omega arith)) (ap (λ m. put_pid m h) low)

abbrev pub put_vm : VmCfg → Handling → Handling
put_vm v h = counted vm (
    counted vm (
      counted vm (
        counted vm (
          counted vm (
            counted vm (record h {
              vm_cfg = record {
                hypervisor_path = v.hypervisor_path;
                image_path = v.image_path;
                kernel_path = v.kernel_path;
                workload_path = v.workload_path;
                kernel_params = some (or_blank v.kernel_params);
                pid = v.pid;
              };
            }))))))

pub record VmFits (v : VmCfg) : Type 0 where
  pub hypervisor_path : FitsPath v.hypervisor_path
  pub image_path : FitsPath v.image_path
  pub kernel_path : FitsPath v.kernel_path
  pub workload_path : FitsPath v.workload_path
  pub pid : v.pid < 2 ^ 32

pub vm_section :
    (v : VmCfg) (h : Handling)
    → VmFits v
    → handle_state_sections (section (codes "vm") (object (vm_members v))) h ≡ put_vm v h
unfolding handle_state_sections handle_state_section handle_section str_eq foreach parse_aux
    json_string show_int vm_members vm_value
vm_section v h k =
    let low : v.pid % 2 ^ 32 ≡ v.pid = omega (arith, k.pid) in
    rw (has_number-decimal v.pid, atol-decimal v.pid (omega (arith, k.pid)))
      (rw
        (
          fit_path_lem v.hypervisor_path k.hypervisor_path,
          fit_path_lem v.image_path k.image_path,
          fit_path_lem v.kernel_path k.kernel_path,
          fit_path_lem v.workload_path k.workload_path,
        )
        (rw low refl))
