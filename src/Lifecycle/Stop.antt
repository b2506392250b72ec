-- ===== src/Lifecycle/Stop.antt =====
-- cc_oci_stop of src/oci.c, with cc_oci_vm_running and cc_oci_cleanup: what it does to the system, in
-- order. The answers of the system and of cc-proxy are arguments; hooks cannot make it fail.
use cc_oci_runtime.Prelude.{
  Bool, true, false, not, ◌&&◌, Option, none, some, List, [], ◌∷◌, ◌++◌, ◌==◌, if◌then◌else◌, Bytes,
}
use cc_oci_runtime.Container.Types.{VmCfg, Pod, Config, OciState}
use cc_oci_runtime.Mounts.{Unmounting, handle_unmounts}
use cc_oci_runtime.Lifecycle.Update.{config_update}

-- What has succeeded, and each call of umount and of cc_oci_rm_rf for a mount, failed or not.
pub data Effect : Type 0 where
  destroyed_pod said_bye ran_poststop deleted_state_file deleted_runtime_dir : Effect
  called_umount called_rm_rf : Bytes → Effect

-- Whether kill (vm pid, 0) finds the machine, and whether the calls succeed.
pub record StopAnswers : Type 0 where
  pub vm_found : Bool
  pub pod_destroyed : Bool
  pub bye_answered : Bool
  pub umount : Bytes → Bool
  pub state_file_unlinked : Bool
  pub runtime_dir_deleted : Bool

unfoldable pub vm_running : Option VmCfg → Bool → Bool
vm_running none found = false
vm_running (some vm) found = if vm.pid == 0 then false else found

-- cc_pod_is_vm of src/pod.c.
unfoldable pub pod_is_vm : Option Pod → Bool
pod_is_vm none = true
pod_is_vm (some pod) = pod.sandbox

unfoldable pub each : (Bytes → Effect) → List Bytes → List Effect
each f [] = []
each f (p ∷ ps) = f p ∷ each f ps

abbrev pub Outcome : Type 0
Outcome = List Effect × Bool

abbrev pub then_do : List Effect → Outcome → Outcome
then_do done r = (done ++ r.0, r.1)

abbrev pub starts_with_slash : Bytes → Bool
starts_with_slash [] = false
starts_with_slash (c ∷ _) = c == b'/'

-- cc_oci_state_file_delete of src/state.c and cc_oci_runtime_dir_delete of src/runtime.c.
unfoldable pub delete_files : Config → StopAnswers → Outcome
delete_files config a =
    if not a.state_file_unlinked
    then ([], false)
    else if not (starts_with_slash config.runtime_path && a.runtime_dir_deleted)
    then (deleted_state_file ∷ [], false)
    else (deleted_state_file ∷ deleted_runtime_dir ∷ [], true)

-- What was done to the mounts, whether a call failed or not.
unfoldable pub mount_effects : Unmounting → List Effect
unfolding each
mount_effects u = each called_umount u.unmounted ++ each called_rm_rf u.removed

unfoldable pub after_unmounts : Config → StopAnswers → Unmounting → Outcome
unfolding mount_effects delete_files
after_unmounts config a u =
    if u.result then then_do (mount_effects u) (delete_files config a) else (mount_effects u, false)

unfoldable pub oci_cleanup : Config → StopAnswers → Outcome
unfolding after_unmounts
oci_cleanup config a = after_unmounts config a (handle_unmounts a.umount config.mounts)

-- From the update of the config on.
unfoldable pub finish_stop : Config → StopAnswers → Outcome
unfolding oci_cleanup pod_is_vm
finish_stop config a =
    let cleanup = then_do (ran_poststop ∷ []) (oci_cleanup config a) in
    if not (pod_is_vm config.pod)
    then cleanup
    else if a.bye_answered
    then then_do (said_bye ∷ []) cleanup
    else ([], false)

unfoldable pub oci_stop : Config → OciState → StopAnswers → Outcome
unfolding finish_stop vm_running config_update
oci_stop config state a =
    let rest = finish_stop (config_update config state).0 a in
    if not (vm_running state.vm a.vm_found)
    then rest
    else if a.pod_destroyed
    then then_do (destroyed_pod ∷ []) rest
    else ([], false)
