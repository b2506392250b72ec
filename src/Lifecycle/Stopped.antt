-- ===== src/Lifecycle/Stopped.antt =====
-- What a successful cc_oci_stop has done.
use mathlib.Core.Bool.{false≢true}
use cc_oci_runtime.Prelude.{
  ◌≡◌, sym, ap, ◌∙◌, true, false, ◌&&◌, inl, inr, List, [], ◌∷◌, ◌++◌, Bool-cases, All,
}
use cc_oci_runtime.Container.Types.{Mount, Config, OciState}
use cc_oci_runtime.Mounts.{Unmounting, created_directories}
use cc_oci_runtime.Mounts.Unmount.{
  CreatedFor-eq, done_paths, Ends, all_done, stopped, handle_unmounts-Ends,
}
use cc_oci_runtime.Lifecycle.Update.{config_update}
use cc_oci_runtime.Lifecycle.Stop.{
  Effect, destroyed_pod, said_bye, ran_poststop, deleted_state_file, deleted_runtime_dir,
  called_umount, called_rm_rf, StopAnswers, vm_running, pod_is_vm, each, Outcome, then_do,
  starts_with_slash, delete_files, mount_effects, after_unmounts, oci_cleanup, finish_stop,
  oci_stop,
}

then_do-true :
    (done e : List Effect) (r : Outcome)
    → then_do done r ≡ (e, true)
    → (e' : List Effect) × (r ≡ (e', true)) × (e ≡ done ++ e')
then_do-true done e (e', b) h = (e', ap (λ z. (e', z.1)) h, sym (ap (λ z. z.0) h))

never_done : {d e : List Effect} → ¬ Path Outcome (d, false) (e, true)
never_done h = false≢true (ap (λ z. z.1) h)

delete_files-true :
    (config : Config) (a : StopAnswers) (e : List Effect)
    → delete_files config a ≡ (e, true)
    → e ≡ deleted_state_file ∷ deleted_runtime_dir ∷ []
unfolding delete_files
delete_files-true config a e h = elim (Bool-cases a.state_file_unlinked) [
  | inr u ↦ absurd (never_done (rw (u, delete_files) at h))
  | inl u ↦ elim (Bool-cases (starts_with_slash config.runtime_path && a.runtime_dir_deleted)) [
    | inr d ↦ absurd (never_done (rw (u, d, delete_files) at h))
    | inl d ↦ sym (ap (λ z. z.0) (rw (u, d, delete_files) at h))
  ]
]

-- All that a cleanup does.
abbrev pub full_cleanup : List Mount → List Effect
full_cleanup ms =
    (each called_umount (done_paths ms) ++ each called_rm_rf (created_directories ms))
    ++ (deleted_state_file ∷ deleted_runtime_dir ∷ [])

after_unmounts-true :
    (config : Config) (a : StopAnswers) (ms : List Mount) (u : Unmounting) (e : List Effect)
    → Ends a.umount ms u
    → after_unmounts config a u ≡ (e, true)
    → All (λ p. a.umount p ≡ true) (done_paths ms) × (e ≡ full_cleanup ms)
unfolding after_unmounts mount_effects
after_unmounts-true config a ms _ e (stopped calls s) h = absurd (never_done h)
after_unmounts-true config a ms _ e (all_done dirs all made) h =
    let (e', r, q) = then_do-true _ e (delete_files config a) h in
    (
      all,
      q
          ∙ ap (λ z. (each called_umount (done_paths ms) ++ each called_rm_rf z) ++ e')
              (CreatedFor-eq ms dirs made)
          ∙ ap
              (λ z.
                (each called_umount (done_paths ms) ++ each called_rm_rf (created_directories ms))
                ++ z)
              (delete_files-true config a e' r),
    )

finish_stop-true :
    (config : Config) (a : StopAnswers) (e : List Effect)
    → finish_stop config a ≡ (e, true)
    → All (λ p. a.umount p ≡ true) (done_paths config.mounts)
      × ((first : List Effect) × (e ≡ first ++ (ran_poststop ∷ full_cleanup config.mounts)))
unfolding finish_stop oci_cleanup
finish_stop-true config a e h =
    let ms = config.mounts in
    let cleaned : (e : List Effect)
        → then_do (ran_poststop ∷ []) (oci_cleanup config a) ≡ (e, true)
        → All (λ p. a.umount p ≡ true) (done_paths ms) × (e ≡ ran_poststop ∷ full_cleanup ms) =
      λ e h.
        let (e', r, q) = then_do-true (ran_poststop ∷ []) e (oci_cleanup config a) h in
        let (all, same) =
          after_unmounts-true config a ms _ e' (handle_unmounts-Ends a.umount ms) r in
        (all, q ∙ ap (◌∷◌ ran_poststop) same) in
    elim (Bool-cases (pod_is_vm config.pod)) [
      | inr member ↦
          let (all, same) = cleaned e (rw (member, finish_stop) at h) in (all, ([], same))
      | inl whole ↦ elim (Bool-cases a.bye_answered) [
        | inr no_answer ↦ absurd (never_done (rw (whole, no_answer, finish_stop) at h))
        | inl answer ↦
            let (e', r, q) =
              then_do-true (said_bye ∷ []) e _ (rw (whole, answer, finish_stop) at h) in
            let (all, same) = cleaned e' r in (all, (said_bye ∷ [], q ∙ ap (◌∷◌ said_bye) same))
      ]
    ]

-- A stop that succeeds has undone all mounts that were done, of the config that it has updated from
-- the state: whatever came before, it ran the hooks, then called umount on each of these mounts in
-- order and no call failed, then removed the directories that were created for them, then deleted
-- the state file and last the runtime directory.
pub oci_stop_complete :
    (config : Config) (state : OciState) (a : StopAnswers) (e : List Effect)
    → oci_stop config state a ≡ (e, true)
    → All (λ p. a.umount p ≡ true) (done_paths (config_update config state).0.mounts)
      × ((first : List Effect) × (e
            ≡ first ++ (ran_poststop ∷ full_cleanup (config_update config state).0.mounts)))
unfolding oci_stop
oci_stop_complete config state a e h =
    let c = (config_update config state).0 in
    elim (Bool-cases (vm_running state.vm a.vm_found)) [
      | inr gone ↦ finish_stop-true c a e (rw (gone, oci_stop) at h)
      | inl runs ↦ elim (Bool-cases a.pod_destroyed) [
        | inr kept ↦ absurd (never_done (rw (runs, kept, oci_stop) at h))
        | inl destroyed ↦
            let (e', r, q) =
              then_do-true (destroyed_pod ∷ []) e _ (rw (runs, destroyed, oci_stop) at h) in
            let (all, (first, same)) = finish_stop-true c a e' r in
            (all, (destroyed_pod ∷ first, q ∙ ap (◌∷◌ destroyed_pod) same))
      ]
    ]
