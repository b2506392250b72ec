-- ===== src/Mounts/Unmount.antt =====
-- Undoing the mounts of a container, from its config or from its state file.
use cc_oci_runtime.Prelude.{
  ◌≡◌, refl, Bool, true, false, ◌⊎◌, inl, inr, Option, none, some, List, [], ◌∷◌, if◌then◌else◌,
  Bytes, Bool-cases, All, arith,
}
use cc_oci_runtime.Container.Types.{Mount}
use cc_oci_runtime.StateFile.RecallMounts.{mounted}
use cc_oci_runtime.Mounts.{
  add_directory, Unmounting, unmount_all, created_directories, handle_unmounts,
}

unmount_all-mounted :
    (umount : Bytes → Bool) (ms : List Mount)
    → unmount_all umount (mounted ms) ≡ unmount_all umount ms
unfolding unmount_all mounted
unmount_all-mounted umount [] = refl
unmount_all-mounted umount (m ∷ ms) = elim (Bool-cases m.ignore_mount) [
  | inl skipped ↦ rw skipped (unmount_all-mounted umount ms)
  | inr done ↦ rw done (rw (unmount_all-mounted umount ms) refl)
]

created_directories-mounted :
    (ms : List Mount) → created_directories (mounted ms) ≡ created_directories ms
unfolding created_directories mounted
created_directories-mounted [] = refl
created_directories-mounted (m ∷ ms) = elim (Bool-cases m.ignore_mount) [
  | inl skipped ↦ rw skipped (created_directories-mounted ms)
  | inr done ↦ rw done (rw (created_directories-mounted ms) refl)
]

-- Undoing the mounts that the state file gives back does the same as undoing those of the config that
-- was written: the same calls of umount in the same order, the same directories and the same verdict.
pub handle_unmounts-mounted :
    (umount : Bytes → Bool) (ms : List Mount)
    → handle_unmounts umount (mounted ms) ≡ handle_unmounts umount ms
unfolding handle_unmounts
handle_unmounts-mounted umount ms =
    rw (unmount_all-mounted umount ms) (rw (created_directories-mounted ms) refl)

-- The paths of the mounts that were done.
unfoldable pub done_paths : List Mount → List Bytes
done_paths [] = []
done_paths (m ∷ ms) = let rest = done_paths ms in if m.ignore_mount then rest else m.dest ∷ rest

-- All paths up to the first that fails.
pub data StopsAt (umount : Bytes → Bool) : List Bytes → List Bytes → Type 0 where
  here : (p : Bytes) (ps : List Bytes) → umount p ≡ false → StopsAt umount (p ∷ ps) (p ∷ [])
  there :
      (p : Bytes) (ps calls : List Bytes)
      → umount p ≡ true
      → StopsAt umount ps calls
      → StopsAt umount (p ∷ ps) (p ∷ calls)

-- The directories that were created for the mounts that were done, in the order of the mounts.
pub data CreatedFor : List Mount → List Bytes → Type 0 where
  no_more : CreatedFor [] []
  not_done :
      (m : Mount) (ms : List Mount) (dirs : List Bytes)
      → m.ignore_mount ≡ true
      → CreatedFor ms dirs
      → CreatedFor (m ∷ ms) dirs
  was_there :
      (m : Mount) (ms : List Mount) (dirs : List Bytes)
      → m.directory_created ≡ none
      → CreatedFor ms dirs
      → CreatedFor (m ∷ ms) dirs
  was_created :
      (m : Mount) (ms : List Mount) (dir : Bytes) (dirs : List Bytes)
      → m.ignore_mount ≡ false
      → m.directory_created ≡ some dir
      → CreatedFor ms dirs
      → CreatedFor (m ∷ ms) (dir ∷ dirs)

created_directories-CreatedFor : (ms : List Mount) → CreatedFor ms (created_directories ms)
unfolding created_directories
created_directories-CreatedFor [] = no_more
created_directories-CreatedFor (m ∷ ms) =
    by_mount m.ignore_mount m.directory_created refl refl (created_directories-CreatedFor ms)
  where
    by_mount :
        (ignored : Bool) (o : Option Bytes)
        → m.ignore_mount ≡ ignored
        → m.directory_created ≡ o
        → {dirs : List Bytes} → CreatedFor ms dirs
        → CreatedFor (m ∷ ms) (if ignored then dirs else add_directory o dirs)
    by_mount true o e h {dirs} c = not_done m ms dirs e c
    by_mount false none e h {dirs} c = was_there m ms dirs h c
    by_mount false (some dir) e h {dirs} c = was_created m ms dir dirs e h c

-- There is one such list.
pub CreatedFor-eq :
    (ms : List Mount) (dirs : List Bytes) → CreatedFor ms dirs → dirs ≡ created_directories ms
unfolding created_directories
CreatedFor-eq _ _ no_more = refl
CreatedFor-eq _ _ (not_done m ms dirs e c) = ground (arith, CreatedFor-eq ms dirs c)
CreatedFor-eq _ _ (was_there m ms dirs h c) = ground (arith, CreatedFor-eq ms dirs c)
CreatedFor-eq _ _ (was_created m ms dir dirs e h c) = ground (arith, CreatedFor-eq ms dirs c)

-- The two ways in which undoing mounts ends.
pub data Ends (umount : Bytes → Bool) (ms : List Mount) : Unmounting → Type 0 where
  all_done :
      (dirs : List Bytes)
      → All (λ p. umount p ≡ true) (done_paths ms)
      → CreatedFor ms dirs
      → Ends umount ms (record { unmounted = done_paths ms; removed = dirs; result = true })
  stopped :
      (calls : List Bytes)
      → StopsAt umount (done_paths ms) calls
      → Ends umount ms (record { unmounted = calls; removed = []; result = false })

unmount_all-cases :
    (umount : Bytes → Bool) (ms : List Mount)
    → ((unmount_all umount ms ≡ (done_paths ms, true)) × All (λ p. umount p ≡ true) (done_paths ms))
      ⊎ ((calls : List Bytes) × (unmount_all umount ms ≡ (calls, false))
          × StopsAt umount (done_paths ms) calls)
unfolding unmount_all done_paths
unmount_all-cases umount [] = inl (refl, tt)
unmount_all-cases umount (m ∷ ms) = elim (Bool-cases m.ignore_mount) [
  | inl skipped ↦ rw skipped (unmount_all-cases umount ms)
  | inr mount_done ↦ rw mount_done (elim (Bool-cases (umount m.dest)) [
    | inr failed ↦ inr (m.dest ∷ [], rw failed refl, here m.dest (done_paths ms) failed)
    | inl well ↦ elim (unmount_all-cases umount ms) [
      | inl (e, all) ↦ inl (rw well (rw e refl), (well, all))
      | inr (calls, e, stops) ↦
          inr (m.dest ∷ calls, rw well (rw e refl), there m.dest (done_paths ms) calls well stops)
    ]
  ])
]

-- Undoing the mounts of a container calls umount for each mount that was done, in order, up to the
-- first that fails. If none fails, the directories that were created for them are removed, in order;
-- if one fails, no directory is removed.
pub handle_unmounts-Ends :
    (umount : Bytes → Bool) (ms : List Mount) → Ends umount ms (handle_unmounts umount ms)
unfolding handle_unmounts
handle_unmounts-Ends umount ms = elim (unmount_all-cases umount ms) [
  | inl (e, all) ↦ rw e (all_done (created_directories ms) all (created_directories-CreatedFor ms))
  | inr (calls, e, stops) ↦ rw e (stopped calls stops)
]
