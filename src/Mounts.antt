-- ===== src/Mounts.antt =====
-- src/mount.c: which mounts are left to the virtual machine, and undoing the others. The answers of
-- umount (2), by path, are an argument; what was called is recorded in order.
pub mod Unmount
pub mod Section
pub mod Asked
pub mod Mounting
pub mod Missing
use cc_oci_runtime.Prelude.{
  Bool, true, false, ◌||◌, Option, none, some, List, [], ◌∷◌, if◌then◌else◌, Bytes, codes, str_eq,
}
use cc_oci_runtime.Container.Types.{Mount}

-- The calls of umount, the directories given to cc_oci_rm_rf, and the verdict.
pub record Unmounting : Type 0 where
  pub unmounted : List Bytes
  pub removed : List Bytes
  pub result : Bool

-- The first loop: the paths given to umount, up to the first that fails, and whether all went well.
unfoldable pub unmount_all : (Bytes → Bool) → List Mount → List Bytes × Bool
unmount_all umount [] = ([], true)
unmount_all umount (m ∷ ms) =
    let rest = unmount_all umount ms in
    if m.ignore_mount
    then rest
    else if umount m.dest
    then (m.dest ∷ rest.0, rest.1)
    else (m.dest ∷ [], false)

abbrev pub add_directory : Option Bytes → List Bytes → List Bytes
add_directory none dirs = dirs
add_directory (some dir) dirs = dir ∷ dirs

-- The second loop. A directory that cannot be deleted is only reported.
unfoldable pub created_directories : List Mount → List Bytes
created_directories [] = []
created_directories (m ∷ ms) =
    let rest = created_directories ms in
    if m.ignore_mount then rest else add_directory m.directory_created rest

unfoldable pub handle_unmounts : (Bytes → Bool) → List Mount → Unmounting
unfolding unmount_all created_directories
handle_unmounts umount ms =
    let (calls, ok) = unmount_all umount ms in
    if ok
    then record { unmounted = calls; removed = created_directories ms; result = true }
    else record { unmounted = calls; removed = []; result = false }

-- The directories of `cc_oci_mounts_to_ignore`; its other fields are NULL.
abbrev pub mounts_to_ignore : List Bytes
mounts_to_ignore =
    codes "/proc"
    ∷ codes "/dev"
    ∷ codes "/dev/pts"
    ∷ codes "/dev/shm"
    ∷ codes "/dev/mqueue"
    ∷ codes "/sys"
    ∷ codes "/sys/fs/cgroup"
    ∷ []

unfoldable pub is_one_of : Option Bytes → List Bytes → Bool
is_one_of none dirs = false
is_one_of (some dir) [] = false
is_one_of (some dir) (d ∷ dirs) = str_eq d dir || is_one_of (some dir) dirs

unfoldable pub mount_ignore : Mount → Mount × Bool
unfolding is_one_of
mount_ignore m =
    if is_one_of m.mnt_dir mounts_to_ignore
    then (record m { ignore_mount = true }, true)
    else (m, false)
