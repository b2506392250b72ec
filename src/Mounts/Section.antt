-- ===== src/Mounts/Section.antt =====
-- src/spec_handlers/mounts.c: the mounts of a container's config file.
use Prim.Native.Nat.{bit_or}
use cc_oci_runtime.Prelude.{
  ℕ, ◌^◌, Bool, true, false, not, Option, none, some, List, [], ◌∷◌, ◌++◌, ◌==◌, if◌then◌else◌,
  Bytes, codes, str_eq,
}
use cc_oci_runtime.Container.Types.{Mount}
use cc_oci_runtime.StateFile.Json.{Node, Nodes, node, nil, cons, foreach}

abbrev ms_bind : ℕ
ms_bind = 2 ^ 12

abbrev ms_rec : ℕ
ms_rec = 2 ^ 14

abbrev ms_private : ℕ
ms_private = 2 ^ 18

abbrev ms_slave : ℕ
ms_slave = 2 ^ 19

abbrev ms_shared : ℕ
ms_shared = 2 ^ 20

-- The entries above the terminator, with the values of the Linux kernel.
unfoldable pub mnt_flag_map : List (Bytes × ℕ)
mnt_flag_map =
    (codes "bind", ms_bind)
    ∷ (codes "dirsync", 2 ^ 7)
    ∷ (codes "mandlock", 2 ^ 6)
    ∷ (codes "move", 2 ^ 13)
    ∷ (codes "noatime", 2 ^ 10)
    ∷ (codes "nodev", 2 ^ 2)
    ∷ (codes "nodiratime", 2 ^ 11)
    ∷ (codes "noexec", 2 ^ 3)
    ∷ (codes "nosuid", 2 ^ 1)
    ∷ (codes "ro", 2 ^ 0)
    ∷ (codes "relatime", 2 ^ 21)
    ∷ (codes "remount", 2 ^ 5)
    ∷ (codes "silent", 2 ^ 15)
    ∷ (codes "strictatime", 2 ^ 24)
    ∷ (codes "sync", 2 ^ 4)
    ∷ (codes "rbind", bit_or ms_bind ms_rec)
    ∷ (codes "rprivate", bit_or ms_private ms_rec)
    ∷ (codes "private", ms_private)
    ∷ (codes "rslave", bit_or ms_slave ms_rec)
    ∷ (codes "slave", ms_slave)
    ∷ (codes "rshared", bit_or ms_shared ms_rec)
    ∷ (codes "shared", ms_shared)
    ∷ []

find_flag : Bytes → List (Bytes × ℕ) → ℕ
find_flag flag [] = 0
find_flag flag ((name, value) ∷ rest) = if str_eq name flag then value else find_flag flag rest

unfoldable pub mount_get_flag_value : Bytes → ℕ
unfolding find_flag mnt_flag_map
mount_get_flag_value flag = find_flag flag mnt_flag_map

-- The flags of the mount, and the text of the other options so far, each followed by a comma.
abbrev pub Options : Type 0
Options = ℕ × Bytes

-- printf writes a NULL name as (null).
unfoldable pub handle_options_section : Node → Options → Options
unfolding mount_get_flag_value
handle_options_section (node none _) (flags, mount_flags) = (flags, mount_flags ++ codes "(null),")
handle_options_section (node (some name) _) (flags, mount_flags) =
    let flag = mount_get_flag_value name in
    if flag == 0
    then (flags, mount_flags ++ (name ++ b',' ∷ []))
    else (bit_or flags flag, mount_flags)

-- The variables of the file, with the list of the config.
pub record MountsSection : Type 0 where
  pub mounts : List Mount
  pub current_mount : Option Mount
  pub error_detected : Bool

abbrev pub is_complete : Mount → Bool
is_complete m = elim m.mnt_dir [
  | none ↦ false
  | some _ ↦ elim m.mnt_type [
    | none ↦ false
    | some _ ↦ elim m.mnt_fsname [ none ↦ false | some _ ↦ true ]
  ]
]

unfoldable pub save_current_mount : MountsSection → MountsSection
save_current_mount s = elim s.current_mount [
  | none ↦ s
  | some m ↦
      if is_complete m
      then record s { mounts = s.mounts ++ m ∷ []; current_mount = none }
      else record s { current_mount = none; error_detected = true }
]

abbrev pub blank_mount : Mount
blank_mount = record {
  flags = 0;
  mnt_fsname = none;
  mnt_dir = none;
  mnt_type = none;
  mnt_opts = none;
  dest = [];
  ignore_mount = false;
  directory_created = none;
}

abbrev pub mount_or_new : Option Mount → Mount
mount_or_new none = blank_mount
mount_or_new (some m) = m

-- g_string_truncate by one.
unfoldable pub drop_last : Bytes → Bytes
drop_last [] = []
drop_last (c ∷ []) = []
drop_last (c ∷ d ∷ s) = c ∷ drop_last (d ∷ s)

abbrev pub opts_of : Bytes → Option Bytes → Option Bytes
opts_of [] old = old
opts_of (c ∷ s) old = some (drop_last (c ∷ s))

abbrev pub with_options : Mount → Options → Mount
with_options m (flags, mount_flags) = record m {
  flags = flags;
  mnt_opts = opts_of mount_flags m.mnt_opts;
}

-- What a member of a mount, which has children, makes of it.
unfoldable pub mount_member : Bytes → Option Bytes → Nodes → Mount → Mount
unfolding handle_options_section drop_last
mount_member name child nodes m =
    if str_eq name (codes "destination")
    then record m { mnt_dir = child }
    else if str_eq name (codes "type")
    then record m { mnt_type = child }
    else if str_eq name (codes "source")
    then record m { mnt_fsname = child }
    else if str_eq name (codes "options")
    then with_options m (foreach handle_options_section nodes (m.flags, []))
    else m

unfoldable pub handle_mounts_section : Node → MountsSection → MountsSection
unfolding save_current_mount mount_member
handle_mounts_section (node none ns) s = if s.error_detected then s else save_current_mount s
handle_mounts_section (node (some name) nil) s = s
handle_mounts_section (node (some name) (cons (node child below) ns)) s =
    if s.error_detected then s else record s {
      current_mount =
          some
            (mount_member name child (cons (node child below) ns) (mount_or_new s.current_mount));
    }

abbrev pub finish_mounts : MountsSection → List Mount × Bool
finish_mounts s =
    if s.error_detected
    then (s.mounts, false)
    else (let saved = save_current_mount s in (saved.mounts, not saved.error_detected))

-- The mounts of the config, and the verdict. Mounts that are there already are left alone.
unfoldable pub mounts_handle_section : Node → List Mount → List Mount × Bool
unfolding handle_mounts_section
mounts_handle_section (node name nodes) (m ∷ ms) = (m ∷ ms, true)
mounts_handle_section (node name nodes) [] = finish_mounts (
    foreach handle_mounts_section nodes
      (record { mounts = []; current_mount = none; error_detected = false }))
