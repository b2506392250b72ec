-- ===== src/Mounts/Mounting.antt =====
-- cc_oci_handle_mounts and cc_oci_perform_mount of src/mount.c, and cc_oci_get_workload_dir of
-- src/oci.c. The file system is a parameter: its states, and the calls of the system and of GLib.
use cc_oci_runtime.Prelude.{
  Bool, true, false, Option, none, some, List, [], ◌∷◌, ◌++◌, ◌==◌, if◌then◌else◌, Bytes, codes,
}
use cc_oci_runtime.Container.Types.{Mount, Config, fit_path}
use cc_oci_runtime.Mounts.{mount_ignore}

-- What stat (2) says of a path that is there.
pub data FileKind : Type 0 where
  directory regular other_kind : FileKind

-- The calls that change the file system tell whether they have succeeded. `mount_at` is given the
-- mount with its destination; `path_get_dirname` is g_path_get_dirname.
pub record FileSystem (F : Type 0) : Type 0 where
  pub stat : F → Bytes → Option FileKind
  pub mkdir_with_parents : F → Bytes → F × Bool
  pub creat : F → Bytes → F × Bool
  pub mount_at : F → Mount → F × Bool
  pub path_get_dirname : Bytes → Bytes

abbrev pub is_directory : Option FileKind → Bool
is_directory (some directory) = true
is_directory _ = false

-- The parts of a path before its slashes, the longest first.
unfoldable pub before_slashes : Bytes → Bytes → List Bytes
before_slashes before [] = []
before_slashes before (c ∷ s) =
    let rest = before_slashes (before ++ c ∷ []) s in
    if c == b'/' then rest ++ before ∷ [] else rest

unfoldable pub first_parent : (Bytes → Bool) → Bytes → List Bytes → Option Bytes
first_parent is_dir path [] = none
first_parent is_dir path (p ∷ ps) =
    let rest = first_parent is_dir p ps in if is_dir p then some path else rest

abbrev pub starts_with_slash : Bytes → Bool
starts_with_slash [] = false
starts_with_slash (c ∷ _) = c == b'/'

-- What becomes of a mount, and whether the loop goes on.
abbrev pub Mounted : Type 0 → Type 0
Mounted F = F × Mount × Bool

unfoldable pub get_workload_dir : Config → Bytes
get_workload_dir config = elim config.pod [
  | none ↦ config.root_path
  | some pod ↦ pod.sandbox_workloads
]

-- printf writes a NULL path as (null).
abbrev pub dir_text : Option Bytes → Bytes
dir_text none = codes "(null)"
dir_text (some dir) = dir

abbrev pub with_dest : Bytes → Mount → Mount
with_dest workload_dir m = record m { dest = fit_path (workload_dir ++ dir_text m.mnt_dir) }

module _ {F : Type 0} (fs : FileSystem F) where
  -- `source` is `mnt_fsname`.
  unfoldable pub perform_mount : Bool → Bytes → F → Mount → F × Bool
  perform_mount dry_run source f m = if dry_run then (f, true) else elim (fs.stat f source) [
    | none ↦ (f, false)
    | some kind ↦ elim kind [
      | regular ↦
          let (f', made) = fs.creat f m.dest in if made then fs.mount_at f' m else (f', false)
      | directory ↦ fs.mount_at f m
      | other_kind ↦ fs.mount_at f m
    ]
  ]

  -- From the choice of the directory to create on.
  unfoldable pub mount_on : Bool → Bytes → Bytes → F → Mount → Mounted F
  unfolding perform_mount before_slashes first_parent
  mount_on dry_run source dirname_dest f m =
      let is_dir : Bytes → Bool = λ path. is_directory (fs.stat f path) in
      let made : Mount =
        if is_dir dirname_dest
        then m
        else elim (first_parent is_dir dirname_dest (before_slashes [] dirname_dest)) [
          | none ↦ m
          | some path ↦ record m { directory_created = some path }
        ] in
      let (f', created) = fs.mkdir_with_parents f dirname_dest in
      if created
      then (let (f'', done) = perform_mount dry_run source f' made in (f'', made, done))
      else (f', made, false)

  -- A mount with its destination set. A source that is an absolute path has to be there.
  unfoldable pub mount_source : Bool → Bytes → F → Mount → Mounted F
  unfolding mount_on
  mount_source dry_run source f m =
      if starts_with_slash source
      then elim (fs.stat f source) [
        | none ↦ (f, m, true)
        | some kind ↦
            mount_on dry_run source
              (if is_directory (some kind) then m.dest else fs.path_get_dirname m.dest) f m
      ]
      else mount_on dry_run source m.dest f m

  -- A mount has a source: the handler of the config file and the pods see to that.
  unfoldable pub handle_mount : Bool → Bytes → F → Mount → Mounted F
  unfolding mount_source mount_ignore
  handle_mount dry_run workload_dir f m =
      let (m', ignored) = mount_ignore m in
      if ignored then (f, m', true) else elim m.mnt_fsname [
        | none ↦ (f, with_dest workload_dir m, false)
        | some source ↦ mount_source dry_run source f (with_dest workload_dir m)
      ]

  unfoldable pub handle_mounts : Bool → Bytes → F → List Mount → F × List Mount × Bool
  unfolding handle_mount
  handle_mounts dry_run workload_dir f [] = (f, [], true)
  handle_mounts dry_run workload_dir f (m ∷ ms) =
      let (f', m', on) = handle_mount dry_run workload_dir f m in
      let (f'', ms', ok) = handle_mounts dry_run workload_dir f' ms in
      if on then (f'', m' ∷ ms', ok) else (f', m' ∷ ms, false)
