-- ===== src/Mounts/Missing.antt =====
-- What becomes of a mount whose source is not there.
use cc_oci_runtime.Prelude.{
  ◌≡◌, refl, ap, ◌∙◌, Bool, true, false, Option, none, some, List, [], ◌∷◌, ◌++◌, if◌then◌else◌,
  Bytes,
}
use mathlib.Core.Bool.{false≢true}
use cc_oci_runtime.Container.Types.{Mount}
use cc_oci_runtime.Mounts.{
  Unmounting, mount_ignore, unmount_all, created_directories, handle_unmounts,
}
use cc_oci_runtime.Mounts.Mounting.{
  FileKind, FileSystem, Mounted, is_directory, starts_with_slash, mount_on, with_dest, mount_source,
  handle_mount, handle_mounts,
}

-- A list of mounts that cannot all be undone.
abbrev Stuck : (Bytes → Bool) → List Mount → Type 0
Stuck umount ms = (unmount_all umount ms).1 ≡ false

Stuck-cons :
    (umount : Bytes → Bool) (m : Mount) (ms : List Mount) → Stuck umount ms → Stuck umount (m ∷ ms)
unfolding unmount_all
Stuck-cons umount m ms h = go m.ignore_mount (umount m.dest)
  where
    go :
        (b c : Bool)
        → (if b
            then unmount_all umount ms
            else if c
            then (m.dest ∷ (unmount_all umount ms).0, (unmount_all umount ms).1)
            else (m.dest ∷ [], false)).1
          ≡ false
    go true c = h
    go false true = h
    go false false = refl

Stuck-head :
    (umount : Bytes → Bool) (m : Mount) (ms : List Mount)
    → m.ignore_mount ≡ false
    → umount m.dest ≡ false
    → Stuck umount (m ∷ ms)
unfolding unmount_all
Stuck-head umount m ms h k =
    ap
      (λ b.
        (if◌then◌else◌ {A = List Bytes × Bool} b (unmount_all umount ms) (
          if umount m.dest
          then (m.dest ∷ (unmount_all umount ms).0, (unmount_all umount ms).1)
          else (m.dest ∷ [], false))).1)
      h
    ∙ ap
        (λ c.
          (if◌then◌else◌ {A = List Bytes × Bool} c
            (m.dest ∷ (unmount_all umount ms).0, (unmount_all umount ms).1) (m.dest ∷ [], false)).1)
        k

-- A mount whose source is an absolute path that is never there.
pub record IsMissing {F : Type 0} (fs : FileSystem F) (m : Mount) : Type 0 where
  pub source : Bytes
  pub has_source : m.mnt_fsname ≡ some source
  pub absolute : starts_with_slash source ≡ true
  pub never_there : (f : F) → fs.stat f source ≡ none
  pub not_ignored : m.ignore_mount ≡ false
  pub kept : (mount_ignore m).1 ≡ false

Stuck-result :
    (umount : Bytes → Bool) (ms : List Mount)
    → Stuck umount ms
    → (handle_unmounts umount ms).result ≡ false
unfolding handle_unmounts
Stuck-result umount ms h =
    ap
      (λ b.
        (if◌then◌else◌ {A = Unmounting} b
          (record {
            unmounted = (unmount_all umount ms).0;
            removed = created_directories ms;
            result = true;
          })
          (record { unmounted = (unmount_all umount ms).0; removed = []; result = false })).result)
      h

module _ {F : Type 0} (fs : FileSystem F) where
  -- The loop after a mount.
  abbrev onward : Bool → Bytes → List Mount → Mounted F → F × List Mount × Bool
  onward dry_run workload_dir ms (f', m', on) =
      let (f'', ms', ok) = handle_mounts fs dry_run workload_dir f' ms in
      if on then (f'', m' ∷ ms', ok) else (f', m' ∷ ms, false)

  handle_mount-missing :
      (dry_run : Bool) (workload_dir : Bytes) (f : F) (m : Mount)
      → IsMissing fs m
      → handle_mount fs dry_run workload_dir f m ≡ (f, with_dest workload_dir m, true)
  unfolding handle_mount mount_source
  handle_mount-missing dry_run workload_dir f m h =
      let m' = with_dest workload_dir m in
      let on : Option Bytes → Mounted F =
        λ o. elim o [ none ↦ (f, m', false) | some source ↦ mount_source fs dry_run source f m' ] in
      let sourced : Bool → Mounted F = λ b.
        if b
        then elim (fs.stat f h.source) [
          | none ↦ (f, m', true)
          | some kind ↦
              mount_on fs dry_run h.source
                (if is_directory (some kind) then m'.dest else fs.path_get_dirname m'.dest) f m'
        ]
        else mount_on fs dry_run h.source m'.dest f m' in
      let found : Option FileKind → Mounted F = λ o. elim o [
        | none ↦ (f, m', true)
        | some kind ↦
            mount_on fs dry_run h.source
              (if is_directory (some kind) then m'.dest else fs.path_get_dirname m'.dest) f m'
      ] in
      let checked : Bool → Mounted F =
        λ b. if b then (f, (mount_ignore m).0, true) else on m.mnt_fsname in
      ap checked h.kept ∙ ap on h.has_source ∙ ap sourced h.absolute ∙ ap found (h.never_there f)

  handle_mounts-Stuck :
      (umount : Bytes → Bool) (dry_run : Bool) (workload_dir : Bytes) (f : F)
      (before rest : List Mount) (m : Mount)
      → IsMissing fs m
      → umount (with_dest workload_dir m).dest ≡ false
      → (handle_mounts fs dry_run workload_dir f (before ++ (m ∷ rest))).2 ≡ true
      → Stuck umount (handle_mounts fs dry_run workload_dir f (before ++ (m ∷ rest))).1
  unfolding handle_mounts
  handle_mounts-Stuck umount dry_run workload_dir f [] rest m h k e =
      ap (λ r. (unmount_all umount (onward dry_run workload_dir rest r).1).1)
        (handle_mount-missing dry_run workload_dir f m h)
      ∙ Stuck-head umount (with_dest workload_dir m)
          (handle_mounts fs dry_run workload_dir f rest).1 h.not_ignored k
  handle_mounts-Stuck umount dry_run workload_dir f (x ∷ before) rest m h k e =
      after_first (handle_mount fs dry_run workload_dir f x)
        (λ f'. handle_mounts-Stuck umount dry_run workload_dir f' before rest m h k) e
    where
      after_first :
          (r : Mounted F)
          → ((f' : F)
              → (handle_mounts fs dry_run workload_dir f' (before ++ (m ∷ rest))).2 ≡ true
              → Stuck umount (handle_mounts fs dry_run workload_dir f' (before ++ (m ∷ rest))).1)
          → (onward dry_run workload_dir (before ++ (m ∷ rest)) r).2 ≡ true
          → Stuck umount (onward dry_run workload_dir (before ++ (m ∷ rest)) r).1
      after_first (f', x', true) later e =
          Stuck-cons umount x' (handle_mounts fs dry_run workload_dir f' (before ++ (m ∷ rest))).1
            (later f' e)
      after_first (f', x', false) later e = absurd (false≢true e)

  -- A mount whose source is an absolute path that is never there is passed over, and yet counts as
  -- done: when the destination, at which nothing was mounted, cannot be unmounted, the unmounts of the
  -- list fail, whatever the other mounts are, if setting them up has succeeded.
  pub handle_unmounts-handle_mounts_missing :
      (umount : Bytes → Bool) (dry_run : Bool) (workload_dir : Bytes) (f : F)
      (before rest : List Mount) (m : Mount)
      → IsMissing fs m
      → umount (with_dest workload_dir m).dest ≡ false
      → (handle_mounts fs dry_run workload_dir f (before ++ (m ∷ rest))).2 ≡ true
      → (handle_unmounts umount
          (handle_mounts fs dry_run workload_dir f (before ++ (m ∷ rest))).1).result
        ≡ false
  unfolding handle_unmounts
  handle_unmounts-handle_mounts_missing umount dry_run workload_dir f before rest m h k e =
      Stuck-result umount (handle_mounts fs dry_run workload_dir f (before ++ (m ∷ rest))).1
        (handle_mounts-Stuck umount dry_run workload_dir f before rest m h k e)
