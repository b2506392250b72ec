-- ===== src/StateFile/RecallMounts.antt =====
-- What the handlers make of the mounts that `cc_oci_state_file_create` writes.
use cc_oci_runtime.Prelude.{
  ◌≡◌, refl, sym, ap, ◌∙◌, true, false, ◌⊎◌, inl, inr, Option, none, some, List, [], ◌∷◌, ◌++◌,
  append_assoc, append-nil, if◌then◌else◌, Bytes, str_eq, All, Bool-cases,
}
use cc_oci_runtime.Container.Types.{Mount}
use cc_oci_runtime.StateFile.Json.{
  Node, Nodes, nil, cons, object, json_string, parse_aux, parse_elements, foreach, append_nodes,
}
use cc_oci_runtime.StateFile.Sections.{Handling, mounts, mount_value, set_last_created}
use cc_oci_runtime.StateFile.Read.{handle_section}
use cc_oci_runtime.StateFile.Write.{mounts_to_json, mount_members}
use cc_oci_runtime.StateFile.Recall.{FitsPath, fit_path_lem}

-- A mount as it is read back: where it is, and the directory that was created for it.
abbrev pub reread_mount : Mount → Mount
reread_mount m = record {
  flags = 0;
  mnt_fsname = none;
  mnt_dir = none;
  mnt_type = none;
  mnt_opts = none;
  dest = m.dest;
  ignore_mount = false;
  directory_created = m.directory_created;
}

-- The mounts that were done, in order.
unfoldable pub mounted : List Mount → List Mount
mounted [] = []
mounted (m ∷ ms) = let rest = mounted ms in if m.ignore_mount then rest else reread_mount m ∷ rest

abbrev pub put_mounts : List Mount → Handling → Handling
put_mounts ms h = record h { state = record h.state { mounts = ms } }

set_last_created-last :
    (dir : Bytes) (ms : List Mount) (m : Mount)
    → set_last_created dir (ms ++ m ∷ []) ≡ ms ++ (record m { directory_created = some dir }) ∷ []
unfolding set_last_created
set_last_created-last dir [] m = refl
set_last_created-last dir (a ∷ []) m = refl
set_last_created-last dir (a ∷ b ∷ ms) m = ap (◌∷◌ a) (set_last_created-last dir (b ∷ ms) m)

pub Option-cases {ℓ} : {A : Type ℓ} (o : Option A) → (o ≡ none) ⊎ ((x : A) × (o ≡ some x))
Option-cases none = inl refl
Option-cases (some x) = inr (x, refl)

pub foreach-nil {ℓ} : {S : Type ℓ} (f : Node → S → S) (s : S) → foreach f nil s ≡ s
unfolding foreach
foreach-nil f s = refl

pub foreach-append_nodes {ℓ} :
    {S : Type ℓ} (f : Node → S → S) (ms ns : Nodes) (s : S)
    → foreach f (append_nodes ms ns) s ≡ foreach f ns (foreach f ms s)
unfolding foreach
foreach-append_nodes f nil ns s = refl
foreach-append_nodes f (cons m ms) ns s = foreach-append_nodes f ms ns (f m s)

-- One step of a walk, and the rest of it.
pub foreach-cons {ℓ} :
    {S : Type ℓ} (f : Node → S → S) (n : Node) (ns : Nodes) {s t u : S}
    → f n s ≡ t
    → foreach f ns t ≡ u
    → foreach f (cons n ns) s ≡ u
unfolding foreach
foreach-cons f n ns e h = ap (foreach f ns) e ∙ h

foreach-mount :
    (m : Mount) (h : Handling)
    → FitsPath m.dest
    → foreach (handle_section mounts) (parse_aux (object (mount_members m)) true) h
      ≡ put_mounts (h.state.mounts ++ reread_mount m ∷ []) h
unfolding foreach handle_section parse_aux mount_members mount_value str_eq json_string
foreach-mount m h k = elim (Option-cases m.directory_created) [
  | inl e ↦ rw e (rw (fit_path_lem m.dest k) refl)
  | inr (dir, e) ↦
      rw e (rw (set_last_created-last dir h.state.mounts) (rw (fit_path_lem m.dest k) refl))
]

pub foreach-mounts :
    (ms : List Mount) (h : Handling)
    → All (λ m. FitsPath m.dest) ms
    → foreach (handle_section mounts) (parse_elements (mounts_to_json ms)) h
      ≡ put_mounts (h.state.mounts ++ mounted ms) h
unfolding mounts_to_json mounted foreach parse_elements
foreach-mounts [] h k = ap (λ ms. put_mounts ms h) (sym (append-nil h.state.mounts))
foreach-mounts (m ∷ ms) h k = elim (Bool-cases m.ignore_mount) [
  | inl skipped ↦ rw skipped (foreach-mounts ms h k.1)
  | inr done ↦ rw done (
      foreach-append_nodes (handle_section mounts) (parse_aux (object (mount_members m)) true)
        (parse_elements (mounts_to_json ms)) h
      ∙ ap (foreach (handle_section mounts) (parse_elements (mounts_to_json ms)))
          (foreach-mount m h k.0)
      ∙ foreach-mounts ms (put_mounts (h.state.mounts ++ reread_mount m ∷ []) h) k.1
      ∙ ap (λ all. put_mounts all h)
          (append_assoc h.state.mounts (reread_mount m ∷ []) (mounted ms)))
]
