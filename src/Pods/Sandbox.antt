-- ===== src/Pods/Sandbox.antt =====
-- What the annotations of a member of a pod come to, wherever they stand among others.
use mathlib.Core.Path.{subst}
use cc_oci_runtime.Prelude.{
  ℕ, ◌≡◌, refl, sym, ap, ◌∙◌, Bool, true, false, not, Option, some, none, List, [], ◌∷◌, ◌++◌, All,
  Bytes, codes, str_eq, if◌then◌else◌,
}
use cc_oci_runtime.Container.Types.{Mount, Annotation, Config, fit_path}
use cc_oci_runtime.StateFile.Json.{
  object, value, text, member, no_member, Members, parse_aux, parse_members, json_string, foreach,
  node,
}
use cc_oci_runtime.StateFile.Recall.{section}
use cc_oci_runtime.Proxy.Client.{pod_container_id}
use cc_oci_runtime.Mounts.Mounting.{get_workload_dir}
use cc_oci_runtime.Lifecycle.{pod_is_sandbox}
use cc_oci_runtime.Pods.Annotations.{
  container_mount, add_container_mount, join_sandbox, handle_ocid, is_ocid, pod_or_new, id_text,
  pod_handle_annotations, handle_annotation, annotations_handle_section,
}

-- Keys and values.
abbrev pub Notes : Type 0
Notes = List (Bytes × Bytes)

-- The annotations of a config file.
abbrev pub annotated : Notes → Members
annotated [] = no_member
annotated ((key, v) ∷ notes) = member key (value (text v)) (annotated notes)

-- Annotations that are none of a pod's.
abbrev pub ArePlain : Notes → Type 0
ArePlain = All (λ note. is_ocid note.0 ≡ false)

abbrev pub type_note : Bytes × Bytes
type_note = (codes "ocid/container_type", codes "container")

abbrev pub name_note : Bytes → Bytes × Bytes
name_note name = (codes "ocid/sandbox_name", name)

-- The bind mount of the root file system of the container `id`, below the workloads of the pod.
abbrev pub root_mount : Bytes → Bytes → Mount
root_mount root_path id = record {
  flags = 4096;
  mnt_fsname = some root_path;
  mnt_dir = some (fit_path (b'/' ∷ (id ++ codes "/rootfs")));
  mnt_type = some (codes "bind");
  mnt_opts = none;
  dest = [];
  ignore_mount = false;
  directory_created = none;
}

-- What makes a config one of a member of the pod `name`.
pub record IsMember (prefix name id : Bytes) (before c : Config) : Type 0 where
  pub not_sandbox : pod_is_sandbox c.pod ≡ false
  pub addressed : pod_container_id c ≡ some name
  pub workload_dir : get_workload_dir c ≡ fit_path (prefix ++ (b'/' ∷ (name ++ codes "/workloads")))
  pub mounts : c.mounts ≡ before.mounts ++ root_mount before.root_path id ∷ []

module _ (prefix : Bytes) where
  step : Bytes × Bytes → Config → Config
  unfolding parse_aux json_string
  step note = handle_annotation prefix (node (some note.0) (parse_aux (value (text note.1)) false))

  each_note : Notes → Config → Config
  each_note [] config = config
  each_note (note ∷ notes) config = each_note notes (step note config)

  each_note-foreach :
      (notes : Notes) (config : Config)
      → foreach (handle_annotation prefix) (parse_members (annotated notes)) config
        ≡ each_note notes config
  unfolding each_note step foreach parse_members
  each_note-foreach [] config = refl
  each_note-foreach (note ∷ notes) config = each_note-foreach notes (step note config)

  each_note-append :
      (a b : Notes) (config : Config) → each_note (a ++ b) config ≡ each_note b (each_note a config)
  unfolding each_note
  each_note-append [] b config = refl
  each_note-append (note ∷ a) b config = each_note-append a b (step note config)

  -- A plain annotation changes nothing but the list of annotations.
  abbrev SameBut : Config → Config → Type 0
  SameBut c d = (notes : List Annotation) × (d ≡ record c { annotations = notes })

  step-SameBut : (key v : Bytes) (c : Config) → is_ocid key ≡ false → SameBut c (step (key, v) c)
  unfolding step handle_annotation pod_handle_annotations parse_aux json_string
  step-SameBut [] v c h = (c.annotations, refl)
  step-SameBut (k ∷ key) [] c h = ((record { key = k ∷ key; value = none }) ∷ c.annotations, refl)
  step-SameBut (k ∷ key) (x ∷ v) c h =
      let a : Annotation = record { key = k ∷ key; value = some (x ∷ v) } in
      (
        a ∷ c.annotations,
        ap
            (λ (ocid : Bool).
              let r : Config × Bool =
                if not ocid
                then (c, true)
                else (handle_ocid prefix (k ∷ key) (x ∷ v) (pod_or_new c.pod) c, true) in
              record r.0 { annotations = a ∷ r.0.annotations })
            h,
      )

  plain-SameBut : (notes : Notes) (c : Config) → ArePlain notes → SameBut c (each_note notes c)
  unfolding each_note
  plain-SameBut [] c h = (c.annotations, refl)
  plain-SameBut ((key, v) ∷ notes) c h =
      let (x, e) = step-SameBut key v c h.0 in
      let (y, f) = plain-SameBut notes (record c { annotations = x }) h.1 in
      (y, ap (each_note notes) e ∙ f)

  -- Two annotations, with plain ones around them.
  between :
      (p q : Bytes × Bytes) (a b d : Notes) (c : Config)
      → ArePlain a
      → ArePlain b
      → ArePlain d
      → (x y z : List Annotation) × (each_note (a ++ (p ∷ (b ++ (q ∷ d)))) c
          ≡ record (step q (record (step p (record c { annotations = x })) { annotations = y })) {
            annotations = z;
          })
  unfolding each_note
  between p q a b d c ha hb hd =
      let (x, e) = plain-SameBut a c ha in
      let (y, f) = plain-SameBut b (step p (record c { annotations = x })) hb in
      let c2 : Config = record (step p (record c { annotations = x })) { annotations = y } in
      let (z, g) = plain-SameBut d (step q c2) hd in
      (
        x,
        y,
        z,
        each_note-append a (p ∷ (b ++ (q ∷ d))) c
            ∙ ap (λ c. each_note (b ++ (q ∷ d)) (step p c)) e
            ∙ each_note-append b (q ∷ d) (step p (record c { annotations = x }))
            ∙ ap (λ c. each_note d (step q c)) f
            ∙ g,
      )

-- A container with an id, whose config file has the two annotations of a member of a pod, in either
-- order and with any annotations around them that do not begin with ocid/, is no sandbox; its commands
-- address the pod's sandbox, its mounts go below the workloads of the pod, and one mount more is made,
-- the bind mount of its root file system there.
pub annotations_handle_section-IsMember :
    (prefix s id : Bytes) (ch : ℕ) (config : Config) (a b d : Notes)
    → config.container_id ≡ some id
    → ArePlain a
    → ArePlain b
    → ArePlain d
    → IsMember prefix (ch ∷ s) id config (
        annotations_handle_section prefix
          (section
            (codes "annotations")
            (object (annotated (a ++ (type_note ∷ (b ++ (name_note (ch ∷ s) ∷ d)))))))
          config)
      × IsMember prefix (ch ∷ s) id config (
          annotations_handle_section prefix
            (section
              (codes "annotations")
              (object (annotated (a ++ (name_note (ch ∷ s) ∷ (b ++ (type_note ∷ d)))))))
            config)
unfolding annotations_handle_section step handle_annotation pod_handle_annotations handle_ocid
    join_sandbox add_container_mount container_mount str_eq parse_aux parse_members json_string
    foreach pod_is_sandbox pod_container_id get_workload_dir
annotations_handle_section-IsMember prefix s id ch config a b d has_id ha hb hd =
    let p = type_note in
    let q = name_note (ch ∷ s) in
    let (x, y, z, e) = between prefix p q a b d config ha hb hd in
    let (x', y', z', e') = between prefix q p a b d config ha hb hd in
    let rooted = ap (λ o. config.mounts ++ mount_of o ∷ []) has_id in
    (
      subst (IsMember prefix (ch ∷ s) id config)
          (sym (each_note-foreach prefix (a ++ (p ∷ (b ++ (q ∷ d)))) config ∙ e))
          (record { not_sandbox = refl; addressed = refl; workload_dir = refl; mounts = rooted }),
      subst (IsMember prefix (ch ∷ s) id config)
          (sym (each_note-foreach prefix (a ++ (q ∷ (b ++ (p ∷ d)))) config ∙ e'))
          (record { not_sandbox = refl; addressed = refl; workload_dir = refl; mounts = rooted }),
    )
  where
    mount_of : Option Bytes → Mount
    mount_of o = record (container_mount config) {
      mnt_dir = some (fit_path (b'/' ∷ (id_text o ++ codes "/rootfs")));
    }
