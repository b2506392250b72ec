-- ===== src/SpecExamples.antt =====
-- The theorems on the sections of a config file, and on mounts, at small inputs.
use cc_oci_runtime.Prelude.{
  ◌≡◌, refl, Bool, true, false, Option, none, some, List, [], ◌∷◌, Bytes, codes,
}
use cc_oci_runtime.StateFile.Json.{object, array, member, no_member, Elements}
use cc_oci_runtime.StateFile.Recall.{section}
use cc_oci_runtime.Container.Types.{Mount}
use cc_oci_runtime.Namespaces.{ns_net, ns_pid, NamespaceCfg, NsAnswers, ns_to_str, ns_setup}
use cc_oci_runtime.Namespaces.Linux.{linux_handle_section}
use cc_oci_runtime.Namespaces.Listed.{Listed, end, listed, new_one, given, namespace_members}
use cc_oci_runtime.Namespaces.Joined.{wanted, Enters, ns_setup-linux_handle_section}
use cc_oci_runtime.Mounts.{handle_unmounts, mount_ignore}
use cc_oci_runtime.Mounts.Section.{mounts_handle_section}
use cc_oci_runtime.Mounts.Mounting.{FileSystem, handle_mount, handle_mounts, mount_source}
use cc_oci_runtime.Mounts.Asked.{
  MountSpec, spec_elements, spec_mounts, mounts_handle_section-spec_mounts,
}
use cc_oci_runtime.Mounts.Missing.{IsMissing, handle_unmounts-handle_mounts_missing}

-- A new pid namespace and a given network namespace.
abbrev asked : List NamespaceCfg
asked =
    (record { kind = ns_pid; path = none })
    ∷ (record { kind = ns_net; path = some (codes "/n") })
    ∷ []

abbrev elements : Elements
elements =
    cc_oci_runtime.StateFile.Json.element
      (object (namespace_members (record { kind = ns_pid; path = none }) (codes "pid")))
      (cc_oci_runtime.StateFile.Json.element
        (object (
          namespace_members (record { kind = ns_net; path = some (codes "/n") }) (codes "network")))
        cc_oci_runtime.StateFile.Json.no_element)

-- The namespace cannot be joined.
abbrev refusals : NsAnswers
refusals = record { opens = λ path. true; joins = λ path kind. false; unshares = λ kind. true }

asked-Listed : Listed asked elements
unfolding ns_to_str
asked-Listed =
    listed _ _ _ _ (new_one ns_pid (codes "pid") refl)
      (listed _ _ _ _ (given ns_net (codes "network") b'/' (codes "n") refl) end)

ns_setup-linux_handle_section_example :
    (linux_handle_section
        (section (codes "linux") (object (member (codes "namespaces") (array elements) no_member)))
        []
      ≡ (asked, true))
    × Enters refusals (wanted asked) (
        ns_setup refusals
          (linux_handle_section
            (section
              (codes "linux")
              (object (member (codes "namespaces") (array elements) no_member)))
            []).0)
ns_setup-linux_handle_section_example =
    ns_setup-linux_handle_section refusals asked elements asked-Listed

abbrev specs : List MountSpec
specs =
    (record {
      destination = codes "/data";
      kind = codes "bind";
      source = codes "/host";
      options = codes "rbind" ∷ codes "ro" ∷ codes "size=1" ∷ codes "x" ∷ [];
    })
    ∷ []

mounts_handle_section-spec_mounts_example :
    mounts_handle_section (section (codes "mounts") (array (spec_elements specs))) []
    ≡ (spec_mounts specs, true)
mounts_handle_section-spec_mounts_example = mounts_handle_section-spec_mounts specs

-- A file system that has no source, and takes all mounts.
abbrev pub no_source : FileSystem Bool
no_source = record {
  stat = λ f path. none;
  mkdir_with_parents = λ f path. (f, true);
  creat = λ f path. (f, true);
  mount_at = λ f m. (f, true);
  path_get_dirname = λ path. codes "/";
}

abbrev gone : Mount
gone = record {
  flags = 0;
  mnt_fsname = some (codes "/gone");
  mnt_dir = some (codes "/data");
  mnt_type = some (codes "bind");
  mnt_opts = none;
  dest = [];
  ignore_mount = false;
  directory_created = none;
}

gone-IsMissing : IsMissing no_source gone
unfolding mount_ignore cc_oci_runtime.Prelude.str_eq
gone-IsMissing = record {
  source = codes "/gone";
  has_source = refl;
  absolute = refl;
  never_there = λ f. refl;
  not_ignored = refl;
  kept = refl;
}

handle_unmounts-handle_mounts_missing_example :
    (handle_unmounts
      (λ path. false)
      (handle_mounts no_source false (codes "/w") true (gone ∷ [])).1).result
    ≡ false
unfolding handle_mounts handle_mount mount_source mount_ignore cc_oci_runtime.Prelude.str_eq
handle_unmounts-handle_mounts_missing_example =
    handle_unmounts-handle_mounts_missing no_source (λ path. false) false (codes "/w") true [] []
      gone gone-IsMissing refl refl
