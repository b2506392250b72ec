-- ===== src/Lifecycle/Dry.antt =====
-- What becomes of a run that was asked not to create the container.
use cc_oci_runtime.Prelude.{◌≡◌, ◌≢◌, Bool, true, none, []}
use cc_oci_runtime.Container.Types.{Config}
use cc_oci_runtime.StateFile.Write.{Disk}
use cc_oci_runtime.Spec.{Spec}
use cc_oci_runtime.Mounts.Mounting.{FileSystem}
use cc_oci_runtime.Process.Launch.{returned}
use cc_oci_runtime.Lifecycle.Create.{Created, Ran}

-- A config for which nothing is to be created, and whose state file has no path yet.
pub record IsDry (c : Config) : Type 0 where
  pub dry : c.dry_run_mode ≡ true
  pub unset : c.state_file_path ≡ []

-- Nothing has been written, and there is no path to read from.
abbrev Unset : {F : Type 0} → Disk → Created F → Type 0
Unset disk r = (r.spec.config.state_file_path ≡ []) × (r.disk ≡ disk)

module _ {F : Type 0} (fs : FileSystem F) where
  -- A run that has written nothing and has started nothing, and does not succeed.
  pub record DryRan (disk : Disk) (r : Ran fs) : Type 0 where
    pub unsuccessful : r.ending ≢ returned true
    pub unwritten : r.created.disk ≡ disk
    pub unstarted : r.started ≡ none
