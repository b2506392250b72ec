-- ===== src/Lifecycle/Update.antt =====
-- How a later command gets its config back from the state file: the end of cc_oci_get_config_and_state
-- and cc_oci_config_update of src/oci.c.
use cc_oci_runtime.Prelude.{
  ◌≡◌, refl, false, if◌then◌else◌, Option, none, some, List, [], ◌∷◌, Bytes,
}
use cc_oci_runtime.Container.Types.{Mount, Annotation, Process, Config, OciState, fit_path}
use cc_oci_runtime.StateFile.Write.{Complete, is_empty, or_blank}
use cc_oci_runtime.StateFile.Recall.{FitsPath, fit_path_lem}
use cc_oci_runtime.StateFile.RecallMounts.{mounted}
use cc_oci_runtime.StateFile.RecallProcess.{reread_process}
use cc_oci_runtime.StateFile.RecallSections.{reread_pods}
use cc_oci_runtime.StateFile.RoundTrip.{reread}

abbrev or_else {ℓ} : {A : Type ℓ} → Option A → Option A → Option A
or_else none b = b
or_else (some a) b = some a

abbrev or_mounts : List Mount → List Mount → List Mount
or_mounts [] b = b
or_mounts (m ∷ ms) b = m ∷ ms

-- The config that has been given to the function takes the process only if it has no arguments.
abbrev or_process : Option Process → Process → Process
or_process none b = b
or_process (some p) b = elim b.args [ none ↦ p | some _ ↦ b ]

-- What is left of the state's process.
abbrev left_process : Option Process → Process → Option Process
left_process p b = elim b.args [ none ↦ none | some _ ↦ p ]

abbrev path_or : Option Bytes → Bytes → Bytes
path_or none b = b
path_or (some s) b = fit_path s

-- The details that are filled in after the file has been read; `none` where g_strlcpy is given NULL,
-- and where cc_oci_get_bundlepath_file fails for want of a bundle path.
unfoldable pub fill_config : Config → OciState → Option Config
fill_config config state = elim state.comms_path [
  | none ↦ none
  | some comms_path ↦ elim state.procsock_path [
    | none ↦ none
    | some procsock_path ↦ elim state.bundle_path [
      | none ↦ none
      | some bundle_path ↦
          if is_empty bundle_path
          then none
          else some (record config {
            bundle_path = some bundle_path;
            workload_pid = state.pid;
            status = state.status;
            comms_path = fit_path comms_path;
            procsock_path = fit_path procsock_path;
          })
    ]
  ]
]

-- The config, and the state, whose pointers have moved there.
unfoldable pub config_update : Config → OciState → Config × OciState
config_update config state = (
  record config {
    mounts = or_mounts state.mounts config.mounts;
    process = or_process state.process config.process;
    console = or_else state.console config.console;
    vm = or_else state.vm config.vm;
    proxy = or_else state.proxy config.proxy;
    pod = or_else state.pod config.pod;
    procsock_path = path_or state.procsock_path config.procsock_path;
  },
  record state {
    mounts = [];
    process = left_process state.process config.process;
    console = none;
    vm = none;
    proxy = none;
    pod = none;
  },
)

-- A config as it stands before a later command has read the state file.
pub record IsFresh (b : Config) : Type 0 where
  pub mounts : b.mounts ≡ []
  pub args : b.process.args ≡ none
  pub console : b.console ≡ none
  pub pod : b.pod ≡ none

-- What the config of a later command has in common with the one that was written.
pub record Restores (c : Config) (k : Complete) (args : List Bytes) (r : Config) : Type 0 where
  pub status : r.status ≡ c.status
  pub workload_pid : r.workload_pid ≡ c.workload_pid
  pub bundle_path : r.bundle_path ≡ some k.bundle_path
  pub comms_path : r.comms_path ≡ c.comms_path
  pub procsock_path : r.procsock_path ≡ c.procsock_path
  pub mounts : r.mounts ≡ mounted c.mounts
  pub process : r.process ≡ reread_process c.process args
  pub console : r.console ≡ c.console
  pub vm : r.vm ≡ some (record k.vm { kernel_params = some (or_blank k.vm.kernel_params) })
  pub pod : r.pod ≡ reread_pods c.pod

or_mounts-none : (ms ns : List Mount) → ns ≡ [] → or_mounts ms ns ≡ ms
or_mounts-none [] ns e = e
or_mounts-none (m ∷ ms) ns e = refl

or_else-none {ℓ} : {A : Type ℓ} (a b : Option A) → b ≡ none → or_else a b ≡ a
or_else-none none b e = e
or_else-none (some x) b e = refl

or_process-none : (p q : Process) → q.args ≡ none → or_process (some p) q ≡ p
or_process-none p q e = rw e refl

-- A later command, whose config is fresh, gets back from a state file that was read the config that
-- was written: status, pid, paths, console, machine and pod, the mounts that were done, and the
-- process but for its user, when the two paths fit their arrays and the bundle path is not empty.
-- Nothing is said of annotations.
pub config_update-Restores :
    (b c : Config) (k : Complete) (args : List Bytes) (create_time : Bytes)
    (notes : List Annotation)
    → IsFresh b
    → FitsPath c.comms_path
    → FitsPath c.procsock_path
    → is_empty k.bundle_path ≡ false
    → (filled : Config) × (fill_config b (reread c k args create_time notes) ≡ some filled)
      × Restores c k args (config_update filled (reread c k args create_time notes)).0
unfolding fill_config config_update
config_update-Restores b c k args t notes f comms sock there = (
  record b {
    bundle_path = some k.bundle_path;
    workload_pid = c.workload_pid;
    status = c.status;
    comms_path = fit_path c.comms_path;
    procsock_path = fit_path c.procsock_path;
  },
  rw there refl,
  record {
    status = refl;
    workload_pid = refl;
    bundle_path = refl;
    comms_path = fit_path_lem c.comms_path comms;
    procsock_path = fit_path_lem c.procsock_path sock;
    mounts = or_mounts-none (mounted c.mounts) b.mounts f.mounts;
    process = or_process-none (reread_process c.process args) b.process f.args;
    console = or_else-none c.console b.console f.console;
    vm = refl;
    pod = or_else-none (reread_pods c.pod) b.pod f.pod;
  },
)
