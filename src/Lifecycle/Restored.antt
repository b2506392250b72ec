-- ===== src/Lifecycle/Restored.antt =====
-- What a later command finds of a container whose state file has been written.
use mathlib.Core.Option.{some-injective}
use cc_oci_runtime.Prelude.{
  ◌≡◌, sym, ap, ◌∙◌, Bool, true, false, Option, none, some, List, ◌∷◌, ◌++◌, if◌then◌else◌, Bytes,
  ◌>>=◌, arith,
}
use cc_oci_runtime.Container.Types.{Config, OciState, fit_path}
use cc_oci_runtime.StateFile.Recall.{FitsPath}
use cc_oci_runtime.StateFile.RoundTrip.{Fits, reread}
use cc_oci_runtime.StateFile.Recovery.{
  state_file_create-Creates, state_file_read-state_file_create, with_path,
}
use cc_oci_runtime.StateFile.Read.{ReadResult, state_read, no_state, crash, state_file_read}
use cc_oci_runtime.StateFile.Write.{
  Disk, Complete, check_complete, is_empty, state_file, state_file_get, state_file_create,
}
use cc_oci_runtime.Lifecycle.Update.{
  fill_config, config_update, IsFresh, Restores, config_update-Restores,
}
use cc_oci_runtime.Lifecycle.Runtime.{runtime_path_get, get_config_and_state}

-- A later command with the config `b` finds the state, and its config is that of `c` again.
pub record FindsAgain (prefix : Bytes) (b c : Config) (disk : Disk) : Type 0 where
  pub filled : Config
  pub state : OciState
  pub found : get_config_and_state prefix b disk ≡ some (filled, state)
  pub complete : Complete
  pub is_complete : check_complete c ≡ some complete
  pub args : List Bytes
  pub has_args : c.process.args ≡ some args
  pub restores : Restores c complete args (config_update filled state).0

runtime_path_get-IsFresh :
    (prefix : Bytes) (b b' : Config) → runtime_path_get prefix b ≡ some b' → IsFresh b → IsFresh b'
unfolding runtime_path_get
runtime_path_get-IsFresh prefix b b' e f = ground arith

check_complete-bundle :
    (c : Config) (k : Complete) → check_complete c ≡ some k → c.bundle_path ≡ some k.bundle_path
unfolding check_complete
check_complete-bundle c k h = ground arith

check_complete-full :
    (c : Config) (k : Complete) (p : Bytes)
    → check_complete c ≡ some k
    → c.bundle_path ≡ some p
    → is_empty p ≡ false
    → is_empty k.bundle_path ≡ false
check_complete-full c k p h e there =
    let same = check_complete-bundle c k h in
    sym (ap is_empty (some-injective p k.bundle_path (sym e ∙ same))) ∙ there

module _ (disk : Disk) where
  filled_from : Config → OciState → Option Config → Option (Config × OciState)
  filled_from c state o = elim o [ none ↦ none | some filled ↦ some (filled, state) ]

  after_read : Config → ReadResult → Option (Config × OciState)
  after_read c r = elim r [
    | state_read state ↦ filled_from c state (fill_config c state)
    | no_state ↦ none
    | crash ↦ none
  ]

  after_path : Option Config → Option (Config × OciState)
  after_path o = o >>= λ c. after_read c (state_file_read disk (some c.state_file_path))

  after_runtime : Option Config → Option (Config × OciState)
  after_runtime o = o >>= λ c. after_path (state_file_get c)

state_file_get-path :
    (b c : Config)
    → b.runtime_path ≡ c.runtime_path
    → is_empty c.runtime_path ≡ false
    → state_file_get b ≡ some (with_path b)
unfolding state_file_get
state_file_get-path b c e there =
    ap (λ (empty : Bool). if empty then none else some (with_path b)) (ap is_empty e ∙ there)

-- A later command with a fresh config, whose runtime path is that of the container, finds a state file
-- that has been written, and gets back from it status, pid, paths, console and machine, the process
-- but for its user, of the pod whether it is a sandbox and the sandbox's name, and of the mounts that
-- were done where they were mounted and which directories were created: all of the config that was
-- written, whose numbers and texts fit their types and which has a bundle path. Lost are the ids of
-- the user, empty lists of arguments and variables, the workloads of the pod and source, directory,
-- type, flags and options of mounts; nothing is said of the annotations.
pub get_config_and_state-Restores :
    (prefix path create_time : Bytes) (b b' c c' : Config) (writable : Bool) (disk disk' : Disk)
    → IsFresh b
    → Fits c
    → FitsPath c.comms_path
    → FitsPath c.procsock_path
    → c.bundle_path ≡ some path
    → is_empty path ≡ false
    → runtime_path_get prefix b ≡ some b'
    → b'.runtime_path ≡ c.runtime_path
    → state_file_create c (some create_time) writable disk ≡ (c', disk', true)
    → FindsAgain prefix b c disk'
unfolding get_config_and_state after_runtime after_path after_read filled_from
get_config_and_state-Restores prefix path t b b' c c' w disk disk' fresh fits comms sock bundle
      there found same written =
    let made = state_file_create-Creates c c' t w disk disk' written in
    let back = state_file_read-state_file_create c c' t w disk disk' fits written in
    let state = reread c back.complete back.args t back.notes in
    let f = runtime_path_get-IsFresh prefix b b' found fresh in
    let (filled, fill, restores) =
      config_update-Restores (with_path b') c back.complete back.args t back.notes
        (record { mounts = f.mounts; args = f.args; console = f.console; pod = f.pod }) comms sock
        (check_complete-full c back.complete path back.is_complete bundle there) in
    let place : (with_path b').state_file_path ≡ c'.state_file_path =
      ap (λ r. fit_path (r ++ (b'/' ∷ state_file))) same
      ∙ sym (ap (λ z. z.state_file_path) made.config) in
    record {
      filled = filled;
      state = state;
      found =
          ap (after_runtime disk') found
          ∙ ap (after_path disk') (state_file_get-path b' c same made.has_path)
          ∙ ap (λ p. after_read disk' (with_path b') (state_file_read disk' (some p))) place
          ∙ ap (after_read disk' (with_path b')) back.reads
          ∙ ap (filled_from disk' (with_path b') state) fill;
      complete = back.complete;
      is_complete = back.is_complete;
      args = back.args;
      has_args = back.has_args;
      restores = restores;
    }
