-- ===== src/Lifecycle/Runtime.antt =====
-- src/runtime.c, and cc_oci_get_config_and_state of src/oci.c.
use cc_oci_runtime.Prelude.{
  Bool, false, Option, none, some, ◌∷◌, ◌++◌, if◌then◌else◌, Bytes, codes, ◌>>=◌,
}
use cc_oci_runtime.Container.Types.{Config, OciState, fit_path}
use cc_oci_runtime.StateFile.Read.{state_read, no_state, crash, state_file_read}
use cc_oci_runtime.StateFile.Write.{Disk, is_empty, state_file_get}
use cc_oci_runtime.Lifecycle.Update.{fill_config}

-- `prefix` is CC_OCI_RUNTIME_DIR_PREFIX, which the build sets.
unfoldable pub runtime_path_get : Bytes → Config → Option Config
runtime_path_get prefix config = elim config.container_id [
  | none ↦ none
  | some container_id ↦
      let root : Bytes = elim config.root_dir [ none ↦ prefix | some root_dir ↦ root_dir ] in
      some (record config { runtime_path = fit_path (root ++ (b'/' ∷ container_id)) })
]

abbrev hypervisor_socket : Bytes
hypervisor_socket = codes "hypervisor.sock"

abbrev process_socket : Bytes
process_socket = codes "process.sock"

abbrev set_sockets : Config → Config
set_sockets config = record config {
  comms_path = fit_path (config.runtime_path ++ (b'/' ∷ hypervisor_socket));
  procsock_path = fit_path (config.runtime_path ++ (b'/' ∷ process_socket));
}

-- `made` is the answer of g_mkdir_with_parents for the runtime directory, which is also there when
-- that existed. A failure to make its parent is only logged.
unfoldable pub runtime_dir_setup : Bytes → (Bytes → Bool) → Config → Config × Bool
unfolding runtime_path_get
runtime_dir_setup prefix made config =
    if is_empty config.runtime_path
    then elim (runtime_path_get prefix config) [
      | none ↦ (config, false)
      | some c ↦ (set_sockets c, made c.runtime_path)
    ]
    else (set_sockets config, made config.runtime_path)

-- The filled config and the state. `none` is a failure, or a crash of the reader.
unfoldable pub get_config_and_state : Bytes → Config → Disk → Option (Config × OciState)
unfolding runtime_path_get state_file_get state_file_read fill_config
get_config_and_state prefix config disk = do
  c ← runtime_path_get prefix config
  c' ← state_file_get c
  elim (state_file_read disk (some c'.state_file_path)) [
    | state_read state ↦ elim (fill_config c' state) [
      | none ↦ none
      | some filled ↦ some (filled, state)
    ]
    | no_state ↦ none
    | crash ↦ none
  ]
