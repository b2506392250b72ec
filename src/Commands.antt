-- ===== src/Commands.antt =====
-- src/command.c, and the handlers of src/commands/ that call the lifecycle: start, create, run, exec,
-- state, stop and delete, pause and resume. The words are those that are left of the command line.
pub mod Usage
pub mod Users
use cc_oci_runtime.Prelude.{
  ℕ, ◌+◌, ◌-◌, Bool, true, false, not, ◌&&◌, ◌||◌, Option, none, some, List, [], ◌∷◌, ltb, leb,
  ◌==◌, ◌>>=◌, if◌then◌else◌, length, Bytes, codes, str_eq,
}
use cc_oci_runtime.Container.Types.{Process, Config, OciState, fit_path}
use cc_oci_runtime.StateFile.Json.{Json, json_parse}
use cc_oci_runtime.StateFile.Write.{Disk, state_file_get}
use cc_oci_runtime.Spec.{Spec, SpecSystem, resolve_path}
use cc_oci_runtime.Spec.Sections.{stop_spec_handlers, process_config}
use cc_oci_runtime.Hooks.{Hooks}
use cc_oci_runtime.Proxy.Client.{Session}
use cc_oci_runtime.Process.Connect.{ExecAnswers, Connected, not_connected, oci_exec}
use cc_oci_runtime.Commands.Usage.{handle_default_usage}
use cc_oci_runtime.Lifecycle.{VmCall, Toggled, oci_toggle}
use cc_oci_runtime.Lifecycle.KillCommand.{with_id}
use cc_oci_runtime.Lifecycle.Runtime.{runtime_path_get, get_config_and_state}
use cc_oci_runtime.Lifecycle.Start.{StartAnswers, Started, not_started, oci_start}
use cc_oci_runtime.Lifecycle.Stop.{Effect, StopAnswers, oci_stop}
use cc_oci_runtime.Lifecycle.Update.{config_update}

-- What the common options of the command line give.
pub record StartData : Type 0 where
  pub bundle : Option Bytes
  pub console : Option Bytes
  pub dry_run_mode : Bool
  pub detach : Bool
  pub env : Option (List Bytes)
  pub cwd : Option Bytes
  pub uid : ℕ
  pub gid : ℕ

abbrev pub with_setup : StartData → Bytes → Option Bytes → Config → Config
with_setup d container_id bundle_path config = record config {
  container_id = some container_id;
  bundle_path = bundle_path;
  console = d.console;
  dry_run_mode = d.dry_run_mode;
  detached_mode = d.detach;
}

-- With --bundle the container's id is the only word; otherwise the bundle is the second.
unfoldable pub handle_command_setup :
    (Bytes → Option Bytes) → StartData → List Bytes → Config → Config × Bool
unfolding handle_default_usage resolve_path
handle_command_setup real_path d argv config = elim (handle_default_usage argv 1) [
  | some ret ↦ (config, ret)
  | none ↦ elim argv [
    | [] ↦ (config, false)
    | container_id ∷ rest ↦ elim d.bundle [
      | some bundle ↦ elim rest [
        | [] ↦ (with_setup d container_id (resolve_path real_path (some bundle)) config, true)
        | _ ∷ _ ↦ (with_id container_id config, false)
      ]
      | none ↦ elim rest [
        | [] ↦ (with_id container_id config, false)
        | path ∷ more ↦ elim more [
          | [] ↦ (with_setup d container_id (resolve_path real_path (some path)) config, true)
          | _ ∷ _ ↦ (with_id container_id config, false)
        ]
      ]
    ]
  ]
]

-- handler_start: the start of a container whose state has been found.
unfoldable pub handler_start : Bytes → List Bytes → StartAnswers → Config → Session → Disk → Started
unfolding handle_default_usage get_config_and_state config_update oci_start
handler_start prefix argv a config s disk = elim (handle_default_usage argv 1) [
  | some ret ↦ record (not_started config s disk) { result = ret }
  | none ↦ elim argv [
    | [] ↦ not_started config s disk
    | container_id ∷ _ ↦
        let c = with_id container_id config in
        elim (get_config_and_state prefix c disk) [
          | none ↦ not_started c s disk
          | some found ↦
              let (filled, left) = config_update found.0 found.1 in
              oci_start a filled container_id left s disk
        ]
  ]
]

-- handler_state: the document that is printed.
unfoldable pub handler_state : Bytes → List Bytes → Config → Disk → Option Json
unfolding handle_default_usage runtime_path_get state_file_get
handler_state prefix argv config disk = elim (handle_default_usage argv 1) [
  | some ret ↦ none
  | none ↦ elim argv [
    | [] ↦ none
    | container_id ∷ _ ↦ runtime_path_get prefix (with_id container_id config) >>= λ c.
        state_file_get c >>= λ c'. disk c'.state_file_path
  ]
]

-- handle_command_toggle, from the state on, if it is found.
abbrev pub toggle_found : Bool → (VmCall → Bool) → Bool → Disk → Config × OciState → Toggled
toggle_found pause vm writable disk (filled, state) =
    let (c, left) = config_update filled state in oci_toggle c left pause vm writable disk

unfoldable pub handle_command_toggle :
    Bytes → List Bytes → Bool → (VmCall → Bool) → Bool → Config → Disk → Toggled
unfolding handle_default_usage get_config_and_state config_update oci_toggle
handle_command_toggle prefix argv pause vm writable config disk =
    elim (handle_default_usage argv 1) [
      | some ret ↦ ([], (config, disk, ret))
      | none ↦ elim argv [
        | [] ↦ ([], (config, disk, false))
        | container_id ∷ _ ↦
            let c = with_id container_id config in
            elim (get_config_and_state prefix c disk) [
              | none ↦ ([], (c, disk, false))
              | some found ↦ toggle_found pause vm writable disk found
            ]
      ]
    ]

-- What a stop meets besides: whether the state file exists, and the document of the config file, if it
-- can be read.
pub record StopCommand : Type 0 where
  pub system : SpecSystem
  pub state_file_exists : Bool
  pub config_file : Bytes
  pub document : Option Json
  pub answers : StopAnswers

abbrev pub StopResult : Type 0
StopResult = List Effect × Bool

-- cc_oci_state_file_exists.
unfoldable pub state_file_exists : Bytes → Bool → Config → Bool
unfolding runtime_path_get state_file_get
state_file_exists prefix there config = elim (runtime_path_get prefix config >>= state_file_get) [
  | none ↦ false
  | some c ↦ there
]

-- From the config file on. The result is that of the last step that has set it: finding the state.
unfoldable pub stop_found : StopCommand → Spec → OciState → StopResult
unfolding json_parse process_config oci_stop
stop_found a s state = elim a.document [
  | none ↦ ([], true)
  | some doc ↦ elim (process_config a.system stop_spec_handlers (json_parse a.config_file doc) s) [
    | none ↦ ([], false)
    | some r ↦ if r.1 then oci_stop r.0.config state a.answers else ([], true)
  ]
]

abbrev pub with_found : Spec → Config → Spec
with_found s config = record s { config = config }

-- A container whose state file does not exist counts as stopped.
unfoldable pub handle_command_stop : Bytes → List Bytes → StopCommand → Spec → Disk → StopResult
unfolding handle_default_usage state_file_exists get_config_and_state stop_found
handle_command_stop prefix argv a s disk = elim (handle_default_usage argv 1) [
  | some ret ↦ ([], ret)
  | none ↦ elim argv [
    | [] ↦ ([], false)
    | container_id ∷ _ ↦
        let c = with_id container_id s.config in
        if not (state_file_exists prefix a.state_file_exists c)
        then ([], true)
        else elim (get_config_and_state prefix c disk) [
          | none ↦ ([], false)
          | some found ↦ stop_found a (with_found s found.0) found.1
        ]
  ]
]

abbrev pub has_text : Option Bytes → Bool
has_text none = false
has_text (some []) = false
has_text (some (_ ∷ _)) = true

abbrev pub exec_args : List Bytes → Option (List Bytes) → Option (List Bytes)
exec_args [] old = old
exec_args (w ∷ ws) old = some (w ∷ ws)

abbrev pub exec_cwd : Option Bytes → Bytes → Bytes
exec_cwd none old = old
exec_cwd (some cwd) old = fit_path cwd

-- The process that the command line describes.
unfoldable pub exec_process_of : StartData → List Bytes → Process → Process
exec_process_of d words p = record p {
  uid = d.uid;
  gid = d.gid;
  env = d.env;
  terminal = has_text d.console;
  cwd = exec_cwd d.cwd p.cwd;
  args = exec_args words p.args;
}

abbrev pub no_command : List Bytes → Option (Bytes × Option Json) → Bool
no_command [] none = true
no_command _ _ = false

-- handler_exec. The console is that of the command line, if there is one.
unfoldable pub handler_exec :
    Bytes
    → StartData
    → List Bytes
    → Option (Bytes × Option Json)
    → ExecAnswers
    → Config
    → Session
    → Disk
    → Connected
unfolding handle_default_usage exec_process_of get_config_and_state oci_exec
handler_exec prefix d argv process_json a config s disk = elim (handle_default_usage argv 1) [
  | some ret ↦ record (not_connected config s) { result = ret }
  | none ↦ elim argv [
    | [] ↦ not_connected config s
    | container_id ∷ words ↦
        let c = with_id container_id config in
        if no_command words process_json
        then not_connected c s
        else (let c' : Config = record c { process = exec_process_of d words c.process } in
            elim (get_config_and_state prefix c' disk) [
              | none ↦ not_connected c' s
              | some found ↦
                  oci_exec a container_id process_json (record found.0 { console = d.console })
                    found.1 s
            ])
  ]
]
