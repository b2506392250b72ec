-- ===== src/Lifecycle/Create.antt =====
-- cc_oci_config_file_parse, cc_oci_create and cc_oci_run of src/oci.c. The answers of the system are
-- arguments, and the file system that is mounted on is a parameter.
use cc_oci_runtime.Prelude.{
  Bool, true, false, not, Option, none, some, List, [], ◌∷◌, if◌then◌else◌, Bytes,
}
use cc_oci_runtime.ConfigCheck.{config_check}
use cc_oci_runtime.StateFile.Json.{Json, json_parse}
use cc_oci_runtime.StateFile.Read.{state_read, no_state, crash, state_file_read}
use cc_oci_runtime.StateFile.Write.{Disk}
use cc_oci_runtime.Spec.{Spec, SpecSystem}
use cc_oci_runtime.Spec.Sections.{start_spec_handlers, process_config, get_spec_vm}
use cc_oci_runtime.Hooks.Run.{HookAnswers}
use cc_oci_runtime.Namespaces.{NsAnswers, NsCall, ns_setup}
use cc_oci_runtime.Mounts.Mounting.{FileSystem, get_workload_dir, handle_mounts}
use cc_oci_runtime.Proxy.Client.{Session}
use cc_oci_runtime.Process.Launch.{LaunchAnswers, LaunchEnd, returned, exited, Launched, vm_launch}
use cc_oci_runtime.Pods.Create.{PodAnswers, PodCreate, pod_container_create}
use cc_oci_runtime.Lifecycle.Runtime.{runtime_dir_setup}
use cc_oci_runtime.Lifecycle.Stop.{pod_is_vm}
use cc_oci_runtime.Lifecycle.Start.{StartAnswers, Started, oci_start}
use cc_oci_runtime.Lifecycle.Update.{config_update}

-- What a create meets. `in_bundle`: whether the working directory is known and could be changed.
-- `config_file` and `vm_file` are the names of the two files, which have the documents, if they can
-- be read. `made` is g_mkdir_with_parents for the runtime directory.
pub record CreateAnswers : Type 0 where
  pub system : SpecSystem
  pub in_bundle : Bool
  pub config_file : Bytes
  pub document : Option Json
  pub vm_file : Bytes
  pub vm_document : Option Json
  pub made : Bytes → Bool
  pub ns : NsAnswers
  pub launch : LaunchAnswers
  pub hooks : List HookAnswers
  pub pod : PodAnswers

abbrev pub is_no_path : Option Bytes → Bool
is_no_path none = true
is_no_path (some []) = true
is_no_path (some (_ ∷ _)) = false

abbrev pub and_vm : CreateAnswers → Option (Spec × Bool) → Option (Spec × Bool)
and_vm a none = none
and_vm a (some (s, false)) = some (s, false)
and_vm a (some (s, true)) = some (get_spec_vm a.system a.vm_file a.vm_document s)

-- `none` is a crash.
unfoldable pub config_file_parse : CreateAnswers → Spec → Option (Spec × Bool)
unfolding json_parse process_config get_spec_vm
config_file_parse a s =
    if is_no_path s.config.bundle_path
    then some (s, false)
    else if not a.in_bundle
    then some (s, false)
    else elim a.document [
      | none ↦ some (s, false)
      | some doc ↦
          and_vm a (process_config a.system start_spec_handlers (json_parse a.config_file doc) s)
    ]

-- The spec, the connection, the files, what was mounted on, the namespaces that were entered, and how
-- the create ends.
pub record Created (F : Type 0) : Type 0 where
  pub spec : Spec
  pub session : Session
  pub disk : Disk
  pub files : F
  pub entered : List NsCall
  pub ending : LaunchEnd

module _ {F : Type 0} (fs : FileSystem F) where
  abbrev pub ended : Spec → Session → Disk → F → List NsCall → LaunchEnd → Created F
  ended spec s disk f calls ending = record {
    spec = spec;
    session = s;
    disk = disk;
    files = f;
    entered = calls;
    ending = ending;
  }

  abbrev pub of_launch : Spec → F → List NsCall → Launched → Created F
  of_launch spec f calls l =
      ended (record spec { config = l.config }) l.session l.disk f calls l.ending

  abbrev pub of_pod : Spec → F → List NsCall → PodCreate → Created F
  of_pod spec f calls r =
      ended (record spec { config = r.config }) r.session r.disk f calls (returned r.result)

  -- A machine of its own, or a container in a pod. `container_id` is `optarg_container_id`.
  unfoldable pub launch_container :
      CreateAnswers → Bytes → Spec → Session → Disk → F → List NsCall → Created F
  unfolding pod_is_vm vm_launch pod_container_create
  launch_container a container_id spec s disk f calls =
      if pod_is_vm spec.config.pod
      then of_launch spec f calls
          (vm_launch a.launch spec.hooks.prestart a.hooks container_id spec.config s disk)
      else of_pod spec f calls (pod_container_create a.pod spec.config s disk)

  -- From the mounts on.
  unfoldable pub mount_and_launch :
      CreateAnswers → Bytes → Spec → Session → Disk → F → List NsCall → Created F
  unfolding get_workload_dir handle_mounts launch_container
  mount_and_launch a container_id spec s disk f calls =
      let (f', mounts, ok) =
        handle_mounts fs spec.config.dry_run_mode (get_workload_dir spec.config) f
          spec.config.mounts in
      let spec' : Spec = record spec { config = record spec.config { mounts = mounts } } in
      if not ok
      then ended spec' s disk f' calls (returned false)
      else if spec.config.dry_run_mode
      then ended spec' s disk f' calls (returned true)
      else launch_container a container_id spec' s disk f' calls

  -- From the runtime directory on.
  unfoldable pub set_up_directory :
      Bytes → CreateAnswers → Bytes → Spec → Session → Disk → F → Created F
  unfolding runtime_dir_setup ns_setup mount_and_launch
  set_up_directory prefix a container_id spec s disk f =
      let (c, made) = runtime_dir_setup prefix a.made spec.config in
      let spec' : Spec = record spec { config = c } in
      let (calls, entered) = ns_setup a.ns spec.namespaces in
      if not made
      then ended spec' s disk f [] (returned false)
      else if not entered
      then ended spec' s disk f calls (returned false)
      else mount_and_launch a container_id spec' s disk f calls

  abbrev pub check_and_set_up :
      Bytes → CreateAnswers → Bytes → Spec → Session → Disk → F → Option Bool → Created F
  check_and_set_up prefix a container_id spec s disk f none = ended spec s disk f [] exited
  check_and_set_up prefix a container_id spec s disk f (some false) =
      ended spec s disk f [] (returned false)
  check_and_set_up prefix a container_id spec s disk f (some true) =
      set_up_directory prefix a container_id spec s disk f

  unfoldable pub oci_create : Bytes → CreateAnswers → Bytes → Spec → Session → Disk → F → Created F
  unfolding config_file_parse config_check set_up_directory
  oci_create prefix a container_id spec s disk f = elim (config_file_parse a spec) [
    | none ↦ ended spec s disk f [] exited
    | some r ↦ elim r.1 [
      | false ↦ ended r.0 s disk f [] (returned false)
      | true ↦
          check_and_set_up prefix a container_id r.0 s disk f (config_check r.0.config.oci_version)
    ]
  ]

  -- What a run has done: the create, and the start, if it came to that.
  pub record Ran : Type 0 where
    pub created : Created F
    pub started : Option Started
    pub ending : LaunchEnd

  abbrev pub start_read : StartAnswers → Bytes → Created F → Ran
  start_read b container_id r = elim (state_file_read r.disk (some r.spec.config.state_file_path)) [
    | no_state ↦ record { created = r; started = none; ending = returned false }
    | crash ↦ record { created = r; started = none; ending = exited }
    | state_read state ↦
        let (c, left) = config_update r.spec.config state in
        let started = oci_start b c container_id left r.session r.disk in
        record { created = r; started = some started; ending = returned started.result }
  ]

  unfoldable pub oci_run :
      Bytes → CreateAnswers → StartAnswers → Bytes → Spec → Session → Disk → F → Ran
  unfolding oci_create state_file_read config_update oci_start
  oci_run prefix a b container_id spec s disk f =
      let r = oci_create prefix a container_id spec s disk f in
      elim r.ending [
        | exited ↦ record { created = r; started = none; ending = exited }
        | returned ok ↦ elim ok [
          | false ↦ record { created = r; started = none; ending = returned false }
          | true ↦ start_read b container_id r
        ]
      ]
