-- ===== src/Hypervisor/Args.antt =====
-- cc_oci_expand_cmdline, cc_oci_vm_args_file_path and cc_oci_vm_args_get of src/hypervisor.c.
use cc_oci_runtime.Prelude.{
  Bool, not, ◌||◌, Option, none, some, List, [], ◌∷◌, ◌++◌, if◌then◌else◌, Bytes, ◌>>=◌,
}
use cc_oci_runtime.Container.Types.{Config}
use cc_oci_runtime.Mounts.Mounting.{get_workload_dir}
use cc_oci_runtime.Hypervisor.Lines.{
  is_blank, is_absolute, file_to_strv, replace_string, uncomment, strstrip,
}
use cc_oci_runtime.Hypervisor.Tags.{HypervisorAnswers, with_sockets, Tag, special_tags}

unfoldable pub replace_tags : List Tag → Bytes → Bytes
unfolding replace_string
replace_tags [] arg = arg
replace_tags (tag ∷ tags) arg = replace_tags tags (replace_string arg tag.0 tag.1)

-- A comment becomes an empty line.
unfoldable pub expand_arg : List Tag → Bytes → Bytes
unfolding replace_tags uncomment
expand_arg tags arg = elim (uncomment arg) [ none ↦ [] | some line ↦ replace_tags tags line ]

abbrev pub find_command : (Bytes → Option Bytes) → Bytes → Bytes
find_command find_program arg =
    if is_absolute arg then arg else elim (find_program arg) [ none ↦ arg | some cmd ↦ cmd ]

unfoldable pub expand_args : List Tag → List Bytes → List Bytes
unfolding expand_arg
expand_args tags [] = []
expand_args tags (arg ∷ args) = expand_arg tags arg ∷ expand_args tags args

-- The first line is the command.
unfoldable pub expand_lines : (Bytes → Option Bytes) → List Tag → List Bytes → List Bytes
unfolding expand_args
expand_lines find_program tags [] = []
expand_lines find_program tags (arg ∷ args) =
    expand_args tags (find_command find_program arg ∷ args)

-- The config with the sockets, and the lines. The paths have to be there.
unfoldable pub expand_cmdline :
    HypervisorAnswers → Option Bytes → Config → List Bytes → Option (Config × List Bytes)
unfolding special_tags expand_lines get_workload_dir
expand_cmdline a hostname config args = do
  vm ← config.vm
  bundle_path ← config.bundle_path
  proxy ← config.proxy
  size ← a.image_size
  let workload_dir = get_workload_dir config
  let missing =
      is_blank vm.image_path
      || (is_blank vm.kernel_path
          || (not a.kernel_found || (is_blank workload_dir || not a.workload_found)))
  let config' : Config = record config { proxy = some (with_sockets a config) }
  let lines = expand_lines a.find_program (special_tags a config vm workload_dir size hostname) args
  if missing then none else some (config', lines)

-- The first of three paths at which a file exists.
unfoldable pub vm_args_file_path : (Bytes → Bool) → Option Bytes → Bytes → Bytes → Option Bytes
vm_args_file_path exists bundle_file sysconf_file defaults_file = elim bundle_file [
  | none ↦ none
  | some file ↦
      if exists file
      then some file
      else if exists sysconf_file
      then some sysconf_file
      else if exists defaults_file
      then some defaults_file
      else none
]

-- The lines that are not empty, without the space around them.
unfoldable pub nonempty_lines : List Bytes → List Bytes
unfolding strstrip
nonempty_lines [] = []
nonempty_lines (arg ∷ args) =
    let rest = nonempty_lines args in if is_blank arg then rest else strstrip arg ∷ rest

unfoldable pub strip_all : List Bytes → List Bytes
unfolding strstrip
strip_all [] = []
strip_all (arg ∷ args) = strstrip arg ∷ strip_all args

unfoldable pub vm_args_get :
    HypervisorAnswers
    → Option Bytes
    → (Bytes → Option Bytes)
    → Option Bytes
    → Config
    → List Bytes
    → Option (Config × List Bytes)
unfolding file_to_strv expand_cmdline nonempty_lines strip_all
vm_args_get a hostname contents args_file config extra_args = do
  lines ← file_to_strv contents args_file
  r ← expand_cmdline a hostname config lines
  some (r.0, nonempty_lines r.1 ++ strip_all extra_args)
