-- ===== src/CommandExamples.antt =====
-- The theorems on config files and on commands at small inputs.
use cc_oci_runtime.Prelude.{
  ◌≡◌, ◌++◌, refl, true, false, none, some, [], ◌∷◌, codes, decimal, arith, ◌^◌, ◌%◌, str_eq,
}
use cc_oci_runtime.StateFile.Json.{
  Json, object, value, text, member, no_member, json_parse, Node, foreach, parse_aux, json_string,
}
use cc_oci_runtime.Hooks.Listed.{no_hooks}
use cc_oci_runtime.Spec.{
  Spec, SpecSystem, root_handle_section, platform_handle_section, handle_root_section,
  handle_platform_section, resolve_path,
}
use cc_oci_runtime.Spec.Sections.{
  platform, start_spec_handlers, process_config, process_nodes, find_handler, handle_section_of,
  plain_member,
}
use cc_oci_runtime.Spec.Valid.{IsValid}
use cc_oci_runtime.Spec.Accepted.{here, later, process_config-IsValid}
use cc_oci_runtime.Commands.Users.{handle_option_user, handle_option_user-decimal}
use cc_oci_runtime.Lifecycle.Create.{CreateAnswers}
use cc_oci_runtime.StartExamples as Start
use cc_oci_runtime.SpecExamples as Specs
use cc_oci_runtime.LaunchExamples as Launch
use cc_oci_runtime.PodExamples as Pod

handle_option_user-decimal_example :
    handle_option_user (decimal (2 ^ 32) ++ (b':' ∷ decimal 100))
    ≡ some (2 ^ 32 % 2 ^ 32, 100 % 2 ^ 32)
handle_option_user-decimal_example =
    handle_option_user-decimal (2 ^ 32) 100 (omega arith) (omega arith)

-- Every path exists, and is a directory.
abbrev system : SpecSystem
system = record {
  real_path = λ path. some path;
  is_dir = λ path. true;
  found = λ path. true;
  runtime_dir = codes "/run";
}

abbrev spec : Spec
spec = record {
  config = Launch.config;
  hostname = none;
  os = none;
  arch = none;
  read_only = false;
  hooks = no_hooks;
  namespaces = [];
}

-- A config file with a root and a platform.
abbrev file : Json
file = object (
    member (codes "root") (object (member (codes "path") (value (text (codes "/r"))) no_member)) (
      member (codes "platform")
        (object (
          member (codes "os") (value (text (codes "linux")))
            (member (codes "arch") (value (text (codes "amd64"))) no_member)))
        no_member))

tree : Node
unfolding json_parse
tree = json_parse (codes "config.json") file

process_config-IsValid_example :
    IsValid system platform (record spec { os = some (codes "linux"); arch = some (codes "amd64") })
unfolding tree json_parse process_config process_nodes find_handler handle_section_of plain_member
    root_handle_section platform_handle_section handle_root_section handle_platform_section
    resolve_path str_eq foreach parse_aux json_string
process_config-IsValid_example =
    process_config-IsValid system start_spec_handlers tree spec
      (record spec { os = some (codes "linux"); arch = some (codes "amd64") }) platform
      (later _ _ (later _ _ (here (codes "platform") _ _ refl))) refl

-- A run in dry-run mode.
abbrev dry : Spec
dry = record spec { config = record Launch.config { dry_run_mode = true } }

abbrev create_answers : CreateAnswers
create_answers = record {
  system = system;
  in_bundle = true;
  config_file = codes "config.json";
  document = some file;
  vm_file = codes "vm.json";
  vm_document = none;
  made = λ path. true;
  ns = record { opens = λ path. true; joins = λ path ns. true; unshares = λ ns. true };
  launch = Launch.answers;
  hooks = [];
  pod = Pod.answers;
}
