-- ===== src/ProcessExamples.antt =====
-- The theorems on the hooks, the shim and the hypervisor as processes at small inputs.
use cc_oci_runtime.Prelude.{
  ◌≡◌, refl, true, false, none, some, List, [], ◌∷◌, Bytes, codes, pos, arith, drop, if◌then◌else◌,
  str_eq,
}
use cc_oci_runtime.Container.Types.{Config}
use cc_oci_runtime.StateFile.Json.{object}
use cc_oci_runtime.StateFile.Recall.{section}
use cc_oci_runtime.Hooks.{Hook, Hooks, hooks_handle_section}
use cc_oci_runtime.Hooks.Listed.{IsHook, hooks_members, no_hooks, hooks_handle_section-Listed}
use cc_oci_runtime.Hooks.Run.{HookAnswers, delivered, run_hooks}
use cc_oci_runtime.Hooks.Order.{PrestartRuns, run_hooks-PrestartRuns}
use cc_oci_runtime.Shim.Options.{
  ShimOption, container_id, proxy_sock_fd, proxy_io_fd, seq_no, err_seq_no, debug, help, unknown,
  parsed, main_options,
}
use cc_oci_runtime.Process.{ShimChild, shim_child, shim_exec, dup_over_stdio, setup_shim, shim_args}
use cc_oci_runtime.Process.ShimArgs.{
  words, IsKnown, GetoptLong, given_shim, main_options-shim_child,
}
use cc_oci_runtime.Process.HypervisorArgs.{
  receive_args, send_args, join_lines, receive_args-send_args,
}
use cc_oci_runtime.Prelude.{All, ap, ◌∙◌}
use cc_oci_runtime.Pods.Create.{with_streams}
use cc_oci_runtime.PodExamples.{workload, config}

-- A hook with arguments, and one that has none.
abbrev set_key : Hook
set_key = record {
  path = codes "/d";
  args = some (codes "key" ∷ codes "1" ∷ []);
  env = none;
  timeout = pos 5;
}

abbrev plain_hook : Hook
plain_hook = record {
  path = codes "/h";
  args = none;
  env = some (codes "A=1" ∷ []);
  timeout = pos 0;
}

abbrev hooks : Hooks
hooks = record { prestart = set_key ∷ plain_hook ∷ []; poststart = []; poststop = plain_hook ∷ [] }

set_key-IsHook : IsHook set_key
set_key-IsHook = record {
  named = refl;
  fits = omega arith;
  args = tt;
  env = tt;
  timeout = omega arith;
}

plain_hook-IsHook : IsHook plain_hook
plain_hook-IsHook = record {
  named = refl;
  fits = omega arith;
  args = tt;
  env = tt;
  timeout = omega arith;
}

hooks_handle_section-Listed_example :
    hooks_handle_section (section (codes "hooks") (object (hooks_members hooks))) no_hooks
    ≡ (hooks, true)
hooks_handle_section-Listed_example =
    hooks_handle_section-Listed hooks no_hooks (set_key-IsHook, (plain_hook-IsHook, tt)) tt
      (plain_hook-IsHook, tt)

-- The second of three hooks ends with status 1.
abbrev good : HookAnswers
good = record { spawned = true; state_sent = delivered; end_sent = delivered; exit_code = pos 0 }

abbrev bad : HookAnswers
bad = record good { exit_code = pos 1 }

run_hooks-PrestartRuns_example :
    PrestartRuns (codes "{}") (set_key ∷ plain_hook ∷ set_key ∷ []) (good ∷ bad ∷ good ∷ []) (
      run_hooks true
        (some (codes "{}"))
        (set_key ∷ plain_hook ∷ set_key ∷ [])
        (good ∷ bad ∷ good ∷ []))
run_hooks-PrestartRuns_example =
    run_hooks-PrestartRuns b'{' (codes "}") (set_key ∷ plain_hook ∷ set_key ∷ [])
      (good ∷ bad ∷ good ∷ []) refl

receive_args-send_args_example :
    receive_args
      (send_args (codes "/q" ∷ codes "-m" ∷ [])).0
      (send_args (codes "/q" ∷ codes "-m" ∷ [])).1
    ≡ some (codes "/q" ∷ codes "-m" ∷ [])
unfolding join_lines
receive_args-send_args_example =
    receive_args-send_args (codes "/q") (codes "-m" ∷ [])
      (
        ((omega arith, (omega arith, tt)), (refl, (refl, tt))),
        (((omega arith, (omega arith, tt)), (refl, (refl, tt))), tt),
      )
      (λ e. cc) (omega arith)

-- A parser of options by their letters.
abbrev with_word : Bytes → Bytes → List ShimOption → List ShimOption
with_word letter s rest =
    if str_eq letter (codes "-c")
    then container_id s ∷ rest
    else if str_eq letter (codes "-p")
    then proxy_sock_fd s ∷ rest
    else if str_eq letter (codes "-o")
    then proxy_io_fd s ∷ rest
    else if str_eq letter (codes "-s")
    then seq_no s ∷ rest
    else err_seq_no s ∷ rest

short_options : List Bytes → List ShimOption
short_options [] = []
short_options (letter ∷ []) = (if str_eq letter (codes "-d") then debug else help) ∷ []
short_options (letter ∷ s ∷ rest) =
    let flags = short_options (s ∷ rest) in
    let pairs = short_options rest in
    if str_eq letter (codes "-d")
    then debug ∷ flags
    else if str_eq letter (codes "-h")
    then help ∷ flags
    else with_word letter s pairs

short_options-words : (os : List ShimOption) → All IsKnown os → short_options (words os) ≡ os
unfolding short_options str_eq
short_options-words [] h = refl
short_options-words (container_id s ∷ os) h = ap (container_id s ∷◌) (short_options-words os h.1)
short_options-words (proxy_sock_fd s ∷ os) h = ap (proxy_sock_fd s ∷◌) (short_options-words os h.1)
short_options-words (proxy_io_fd s ∷ os) h = ap (proxy_io_fd s ∷◌) (short_options-words os h.1)
short_options-words (seq_no s ∷ os) h = ap (seq_no s ∷◌) (short_options-words os h.1)
short_options-words (err_seq_no s ∷ os) h = ap (err_seq_no s ∷◌) (short_options-words os h.1)
short_options-words (debug ∷ os) h =
    flag_debug (words os) ∙ ap (debug ∷◌) (short_options-words os h.1)
  where
    flag_debug : (ws : List Bytes) → short_options (codes "-d" ∷ ws) ≡ debug ∷ short_options ws
    flag_debug [] = refl
    flag_debug (w ∷ ws) = refl
short_options-words (help ∷ os) h = flag_help (words os) ∙ ap (help ∷◌) (short_options-words os h.1)
  where
    flag_help : (ws : List Bytes) → short_options (codes "-h" ∷ ws) ≡ help ∷ short_options ws
    flag_help [] = refl
    flag_help (w ∷ ws) = refl
short_options-words (unknown ∷ os) h = absurd h.0

getopt : GetoptLong
unfolding short_options
getopt = record { options = short_options; documented = short_options-words }

abbrev shim : ShimChild
shim = record {
  proxy_socket_fd = some (pos 5);
  proxy_io_base = some (pos 7);
  proxy_io_fd = some (pos 6);
  shim_flock_fd = pos 8;
  opened = true;
  closes = true;
  dups = λ fd. [];
  locked = true;
  terminal_set = true;
  executed = true;
}

abbrev piped_config : Config
piped_config = record config { process = record workload { terminal = false } }

abbrev shim_argv : List Bytes
shim_argv = shim_args (codes "/shim") (some (codes "c")) false (pos 5) (pos 6) (pos 7)

main_options-shim_child_example :
    (main_options (getopt.options (drop 1 shim_argv))
      ≡ parsed (given_shim (codes "c") 5 6 7 8) false)
    × ((with_streams (pos 7) piped_config).process.stderr_stream ≡ pos 8)
unfolding shim_child shim_exec dup_over_stdio setup_shim
main_options-shim_child_example =
    main_options-shim_child getopt (codes "/shim") (codes "c") true piped_config shim 5 6 7
      shim_argv refl refl refl refl (omega arith, omega arith) (omega arith, omega arith)
      (omega arith, omega arith) refl
