-- ===== src/Hooks/Run.antt =====
-- src/process.c: running hooks. What the system answers to each is an argument, in order.
use cc_oci_runtime.Prelude.{
  Bool, true, false, not, ◌&&◌, Option, none, some, List, [], ◌∷◌, ◌++◌, ◌==◌, if◌then◌else◌, ℤ,
  pos, eqb_ℤ, Bytes,
}
use cc_oci_runtime.Hooks.{Hook}

-- What a hook is started with, and what it is sent on its standard input.
pub record HookCall : Type 0 where
  pub argv : List Bytes
  pub env : Option (List Bytes)
  pub input : Bytes

-- write (2) to the hook; `broken` is EPIPE.
pub data Sending : Type 0 where
  delivered broken failed : Sending

-- Whether the hook could be started, how the two writes went, and with what status it ended.
pub record HookAnswers : Type 0 where
  pub spawned : Bool
  pub state_sent : Sending
  pub end_sent : Sending
  pub exit_code : ℤ

-- The path of the program, and behind it the arguments with the name that it is to see.
unfoldable pub hook_args : Hook → List Bytes
hook_args hook = elim hook.args [ none ↦ hook.path ∷ hook.path ∷ [] | some args ↦ hook.path ∷ args ]

-- g_strdelimit (state, "\n", ' ').
unfoldable pub one_line : Bytes → Bytes
one_line [] = []
one_line (c ∷ s) = (if c == 10 then b' ' else c) ∷ one_line s

-- A hook that does not read its input is taken to have succeeded.
unfoldable pub hook_succeeds : HookAnswers → Bool
hook_succeeds a = if not a.spawned then false else elim a.state_sent [
  | broken ↦ true
  | failed ↦ false
  | delivered ↦ elim a.end_sent [
    | broken ↦ true
    | failed ↦ false
    | delivered ↦ eqb_ℤ a.exit_code (pos 0)
  ]
]

abbrev pub is_empty_text : Bytes → Bool
is_empty_text [] = true
is_empty_text (_ ∷ _) = false

-- The hook that was to be started, if it came to that, and the result.
unfoldable pub run_hook : Hook → Bytes → HookAnswers → Option HookCall × Bool
unfolding hook_args one_line hook_succeeds
run_hook hook state a = if is_empty_text state then (none, false) else (
  some (record { argv = hook_args hook; env = hook.env; input = one_line state ++ 10 ∷ [] }),
  hook_succeeds a,
)

abbrev pub Runs : Type 0
Runs = List HookCall × Bool

abbrev pub add_call : Option HookCall → List HookCall → List HookCall
add_call none calls = calls
add_call (some call) calls = call ∷ calls

-- The loop. A hook for which there is no answer cannot be started.
abbrev pub no_answer : HookAnswers
no_answer = record { spawned = false; state_sent = failed; end_sent = failed; exit_code = pos 0 }

abbrev pub first_answer : List HookAnswers → HookAnswers
first_answer [] = no_answer
first_answer (a ∷ _) = a

abbrev pub later_answers : List HookAnswers → List HookAnswers
later_answers [] = []
later_answers (_ ∷ rest) = rest

unfoldable pub run_each : Bool → Bytes → List Hook → List HookAnswers → Runs
unfolding run_hook
run_each stop_on_failure state [] answers = ([], true)
run_each stop_on_failure state (hook ∷ hooks) answers =
    let r = run_hook hook state (first_answer answers) in
    let rest = run_each stop_on_failure state hooks (later_answers answers) in
    if not r.1 && stop_on_failure then (add_call r.0 [], false) else (add_call r.0 rest.0, rest.1)

-- `contents` is that of the state file, if it could be read.
unfoldable pub run_hooks : Bool → Option Bytes → List Hook → List HookAnswers → Runs
unfolding run_each
run_hooks stop_on_failure contents [] answers = ([], true)
run_hooks stop_on_failure contents (hook ∷ hooks) answers = elim contents [
  | none ↦ ([], false)
  | some state ↦ run_each stop_on_failure state (hook ∷ hooks) answers
]
