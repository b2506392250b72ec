-- ===== src/Hooks/Order.antt =====
-- Which hooks are run, and in which order.
use mathlib.Core.List.{map}
use cc_oci_runtime.Prelude.{
  ℕ, ◌≡◌, refl, ap, ◌∙◌, Bool, true, false, not, ◌&&◌, some, List, [], ◌∷◌, ◌++◌, Bytes,
  if◌then◌else◌, All, length, suc, arith,
}
use cc_oci_runtime.Hooks.{Hook}
use cc_oci_runtime.Hooks.Run.{
  HookCall, HookAnswers, hook_args, one_line, hook_succeeds, run_hook, Runs, run_each, run_hooks,
  first_answer, later_answers,
}

-- The command of a hook, with its environment and the state file on one line as its input.
abbrev pub hook_call : Bytes → Hook → HookCall
hook_call state hook = record {
  argv = hook_args hook;
  env = hook.env;
  input = one_line state ++ 10 ∷ [];
}

abbrev pub AllSucceed : List HookAnswers → Type 0
AllSucceed = All (λ a. hook_succeeds a ≡ true)

-- How a list of hooks is run: to its end, or up to the first hook that fails.
pub data PrestartRuns (state : Bytes) : List Hook → List HookAnswers → Runs → Type 0 where
  all_run :
      (hooks : List Hook) (answers : List HookAnswers)
      → length answers ≡ length hooks
      → AllSucceed answers
      → PrestartRuns state hooks answers (map (hook_call state) hooks, true)
  stopped_at :
      (before after : List Hook) (hook : Hook) (answers later : List HookAnswers) (a : HookAnswers)
      → length answers ≡ length before
      → AllSucceed answers
      → hook_succeeds a ≡ false
      → PrestartRuns state
          (before ++ hook ∷ after)
          (answers ++ a ∷ later)
          (map (hook_call state) (before ++ hook ∷ []), false)

abbrev then_run : Bytes → Hook → Runs → Runs
then_run state hook r = (hook_call state hook ∷ r.0, r.1)

PrestartRuns-cons :
    {state : Bytes} (hook : Hook) (a : HookAnswers) (hooks : List Hook) (answers : List HookAnswers)
    (r : Runs)
    → hook_succeeds a ≡ true
    → PrestartRuns state hooks answers r
    → PrestartRuns state (hook ∷ hooks) (a ∷ answers) (then_run state hook r)
PrestartRuns-cons hook a _ _ _ h (all_run hooks answers e k) =
    all_run (hook ∷ hooks) (a ∷ answers) (ap suc e) (h, k)
PrestartRuns-cons hook a _ _ _ h (stopped_at before after f answers later b e k n) =
    stopped_at (hook ∷ before) after f (a ∷ answers) later b (ap suc e) (h, k) n

-- One step of the loop, which ends the run if the hook fails.
step-PrestartRuns :
    {state : Bytes} (b : Bool) (hook : Hook) (a : HookAnswers) (hooks : List Hook)
    (answers : List HookAnswers) (rest : Runs)
    → hook_succeeds a ≡ b
    → PrestartRuns state hooks answers rest
    → PrestartRuns state
        (hook ∷ hooks)
        (a ∷ answers)
        (if not b && true then (hook_call state hook ∷ [], false) else then_run state hook rest)
step-PrestartRuns true hook a hooks answers rest h k =
    PrestartRuns-cons hook a hooks answers rest h k
step-PrestartRuns false hook a hooks answers rest h k =
    stopped_at [] hooks hook [] answers a refl tt h

run_each-PrestartRuns :
    (c : ℕ) (s : Bytes) (hooks : List Hook) (answers : List HookAnswers)
    → length answers ≡ length hooks
    → PrestartRuns (c ∷ s) hooks answers (run_each true (c ∷ s) hooks answers)
unfolding run_each run_hook
run_each-PrestartRuns c s [] [] e = all_run [] [] refl tt
run_each-PrestartRuns c s [] (a ∷ answers) e = absurd (omega arith)
run_each-PrestartRuns c s (hook ∷ hooks) [] e = absurd (omega arith)
run_each-PrestartRuns c s (hook ∷ hooks) (a ∷ answers) e =
    step-PrestartRuns (hook_succeeds a) hook a hooks answers (run_each true (c ∷ s) hooks answers)
      refl (run_each-PrestartRuns c s hooks answers (omega arith))

goes_on : (r q : Runs) (b : Bool) → (if not b && false then r else q) ≡ q
goes_on r q true = refl
goes_on r q false = refl

run_each_all :
    (c : ℕ) (s : Bytes) (hooks : List Hook) (answers : List HookAnswers)
    → run_each false (c ∷ s) hooks answers ≡ (map (hook_call (c ∷ s)) hooks, true)
unfolding run_each run_hook
run_each_all c s [] answers = refl
run_each_all c s (hook ∷ hooks) answers =
    goes_on _ _ (hook_succeeds (first_answer answers))
    ∙ ap (then_run (c ∷ s) hook) (run_each_all c s hooks (later_answers answers))

-- With a state file that can be read and is not empty, the prestart hooks are run in order up to the
-- first that fails, which makes the run fail; each gets its command, its environment and the state on
-- one line.
pub run_hooks-PrestartRuns :
    (c : ℕ) (s : Bytes) (hooks : List Hook) (answers : List HookAnswers)
    → length answers ≡ length hooks
    → PrestartRuns (c ∷ s) hooks answers (run_hooks true (some (c ∷ s)) hooks answers)
unfolding run_hooks run_each
run_hooks-PrestartRuns c s [] answers e = run_each-PrestartRuns c s [] answers e
run_hooks-PrestartRuns c s (hook ∷ hooks) answers e =
    run_each-PrestartRuns c s (hook ∷ hooks) answers e

-- The poststart and poststop hooks are all run, in order, and the run succeeds, whatever becomes of
-- them, when the state file can be read and is not empty.
pub run_hooks_all :
    (c : ℕ) (s : Bytes) (hooks : List Hook) (answers : List HookAnswers)
    → run_hooks false (some (c ∷ s)) hooks answers ≡ (map (hook_call (c ∷ s)) hooks, true)
unfolding run_hooks run_each
run_hooks_all c s [] answers = refl
run_hooks_all c s (hook ∷ hooks) answers = run_each_all c s (hook ∷ hooks) answers
