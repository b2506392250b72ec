-- ===== src/Lifecycle/KillCommand.antt =====
-- handler_kill of src/commands/kill.c: the kill command, from its words to the new state file.
use cc_oci_runtime.Prelude.{
  ℕ, ◌≡◌, inl, inr, refl, sym, ap, ◌∙◌, Bool, true, false, Option, none, some, List, [], ◌∷◌, ◌==◌,
  length, Bytes, arith,
}
use cc_oci_runtime.Container.Types.{stopped, Config, OciState}
use cc_oci_runtime.StateFile.Read.{state_file_read}
use cc_oci_runtime.StateFile.Write.{Disk}
use cc_oci_runtime.StateFile.RoundTrip.{Fits, ReadsBack}
use cc_oci_runtime.StateFile.Recovery.{not_created}
use cc_oci_runtime.Commands.Usage.{handle_default_usage, AsksHelp, handle_default_usage-cases}
use cc_oci_runtime.Lifecycle.{Result, KillAnswers, with_status, oci_kill}
use cc_oci_runtime.Lifecycle.Recovery.{oci_kill-ReadsBack, oci_kill_untimed}
use cc_oci_runtime.Lifecycle.Update.{config_update}
use cc_oci_runtime.Lifecycle.Runtime.{get_config_and_state}
use cc_oci_runtime.Lifecycle.Signals.{choose_signal, Chooses, choose_signal-Chooses}

abbrev pub with_id : Bytes → Config → Config
with_id container_id config = record config { container_id = some container_id }

-- The kill of a container whose state has been found.
abbrev pub kill_found : ℕ → KillAnswers → Config × OciState → Disk → Result
kill_found signum a (filled, state) disk =
    let (config, left) = config_update filled state in oci_kill config left signum a disk

-- The signal is read if there is just one word behind the container's id.
abbrev pub signal_word : List Bytes → Option Bytes
signal_word [] = none
signal_word (signame ∷ []) = some signame
signal_word (_ ∷ _ ∷ _) = none

-- From the container's id and the words behind it on.
abbrev pub kill_words : Bytes → Bytes → List Bytes → KillAnswers → Config → Disk → Result
kill_words prefix container_id rest a config disk =
    let c = with_id container_id config in
    elim (choose_signal (signal_word rest)) [
      | none ↦ (c, disk, false)
      | some signum ↦ elim (get_config_and_state prefix c disk) [
        | none ↦ (c, disk, false)
        | some found ↦ kill_found signum a found disk
      ]
    ]

-- `argv` are the words behind the command's name.
unfoldable pub handler_kill : Bytes → List Bytes → KillAnswers → Config → Disk → Result
unfolding handle_default_usage choose_signal get_config_and_state config_update oci_kill
handler_kill prefix argv a config disk = elim (handle_default_usage argv 1) [
  | some ret ↦ (config, disk, ret)
  | none ↦ elim argv [
    | [] ↦ (config, disk, false)
    | container_id ∷ rest ↦ kill_words prefix container_id rest a config disk
  ]
]

abbrev pub first_word : List Bytes → Bytes
first_word [] = []
first_word (word ∷ _) = word

-- What a kill command that succeeds has done.
pub data KillDone (prefix : Bytes) (argv : List Bytes) (config c' : Config) (disk disk' : Disk)
    : Type 0 where
  helped :
      (word : Bytes)
      → argv ≡ word ∷ []
      → AsksHelp word
      → c' ≡ config
      → disk' ≡ disk
      → KillDone prefix argv config c' disk disk'
  killed :
      (container_id : Bytes) (rest : List Bytes) (signum : ℕ) (filled : Config) (state : OciState)
      (create_time : Bytes)
      → argv ≡ container_id ∷ rest
      → Chooses (signal_word rest) signum
      → get_config_and_state prefix (with_id container_id config) disk ≡ some (filled, state)
      → state.create_time ≡ some create_time
      → ReadsBack
          (with_status stopped (config_update filled state).0)
          create_time
          (state_file_read disk' (some c'.state_file_path))
      → KillDone prefix argv config c' disk disk'

kill_found-KillDone :
    (prefix id : Bytes) (rest : List Bytes) (signum : ℕ) (a : KillAnswers)
    (config filled c' : Config) (state : OciState) (disk disk' : Disk) (time : Option Bytes)
    → state.create_time ≡ time
    → Fits (config_update filled state).0
    → Chooses (signal_word rest) signum
    → get_config_and_state prefix (with_id id config) disk ≡ some (filled, state)
    → kill_found signum a (filled, state) disk ≡ (c', disk', true)
    → KillDone prefix (id ∷ rest) config c' disk disk'
unfolding config_update
kill_found-KillDone prefix id rest signum a config filled c' state disk disk' none e f k found h =
    absurd (
      oci_kill_untimed (config_update filled state).0 c' (config_update filled state).1 signum a
        disk disk' e h)
kill_found-KillDone prefix id rest signum a config filled c' state disk disk' (some t) e f k found
      h =
    killed id rest signum filled state t refl k found e (
      oci_kill-ReadsBack (config_update filled state).0 c' (config_update filled state).1 signum a
        disk disk' t f e h)

kill_words-KillDone :
    (prefix id : Bytes) (rest : List Bytes) (a : KillAnswers) (config c' : Config)
    (disk disk' : Disk)
    → ((filled : Config) (state : OciState)
        → get_config_and_state prefix (with_id id config) disk ≡ some (filled, state)
        → Fits (config_update filled state).0)
    → kill_words prefix id rest a config disk ≡ (c', disk', true)
    → KillDone prefix (id ∷ rest) config c' disk disk'
kill_words-KillDone prefix id rest a config c' disk disk' fits =
    by_signal (choose_signal (signal_word rest))
      (get_config_and_state prefix (with_id id config) disk) refl refl
  where
    by_signal :
        (o : Option ℕ) (r : Option (Config × OciState))
        → choose_signal (signal_word rest) ≡ o
        → get_config_and_state prefix (with_id id config) disk ≡ r
        → Path Result
            (elim o as (λ _. Result) [
              | none ↦ (with_id id config, disk, false)
              | some signum ↦ elim r as (λ _. Result) [
                | none ↦ (with_id id config, disk, false)
                | some found ↦ kill_found signum a found disk
              ]
            ])
            (c', disk', true)
        → KillDone prefix (id ∷ rest) config c' disk disk'
    by_signal none r k found h = absurd (not_created h)
    by_signal (some signum) none k found h = absurd (not_created h)
    by_signal (some signum) (some (filled, state)) k found h =
        kill_found-KillDone prefix id rest signum a config filled c' state disk disk'
          state.create_time refl (fits filled state found)
          (choose_signal-Chooses (signal_word rest) signum k) found h

helped-KillDone :
    (prefix word : Bytes) (rest : List Bytes) (config c' : Config) (disk disk' : Disk)
    → AsksHelp word
    → Path Result (config, disk, length (word ∷ rest) == 1) (c', disk', true)
    → KillDone prefix (word ∷ rest) config c' disk disk'
helped-KillDone prefix word [] config c' disk disk' help h =
    helped word refl help (sym (ap (λ z. z.0) h)) (sym (ap (λ z. z.1) h))
helped-KillDone prefix word (w ∷ ws) config c' disk disk' help h =
    let more : (length (word ∷ w ∷ ws) == 1) ≡ false = ground arith in
    absurd (not_created (rw more at h))

-- A kill command that succeeds was either asked for help and given no other word, which changes
-- nothing, or has been given no signal, which stands for SIGTERM, a positive number, or a name in the
-- table of signals, and has found the container's state. In the second case the state file reads
-- back as that of the stopped container, with the config as it was found there, when its numbers and
-- texts fit their types, as far as a state file keeps it: the ids of the user read back as 0, the pod
-- has no workloads, of a mount there are only its destination and the directory that was created for
-- it, and nothing is said of the annotations.
pub handler_kill-ReadsBack :
    (prefix : Bytes) (argv : List Bytes) (a : KillAnswers) (config c' : Config) (disk disk' : Disk)
    → ((filled : Config) (state : OciState)
        → get_config_and_state prefix (with_id (first_word argv) config) disk ≡ some (filled, state)
        → Fits (config_update filled state).0)
    → handler_kill prefix argv a config disk ≡ (c', disk', true)
    → KillDone prefix argv config c' disk disk'
unfolding handler_kill handle_default_usage
handler_kill-ReadsBack prefix [] a config c' disk disk' fits h = absurd (not_created h)
handler_kill-ReadsBack prefix (id ∷ rest) a config c' disk disk' fits h =
    elim (handle_default_usage-cases id rest) [
      | inl e ↦
          kill_words-KillDone prefix id rest a config c' disk disk' fits (ap asked (sym e) ∙ h)
      | inr (e, help) ↦
          helped-KillDone prefix id rest config c' disk disk' help (ap asked (sym e) ∙ h)
    ]
  where
    asked : Option Bool → Result
    asked o = elim o [
      | some ret ↦ (config, disk, ret)
      | none ↦ kill_words prefix id rest a config disk
    ]
