-- ===== src/Lifecycle/Steps.antt =====
-- What the commands of src/oci.c leave in the config and in the state file.
use cc_oci_runtime.Prelude.{
  ℕ, ◌≡◌, refl, ap, Bool, true, false, not, ◌&&◌, ◌⊎◌, inl, inr, Option, none, some, Bytes,
  Bool-cases,
}
use cc_oci_runtime.Container.Types.{Status, stopped, stopping, Config, OciState}
use cc_oci_runtime.StateFile.Write.{
  Disk, check_complete, document, is_empty, state_file_get, state_file_create,
}
use cc_oci_runtime.StateFile.RecallMounts.{Option-cases}
use cc_oci_runtime.StateFile.Recovery.{with_path}
use cc_oci_runtime.Lifecycle.{
  Result, with_status, write_status, or_revert, failing, pod_is_sandbox, KillAnswers, needs_proxy,
  kill_container, oci_kill,
}

-- The config that a call of `state_file_create` leaves.
abbrev pub Keeps : Config → Result → Type 0
Keeps c r = (r.0 ≡ c) ⊎ (r.0 ≡ with_path c)

pub state_file_create-Keeps :
    (c : Config) (t : Option Bytes) (w : Bool) (disk : Disk)
    → Keeps c (state_file_create c t w disk)
unfolding state_file_create state_file_get
state_file_create-Keeps c none w disk = inl refl
state_file_create-Keeps c (some t) w disk = elim (Option-cases (check_complete c)) [
  | inl e ↦ rw (e, state_file_create) (inl refl)
  | inr (k, e) ↦ elim (Bool-cases (is_empty c.runtime_path)) [
    | inl blank ↦ rw (e, blank, state_file_create) (inl refl)
    | inr there ↦ elim (Option-cases (document (with_path c) k t)) [
      | inl d ↦ rw (e, there, d, state_file_create) (inr refl)
      | inr (doc, d) ↦ elim (Bool-cases w) [
        | inl yes_written ↦ rw (e, there, d, yes_written, state_file_create) (inr refl)
        | inr refused ↦ rw (e, there, d, refused, state_file_create) (inr refl)
      ]
    ]
  ]
]

state_file_create-status :
    (c : Config) (t : Option Bytes) (w : Bool) (disk : Disk)
    → (state_file_create c t w disk).0.status ≡ c.status
state_file_create-status c t w disk = elim (state_file_create-Keeps c t w disk) [
  | inl e ↦ ap (λ z. z.status) e
  | inr e ↦ ap (λ z. z.status) e
]

-- How a kill may end: with the status `stopped` if it succeeds, and with the status that the
-- container had, or `stopping`, if it does not.
abbrev pub KillEnds : Status → Result → Type 0
KillEnds before r =
    ((r.2 ≡ true) × (r.0.status ≡ stopped))
    ⊎ ((r.2 ≡ false) × ((r.0.status ≡ before) ⊎ (r.0.status ≡ stopping)))

or_revert-KillEnds :
    (before last : Status) (r : Result)
    → r.0.status ≡ stopped
    → (last ≡ before) ⊎ (last ≡ stopping)
    → KillEnds before (or_revert last r)
unfolding or_revert
or_revert-KillEnds before last (c, disk, true) h k = inl (refl, h)
or_revert-KillEnds before last (c, disk, false) h k = inr (refl, k)

failing-KillEnds :
    (before : Status) (r : Result) → r.0.status ≡ before → KillEnds before (failing r)
unfolding failing
failing-KillEnds before (c, disk, b) h = inr (refl, inl h)

kill_container-KillEnds :
    (last : Status) (t : Option Bytes) (signum : ℕ) (a : KillAnswers) (r : Result)
    → r.0.status ≡ stopping
    → KillEnds last (kill_container last t signum a r)
unfolding kill_container
kill_container-KillEnds last t signum a (d, disk, false) h = inr (refl, inl refl)
kill_container-KillEnds last t signum a (d, disk, true) h = elim (Bool-cases a.signal_sent) [
  | inl was_sent ↦ rw was_sent (elim (Bool-cases (needs_proxy signum && not a.proxy_killed)) [
    | inl proxy_failed ↦ rw proxy_failed (inr (refl, inr h))
    | inr proxy_well ↦ rw proxy_well (
        or_revert-KillEnds last d.status (write_status stopped d t a.last_write disk)
          (state_file_create-status (with_status stopped d) t a.last_write disk) (inr h))
  ])
  | inr was_refused ↦ rw was_refused (
      failing-KillEnds last (write_status last d t a.last_write disk)
        (state_file_create-status (with_status last d) t a.last_write disk))
]

-- Whatever the system and cc-proxy answer, a kill that succeeds leaves the status `stopped`, and one
-- that fails leaves the status that the container had, or `stopping`.
pub oci_kill-KillEnds :
    (config : Config) (state : OciState) (signum : ℕ) (a : KillAnswers) (disk : Disk)
    → KillEnds config.status (oci_kill config state signum a disk)
unfolding oci_kill
oci_kill-KillEnds config state signum a disk = elim (Bool-cases (pod_is_sandbox config.pod)) [
  | inl sandbox ↦ rw sandbox (
      or_revert-KillEnds config.status config.status
        (write_status stopped config state.create_time a.first_write disk)
        (state_file_create-status (with_status stopped config) state.create_time a.first_write disk)
        (inl refl))
  | inr container ↦ rw container (
      kill_container-KillEnds config.status state.create_time signum a
        (write_status stopping config state.create_time a.first_write disk)
        (state_file_create-status (with_status stopping config) state.create_time a.first_write
          disk))
]
