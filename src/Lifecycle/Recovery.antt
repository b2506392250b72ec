-- ===== src/Lifecycle/Recovery.antt =====
-- What a reader of the state file finds after the commands of src/oci.c.
use cc_oci_runtime.Prelude.{
  ℕ, ◌≡◌, refl, sym, ap, Bool, true, false, not, ◌&&◌, ◌⊎◌, inl, inr, Option, none, some, List, [],
  ◌∷◌, if◌then◌else◌, Bytes, Bool-cases,
}
use cc_oci_runtime.Container.Types.{Status, stopped, stopping, Config, OciState}
use cc_oci_runtime.StateFile.Read.{ReadResult, state_file_read}
use cc_oci_runtime.StateFile.Write.{Disk, check_complete, state_file_create}
use cc_oci_runtime.StateFile.RoundTrip.{Fits, ReadsBack}
use cc_oci_runtime.StateFile.Recovery.{not_created, state_file_read-state_file_create, with_path}
use cc_oci_runtime.Lifecycle.{
  Result, with_status, write_status, or_revert, failing, pod_is_sandbox, KillAnswers, needs_proxy,
  kill_container, oci_kill, dest_status, oci_toggle, same_status, VmCall, pauses, resumes,
  above_zero, ask_vm, vm_pause, vm_resume, Toggled,
}
use cc_oci_runtime.Lifecycle.Steps.{state_file_create-Keeps}

pub status-Fits : (c : Config) (s : Status) → Fits c → Fits (with_status s c)
status-Fits c s f = record {
  workload_pid = f.workload_pid;
  mounts = f.mounts;
  process = f.process;
  vm = f.vm;
}

pub path-Fits : (c : Config) → Fits c → Fits (with_path c)
path-Fits c f = record {
  workload_pid = f.workload_pid;
  mounts = f.mounts;
  process = f.process;
  vm = f.vm;
}

-- The request that a toggle makes, once.
abbrev pub toggle_call : Bool → Bytes → ℕ → VmCall
toggle_call true = pauses
toggle_call false = resumes

-- What a toggle that has changed the status has done.
pub record ToggleDone (config c' : Config) (state : OciState) (pause : Bool) (vm : VmCall → Bool)
    (calls : List VmCall) (disk' : Disk) : Type 0 where
  pub socket_path : Bytes
  pub has_socket : state.comms_path ≡ some socket_path
  pub asked : calls ≡ toggle_call pause socket_path state.pid ∷ []
  pub granted : vm (toggle_call pause socket_path state.pid) ≡ true
  pub create_time : Bytes
  pub has_time : state.create_time ≡ some create_time
  pub reads :
      ReadsBack
        (with_status (dest_status pause) config)
        create_time
        (state_file_read disk' (some c'.state_file_path))

asked_write : Bool → Bool → Config → Option Bytes → Bool → Disk → Result
asked_write pause ok config time writable disk =
    if not ok
    then (config, disk, false)
    else write_status (dest_status pause) config time writable disk

asked_write-ReadsBack :
    (config c' : Config) (pause ok w : Bool) (time : Option Bytes) (disk disk' : Disk)
    → Fits config
    → asked_write pause ok config time w disk ≡ (c', disk', true)
    → (ok ≡ true)
      × (t : Bytes) × (time ≡ some t)
      × ReadsBack
          (with_status (dest_status pause) config)
          t
          (state_file_read disk' (some c'.state_file_path))
unfolding asked_write state_file_create
asked_write-ReadsBack config c' pause false w time disk disk' f h = absurd (not_created h)
asked_write-ReadsBack config c' pause true w none disk disk' f h = absurd (not_created h)
asked_write-ReadsBack config c' pause true w (some t) disk disk' f h = (
  refl,
  t,
  refl,
  state_file_read-state_file_create (with_status (dest_status pause) config) c' t w disk disk'
      (status-Fits config (dest_status pause) f) h,
)

-- The request, for either direction.
asked-ToggleDone :
    (config c' : Config) (state : OciState) (pause : Bool) (vm : VmCall → Bool) (writable : Bool)
    (disk disk' : Disk) (calls : List VmCall) (path : Option Bytes) (valid : Bool)
    → Fits config
    → state.comms_path ≡ path
    → above_zero state.pid ≡ valid
    → (let r = ask_vm (toggle_call pause) vm state.comms_path state.pid in
        Path Toggled
          (r.0, asked_write pause r.1 config state.create_time writable disk)
          (calls, (c', disk', true)))
    → ToggleDone config c' state pause vm calls disk'
unfolding asked_write
asked-ToggleDone config c' state pause vm w disk disk' calls none valid f e v h =
    absurd (not_created (ap (λ z. z.1) (rw e at h)))
asked-ToggleDone config c' state pause vm w disk disk' calls (some path) false f e v h =
    absurd (not_created (ap (λ z. z.1) (rw (e, v) at h)))
asked-ToggleDone config c' state pause vm w disk disk' calls (some path) true f e v h =
    let k : Path Toggled
        (
          toggle_call pause path state.pid ∷ [],
          asked_write pause (vm (toggle_call pause path state.pid)) config state.create_time w disk,
        )
        (calls, (c', disk', true)) =
      rw (e, v) at h in
    let (granted, t, timed, reads) =
      asked_write-ReadsBack config c' pause (vm (toggle_call pause path state.pid)) w
        state.create_time disk disk' f (ap (λ z. z.1) k) in
    record {
      socket_path = path;
      has_socket = e;
      asked = sym (ap (λ z. z.0) k);
      granted = granted;
      create_time = t;
      has_time = timed;
      reads = reads;
    }

-- A toggle of a container that is not yet in the wanted status ends well only if it has asked the
-- hypervisor once, by the socket and the pid of the state, to pause if it was to be paused and to
-- resume if not, and this has succeeded. Then the state file that it has written reads back the new
-- status with the rest of the config, when the numbers and texts of the config fit their types, as far
-- as a state file keeps it: the ids of the user read back as 0, the pod has no workloads, of a mount
-- there are only its destination and the directory that was created for it, and nothing is said of
-- the annotations.
pub oci_toggle-ReadsBack :
    (config c' : Config) (state : OciState) (pause : Bool) (vm : VmCall → Bool) (writable : Bool)
    (disk disk' : Disk) (calls : List VmCall)
    → Fits config
    → same_status state.status (dest_status pause) ≡ false
    → oci_toggle config state pause vm writable disk ≡ (calls, (c', disk', true))
    → ToggleDone config c' state pause vm calls disk'
unfolding oci_toggle vm_pause vm_resume asked_write
oci_toggle-ReadsBack config c' state true vm w disk disk' calls f n h =
    asked-ToggleDone config c' state true vm w disk disk' calls state.comms_path
      (above_zero state.pid) f refl refl (rw (n, oci_toggle) at h)
oci_toggle-ReadsBack config c' state false vm w disk disk' calls f n h =
    asked-ToggleDone config c' state false vm w disk disk' calls state.comms_path
      (above_zero state.pid) f refl refl (rw (n, oci_toggle) at h)

or_revert-true :
    (last : Status) (r : Result) (c' : Config) (disk' : Disk)
    → or_revert last r ≡ (c', disk', true)
    → r ≡ (c', disk', true)
unfolding or_revert
or_revert-true last (c, disk, true) c' disk' h = h
or_revert-true last (c, disk, false) c' disk' h = absurd (not_created h)

-- A path that has been set already makes no difference.
path-ReadsBack :
    (c : Config) (s : Status) (t : Bytes) {r : ReadResult}
    → ReadsBack (with_status s (with_path c)) t r
    → ReadsBack (with_status s c) t r
unfolding check_complete
path-ReadsBack c s t b = record {
  complete = b.complete;
  is_complete = b.is_complete;
  args = b.args;
  has_args = b.has_args;
  notes = b.notes;
  reads = b.reads;
}

-- The last write of a kill, on the config that the first has left.
last_write-ReadsBack :
    (c d c' : Config) (s : Status) (t : Bytes) (w : Bool) (disk disk' : Disk)
    → Fits c
    → (d ≡ c) ⊎ (d ≡ with_path c)
    → state_file_create (with_status s d) (some t) w disk ≡ (c', disk', true)
    → ReadsBack (with_status s c) t (state_file_read disk' (some c'.state_file_path))
last_write-ReadsBack c d c' s t w disk disk' f (inl e) h =
    state_file_read-state_file_create (with_status s c) c' t w disk disk' (status-Fits c s f)
      (rw e at h)
last_write-ReadsBack c d c' s t w disk disk' f (inr e) h = path-ReadsBack c s t (
    state_file_read-state_file_create (with_status s (with_path c)) c' t w disk disk'
      (status-Fits (with_path c) s (path-Fits c f)) (rw e at h))

-- The last write of a kill that has succeeded.
kill_container_written :
    (last : Status) (t : Option Bytes) (signum : ℕ) (a : KillAnswers) (r : Result) (c' : Config)
    (disk' : Disk)
    → kill_container last t signum a r ≡ (c', disk', true)
    → write_status stopped r.0 t a.last_write r.1 ≡ (c', disk', true)
unfolding kill_container failing
kill_container_written last t signum a (d, disk, false) c' disk' h = absurd (not_created h)
kill_container_written last t signum a (d, disk, true) c' disk' h =
    elim (Bool-cases a.signal_sent) [
      | inl was_sent ↦ elim (Bool-cases (needs_proxy signum && not a.proxy_killed)) [
        | inl proxy_failed ↦ absurd (not_created (rw (was_sent, proxy_failed, kill_container) at h))
        | inr proxy_well ↦
            or_revert-true d.status _ c' disk' (rw (was_sent, proxy_well, kill_container) at h)
      ]
      | inr was_refused ↦ absurd (not_created (rw (was_refused, kill_container) at h))
    ]

-- After a kill that has succeeded, the state file reads back as that of the stopped container, with
-- the rest of the config as it was, when the numbers and texts of the config fit their types.
pub oci_kill-ReadsBack :
    (config c' : Config) (state : OciState) (signum : ℕ) (a : KillAnswers) (disk disk' : Disk)
    (create_time : Bytes)
    → Fits config
    → state.create_time ≡ some create_time
    → oci_kill config state signum a disk ≡ (c', disk', true)
    → ReadsBack
        (with_status stopped config)
        create_time
        (state_file_read disk' (some c'.state_file_path))
unfolding oci_kill
oci_kill-ReadsBack config c' state signum a disk disk' t f e h =
    elim (Bool-cases (pod_is_sandbox config.pod)) [
      | inl sandbox ↦
          last_write-ReadsBack config config c' stopped t a.first_write disk disk' f (inl refl)
            (or_revert-true config.status _ c' disk' (rw (sandbox, e, oci_kill) at h))
      | inr container ↦
          let s = with_status stopping config in
          let r = write_status stopping config (some t) a.first_write disk in
          last_write-ReadsBack s r.0 c' stopped t a.last_write r.1 disk'
            (status-Fits config stopping f) (state_file_create-Keeps s (some t) a.first_write disk)
            (kill_container_written config.status (some t) signum a r c' disk'
              (rw (container, e, oci_kill) at h))
    ]

-- Without a time of creation no state file can be written, and a kill fails.
pub oci_kill_untimed :
    (config c' : Config) (state : OciState) (signum : ℕ) (a : KillAnswers) (disk disk' : Disk)
    → state.create_time ≡ none
    → ¬ Path Result (oci_kill config state signum a disk) (c', disk', true)
unfolding oci_kill kill_container or_revert state_file_create
oci_kill_untimed config c' state signum a disk disk' e h =
    elim (Bool-cases (pod_is_sandbox config.pod)) [
      | inl sandbox ↦ not_created (rw (sandbox, e, oci_kill) at h)
      | inr container ↦ not_created (rw (container, e, oci_kill) at h)
    ]

-- A kill of a container that is no sandbox, whose signal kill (2) refuses, fails; if the state file
-- could be written both times, it reads back as that of the config before, with its status, when the
-- numbers and texts of the config fit their types.
pub oci_kill_refused :
    (config d d' : Config) (state : OciState) (signum : ℕ) (a : KillAnswers)
    (disk disk1 disk' : Disk) (create_time : Bytes)
    → Fits config
    → state.create_time ≡ some create_time
    → pod_is_sandbox config.pod ≡ false
    → a.signal_sent ≡ false
    → write_status stopping config (some create_time) a.first_write disk ≡ (d, disk1, true)
    → write_status config.status d (some create_time) a.last_write disk1 ≡ (d', disk', true)
    → (oci_kill config state signum a disk ≡ (d', disk', false))
      × ReadsBack config create_time (state_file_read disk' (some d'.state_file_path))
unfolding oci_kill kill_container failing
oci_kill_refused config d d' state signum a disk disk1 disk' t f e s n first last = (
  rw (s, e) (rw first (rw n (rw last refl))),
  last_write-ReadsBack (with_status stopping config) d d' config.status t a.last_write disk1 disk'
      (status-Fits config stopping f)
      (rw first at
        (state_file_create-Keeps (with_status stopping config) (some t) a.first_write disk))
      last,
)
