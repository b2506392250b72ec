-- ===== src/Lifecycle/Unnoticed.antt =====
-- A start of a sandbox that never reaches cc-proxy.
use cc_oci_runtime.Prelude.{
  ◌≡◌, refl, ap, ◌∙◌, Bool, true, false, not, ◌&&◌, Option, none, some, [], if◌then◌else◌, Bytes,
}
use cc_oci_runtime.Container.Types.{created, running, Proxy, Pod, Config, OciState}
use cc_oci_runtime.StateFile.Write.{Disk}
use cc_oci_runtime.Proxy.Client.{Session, Outcome, proxy_connect, proxy_disconnect}
use cc_oci_runtime.Proxy.Commands.{proxy_hyper_new_pod_container}
use cc_oci_runtime.Lifecycle.{same_status, write_status}
use cc_oci_runtime.Lifecycle.Start.{
  StartAnswers, Started, with_bundle, start_waits, pod_container_start, start_standalone,
  start_sandbox, start_container, after_write, not_started, start_created, oci_start,
}

-- A process that has no connection and gets none.
abbrev pub offline : Session
offline = record { connected = false; sent = []; attempts = []; replies = []; closes = true }

start_sandbox-offline :
    (a : StartAnswers) (c : Config) (id : Bytes)
    → start_sandbox a.passwd a.stateless_passwd c id offline ≡ (c, (true, offline))
unfolding start_sandbox proxy_hyper_new_pod_container proxy_connect proxy_disconnect
start_sandbox-offline a c id = of_proxy c.proxy
  where
    of_proxy :
        (proxy : Option Proxy)
        → Path
            (Config × Outcome)
            (elim proxy as (λ _. Config × Outcome) [
              | none ↦ (c, (true, offline))
              | some _ ↦ (c, (true, offline))
            ])
            (c, (true, offline))
    of_proxy none = refl
    of_proxy (some _) = refl

start_container-offline :
    (a : StartAnswers) (c : Config) (pod : Pod) (id : Bytes)
    → c.pod ≡ some pod
    → pod.sandbox ≡ true
    → start_container a.passwd a.stateless_passwd c id offline ≡ (c, (true, offline))
unfolding start_container
start_container-offline a c pod id e h =
    let p = a.passwd in
    let q = a.stateless_passwd in
    ap
      (λ o. elim o as (λ _. Config × Outcome) [
        | none ↦ start_standalone p q c id offline
        | some pod ↦
            if pod.sandbox
            then start_sandbox p q c id offline
            else pod_container_start p q c id offline
      ])
      e
    ∙ ap (λ b. if b then start_sandbox p q c id offline else pod_container_start p q c id offline) h
    ∙ start_sandbox-offline a c id

start_waits-pod :
    (a : StartAnswers) (c : Config) (pod : Pod) → c.pod ≡ some pod → start_waits a c ≡ false
start_waits-pod a c pod e =
    ap
      (λ o.
        a.terminal
        && (not c.detached_mode && elim o as (λ _. Bool) [ none ↦ true | some _ ↦ false ]))
      e
    ∙ never a.terminal (not c.detached_mode)
  where
    never : (b d : Bool) → (b && (d && false)) ≡ false
    never true true = refl
    never true false = refl
    never false d = refl

-- A start of a created pod sandbox succeeds, runs the poststart hooks and leaves the container
-- recorded as running, even if cc-proxy could not be reached and nothing was sent to it, when the
-- state file can be written.
pub oci_start_unnoticed :
    (a : StartAnswers) (config c' : Config) (pod : Pod) (id : Bytes) (state : OciState)
    (disk disk' : Disk)
    → same_status state.status created ≡ true
    → (with_bundle a.bundle config).pod ≡ some pod
    → pod.sandbox ≡ true
    → write_status running (with_bundle a.bundle config) state.create_time a.writable disk
      ≡ (c', disk', true)
    → oci_start a config id state offline disk ≡ record {
      config = c';
      session = offline;
      disk = disk';
      ran_poststart = true;
      effects = [];
      result = true;
    }
unfolding oci_start start_created after_write
oci_start_unnoticed a config c' pod id state disk disk' h e b w =
    let c = with_bundle a.bundle config in
    let no_wait = start_waits-pod a c pod e in
    let checked : Bool → Bool → Started = λ b w.
      if not b
      then not_started config offline disk
      else if w && (not a.socket_found && not a.monitor_made)
      then not_started c offline disk
      else start_created a c id state.create_time offline disk in
    let asked : Bool → Config × Outcome → Started = λ wait r.
      if r.1.0
      then after_write a wait r.1.1 (write_status running r.0 state.create_time a.writable disk)
      else not_started r.0 r.1.1 disk in
    ap (λ b. checked b (start_waits a c)) h
    ∙ ap (checked true) no_wait
    ∙ ap (asked (start_waits a c)) (start_container-offline a c pod id e b)
    ∙ ap (λ wait. asked wait (c, (true, offline))) no_wait
    ∙ ap (after_write a false offline) w
