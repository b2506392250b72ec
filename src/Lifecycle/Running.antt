-- ===== src/Lifecycle/Running.antt =====
-- What a successful start has done.
use mathlib.Core.Bool.{false≢true}
use cc_oci_runtime.Prelude.{
  ◌≡◌, refl, sym, ap, ◌∙◌, Bool, true, false, not, ◌&&◌, ◌⊎◌, inl, inr, Option, none, some, List,
  [], ◌∷◌, ◌++◌, if◌then◌else◌, Bytes, codes,
}
use cc_oci_runtime.Container.Types.{created, running, Process, Pod, Proxy, Config, OciState}
use cc_oci_runtime.StateFile.Read.{state_file_read}
use cc_oci_runtime.StateFile.Write.{Disk}
use cc_oci_runtime.StateFile.RoundTrip.{Fits, ReadsBack}
use cc_oci_runtime.StateFile.RecallProcess.{ProcessFits}
use cc_oci_runtime.StateFile.Recovery.{state_file_read-state_file_create}
use cc_oci_runtime.Proxy.Request.{Passwd, has_home, home_dir, home_prefix, set_env_home}
use cc_oci_runtime.Proxy.Client.{Session, Outcome, and_then, proxy_connect, proxy_attach}
use cc_oci_runtime.Proxy.Commands.{
  proxy_run_hyper_new_container, invalid_streams, disconnect_all, proxy_hyper_new_pod_container,
  proxy_hyper_new_container,
}
use cc_oci_runtime.Lifecycle.{Result, same_status, with_status, write_status}
use cc_oci_runtime.Lifecycle.Recovery.{status-Fits}
use cc_oci_runtime.Lifecycle.Start.{
  StartAnswers, Started, with_bundle, start_waits, with_process, pod_container_start,
  start_standalone, start_sandbox, start_container, after_write, not_started, start_created,
  oci_start,
}

-- A process that has been given its HOME, or not.
abbrev pub MayHaveHome : Passwd → Passwd → Process → Process → Type 0
MayHaveHome passwd stateless p q = (q ≡ p) ⊎ (q ≡ set_env_home passwd stateless p)

proxy_hyper_new_pod_container-process :
    (passwd stateless : Passwd) (p : Process) (container_id pod_id rootfs image : Bytes)
    (s : Session)
    → MayHaveHome passwd stateless p
        (proxy_hyper_new_pod_container passwd stateless p container_id pod_id rootfs image s).0
unfolding proxy_hyper_new_pod_container proxy_run_hyper_new_container
proxy_hyper_new_pod_container-process passwd stateless p container_id pod_id rootfs image s =
    asked (and_then (proxy_connect s) (proxy_attach pod_id))
  where
    asked :
        (r : Outcome)
        → MayHaveHome passwd stateless p
            (disconnect_all (elim r.0 [
              | false ↦ (p, r)
              | true ↦
                  if invalid_streams p
                  then (p, (false, r.1))
                  else proxy_run_hyper_new_container passwd stateless p container_id rootfs image
                      r.1
            ])).0
    asked (false, r) = inl refl
    asked (true, r) = go (invalid_streams p)
      where
        go :
            (b : Bool)
            → MayHaveHome passwd stateless p
                (disconnect_all (
                  if b
                  then (p, (false, r))
                  else proxy_run_hyper_new_container passwd stateless p container_id rootfs image
                      r)).0
        go true = inl refl
        go false = inr refl

-- What a start makes of the config.
abbrev KeepsAllBut : Passwd → Passwd → Config → Config → Type 0
KeepsAllBut passwd stateless c d =
    (p : Process) × (d ≡ record c { process = p }) × MayHaveHome passwd stateless c.process p

abbrev with_process_of : Config → Process × Outcome → Config
with_process_of c r = (with_process c r).0

keeps_all : (passwd stateless : Passwd) (c : Config) → KeepsAllBut passwd stateless c c
keeps_all passwd stateless c = (c.process, refl, inl refl)

-- A command that needs the proxy of the config.
needs_proxy-config :
    (passwd stateless : Passwd) (c : Config) (proxy : Option Proxy) (b : Bool) (s : Session)
    (t : Config × Outcome)
    → KeepsAllBut passwd stateless c t.0
    → KeepsAllBut passwd stateless c
        (elim proxy as (λ _. Config × Outcome) [ none ↦ (c, (b, s)) | some _ ↦ t ]).0
needs_proxy-config passwd stateless c none b s t h = keeps_all passwd stateless c
needs_proxy-config passwd stateless c (some p) b s t h = h

start_standalone-config :
    (passwd stateless : Passwd) (c : Config) (id : Bytes) (s : Session)
    → KeepsAllBut passwd stateless c (start_standalone passwd stateless c id s).0
unfolding start_standalone proxy_hyper_new_container
start_standalone-config passwd stateless c id s =
    needs_proxy-config passwd stateless c c.proxy false s _
      (_, refl, proxy_hyper_new_pod_container-process passwd stateless c.process id id [] [] s)

start_sandbox-config :
    (passwd stateless : Passwd) (c : Config) (id : Bytes) (s : Session)
    → KeepsAllBut passwd stateless c (start_sandbox passwd stateless c id s).0
unfolding start_sandbox
start_sandbox-config passwd stateless c id s =
    needs_proxy-config passwd stateless c c.proxy true s _ (
      _,
      refl,
      proxy_hyper_new_pod_container-process passwd stateless c.process id id (codes "rootfs") id s,
    )

either-config :
    (passwd stateless : Passwd) (c : Config) (b : Bool) (t u : Config × Outcome)
    → KeepsAllBut passwd stateless c t.0
    → KeepsAllBut passwd stateless c u.0
    → KeepsAllBut passwd stateless c (if b then t else u).0
either-config passwd stateless c true t u h k = h
either-config passwd stateless c false t u h k = k

pod_container_start-config :
    (passwd stateless : Passwd) (c : Config) (id : Bytes) (s : Session)
    → KeepsAllBut passwd stateless c (pod_container_start passwd stateless c id s).0
unfolding pod_container_start
pod_container_start-config passwd stateless c id s = of_pod c.pod
  where
    attached : Bytes → Config × Outcome
    attached pod_id =
        with_process c
          (proxy_hyper_new_pod_container passwd stateless c.process id pod_id (codes "rootfs") id s)

    named : Option Bytes → Config × Outcome
    named name = elim name [
      | none ↦ (c, (false, s))
      | some pod_id ↦ elim c.proxy [ none ↦ (c, (false, s)) | some _ ↦ attached pod_id ]
    ]

    of_name : (name : Option Bytes) → KeepsAllBut passwd stateless c (named name).0
    of_name none = keeps_all passwd stateless c
    of_name (some pod_id) =
        needs_proxy-config passwd stateless c c.proxy false s (attached pod_id) (
          _,
          refl,
          proxy_hyper_new_pod_container-process passwd stateless c.process id pod_id
              (codes "rootfs") id s,
        )

    of_pod :
        (pod : Option Pod)
        → KeepsAllBut passwd stateless c
            (elim pod as (λ _. Config × Outcome) [
              | none ↦ (c, (false, s))
              | some pod ↦ if pod.sandbox then (c, (false, s)) else named pod.sandbox_name
            ]).0
    of_pod none = keeps_all passwd stateless c
    of_pod (some pod) =
        either-config passwd stateless c pod.sandbox (c, (false, s)) (named pod.sandbox_name)
          (keeps_all passwd stateless c) (of_name pod.sandbox_name)

start_container-config :
    (passwd stateless : Passwd) (c : Config) (id : Bytes) (s : Session)
    → KeepsAllBut passwd stateless c (start_container passwd stateless c id s).0
unfolding start_container
start_container-config passwd stateless c id s = of_pod c.pod
  where
    of_pod :
        (pod : Option Pod)
        → KeepsAllBut passwd stateless c
            (elim pod as (λ _. Config × Outcome) [
              | none ↦ start_standalone passwd stateless c id s
              | some pod ↦
                  if pod.sandbox
                  then start_sandbox passwd stateless c id s
                  else pod_container_start passwd stateless c id s
            ]).0
    of_pod none = start_standalone-config passwd stateless c id s
    of_pod (some pod) =
        either-config passwd stateless c pod.sandbox _ _
          (start_sandbox-config passwd stateless c id s)
          (pod_container_start-config passwd stateless c id s)

set_env_home-Fits :
    (passwd stateless : Passwd) (p : Process)
    → ProcessFits p
    → ProcessFits (set_env_home passwd stateless p)
unfolding set_env_home
set_env_home-Fits passwd stateless p f = of_env p.env
  where
    homed : Bool → List Bytes → Process
    homed b env = if b then p else record p { env = some env }

    of_home : (b : Bool) (env : List Bytes) → ProcessFits (homed b env)
    of_home true env = f
    of_home false env = record {
      cwd = f.cwd;
      stdio_stream = f.stdio_stream;
      stderr_stream = f.stderr_stream;
    }

    of_env :
        (env : Option (List Bytes))
        → ProcessFits (elim env as (λ _. Process) [
          | none ↦ p
          | some env ↦
              if has_home env
              then p
              else record p { env = some ((home_prefix ++ home_dir p.uid passwd stateless) ∷ env) }
        ])
    of_env none = f
    of_env (some env) = of_home (has_home env) _

-- What the state file says after a start, if that succeeds.
abbrev StartEnds : StartAnswers → Config → Bytes → Started → Type 0
StartEnds a c t r =
    r.result ≡ true
    → (p : Process) × MayHaveHome a.passwd a.stateless_passwd c.process p
      × ReadsBack (with_status running (record c { process = p })) t
          (state_file_read r.disk (some r.config.state_file_path))

process-Fits : (c : Config) (p : Process) → Fits c → ProcessFits p → Fits (record c { process = p })
process-Fits c p f h = record {
  workload_pid = f.workload_pid;
  mounts = f.mounts;
  process = h;
  vm = f.vm;
}

MayHaveHome-Fits :
    (passwd stateless : Passwd) (p q : Process)
    → ProcessFits p
    → MayHaveHome passwd stateless p q
    → ProcessFits q
MayHaveHome-Fits passwd stateless p q f (inl e) = rw e f
MayHaveHome-Fits passwd stateless p q f (inr e) = rw e (set_env_home-Fits passwd stateless p f)

after_write-StartEnds :
    (a : StartAnswers) (c d : Config) (p : Process) (t : Bytes) (s : Session) (disk : Disk)
    (r : Result)
    → Fits c
    → MayHaveHome a.passwd a.stateless_passwd c.process p
    → d ≡ record c { process = p }
    → write_status running d (some t) a.writable disk ≡ r
    → StartEnds a c t (after_write a false s r)
unfolding after_write
after_write-StartEnds a c d p t s disk (c', disk', false) f h e w result =
    absurd (false≢true result)
after_write-StartEnds a c d p t s disk (c', disk', true) f h e w result =
    let c1 = record c { process = p } in
    let fits =
      process-Fits c p f (MayHaveHome-Fits a.passwd a.stateless_passwd c.process p f.process h) in
    (
      p,
      h,
      state_file_read-state_file_create (with_status running c1) c' t a.writable disk disk'
          (status-Fits c1 running fits)
          (ap (λ d. write_status running d (some t) a.writable disk) (sym e) ∙ w),
    )

start_created-StartEnds :
    (a : StartAnswers) (c : Config) (id t : Bytes) (create_time : Option Bytes) (s : Session)
    (disk : Disk)
    → Fits c
    → create_time ≡ some t
    → start_waits a c ≡ false
    → StartEnds a c t (start_created a c id create_time s disk)
unfolding start_created
start_created-StartEnds a c id t o s disk f e no_wait =
    asked (start_waits a c) no_wait (start_container a.passwd a.stateless_passwd c id s)
      (start_container-config a.passwd a.stateless_passwd c id s)
  where
    asked :
        (wait : Bool)
        → wait ≡ false
        → (r : Config × Outcome) → KeepsAllBut a.passwd a.stateless_passwd c r.0
        → StartEnds a c t (
            if r.1.0
            then after_write a wait r.1.1 (write_status running r.0 o a.writable disk)
            else not_started r.0 r.1.1 disk)
    asked true w r k = absurd (false≢true (sym w))
    asked false w (d, (false, q)) k = λ result. absurd (false≢true result)
    asked false w (d, (true, q)) (p, k, h) =
        after_write-StartEnds a c d p t q disk (write_status running d o a.writable disk) f h k
          (ap (λ o. write_status running d o a.writable disk) (sym e))

-- A start that does not wait for the workload succeeds only for a container whose state says that it
-- is created; then the state file reads back the config as running, with the bundle path of the
-- command and with the process as it was or with its HOME added, when the numbers and texts of the
-- config fit their types; but the ids of the user read back as 0, empty lists of arguments and
-- variables as none, the pod has no workloads, of a mount there are only its destination and the
-- directory that was created for it, and nothing is said of the annotations.
pub oci_start-ReadsBack :
    (a : StartAnswers) (config : Config) (id t : Bytes) (state : OciState) (s : Session)
    (disk : Disk)
    → Fits config
    → state.create_time ≡ some t
    → start_waits a (with_bundle a.bundle config) ≡ false
    → (oci_start a config id state s disk).result ≡ true
    → (same_status state.status created ≡ true)
      × ((p : Process) × MayHaveHome a.passwd a.stateless_passwd
            (with_bundle a.bundle config).process
            p
          × ReadsBack
              (with_status running (record (with_bundle a.bundle config) { process = p }))
              t
              (state_file_read
                (oci_start a config id state s disk).disk
                (some (oci_start a config id state s disk).config.state_file_path)))
unfolding oci_start
oci_start-ReadsBack a config id t state s disk f e no_wait =
    checked (same_status state.status created)
      (start_waits a c && (not a.socket_found && not a.monitor_made))
  where
    c : Config
    c = with_bundle a.bundle config

    bundle-Fits : (bundle : Option (Option Bytes)) → Fits (with_bundle bundle config)
    bundle-Fits none = f
    bundle-Fits (some path) = record {
      workload_pid = f.workload_pid;
      mounts = f.mounts;
      process = f.process;
      vm = f.vm;
    }

    started : Bool → Bool → Started
    started b w =
        if not b
        then not_started config s disk
        else if w
        then not_started c s disk
        else start_created a c id state.create_time s disk

    checked :
        (b w : Bool)
        → (started b w).result ≡ true
        → (b ≡ true)
          × ((p : Process) × MayHaveHome a.passwd a.stateless_passwd c.process p
              × ReadsBack
                  (with_status running (record c { process = p }))
                  t
                  (state_file_read (started b w).disk (some (started b w).config.state_file_path)))
    checked false w result = absurd (false≢true result)
    checked true true result = absurd (false≢true result)
    checked true false result = (
      refl,
      start_created-StartEnds a c id t state.create_time s disk (bundle-Fits a.bundle) e no_wait
          result,
    )
