-- ===== src/Pods/Created.antt =====
-- What a create of a container in a pod has done.
use mathlib.Core.Bool.{false≢true}
use mathlib.Core.Option.{none-ne-some}
use cc_oci_runtime.Prelude.{
  ℕ, ◌≡◌, refl, sym, ℤ, Bool, true, false, not, ◌&&◌, Option, none, some, if◌then◌else◌, Bytes,
}
use cc_oci_runtime.Container.Types.{created, Pod, Proxy, Config}
use cc_oci_runtime.StateFile.Write.{Disk, state_file_create}
use cc_oci_runtime.Lifecycle.{Result, with_status}
use cc_oci_runtime.Proxy.Client.{Session, Outcome, and_then, proxy_connect, proxy_disconnect}
use cc_oci_runtime.Proxy.Startpod.{proxy_cmd_allocate_io}
use cc_oci_runtime.Pods.Create.{
  PodAnswers, PodCreate, pod_created, with_streams, finish_create, give_streams, launch, attach_pod,
  pod_container_create,
}

-- What a create has done when it succeeds: it has a timestamp and a shim, has attached to the pod, has
-- been given streams by cc-proxy, and has written the state file of the created container over the
-- files as they were, with the pid of the shim and with these streams.
pub record CreateEnds (a : PodAnswers) (config : Config) (s : Session) (disk : Disk) (r : PodCreate)
    : Type 0 where
  pub timestamp : Bytes
  pub has_timestamp : a.timestamp ≡ some timestamp
  pub pid : ℕ
  pub has_shim : a.shim ≡ some pid
  pub pod : Pod
  pub has_pod : config.pod ≡ some pod
  pub attached : Session
  pub attaches : and_then (proxy_connect s) (attach_pod pod.sandbox_name) ≡ (true, attached)
  pub io_base : ℤ
  pub given : (proxy_cmd_allocate_io config.process.terminal attached).0 ≡ some io_base
  pub written :
      state_file_create
        (with_streams io_base (record (with_status created config) { workload_pid = pid }))
        (some timestamp)
        a.writable
        disk
      ≡ (r.config, r.disk, true)

never : {P : Type 0} → false ≡ true → P
never e = absurd (false≢true e)

finish_create-written :
    (a : PodAnswers) (t : Bytes) (config : Config) (s : Session) (disk : Disk)
    → (finish_create a t config s disk).result ≡ true
    → state_file_create config (some t) a.writable disk
      ≡ ((finish_create a t config s disk).config, (finish_create a t config s disk).disk, true)
unfolding finish_create
finish_create-written a t config s disk = by_setup a.setup_failed
  where
    ended : Bool → Result → PodCreate
    ended failed r =
        if failed
        then pod_created config s disk false
        else (let (c, d, written) = r in
            if written
            then (let q = proxy_disconnect s in pod_created c q.1 d q.0)
            else pod_created c s d false)

    by_write :
        (r : Result)
        → (ended false r).result ≡ true
        → r ≡ ((ended false r).config, (ended false r).disk, true)
    by_write (c, d, true) h = refl
    by_write (c, d, false) h = never h

    by_setup :
        (b : Bool)
        → (ended b (state_file_create config (some t) a.writable disk)).result ≡ true
        → state_file_create config (some t) a.writable disk ≡ (
          (ended b (state_file_create config (some t) a.writable disk)).config,
          (ended b (state_file_create config (some t) a.writable disk)).disk,
          true,
        )
    by_setup true h = never h
    by_setup false h = by_write (state_file_create config (some t) a.writable disk) h

-- The streams are known, and the state file has been written.
abbrev Streams : PodAnswers → Bytes → Config → Session → Disk → PodCreate → Type 0
Streams a t config s disk r =
    r.result ≡ true
    → (io_base : ℤ) × ((proxy_cmd_allocate_io config.process.terminal s).0 ≡ some io_base)
      × (state_file_create (with_streams io_base config) (some t) a.writable disk
          ≡ (r.config, r.disk, true))

give_streams-Streams :
    (a : PodAnswers) (t : Bytes) (config : Config) (s : Session) (disk : Disk)
    → Streams a t config s disk (give_streams a t false config s disk)
unfolding give_streams
give_streams-Streams a t config s disk = by_socket (a.socket_valid && a.socket_written)
  where
    r : Option ℤ × Session
    r = proxy_cmd_allocate_io config.process.terminal s

    given : Bool → Bool → ℤ → Session → PodCreate
    given ready sent io_base q =
        if not ready
        then pod_created config q disk false
        else if not sent
        then pod_created config q disk false
        else finish_create a t (with_streams io_base config) q disk

    by_base :
        (ready sent : Bool) (io_base : ℤ) (q : Session)
        → r.0 ≡ some io_base
        → Streams a t config s disk (given ready sent io_base q)
    by_base false sent io_base q e h = never h
    by_base true false io_base q e h = never h
    by_base true true io_base q e h =
        (io_base, e, finish_create-written a t (with_streams io_base config) q disk h)

    by_reply :
        (o : Option ℤ) (q : Session)
        → r.0 ≡ o
        → Streams a t config s disk (elim o as (λ _. PodCreate) [
          | none ↦ pod_created config q disk false
          | some io_base ↦ given (a.base_written && a.connection_made) a.descriptor_sent io_base q
        ])
    by_reply none q e h = never h
    by_reply (some io_base) q e h =
        by_base (a.base_written && a.connection_made) a.descriptor_sent io_base q e h

    by_socket :
        (b : Bool)
        → Streams a t config s disk (
            if not b then pod_created config s disk false else elim r.0 as (λ _. PodCreate) [
              | none ↦ pod_created config r.1 disk false
              | some io_base ↦
                  given (a.base_written && a.connection_made) a.descriptor_sent io_base r.1
            ])
    by_socket false h = never h
    by_socket true h = by_reply r.0 r.1 refl h

-- From the shim on.
abbrev Launched : PodAnswers → Bytes → Config → Session → Disk → PodCreate → Type 0
Launched a t config s disk r =
    r.result ≡ true
    → (pid : ℕ) × (a.shim ≡ some pid)
      × ((io_base : ℤ) × ((proxy_cmd_allocate_io config.process.terminal s).0 ≡ some io_base)
          × (state_file_create (with_streams io_base (record config { workload_pid = pid }))
                (some t) a.writable disk
              ≡ (r.config, r.disk, true)))

launch-Launched :
    (a : PodAnswers) (t : Bytes) (config : Config) (s : Session) (disk : Disk)
    → a.pid_file ≡ none
    → Launched a t config s disk (launch a t config s disk)
unfolding launch
launch-Launched a t config s disk e = by_shim a.shim refl
  where
    with_pid : ℕ → Option Bool → PodCreate
    with_pid pid file =
        let c : Config = record config { workload_pid = pid } in
        elim file [
          | none ↦ give_streams a t false c s disk
          | some made ↦ if made then give_streams a t true c s disk else pod_created c s disk false
        ]

    by_file :
        (pid : ℕ) (file : Option Bool)
        → a.shim ≡ some pid
        → file ≡ none
        → Launched a t config s disk (with_pid pid file)
    by_file pid none h f k =
        (pid, h, give_streams-Streams a t (record config { workload_pid = pid }) s disk k)
    by_file pid (some b) h f k = absurd (none-ne-some _ (sym f))

    by_shim :
        (o : Option ℕ)
        → a.shim ≡ o
        → Launched a t config s disk (elim o as (λ _. PodCreate) [
          | none ↦ pod_created config s disk false
          | some pid ↦ with_pid pid a.pid_file
        ])
    by_shim none h k = never k
    by_shim (some pid) h k = by_file pid a.pid_file h e k

-- A create of a container in a pod, if no pid file is asked for, succeeds only if it has launched the
-- shim, has attached to the pod and then has been given streams by cc-proxy; it has written the state
-- file of the created container, with the pid of the shim and with these streams, over the files as
-- they were, and leaves these files and the config that was written.
pub pod_container_create-CreateEnds :
    (a : PodAnswers) (config : Config) (s : Session) (disk : Disk)
    → a.pid_file ≡ none
    → (pod_container_create a config s disk).result ≡ true
    → CreateEnds a config s disk (pod_container_create a config s disk)
unfolding pod_container_create
pod_container_create-CreateEnds a config s disk e = by_pod config.pod refl
  where
    c : Config
    c = with_status created config

    timed : Pod → Option Bytes → PodCreate
    timed pod o = elim o [
      | none ↦ pod_created config s disk false
      | some timestamp ↦
          let r = and_then (proxy_connect s) (attach_pod pod.sandbox_name) in
          if r.0 then launch a timestamp c r.1 disk else pod_created c r.1 disk false
    ]

    by_attach :
        (pod : Pod) (t : Bytes)
        → config.pod ≡ some pod
        → a.timestamp ≡ some t
        → (r : Outcome) → and_then (proxy_connect s) (attach_pod pod.sandbox_name) ≡ r
        → (if r.0 then launch a t c r.1 disk else pod_created c r.1 disk false).result ≡ true
        → CreateEnds a config s disk
            (if r.0 then launch a t c r.1 disk else pod_created c r.1 disk false)
    by_attach pod t m h (false, q) e k = never k
    by_attach pod t m h (true, q) attaches k =
        let (pid, shim, (io_base, given, w)) = launch-Launched a t c q disk e k in
        record {
          timestamp = t;
          has_timestamp = h;
          pid = pid;
          has_shim = shim;
          pod = pod;
          has_pod = m;
          attached = q;
          attaches = attaches;
          io_base = io_base;
          given = given;
          written = w;
        }

    by_time :
        (pod : Pod) (o : Option Bytes)
        → config.pod ≡ some pod
        → a.timestamp ≡ o
        → (timed pod o).result ≡ true
        → CreateEnds a config s disk (timed pod o)
    by_time pod none m h k = never k
    by_time pod (some t) m h k =
        by_attach pod t m h (and_then (proxy_connect s) (attach_pod pod.sandbox_name)) refl k

    proxied : Pod → Option Proxy → PodCreate
    proxied pod o = elim o [
      | none ↦ pod_created config s disk false
      | some _ ↦ timed pod a.timestamp
    ]

    by_proxy :
        (pod : Pod) (o : Option Proxy)
        → config.pod ≡ some pod
        → (proxied pod o).result ≡ true
        → CreateEnds a config s disk (proxied pod o)
    by_proxy pod none m k = never k
    by_proxy pod (some _) m k = by_time pod a.timestamp m refl k

    by_pod :
        (o : Option Pod)
        → config.pod ≡ o
        → (elim o as (λ _. PodCreate) [
          | none ↦ pod_created config s disk false
          | some pod ↦ proxied pod config.proxy
        ]).result
          ≡ true
        → CreateEnds a config s disk (elim o as (λ _. PodCreate) [
          | none ↦ pod_created config s disk false
          | some pod ↦ proxied pod config.proxy
        ])
    by_pod none m k = never k
    by_pod (some pod) m k = by_proxy pod config.proxy m k
