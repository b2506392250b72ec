-- ===== src/Process/Launched.antt =====
-- What a launch of a virtual machine leaves in the config and in the files, once its first state file
-- has been written.
use mathlib.Core.Bool.{false≢true}
use mathlib.Core.Option.{some-injective, none-ne-some}
use cc_oci_runtime.Prelude.{
  ℕ, ◌≡◌, refl, sym, ap, ◌∙◌, ℤ, Bool, true, false, not, ◌&&◌, Option, none, some, List, ◌++◌,
  ◌>>=◌, inl, inr, if◌then◌else◌, Bytes, arith,
}
use cc_oci_runtime.Container.Types.{created, VmCfg, Config}
use cc_oci_runtime.StateFile.Write.{Disk, state_file_create}
use cc_oci_runtime.Lifecycle.{Result}
use cc_oci_runtime.Lifecycle.Steps.{Keeps, state_file_create-Keeps}
use cc_oci_runtime.Hooks.Run.{HookCall}
use cc_oci_runtime.Hypervisor.Tags.{HypervisorAnswers, append_network_args}
use cc_oci_runtime.Hypervisor.Args.{expand_cmdline, nonempty_lines, strip_all, vm_args_get}
use cc_oci_runtime.Hypervisor.Lines.{file_to_strv}
use cc_oci_runtime.Proxy.Client.{Session, Outcome}
use cc_oci_runtime.Proxy.Startpod.{proxy_cmd_allocate_io}
use cc_oci_runtime.Pods.Create.{with_streams}
use cc_oci_runtime.Process.Launch.{
  NetworkSetup, LaunchAnswers, LaunchEnd, returned, exited, Launched, out, left_early,
  after_rewrite, finish_launch, share_streams, proxy_ready, start_hypervisor, make_args, network_of,
  set_up_network,
}

was_true : LaunchEnd → Bool
was_true (returned b) = b
was_true exited = false

pub never : {P : Type 0} → returned false ≡ returned true → P
unfolding was_true
never e = absurd (false≢true (ap was_true e))

pub gone : {P : Type 0} → exited ≡ returned true → P
unfolding was_true
gone e = absurd (false≢true (ap was_true e))

-- A created container, with the pids of the shim and of the hypervisor.
pub record HasPids (pid shim : ℕ) (vm : VmCfg) (c : Config) : Type 0 where
  pub status : c.status ≡ created
  pub has_shim : c.workload_pid ≡ shim
  pub has_vm : c.vm ≡ some (record vm { pid = pid })

-- What a launch leaves behind its first state file, which the files `d` have: just that one, or a
-- second one that has been written over it.
pub data Written (pid shim : ℕ) (vm : VmCfg) (timestamp : Bytes) (d : Disk) (l : Launched)
    : Type 0 where
  only_first : l.disk ≡ d → HasPids pid shim vm l.config → Written pid shim vm timestamp d l
  again :
      (c : Config) (writable : Bool)
      → HasPids pid shim vm c
      → state_file_create c (some timestamp) writable d ≡ (l.config, l.disk, true)
      → Written pid shim vm timestamp d l

pub state_file_create-HasPids :
    (pid shim : ℕ) (vm : VmCfg) (c : Config) (t : Option Bytes) (w : Bool) (disk : Disk)
    → HasPids pid shim vm c
    → HasPids pid shim vm (state_file_create c t w disk).0
state_file_create-HasPids pid shim vm c t w disk p =
    by_config (state_file_create c t w disk) (state_file_create-Keeps c t w disk)
  where
    by_config : (r : Result) → Keeps c r → HasPids pid shim vm r.0
    by_config r (inl e) = record {
      status = ap (λ z. z.status) e ∙ p.status;
      has_shim = ap (λ z. z.workload_pid) e ∙ p.has_shim;
      has_vm = ap (λ z. z.vm) e ∙ p.has_vm;
    }
    by_config r (inr e) = record {
      status = ap (λ z. z.status) e ∙ p.status;
      has_shim = ap (λ z. z.workload_pid) e ∙ p.has_shim;
      has_vm = ap (λ z. z.vm) e ∙ p.has_vm;
    }

-- The arguments are made without a change of these.
abbrev SamePids : Config → Config → Type 0
SamePids c d = (d.status ≡ c.status) × (d.workload_pid ≡ c.workload_pid) × (d.vm ≡ c.vm)

expand_cmdline-SamePids :
    (a : HypervisorAnswers) (hostname : Option Bytes) (config : Config) (lines : List Bytes)
    (r : Config × List Bytes)
    → expand_cmdline a hostname config lines ≡ some r
    → SamePids config r.0
unfolding expand_cmdline
expand_cmdline-SamePids a hostname config lines r e = ground arith

vm_args_get-SamePids :
    (a : HypervisorAnswers) (hostname args_file : Option Bytes) (contents : Bytes → Option Bytes)
    (config : Config) (extra : List Bytes) (r : Config × List Bytes)
    → vm_args_get a hostname contents args_file config extra ≡ some r
    → SamePids config r.0
unfolding vm_args_get
vm_args_get-SamePids a hostname args_file contents config extra r =
    by_lines (file_to_strv contents args_file)
  where
    with_lines : Option (Config × List Bytes) → Option (Config × List Bytes)
    with_lines o = o >>= λ q. some (q.0, nonempty_lines q.1 ++ strip_all extra)

    by_config :
        (lines : List Bytes) (o : Option (Config × List Bytes))
        → expand_cmdline a hostname config lines ≡ o
        → with_lines o ≡ some r
        → SamePids config r.0
    by_config lines none k e = absurd (none-ne-some _ e)
    by_config lines (some q) k e =
        let same : q.0 ≡ r.0 = ap (λ z. z.0) (some-injective _ _ e) in
        let (status, shim, vm) = expand_cmdline-SamePids a hostname config lines q k in
        (
          ap (λ z. z.status) (sym same) ∙ status,
          ap (λ z. z.workload_pid) (sym same) ∙ shim,
          ap (λ z. z.vm) (sym same) ∙ vm,
        )

    by_lines :
        (o : Option (List Bytes))
        → (o >>= λ lines. with_lines (expand_cmdline a hostname config lines)) ≡ some r
        → SamePids config r.0
    by_lines none e = absurd (none-ne-some _ e)
    by_lines (some lines) e = by_config lines (expand_cmdline a hostname config lines) refl e

vm_args_get-HasPids :
    (a : HypervisorAnswers) (hostname args_file : Option Bytes) (contents : Bytes → Option Bytes)
    (config : Config) (extra : List Bytes) (r : Config × List Bytes) (pid shim : ℕ) (vm : VmCfg)
    → vm_args_get a hostname contents args_file config extra ≡ some r
    → HasPids pid shim vm config
    → HasPids pid shim vm r.0
vm_args_get-HasPids a hostname args_file contents config extra r pid shim vm e p =
    let (status, has_shim, has_vm) =
      vm_args_get-SamePids a hostname args_file contents config extra r e in
    record {
      status = status ∙ p.status;
      has_shim = has_shim ∙ p.has_shim;
      has_vm = has_vm ∙ p.has_vm;
    }

module _ (a : LaunchAnswers) (t : Bytes) (pid shim : ℕ) (vm : VmCfg) where
  abbrev Ends : Disk → Launched → Type 0
  Ends disk l = l.ending ≡ returned true → Written pid shim vm t disk l

  finish_launch-Written :
      (config : Config) (s : Session) (disk : Disk) (calls : List HookCall)
      → HasPids pid shim vm config
      → Ends disk (finish_launch a t config s disk calls)
  unfolding finish_launch
  finish_launch-Written config s disk calls p =
      by_write a.shim_reported (state_file_create config (some t) a.writable_again disk) refl
    where
      given : Bool → Result → Launched
      given reported r =
          if reported then out false config s disk calls else after_rewrite a s calls r

      by_write :
          (reported : Bool) (r : Result)
          → state_file_create config (some t) a.writable_again disk ≡ r
          → Ends disk (given reported r)
      by_write true r e h = never h
      by_write false (c, d, false) e h = never h
      by_write false (c, d, true) e h = again config a.writable_again p e

  share_streams-Written :
      (config : Config) (s : Session) (disk : Disk) (calls : List HookCall)
      → HasPids pid shim vm config
      → Ends disk (share_streams a t config s disk calls)
  unfolding share_streams
  share_streams-Written config s disk calls p =
      by_streams (a.socket_valid && a.socket_written) (a.base_written && a.connection_made)
        a.descriptor_sent (proxy_cmd_allocate_io config.process.terminal s)
    where
      given : Bool → Bool → Bool → Option ℤ × Session → Launched
      given socket ready sent r = if not socket then out true config s disk calls else elim r.0 [
        | none ↦ out true config r.1 disk calls
        | some io_base ↦
            if not ready
            then out true config r.1 disk calls
            else if not sent
            then out false config r.1 disk calls
            else finish_launch a t (with_streams io_base config) r.1 disk calls
      ]

      by_streams :
          (socket ready sent : Bool) (r : Option ℤ × Session)
          → Ends disk (given socket ready sent r)
      by_streams false ready sent r h = only_first refl p
      by_streams true ready sent (none, q) h = only_first refl p
      by_streams true false sent (some io_base, q) h = only_first refl p
      by_streams true true false (some io_base, q) h = never h
      by_streams true true true (some io_base, q) h =
          finish_launch-Written (with_streams io_base config) q disk calls
            (record { status = p.status; has_shim = p.has_shim; has_vm = p.has_vm }) h

  start_hypervisor-Written :
      (net : NetworkSetup) (id : Bytes) (config : Config) (s : Session) (disk : Disk)
      (calls : List HookCall)
      → HasPids pid shim vm config
      → Ends disk (start_hypervisor a net id t config s disk calls)
  unfolding start_hypervisor
  start_hypervisor-Written net id config s disk calls p =
      by_proxy a.args_written a.child_reported (proxy_ready a net id config.proxy s)
    where
      given : Bool → Bool → Outcome → Launched
      given written reported r =
          if not written
          then out true config s disk calls
          else if reported
          then out false config s disk calls
          else if r.0
          then share_streams a t config r.1 disk calls
          else out true config r.1 disk calls

      by_proxy : (written reported : Bool) (r : Outcome) → Ends disk (given written reported r)
      by_proxy false reported r h = only_first refl p
      by_proxy true true r h = never h
      by_proxy true false (false, q) h = only_first refl p
      by_proxy true false (true, q) h = share_streams-Written config q disk calls p h

  -- The network, and the hypervisor's arguments.
  pub set_up_network-Written :
      (id : Bytes) (config : Config) (s : Session) (disk : Disk) (calls : List HookCall)
      → HasPids pid shim vm config
      → Ends disk (set_up_network a id t config s disk calls)
  unfolding set_up_network make_args
  set_up_network-Written id config s disk calls p = by_network (network_of a.network)
    where
      got : NetworkSetup → Option (Config × List Bytes)
      got net =
          vm_args_get a.hypervisor net.hostname a.contents a.args_file config
            (append_network_args net.interfaces)

      made : NetworkSetup → Option (Config × List Bytes) → Launched
      made net o = elim o [
        | none ↦ out false config s disk calls
        | some r ↦ start_hypervisor a net id t r.0 s disk calls
      ]

      by_args :
          (net : NetworkSetup) (o : Option (Config × List Bytes))
          → got net ≡ o
          → Ends disk (made net o)
      by_args net none e h = never h
      by_args net (some r) e h =
          start_hypervisor-Written net id r.0 s disk calls
            (vm_args_get-HasPids a.hypervisor net.hostname a.args_file a.contents config
              (append_network_args net.interfaces) r pid shim vm e p)
            h

      by_network :
          (o : Option NetworkSetup)
          → Ends disk (elim o as (λ _. Launched) [
            | none ↦ left_early exited config s disk calls
            | some net ↦ make_args a net id t config s disk calls
          ])
      by_network none h = gone h
      by_network (some net) h = by_args net (got net) refl h
