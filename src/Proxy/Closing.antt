-- ===== src/Proxy/Closing.antt =====
-- What is left of the connection to cc-proxy after a command.
use cc_oci_runtime.Prelude.{
  ℕ, ◌≡◌, refl, Bool, true, false, none, some, [], ◌∷◌, ◌++◌, if◌then◌else◌, Bytes, codes,
}
use cc_oci_runtime.Container.Types.{Process, Proxy, Config}
use cc_oci_runtime.StateFile.Json.{Json}
use cc_oci_runtime.Proxy.Request.{attach_request, hyper_request, kill_payload, Passwd}
use cc_oci_runtime.Proxy.Client.{
  Session, Outcome, proxy_connect, proxy_disconnect, proxy_run_cmd, and_then, and_disconnect,
  proxy_attach, pod_container_id,
}
use cc_oci_runtime.Proxy.Commands.{
  proxy_hyper_new_pod_container, disconnect_all, proxy_run_hyper_new_container, invalid_streams,
}

-- The three ways in which a command for the agent ends. `attach` and `cmd` are its two requests.
pub data CommandEnds (s : Session) (attach cmd : Json) : Outcome → Type 0 where
  unreachable : (r : Session) → r.sent ≡ s.sent → CommandEnds s attach cmd (false, r)
  not_attached :
      (r : Session)
      → r.sent ≡ s.sent ++ attach ∷ []
      → r.connected ≡ true
      → CommandEnds s attach cmd (false, r)
  answered :
      (ok : Bool) (r : Session)
      → r.sent ≡ s.sent ++ (attach ∷ cmd ∷ [])
      → r.connected ≡ false
      → CommandEnds s attach cmd (ok, r)

-- What a request does to a session that is connected.
pub data Runs (s : Session) (msg : Json) : Outcome → Type 0 where
  runs :
      (ok : Bool) (r : Session)
      → r.sent ≡ s.sent ++ msg ∷ []
      → r.connected ≡ true
      → Runs s msg (ok, r)

pub data Connects (s : Session) : Outcome → Type 0 where
  fails : (r : Session) → r.sent ≡ s.sent → Connects s (false, r)
  connects : (r : Session) → r.sent ≡ s.sent → r.connected ≡ true → Connects s (true, r)

abbrev closed : Bool → Session → Outcome
closed b s = if b then (s.closes, record s { connected = false }) else (false, s)

closed_lem :
    (b : Bool) (s : Session)
    → s.connected ≡ b
    → ((closed b s).1.connected ≡ false) × ((closed b s).1.sent ≡ s.sent)
closed_lem true s h = (refl, refl)
closed_lem false s h = (h, refl)

proxy_disconnect_lem :
    (s : Session)
    → ((proxy_disconnect s).1.connected ≡ false) × ((proxy_disconnect s).1.sent ≡ s.sent)
unfolding proxy_disconnect
proxy_disconnect_lem s = closed_lem s.connected s refl

abbrev finish : Json → Outcome → Outcome
finish cmd r = and_then r (λ s. and_disconnect (proxy_run_cmd cmd s))

-- How a kill by way of cc-proxy ends, for the container's own id and the signal.
pub data KillCommandEnds (config : Config) (container_id : Bytes) (signum : ℕ) (s : Session)
    : Outcome → Type 0 where
  no_proxy : config.proxy ≡ none → KillCommandEnds config container_id signum s (false, s)
  no_pod : pod_container_id config ≡ none → KillCommandEnds config container_id signum s (false, s)
  asked :
      (proxy : Proxy) (pod_id : Bytes) (o : Outcome)
      → config.proxy ≡ some proxy
      → pod_container_id config ≡ some pod_id
      → CommandEnds s
          (attach_request pod_id)
          (hyper_request (codes "killcontainer") (kill_payload container_id signum))
          o
      → KillCommandEnds config container_id signum s o

disconnect_all-closed : (r : Process × Outcome) → (disconnect_all r).1.1.connected ≡ false
disconnect_all-closed r = (proxy_disconnect_lem r.1.1).0

-- Starting a container in a pod leaves the connection closed, whatever fails.
pub proxy_hyper_new_pod_container-closed :
    (passwd stateless : Passwd) (p : Process) (container_id pod_id rootfs image : Bytes)
    (s : Session)
    → (proxy_hyper_new_pod_container passwd stateless p container_id pod_id rootfs image
        s).1.1.connected
      ≡ false
unfolding proxy_hyper_new_pod_container
proxy_hyper_new_pod_container-closed passwd stateless p container_id pod_id rootfs image s =
    let r = and_then (proxy_connect s) (proxy_attach pod_id) in
    disconnect_all-closed (elim r.0 [
      | false ↦ (p, r)
      | true ↦
          if invalid_streams p
          then (p, (false, r.1))
          else proxy_run_hyper_new_container passwd stateless p container_id rootfs image r.1
    ])
