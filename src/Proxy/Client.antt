-- ===== src/Proxy/Client.antt =====
-- src/proxy.c: connecting to cc-proxy and running commands there. What the calls of the system and
-- cc-proxy answer is a script, which each call uses up.
use cc_oci_runtime.Prelude.{
  Bool, true, false, ◌||◌, Option, none, some, List, [], ◌∷◌, ◌++◌, if◌then◌else◌, Bytes, codes,
}
use cc_oci_runtime.Container.Types.{Proxy, Config}
use cc_oci_runtime.StateFile.Json.{Json, object, value, boolean, Members, no_member, member}
use cc_oci_runtime.Prelude.{str_eq}
use cc_oci_runtime.Proxy.Request.{attach_request, bye_request, hello_request, hyper_request}

-- How far an attempt to connect gets: to the end, to a socket whose close-exec bit cannot be set, or
-- to nothing that is kept.
pub data Attempt : Type 0 where
  accepted cloexec_failed refused : Attempt

-- `connected`: `proxy->socket` is not NULL. `sent` has the requests, in order; `replies` the replies,
-- `none` for one that is no JSON. Behind the end of a script attempts are refused and replies are no
-- JSON. `closes`: whether g_socket_close succeeds.
pub record Session : Type 0 where
  pub connected : Bool
  pub sent : List Json
  pub attempts : List Attempt
  pub replies : List (Option Json)
  pub closes : Bool

abbrev pub Outcome : Type 0
Outcome = Bool × Session

unfoldable pub proxy_connect : Session → Outcome
proxy_connect s = if s.connected then (false, s) else elim s.attempts [
  | [] ↦ (false, s)
  | accepted ∷ rest ↦ (true, record s { connected = true; attempts = rest })
  | cloexec_failed ∷ rest ↦ (false, record s { connected = true; attempts = rest })
  | refused ∷ rest ↦ (false, record s { attempts = rest })
]

unfoldable pub proxy_disconnect : Session → Outcome
proxy_disconnect s = if s.connected then (s.closes, record s { connected = false }) else (false, s)

unfoldable pub find_member : Bytes → Members → Option Json
find_member key no_member = none
find_member key (member k v ms) = if str_eq k key then some v else find_member key ms

-- json_reader_get_boolean_value gives false for what is no boolean.
abbrev is_true : Json → Bool
is_true (value (boolean b)) = b
is_true _ = false

-- Whether the reply could be checked, and whether it says that the command succeeded. A reply that is
-- no object has no members.
unfoldable pub hyper_check_response : Option Json → Bool × Bool
unfolding find_member
hyper_check_response none = (false, false)
hyper_check_response (some (object ms)) = elim (find_member (codes "success") ms) [
  | none ↦ (false, false)
  | some v ↦ (true, is_true v)
]
hyper_check_response (some _) = (false, false)

abbrev pub succeeds : Option Json → Bool
succeeds reply =
    let (checked, success) = hyper_check_response reply in if checked then success else false

abbrev pub run_reply : Session → List (Option Json) → Outcome
run_reply s [] = (false, s)
run_reply s (r ∷ rest) = (succeeds r, record s { replies = rest })

unfoldable pub proxy_run_cmd : Json → Session → Outcome
unfolding hyper_check_response
proxy_run_cmd msg s =
    if s.connected then run_reply (record s { sent = s.sent ++ msg ∷ [] }) s.replies else (false, s)

-- The second step is left out if the first fails.
abbrev pub and_then : Outcome → (Session → Outcome) → Outcome
and_then r next = elim r.0 [ true ↦ next r.1 | false ↦ (false, r.1) ]

-- What is done with the connection at the end, whatever the result.
abbrev pub and_disconnect : Outcome → Outcome
and_disconnect r = (r.0, (proxy_disconnect r.1).1)

unfoldable pub proxy_cmd_hello : Proxy → Bytes → Session → Outcome
unfolding proxy_run_cmd hello_request
proxy_cmd_hello proxy container_id s = proxy_run_cmd (hello_request proxy container_id) s

unfoldable pub proxy_attach : Bytes → Session → Outcome
unfolding proxy_run_cmd attach_request
proxy_attach container_id s = proxy_run_cmd (attach_request container_id) s

-- The connection is left open.
unfoldable pub proxy_cmd_bye : Bytes → Session → Outcome
unfolding proxy_run_cmd bye_request proxy_connect
proxy_cmd_bye container_id s = and_then (proxy_connect s) (proxy_run_cmd (bye_request container_id))

-- Whether the control socket is there, whether a monitor can be made for it; a monitor is waited for
-- until it sees the socket.
unfoldable pub proxy_wait_until_ready : Proxy → Bytes → Bool → Bool → Session → Outcome
unfolding proxy_cmd_hello
proxy_wait_until_ready proxy container_id socket_exists monitor_made s =
    elim proxy.agent_ctl_socket [
      | none ↦ (false, s)
      | some _ ↦
          if socket_exists || monitor_made then proxy_cmd_hello proxy container_id s else (true, s)
    ]

unfoldable pub proxy_run_hyper_cmd : Bytes → Json → Session → Outcome
unfolding proxy_run_cmd hyper_request
proxy_run_hyper_cmd cmd payload s = proxy_run_cmd (hyper_request cmd payload) s

-- cc_pod_container_id of src/pod.c.
unfoldable pub pod_container_id : Config → Option Bytes
pod_container_id config = elim config.pod [
  | none ↦ config.container_id
  | some pod ↦ if pod.sandbox then config.container_id else pod.sandbox_name
]
