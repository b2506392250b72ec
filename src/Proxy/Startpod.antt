-- ===== src/Proxy/Startpod.antt =====
-- src/proxy.c: asking for the streams of a process, and for a new pod; get_pcie_ifname of
-- src/networking.c.
use cc_oci_runtime.Prelude.{
  ℕ, suc, ◌+◌, ℤ, pos, Bool, false, Option, none, some, List, [], ◌∷◌, ◌++◌, if◌then◌else◌, Bytes,
  codes, decimal, to_int32,
}
use cc_oci_runtime.Container.Types.{Ipv4Cfg, NetIfCfg, Ipv4Route}
use cc_oci_runtime.StateFile.Json.{
  Json, object, array, value, null, int64, Members, no_member, member, Elements, no_element,
  element,
}
use cc_oci_runtime.Proxy.Request.{string, allocate_io_request}
use cc_oci_runtime.Proxy.Client.{Session, Outcome, proxy_run_cmd, proxy_run_hyper_cmd, find_member}

abbrev pub pci_offset : ℕ
pci_offset = 8

unfoldable pub get_pcie_ifname : ℕ → Bytes
get_pcie_ifname index = codes "enp0s" ++ decimal (index + pci_offset)

unfoldable pub addresses_json : List Ipv4Cfg → Elements
addresses_json [] = no_element
addresses_json (ipv4_cfg ∷ rest) =
    element
      (object (
        member (codes "ipAddress") (string ipv4_cfg.ip_address)
          (member (codes "netMask") (string ipv4_cfg.subnet_mask) no_member)))
      (addresses_json rest)

-- The interfaces, the first with the given index.
unfoldable pub interfaces_json : ℕ → List NetIfCfg → Elements
unfolding get_pcie_ifname addresses_json
interfaces_json index [] = no_element
interfaces_json index (if_cfg ∷ rest) =
    element
      (object (
        member (codes "device") (string (get_pcie_ifname index)) (
          member (codes "newDeviceName") (string if_cfg.ifname)
            (member (codes "ipAddresses") (array (addresses_json if_cfg.ipv4_addrs)) no_member))))
      (interfaces_json (suc index) rest)

abbrev optional : Bytes → Option Bytes → Members → Members
optional key none rest = rest
optional key (some s) rest = member key (string s) rest

-- A route without a destination is left out.
unfoldable pub routes_json : List Ipv4Route → Elements
routes_json [] = no_element
routes_json (route ∷ rest) =
    let others = routes_json rest in
    elim route.dest [
      | none ↦ others
      | some dest ↦
          element
            (object (
              member (codes "dest") (string dest) (
                optional (codes "gateway") route.gateway
                  (optional (codes "device") route.ifname no_member))))
            others
    ]

unfoldable pub startpod_payload : Bytes → List NetIfCfg → List Ipv4Route → Json
unfolding interfaces_json routes_json
startpod_payload hostname interfaces routes = object (
    member (codes "hostname") (string hostname) (
      member (codes "containers") (array no_element) (
        member (codes "shareDir") (string (codes "rootfs")) (
          member (codes "interfaces") (array (interfaces_json 0 interfaces))
            (member (codes "routes") (array (routes_json routes)) no_member)))))

-- The connection is there already.
unfoldable pub proxy_hyper_pod_create :
    Option Bytes → List NetIfCfg → List Ipv4Route → Session → Outcome
unfolding startpod_payload proxy_run_hyper_cmd
proxy_hyper_pod_create none interfaces routes s = (false, s)
proxy_hyper_pod_create (some hostname) interfaces routes s =
    proxy_run_hyper_cmd (codes "startpod") (startpod_payload hostname interfaces routes) s

-- json_reader_get_int_value gives 0 for what is no integer; the result is an int.
abbrev io_base_value : Json → ℤ
io_base_value (value (int64 n)) = to_int32 n
io_base_value _ = pos 0

-- The first stream in the reply.
unfoldable pub io_base_of : Option Json → Option ℤ
unfolding find_member
io_base_of (some (object ms)) = elim (find_member (codes "data") ms) [
  | some data' ↦ elim data' [
    | object inner ↦ elim (find_member (codes "ioBase") inner) [
      | none ↦ none
      | some v ↦ some (io_base_value v)
    ]
    | array es ↦ none
    | value v ↦ none
    | null ↦ none
  ]
  | none ↦ none
]
io_base_of _ = none

abbrev first_reply : Session → Option Json
first_reply s = elim s.replies [ [] ↦ none | r ∷ rest ↦ r ]

-- The first stream, where the caller wants it.
unfoldable pub proxy_cmd_allocate_io : Bool → Session → Option ℤ × Session
unfolding allocate_io_request proxy_run_cmd io_base_of
proxy_cmd_allocate_io tty s =
    let r = proxy_run_cmd (allocate_io_request tty) s in
    if r.0 then (io_base_of (first_reply s), r.1) else (none, r.1)
