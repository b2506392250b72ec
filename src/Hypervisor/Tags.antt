-- ===== src/Hypervisor/Tags.antt =====
-- The special tags of cc_oci_expand_cmdline, and what the network adds to the command line.
use cc_oci_runtime.Prelude.{
  ℕ, suc, ◌+◌, ◌%◌, Bool, ◌||◌, Option, none, some, List, [], ◌∷◌, ◌++◌, ◌==◌, ltb, if◌then◌else◌,
  Bytes, codes, decimal,
}
use Prim.Native.Nat.{◌/◌}
use cc_oci_runtime.Container.Types.{VmCfg, Proxy, NetIfCfg, Config}

-- A digit of "%x".
abbrev pub hex_digit : ℕ → ℕ
hex_digit n = if ltb n 10 then 48 + n else 87 + n

-- "%02x" of a byte.
abbrev pub hex2 : ℕ → Bytes
hex2 b = hex_digit (b / 16) ∷ hex_digit (b % 16) ∷ []

-- Where the separators of the pattern stand.
abbrev pub is_separator : ℕ → Bool
is_separator i = i == 8 || (i == 13 || (i == 18 || i == 23))

-- The text of the uuid from an index on.
unfoldable pub uuid_text : ℕ → List ℕ → Bytes
uuid_text uuid_index [] = []
uuid_text uuid_index (b ∷ bs) =
    let plain = uuid_text (uuid_index + 2) bs in
    let separated = uuid_text (uuid_index + 3) bs in
    hex2 b ++ (if is_separator (uuid_index + 2) then b'-' ∷ separated else plain)

-- What follows the last '-', if there is one.
unfoldable pub after_last_dash : Bytes → Option Bytes
after_last_dash [] = none
after_last_dash (c ∷ s) = elim (after_last_dash s) [
  | some t ↦ some t
  | none ↦ if c == b'-' then some s else none
]

-- "%x" of a small number.
unfoldable pub hex : ℕ → Bytes
hex n = if ltb n 16 then hex_digit n ∷ [] else hex2 (n % 256)

abbrev pub pci_offset : ℕ
pci_offset = 8

unfoldable pub expand_net_cmdline : Option Bytes → Option Bytes
expand_net_cmdline none = none
expand_net_cmdline (some hostname) = some (codes "ip=::::::" ++ (hostname ++ codes "::off::"))

unfoldable pub expand_netdev_cmdline : NetIfCfg → Bytes
expand_netdev_cmdline if_cfg =
    codes "tap,ifname="
    ++ (if_cfg.tap_device
        ++ (codes ",script=no,downscript=no,id=" ++ (if_cfg.tap_device ++ codes ",vhost=on")))

unfoldable pub expand_net_device_cmdline : ℕ → NetIfCfg → Bytes
unfolding hex
expand_net_device_cmdline index if_cfg =
    let device =
      codes "driver=virtio-net-pci,bus=/pci-lite-host/pcie.0,addr="
      ++ (hex (index + pci_offset) ++ (codes ",netdev=" ++ if_cfg.tap_device)) in
    elim if_cfg.mac_address [
      | none ↦ device
      | some mac_address ↦ device ++ (codes ",mac=" ++ mac_address)
    ]

unfoldable pub network_args_from : ℕ → List NetIfCfg → List Bytes
unfolding expand_netdev_cmdline expand_net_device_cmdline
network_args_from index [] = []
network_args_from index (if_cfg ∷ rest) =
    codes "-netdev"
    ∷ expand_netdev_cmdline if_cfg
    ∷ codes "-device"
    ∷ expand_net_device_cmdline index if_cfg
    ∷ network_args_from (suc index) rest

-- Up to 248 interfaces, since `hex` writes two digits.
unfoldable pub append_network_args : List NetIfCfg → List Bytes
unfolding network_args_from
append_network_args [] = codes "-net\nnone\n" ∷ []
append_network_args (if_cfg ∷ rest) = network_args_from 0 (if_cfg ∷ rest)

-- What the system says of the files, the random uuid, g_find_program_in_path and g_build_path.
pub record HypervisorAnswers : Type 0 where
  pub image_size : Option ℕ
  pub kernel_found : Bool
  pub workload_found : Bool
  pub uuid : List ℕ
  pub find_program : Bytes → Option Bytes
  pub build_path : Bytes → Bytes → Bytes

-- The sockets that are made known to the proxy.
abbrev pub with_sockets : HypervisorAnswers → Config → Proxy
with_sockets a config = record {
  agent_ctl_socket = some (a.build_path config.runtime_path (codes "ga-ctl.sock"));
  agent_tty_socket = some (a.build_path config.runtime_path (codes "ga-tty.sock"));
  vm_console_socket = some (a.build_path config.runtime_path (codes "console.sock"));
}

abbrev pub Tag : Type 0
Tag = Bytes × Option Bytes

unfoldable pub special_tags :
    HypervisorAnswers → Config → VmCfg → Bytes → ℕ → Option Bytes → List Tag
unfolding uuid_text after_last_dash expand_net_cmdline
special_tags a config vm workload_dir size hostname =
    let uuid_str = uuid_text 0 a.uuid in
    let console : Bytes = a.build_path config.runtime_path (codes "console.sock") in
    (codes "@WORKLOAD_DIR@", some workload_dir)
    ∷ (codes "@KERNEL@", some vm.kernel_path)
    ∷ (codes "@KERNEL_PARAMS@", vm.kernel_params)
    ∷ (codes "@KERNEL_NET_PARAMS@", expand_net_cmdline hostname)
    ∷ (codes "@IMAGE@", some vm.image_path)
    ∷ (codes "@SIZE@", some (decimal size))
    ∷ (codes "@COMMS_SOCKET@", some config.comms_path)
    ∷ (
      codes "@PROCESS_SOCKET@",
      some (codes "socket,id=procsock,path=" ++ (config.procsock_path ++ codes ",server,nowait")),
    )
    ∷ (
      codes "@CONSOLE_DEVICE@",
      some (codes "socket,path=" ++ (console ++ codes ",server,nowait,id=charconsole0,signal=off")),
    )
    ∷ (codes "@NAME@", after_last_dash uuid_str)
    ∷ (codes "@UUID@", some uuid_str)
    ∷ (codes "@AGENT_CTL_SOCKET@", some (a.build_path config.runtime_path (codes "ga-ctl.sock")))
    ∷ (codes "@AGENT_TTY_SOCKET@", some (a.build_path config.runtime_path (codes "ga-tty.sock")))
    ∷ []
