-- ===== src/Container/Types.antt =====
-- The structures of src/oci.h that the modelled functions read or write, field by field. A pointer
-- that may be NULL is an `Option`; a fixed array of characters is its text, empty if it holds none.
-- A pid is the 32-bit pattern of a `GPid`.
use cc_oci_runtime.Prelude.{ℕ, ◌-◌, ℤ, Bool, Option, List, Bytes, take}

-- enum oci_status, in the order of the source.
pub data Status : Type 0 where
  created running paused stopped stopping invalid : Status

pub record VmCfg : Type 0 where
  pub hypervisor_path : Bytes
  pub image_path : Bytes
  pub kernel_path : Bytes
  pub workload_path : Bytes
  pub kernel_params : Option Bytes
  pub pid : ℕ

pub record Proxy : Type 0 where
  pub agent_ctl_socket : Option Bytes
  pub agent_tty_socket : Option Bytes
  pub vm_console_socket : Option Bytes

pub record Pod : Type 0 where
  pub sandbox : Bool
  pub sandbox_name : Option Bytes
  pub sandbox_workloads : Bytes

-- struct cc_oci_mount; the strings of its struct mntent stand beside its own fields.
pub record Mount : Type 0 where
  pub flags : ℕ
  pub mnt_fsname : Option Bytes
  pub mnt_dir : Option Bytes
  pub mnt_type : Option Bytes
  pub mnt_opts : Option Bytes
  pub dest : Bytes
  pub ignore_mount : Bool
  pub directory_created : Option Bytes

pub record Annotation : Type 0 where
  pub key : Bytes
  pub value : Option Bytes

-- struct oci_cfg_process; `uid` and `gid` are those of struct oci_cfg_user.
pub record Process : Type 0 where
  pub args : Option (List Bytes)
  pub cwd : Bytes
  pub env : Option (List Bytes)
  pub terminal : Bool
  pub uid : ℕ
  pub gid : ℕ
  pub stdio_stream : ℤ
  pub stderr_stream : ℤ

-- The fields of struct cc_oci_config, those of its `oci` and `state` members among them.
pub record Config : Type 0 where
  pub oci_version : Option Bytes
  pub mounts : List Mount
  pub annotations : List Annotation
  pub process : Process
  pub root_path : Bytes
  pub vm : Option VmCfg
  pub state_file_path : Bytes
  pub runtime_path : Bytes
  pub comms_path : Bytes
  pub procsock_path : Bytes
  pub workload_pid : ℕ
  pub status : Status
  pub pod : Option Pod
  pub bundle_path : Option Bytes
  pub console : Option Bytes
  pub root_dir : Option Bytes
  pub container_id : Option Bytes
  pub dry_run_mode : Bool
  pub detached_mode : Bool
  pub proxy : Option Proxy

-- struct cc_oci_net_ipv4_cfg.
pub record Ipv4Cfg : Type 0 where
  pub ip_address : Bytes
  pub subnet_mask : Bytes

-- struct cc_oci_net_if_cfg, as far as it is used.
pub record NetIfCfg : Type 0 where
  pub mac_address : Option Bytes
  pub ifname : Bytes
  pub tap_device : Bytes
  pub ipv4_addrs : List Ipv4Cfg

-- struct cc_oci_net_ipv4_route.
pub record Ipv4Route : Type 0 where
  pub dest : Option Bytes
  pub ifname : Option Bytes
  pub gateway : Option Bytes

-- struct oci_state.
pub record OciState : Type 0 where
  pub oci_version : Option Bytes
  pub id : Option Bytes
  pub pid : ℕ
  pub bundle_path : Option Bytes
  pub comms_path : Option Bytes
  pub procsock_path : Option Bytes
  pub status : Status
  pub create_time : Option Bytes
  pub mounts : List Mount
  pub annotations : List Annotation
  pub console : Option Bytes
  pub vm : Option VmCfg
  pub proxy : Option Proxy
  pub pod : Option Pod
  pub process : Option Process

abbrev pub path_max : ℕ
path_max = 4096

-- g_strlcpy and g_snprintf into an array of PATH_MAX characters keep one for the final NUL.
abbrev pub fit_path : Bytes → Bytes
fit_path s = take (path_max - 1) s
