-- ===== src/Shim/State.antt =====
-- struct cc_shim and the constants of shim/shim.h.
use cc_oci_runtime.Prelude.{ℕ, ℤ, Bool, Option, Bytes}

pub record CcShim : Type 0 where
  pub container_id : Option Bytes
  pub proxy_sock_fd : ℤ
  pub proxy_io_fd : ℤ
  pub io_seq_no : ℕ
  pub err_seq_no : ℕ
  pub exiting : Bool

abbrev pub stream_header_size : ℕ
stream_header_size = 12

abbrev pub stream_header_length_offset : ℕ
stream_header_length_offset = 8

abbrev pub hyperstart_max_recv_bytes : ℕ
hyperstart_max_recv_bytes = 10240

-- BUFSIZ of the C library.
abbrev pub bufsiz : ℕ
bufsiz = 8192
