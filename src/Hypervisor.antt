-- ===== src/Hypervisor.antt =====
-- src/hypervisor.c: the command line of the hypervisor, with cc_oci_replace_string and
-- cc_oci_file_to_strv of src/util.c.
pub mod Lines
pub mod Tags
pub mod Args
pub mod Plain
pub mod Made
