-- ===== src/Container.antt =====
-- The objects that the runtime's commands work on (src/oci.h), and the names of a container's status.
pub mod Types
pub mod Status
