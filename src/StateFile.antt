-- ===== src/StateFile.antt =====
-- The state file of a container: src/json.c, which turns JSON into trees of nodes, and src/state.c,
-- which writes and reads the file.
pub mod Json
pub mod Sections
pub mod ProcessSection
pub mod Read
pub mod Write
pub mod Recall
pub mod RecallMounts
pub mod RecallProcess
pub mod RecallSections
pub mod RoundTrip
pub mod Recovery
