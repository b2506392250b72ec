-- ===== src/Proxy.antt =====
-- src/proxy.c: the runtime's side of its connection to cc-proxy.
pub mod Frame
pub mod Sent
pub mod Reply
pub mod Received
pub mod Request
pub mod Client
pub mod Commands
pub mod Startpod
pub mod Closing
