-- ===== src/Server.antt =====
-- src/server.c: the main server and the workers.
pub mod State
pub mod Handle
pub mod Keeps
pub mod Listen
pub mod Closed
pub mod Logins
pub mod Ports
pub mod Tables
pub mod Shutdown
pub mod Starting
pub mod Broadcast
pub mod Work
pub mod Refused
pub mod Examples
