-- ===== src/Server.antt =====
-- The server (package server): numbers and arguments of the protocol, and the parser.
pub mod Number
pub mod Args
pub mod Parser
pub mod Client
