-- ===== src/Server/Parser.antt =====
-- server/parser.go: the protocol's parser.
pub mod State
pub mod Step
pub mod Loop
pub mod Total
pub mod Run
pub mod Keeps
pub mod Safety
pub mod Turns
pub mod Message
pub mod Stream
pub mod Limits
mod Tests
