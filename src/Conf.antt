-- ===== src/Conf.antt =====
-- The configuration files (package conf): their lexer and parser.
pub mod Lexer
pub mod Parser
