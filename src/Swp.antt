-- ===== src/Swp.antt =====
-- The sliding window protocol (package swp): its state machine and the data path of the receiver.
pub mod Tcp
pub mod Receiver
pub mod Retree
pub mod Sender
pub mod Link
