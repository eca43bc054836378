-- ===== src/Input.antt =====
-- The readers of package input.
pub mod Rabbit
pub mod Source
pub mod Udp
pub mod Lines
