-- ===== src/Tests.antt =====
-- Runs of the theorems, and of the code, at concrete inputs.
pub mod Files
pub mod Texts
pub mod Queues
pub mod States
pub mod Packets
pub mod Outputs
pub mod Monitors
pub mod Inputs
pub mod Services
pub mod Publishers
pub mod Readers
