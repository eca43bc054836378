-- ===== src/Collector.antt =====
-- The packages collector, and what they keep between packets.
pub mod State
pub mod Keys
pub mod GoLib
pub mod Scitags
pub mod Types
pub mod Hosts
pub mod Paths
pub mod UserInfo
pub mod Lookup
pub mod Record
pub mod Wlcg
pub mod Filter
pub mod Enrichment
pub mod WorkQueue
pub mod PowerOfTen
pub mod Dictionary
pub mod Correlator
pub mod Setup
