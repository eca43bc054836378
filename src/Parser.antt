-- ===== src/Parser.antt =====
-- parser/xrootd_parser.go: the XRootD monitoring packets.
pub mod Wire
pub mod Records
pub mod FileRecords
pub mod Files
pub mod Info
pub mod Packet
