-- ===== src/Pcap.antt =====
-- The packet-capture extraction engine (src/pcap).
pub mod Request
pub mod File
pub mod Spool
pub mod Fetch
