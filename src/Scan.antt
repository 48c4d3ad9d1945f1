-- ===== src/Scan.antt =====
-- clients/udp_scan.c: the scan for servers.
pub mod Filter
pub mod Replies
