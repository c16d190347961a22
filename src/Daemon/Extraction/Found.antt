-- ===== src/Daemon/Extraction/Found.antt =====
-- Which object is found in the output of a coordinator (crates/cca-daemon/src/daemon.rs).
