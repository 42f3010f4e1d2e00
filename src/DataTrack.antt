-- ===== src/DataTrack.antt =====
-- Data tracks: what describes them, and their two ends (src/local_data_track.cpp and
-- src/remote_data_track.cpp).
pub mod Schema
pub mod Ends
