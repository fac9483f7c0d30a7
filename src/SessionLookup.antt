-- ===== src/SessionLookup.antt =====
-- hls/toe/session_lookup_controller/session_lookup_controller.cpp (MULTI_IP_ADDR): session ids for
-- connections, by a CAM outside of this code, and the table back from an id to its connection.
pub mod State
pub mod Lookup
pub mod Reverse
pub mod Ids
pub mod Answers
pub mod Sessions
