-- ===== src/Ethernet.antt =====
-- The processes between the engine and the network: hls/packet_handler and
-- hls/ethernet_header_inserter.
pub mod Handler
pub mod Inserter
