-- ===== src/TxEngine.antt =====
-- hls/toe/tx_engine/tx_engine.cpp: what is sent for each event, and the processes that build the
-- packets.
pub mod State
pub mod Header
pub mod Packet
pub mod Ipv4
pub mod Data
pub mod Retransmit
pub mod Control
pub mod Fsm
