-- ===== src/RxEngine.antt =====
-- hls/toe/rx_engine: the path of a received segment, from its options and the verified checksum to
-- the tables, the timers and the applications.
pub mod Segment
pub mod PseudoHeader
pub mod Parse
pub mod Options
pub mod Verify
pub mod Dropper
pub mod Ack
pub mod Control
pub mod Fsm
pub mod Notify
