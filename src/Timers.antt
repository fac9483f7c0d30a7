-- ===== src/Timers.antt =====
-- The timers of hls/toe: ack_delay, close_timer, probe_timer, retransmit_timer. Each sweeps over
-- the sessions, one a call. `Times` holds the intervals of toe_conn.hpp in sweeps.
pub mod Sweep
pub mod AckDelay
pub mod CloseTimer
pub mod ProbeTimer
pub mod RetransmitTimer
pub mod Wrapper
