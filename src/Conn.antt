-- ===== src/Conn.antt =====
-- hls/toe/toe_conn.hpp and hls/toe/toe_config.hpp: the constants and the data that the modules of
-- the engine exchange. An `ap_uint<w>` is a number below 2 ^ w; an `ap_uint<1>` that serves as a
-- flag, a Bool. The children hold the messages of the tables and those of events, sessions and
-- notifications.
pub mod Tables
pub mod Messages
pub mod Sessions
