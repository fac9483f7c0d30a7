-- ===== src/RxApp.antt =====
-- hls/toe/rx_app_intf: the applications' listen requests, their reads of received data, and the
-- notifications on their way to them.
pub mod Requests
pub mod Data
