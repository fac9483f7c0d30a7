-- ===== src/TxApp.antt =====
-- hls/toe/tx_app_intf/tx_app_intf.cpp (without TCP_NODELAY): how an application opens and closes
-- connections and writes data.
pub mod Table
pub mod Data
pub mod Status
pub mod Conn
