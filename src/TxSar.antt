-- ===== src/TxSar.antt =====
-- hls/toe/tx_sar_table/tx_sar_table.cpp: the transmitting side's sliding window of each session
-- (without TCP_NODELAY).
pub mod Window
use tcp_offload_engine_shell.Prelude.{
  ℕ, ◌+◌, ◌-◌, ◌*◌, ◌%◌, ◌^◌, Bool, true, false, Option, none, some, List, ◌∷◌, ◌==◌, ltb,
  if◌then◌else◌, read, update,
}
use tcp_offload_engine_shell.Conn.Tables.{
  TxSarTableEntry, RxEngToTxSarReq, TxSarToRxEngRsp, TxEngToTxSarReq, TxSarToTxEngRsp,
  TxAppToTxSarReq, TxSarToTxAppReq, buffer_size, tcp_mss, tcp_mss_ten_times,
}

abbrev pub Table : Type 0
Table = ℕ → TxSarTableEntry

pub record Ins : Type 0 where
  pub tx_app_upd_req : List TxAppToTxSarReq
  pub rx_eng_req : List RxEngToTxSarReq
  pub tx_eng_req : List TxEngToTxSarReq

-- What one call writes.
pub record Outs : Type 0 where
  pub rx_eng_rsp : Option TxSarToRxEngRsp
  pub tx_eng_rsp : Option TxSarToTxEngRsp
  pub tx_app_upd_req : Option TxSarToTxAppReq

abbrev pub nothing : Outs
nothing = record { rx_eng_rsp = none; tx_eng_rsp = none; tx_app_upd_req = none }

abbrev flag : Bool → ℕ
flag b = if b then 1 else 0

-- Not yet sent, and in flight: 18-bit differences.
abbrev pub curr_length : TxSarTableEntry → ℕ
curr_length e = (e.app_written + buffer_size - e.not_ackd % buffer_size) % buffer_size

abbrev pub used_length : TxSarTableEntry → ℕ
used_length e = (e.not_ackd % buffer_size + 2 ^ 32 - e.ackd) % buffer_size

-- `scaled_recv_window(win_shift + 15, win_shift) = recv_window` in a number of 18 bits.
abbrev pub scaled_recv_window : TxSarTableEntry → ℕ
scaled_recv_window e = e.recv_window * 2 ^ e.win_shift % buffer_size

abbrev pub min_window : TxSarTableEntry → ℕ
min_window e =
    if ltb e.cong_window (scaled_recv_window e) then e.cong_window else scaled_recv_window e

-- The answer to a read of the tx engine.
lookup : TxSarTableEntry → TxSarToTxEngRsp
lookup e = record {
  ackd = e.ackd;
  not_ackd = e.not_ackd;
  min_window = min_window e;
  app_written = e.app_written;
  fin_is_ready = e.fin_is_ready;
  fin_is_sent = e.fin_is_sent;
  curr_length = curr_length e;
  used_length = used_length e;
  used_length_rst =
      (e.not_ackd % buffer_size + 2 ^ 32 + buffer_size - e.ackd - flag e.fin_is_sent) % buffer_size;
  usable_window = if ltb (used_length e) (min_window e) then min_window e - used_length e else 0;
  ackd_eq_not_ackd = e.ackd == e.not_ackd;
  not_ackd_short = (e.not_ackd + curr_length e) % 2 ^ 32;
  not_ackd_plus_mss = (e.not_ackd + tcp_mss) % 2 ^ 32;
  win_shift = e.win_shift;
}

-- `if (init)`: the first sequence number of a connection.
init_entry : TxSarTableEntry → TxEngToTxSarReq → TxSarTableEntry
init_entry e q = record e {
  app_written = q.not_ackd % buffer_size;
  ackd = (q.not_ackd + 2 ^ 32 - 1) % 2 ^ 32;
  cong_window = tcp_mss_ten_times;
  slowstart_threshold = buffer_size - 1;
  fin_is_ready = q.fin_is_ready;
  fin_is_sent = q.fin_is_sent;
}

-- The flags of a write are only ever set here.
set_fin : TxSarTableEntry → TxEngToTxSarReq → TxSarTableEntry
set_fin e q = record e {
  fin_is_ready = if q.fin_is_ready then true else e.fin_is_ready;
  fin_is_sent = if q.fin_is_sent then true else e.fin_is_sent;
}

serve_tx_eng : Table → TxEngToTxSarReq → Table × Outs
unfolding lookup init_entry set_fin
serve_tx_eng t q =
    let e = t q.session_id in
    if q.write
    then if q.retrans_req
      then
          -- `get_threshold` is the low 18 bits of `not_ackd`
          (
            update t q.session_id (record e {
              slowstart_threshold = q.not_ackd % buffer_size;
              cong_window = tcp_mss_ten_times;
            }),
            nothing,
          )
      else if q.init
      then (
        update t q.session_id (set_fin (init_entry (record e { not_ackd = q.not_ackd }) q) q),
        record nothing {
          tx_app_upd_req =
              some (record {
                session_id = q.session_id;
                ackd = q.not_ackd % buffer_size;
                init = true;
              });
        },
      )
      else (update t q.session_id (set_fin (record e { not_ackd = q.not_ackd }) q), nothing)
    else (t, record nothing { tx_eng_rsp = some (lookup e) })

serve_tx_app : Table → TxAppToTxSarReq → Table × Outs
serve_tx_app t q =
    (update t q.session_id (record (t q.session_id) { app_written = q.app_written }), nothing)

serve_rx_eng : Table → RxEngToTxSarReq → Table × Outs
serve_rx_eng t q =
    let e = t q.session_id in
    if q.write
    then (
      update t q.session_id (record e {
        win_shift = if q.win_shift_write then q.win_shift else e.win_shift;
        ackd = q.ackd;
        recv_window = q.recv_window;
        cong_window = q.cong_window;
        retrans_count = q.retrans_count;
        fast_retrans = q.fast_retrans;
      }),
      record nothing {
        tx_app_upd_req =
            some (record { session_id = q.session_id; ackd = q.ackd % buffer_size; init = false });
      },
    )
    else (
      t,
      record nothing {
        rx_eng_rsp = some (record {
          perv_ack = e.ackd;
          next_byte = e.not_ackd;
          cong_window = e.cong_window;
          slowstart_threshold = e.slowstart_threshold;
          retrans_count = e.retrans_count;
          fast_retrans = e.fast_retrans;
          win_shift = e.win_shift;
        });
      },
    )

-- One call of `tx_sar_table`.
unfoldable pub tx_sar_table : Table → Ins → Table × Outs × Ins
unfolding serve_tx_eng serve_tx_app serve_rx_eng
tx_sar_table t i = elim (read i.tx_eng_req) [
  | some (q, rest) ↦ let (t', o) = serve_tx_eng t q in (t', o, record i { tx_eng_req = rest })
  | none ↦ elim (read i.tx_app_upd_req) [
    | some (q, rest) ↦ let (t', o) = serve_tx_app t q in (t', o, record i { tx_app_upd_req = rest })
    | none ↦ elim (read i.rx_eng_req) [
      | some (q, rest) ↦ let (t', o) = serve_rx_eng t q in (t', o, record i { rx_eng_req = rest })
      | none ↦ (t, nothing, i)
    ]
  ]
]
