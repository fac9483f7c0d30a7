-- ===== src/RxSar.antt =====
-- hls/toe/rx_sar_table/rx_sar_table.cpp: the receiving side's sliding window of each session.
pub mod Window
use tcp_offload_engine_shell.Prelude.{
  ℕ, ◌+◌, ◌-◌, ◌*◌, ◌/◌, ◌%◌, ◌^◌, true, Option, none, some, List, ◌∷◌, if◌then◌else◌, read, update,
}
use tcp_offload_engine_shell.Conn.Tables.{
  RxSarTableEntry, RxSarLookupRsp, RxEngToRxSarReq, RxSarAppReqRsp, buffer_size,
}

abbrev pub Table : Type 0
Table = ℕ → RxSarTableEntry

pub record Ins : Type 0 where
  pub tx_eng_lup_req : List ℕ
  pub rx_app_req : List RxSarAppReqRsp
  pub rx_eng_req : List RxEngToRxSarReq

-- What one call writes.
pub record Outs : Type 0 where
  pub tx_eng_lup_rsp : Option RxSarLookupRsp
  pub rx_app_rsp : Option RxSarAppReqRsp
  pub rx_eng_rsp : Option RxSarTableEntry

abbrev pub nothing : Outs
nothing = record { tx_eng_lup_rsp = none; rx_app_rsp = none; rx_eng_rsp = none }

-- `(app_read - recvd(WINDOW_BITS - 1, 0)) - 1` as a TcpSessionBuffer of 18 bits.
abbrev pub free_space : RxSarTableEntry → ℕ
free_space e = (e.app_read + 2 * buffer_size - e.recvd % buffer_size - 1) % buffer_size

-- The answer to the tx engine; the window of the TCP header has 16 bits.
lookup : RxSarTableEntry → RxSarLookupRsp
lookup e = record {
  recvd = e.recvd;
  win_shift = e.win_shift;
  win_size = free_space e / 2 ^ e.win_shift % 2 ^ 16;
}

serve_rx_app : Table → RxSarAppReqRsp → Table × Outs
serve_rx_app t q =
    let e = t q.session_id in
    if q.write then (update t q.session_id (record e { app_read = q.app_read }), nothing) else (
      t,
      record nothing {
        rx_app_rsp =
            some (record { session_id = q.session_id; app_read = e.app_read; write = true });
      },
    )

-- A write at the start of a connection (`init`) also sets the application's pointer to the same
-- byte.
serve_rx_eng : Table → RxEngToRxSarReq → Table × Outs
serve_rx_eng t q =
    let e = t q.session_id in
    if q.write
    then if q.init
      then (
        update t q.session_id
            (record { recvd = q.recvd; app_read = q.recvd % buffer_size; win_shift = q.win_shift }),
        nothing,
      )
      else (update t q.session_id (record e { recvd = q.recvd }), nothing)
    else (t, record nothing { rx_eng_rsp = some e })

-- One call of `rx_sar_table`.
unfoldable pub rx_sar_table : Table → Ins → Table × Outs × Ins
unfolding lookup serve_rx_app serve_rx_eng
rx_sar_table t i = elim (read i.tx_eng_lup_req) [
  | some (id, rest) ↦ (
    t,
    record nothing { tx_eng_lup_rsp = some (lookup (t id)) },
    record i { tx_eng_lup_req = rest },
  )
  | none ↦ elim (read i.rx_app_req) [
    | some (q, rest) ↦ let (t', o) = serve_rx_app t q in (t', o, record i { rx_app_req = rest })
    | none ↦ elim (read i.rx_eng_req) [
      | some (q, rest) ↦ let (t', o) = serve_rx_eng t q in (t', o, record i { rx_eng_req = rest })
      | none ↦ (t, nothing, i)
    ]
  ]
]
