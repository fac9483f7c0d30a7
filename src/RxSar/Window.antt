-- ===== src/RxSar/Window.antt =====
-- The window that the receiving table advertises, against the free part of a session's buffer.
use tcp_offload_engine_shell.Prelude.{
  All, ℕ, ◌+◌, ◌-◌, ◌*◌, ◌%◌, ◌^◌, ◌≤◌, ◌<◌, ◌≡◌, some, List, [], ◌∷◌, true, arith,
}
use tcp_offload_engine_shell.Conn.Tables.{
  RxSarTableEntry, RxSarLookupRsp, RxSarAppReqRsp, RxEngToRxSarReq, buffer_size,
}
use tcp_offload_engine_shell.RxSar.{Table, Ins, free_space, rx_sar_table}

-- Bytes received and not yet read by the application.
abbrev pub buffered : RxSarTableEntry → ℕ
buffered e = (e.recvd % buffer_size + buffer_size - e.app_read) % buffer_size

abbrev pub IsEntry : RxSarTableEntry → Type 0
IsEntry e = (e.recvd < 2 ^ 32) × (e.app_read < buffer_size) × (e.win_shift ≤ 2)

-- The free space that the table computes is the buffer less the buffered bytes less one.
free_space-buffered :
    (e : RxSarTableEntry) → e.app_read < buffer_size → free_space e + buffered e + 1 ≡ buffer_size
free_space-buffered e h = omega arith

-- If a request of the tx engine is read for a session with a window scale of 2, then the window
-- that the tx engine is told, scaled back, fits the free part of the buffer and falls short of it
-- by less than one unit of 4 bytes.
pub advertised_fits :
    (t : Table) (i : Ins) (id : ℕ) (rest : List ℕ) {a : RxSarLookupRsp}
    → i.tx_eng_lup_req ≡ id ∷ rest
    → (t id).app_read < buffer_size
    → (t id).win_shift ≡ 2
    → (rx_sar_table t i).1.tx_eng_lup_rsp ≡ some a
    → (a.win_size * 2 ^ 2 + buffered (t id) < buffer_size)
      × (buffer_size ≤ a.win_size * 2 ^ 2 + 2 ^ 2 + buffered (t id))
unfolding rx_sar_table
advertised_fits t i id rest q h s e = ground arith

-- If a request of the tx engine is read for a session without window scaling whose free space is a
-- multiple of 2 ^ 16, then the window in the answer is 0, however large the free space is.
pub unscaled_window_wraps :
    (t : Table) (i : Ins) (id : ℕ) (rest : List ℕ) {a : RxSarLookupRsp}
    → i.tx_eng_lup_req ≡ id ∷ rest
    → (t id).win_shift ≡ 0
    → free_space (t id) % 2 ^ 16 ≡ 0
    → (rx_sar_table t i).1.tx_eng_lup_rsp ≡ some a
    → a.win_size ≡ 0
unfolding rx_sar_table
unscaled_window_wraps t i id rest q s f e = ground arith

-- Every request in the streams is in range.
abbrev pub IsInRange : Ins → Type 0
IsInRange i =
    All (λ (q : RxSarAppReqRsp). q.app_read < buffer_size) i.rx_app_req
    × All (λ (q : RxEngToRxSarReq). (q.recvd < 2 ^ 32) × (q.win_shift ≤ 2)) i.rx_eng_req

-- If the requests in the streams are in range, then a call keeps every entry in range: the next
-- byte expected within 32 bits, the application's pointer within 18 and the window scale at most 2.
pub rx_sar_table-IsEntry :
    (t : Table) (i : Ins)
    → IsInRange i
    → ((id : ℕ) → IsEntry (t id))
    → (id : ℕ) → IsEntry ((rx_sar_table t i).0 id)
unfolding rx_sar_table
rx_sar_table-IsEntry t i r h id = ground (arith, h id)

-- If a call reads an initialising write of the rx engine, then nothing is buffered for its session
-- afterwards, and the free space is the whole buffer less one byte.
pub init_opens_window :
    (t : Table) (i : Ins) (q : RxEngToRxSarReq) (rest : List RxEngToRxSarReq)
    → i.tx_eng_lup_req ≡ []
    → i.rx_app_req ≡ []
    → i.rx_eng_req ≡ q ∷ rest
    → q.write ≡ true
    → q.init ≡ true
    → (buffered ((rx_sar_table t i).0 q.session_id) ≡ 0)
      × (free_space ((rx_sar_table t i).0 q.session_id) ≡ buffer_size - 1)
unfolding rx_sar_table
init_opens_window t i q rest a b c w n = ground (arith)
