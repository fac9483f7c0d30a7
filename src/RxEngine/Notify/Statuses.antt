-- ===== src/RxEngine/Notify/Statuses.antt =====
-- The notifications of the rx engine against the statuses of the data mover.
use tcp_offload_engine_shell.Prelude.{
  ℕ, zero, suc, ◌≡◌, ◌≢◌, refl, ◌==◌, Bool, true, false, Option, none, some, List, [], ◌∷◌, arith,
  map, if◌then◌else◌,
}
use tcp_offload_engine_shell.Conn.Messages.{AppNotification}
use tcp_offload_engine_shell.RxEngine.Notify.{Regs, Ins, read_notify, rx_eng_notification_handler}

abbrev push : Option AppNotification → List AppNotification → List AppNotification
push none l = l
push (some n) l = n ∷ l

-- The variables, the notifications sent and the streams after `k` calls.
unfoldable pub calls : ℕ → Regs → Ins → Regs × List AppNotification × Ins
calls zero r i = (r, [], i)
calls (suc k) r i =
    let (r', n, i') = rx_eng_notification_handler r i in
    let (r'', ns, i'') = calls k r' i' in (r'', push n ns, i'')

-- A notification and, if it has data, whether its write goes around the end of the buffer.
abbrev pub Access : Type 0
Access = AppNotification × Bool

-- The flags and the statuses that the writes of the accesses leave, if every write succeeds: one
-- status for each write.
abbrev pub flags_of : List Access → List Bool
flags_of [] = []
flags_of ((n, twice) ∷ xs) = let rest = flags_of xs in if n.length == 0 then rest else twice ∷ rest

abbrev pub statuses_of : List Access → List Bool
statuses_of [] = []
statuses_of ((n, twice) ∷ xs) =
    let rest = statuses_of xs in
    if n.length == 0 then rest else if twice then true ∷ true ∷ rest else true ∷ rest

-- One call for the notification and one for each status.
abbrev pub calls_of : List Access → ℕ
calls_of [] = 0
calls_of ((n, twice) ∷ xs) =
    let rest = calls_of xs in
    if n.length == 0 then suc rest else if twice then suc (suc (suc rest)) else suc (suc rest)

abbrev pub notifications : List Access → List AppNotification
notifications xs = map (λ a. a.0) xs

-- Between two notifications; the two variables keep old ones.
abbrev pub ready : AppNotification → AppNotification → Regs
ready x y = record { fsm_state = read_notify; app_notificaion_reg1 = x; app_notificaion_reg2 = y }

abbrev pub streams : List Access → Ins
streams xs = record {
  write_status = statuses_of xs;
  double_access_flag = flags_of xs;
  notification_cache = notifications xs;
}

abbrev sent_first :
    AppNotification → Regs × List AppNotification × Ins → Regs × List AppNotification × Ins
sent_first n (r, ns, i) = (r, n ∷ ns, i)

calls-zero : (r : Regs) (i : Ins) → calls 0 r i ≡ (r, [], i)
unfolding calls
calls-zero r i = refl

module _ (n : AppNotification) (k : ℕ) (x y : AppNotification) (i : Ins) where
  without_payload :
      n.length ≡ 0
      → calls (suc k) (ready x y) (record i { notification_cache = n ∷ i.notification_cache })
        ≡ sent_first n (calls k (ready n y) i)
  unfolding calls rx_eng_notification_handler
  without_payload h = ground arith

  written_once :
      n.length ≢ 0
      → calls (suc (suc k)) (ready x y) (record {
        write_status = true ∷ i.write_status;
        double_access_flag = false ∷ i.double_access_flag;
        notification_cache = n ∷ i.notification_cache;
      })
        ≡ sent_first n (calls k (ready n y) i)
  unfolding calls rx_eng_notification_handler
  written_once h = ground arith

  written_twice :
      n.length ≢ 0
      → calls (suc (suc (suc k))) (ready x y) (record {
        write_status = true ∷ true ∷ i.write_status;
        double_access_flag = true ∷ i.double_access_flag;
        notification_cache = n ∷ i.notification_cache;
      })
        ≡ sent_first n (calls k (ready n n) i)
  unfolding calls rx_eng_notification_handler
  written_twice h = ground arith

-- If every write succeeds, the calls that the accesses need pass on every notification, in the
-- order of the accesses, and leave the three streams empty and the handler ready for the next one.
pub notified_in_order :
    (xs : List Access) (x y : AppNotification)
    → let (r, ns, i) = calls (calls_of xs) (ready x y) (streams xs) in
      (r.fsm_state ≡ read_notify) × (ns ≡ notifications xs) × (i ≡ streams [])
notified_in_order [] x y = ground (arith, calls-zero (ready x y) (streams []))
notified_in_order ((n, true) ∷ xs) x y = ground (
  arith,
  without_payload n (calls_of xs) x y (streams xs),
  written_twice n (calls_of xs) x y (streams xs),
  notified_in_order xs n y,
  notified_in_order xs n n,
)
notified_in_order ((n, false) ∷ xs) x y = ground (
  arith,
  without_payload n (calls_of xs) x y (streams xs),
  written_once n (calls_of xs) x y (streams xs),
  notified_in_order xs n y,
)

-- If the first of the two writes of a notification fails, the handler does not read the status of
-- the second one: the next notification, of one write, is decided by that status, and its own
-- stays in the stream.
pub failed_write_shifts_statuses :
    (n m : AppNotification) (second own : Bool) (ss fs : List Bool) (ns : List AppNotification)
    (r : Regs)
    → r.fsm_state ≡ read_notify
    → n.length ≢ 0
    → m.length ≢ 0
    → let (r', sent, i') = calls 4 r (record {
      write_status = false ∷ second ∷ own ∷ ss;
      double_access_flag = true ∷ false ∷ fs;
      notification_cache = n ∷ m ∷ ns;
    }) in
      (r'.fsm_state ≡ read_notify)
      × (sent ≡ (if second then m ∷ [] else []))
      × (i' ≡ record { write_status = own ∷ ss; double_access_flag = fs; notification_cache = ns })
unfolding calls rx_eng_notification_handler
failed_write_shifts_statuses n m true own ss fs ns r h p q = ground arith
failed_write_shifts_statuses n m false own ss fs ns r h p q = ground arith
