-- ===== src/EventEngine/Credits.antt =====
-- The event engine with ack_delay behind it and the two streams between them and the tx engine:
-- what the four counters say about the streams.
use tcp_offload_engine_shell.Prelude.{
  ℕ, ◌+◌, ◌%◌, ◌^◌, ◌<◌, ◌≡◌, Bool, some, none, Option, List, [], ◌∷◌, ◌++◌, arith, if◌then◌else◌,
  length, length-append,
}
use tcp_offload_engine_shell.Conn.Messages.{Event, EventWithTuple}
use tcp_offload_engine_shell.Timers.Sweep.{Times}
use tcp_offload_engine_shell.Timers.AckDelay
use tcp_offload_engine_shell.Timers.AckDelay.{ack_delay}
use tcp_offload_engine_shell.EventEngine.{Regs, Ins, event_engine}

pub record System : Type 0 where
  pub engine : Regs
  pub ins : Ins
  pub delay : AckDelay.Regs
  pub to_delay : List EventWithTuple
  pub to_tx_eng : List EventWithTuple

-- Each process called on the streams as they are; a stream between them gets what its writer wrote.
abbrev pub push {ℓ} : {A : Type ℓ} → List A → Option A → List A
push l none = l
push l (some a) = l ++ (a ∷ [])

abbrev pub token : Bool → ℕ → ℕ
token b n = if b then n + 1 else n

unfoldable pub engine_call : System → System
engine_call s =
    let (r, e, i) = event_engine s.engine s.ins in
    record s { engine = r; ins = i; to_delay = push s.to_delay e }

unfoldable pub delay_call : Times → Bool → System → System
delay_call c full s =
    let (r, o, i) = ack_delay c s.delay (record { events = s.to_delay; full = full }) in
    record s {
      delay = r;
      to_delay = i.events;
      to_tx_eng = push s.to_tx_eng o.event_out;
      ins = record s.ins {
        ack_delay_read = token o.read_cnt s.ins.ack_delay_read;
        ack_delay_write = token o.write_cnt s.ins.ack_delay_write;
      };
    }

-- One step of the system, in any order of the processes. The tx engine writes one item to its count
-- stream for each event that it reads.
pub data Step (c : Times) (s s' : System) : Type 0 where
  engine : s' ≡ engine_call s → Step c s s'
  delay : (full : Bool) → s' ≡ delay_call c full s → Step c s s'
  tx_eng :
      (e : EventWithTuple) (rest : List EventWithTuple)
      → s.to_tx_eng ≡ e ∷ rest
      → s'
        ≡ record s { to_tx_eng = rest; ins = record s.ins { tx_eng_read = s.ins.tx_eng_read + 1 } }
      → Step c s s'
  arrive :
      (a : List Event) (r : List EventWithTuple) (t : List Event)
      → s' ≡ record s { ins = record s.ins { tx_app_event = a; rx_eng_event = r; timer_event = t } }
      → Step c s s'

-- The counters, modulo 256, against the items of the streams.
pub record Credits (s : System) : Type 0 where
  pub in_range :
      (s.engine.write_event_count < 2 ^ 8)
      × (s.engine.ack_delay_read_count < 2 ^ 8)
      × (s.engine.ack_delay_write_count < 2 ^ 8)
      × (s.engine.tx_eng_read_count < 2 ^ 8)
  pub before_delay :
      s.engine.write_event_count
      ≡ (s.engine.ack_delay_read_count + s.ins.ack_delay_read + length s.to_delay) % 2 ^ 8
  pub behind_delay :
      (s.engine.ack_delay_write_count + s.ins.ack_delay_write) % 2 ^ 8
      ≡ (s.engine.tx_eng_read_count + s.ins.tx_eng_read + length s.to_tx_eng) % 2 ^ 8

engine_call-Credits : (s : System) → Credits s → Credits (engine_call s)
unfolding engine_call event_engine
engine_call-Credits s h = grind (arith, length-append)

delay_call-Credits :
    (c : Times) (full : Bool) (s : System) → Credits s → Credits (delay_call c full s)
unfolding delay_call ack_delay
delay_call-Credits c full s h = grind (arith, length-append)

Step-Credits : (c : Times) (s s' : System) → Step c s s' → Credits s → Credits s'
Step-Credits c s s' (Step.engine e) h = rw e (engine_call-Credits s h)
Step-Credits c s s' (Step.delay full e) h = rw e (delay_call-Credits c full s h)
Step-Credits c s s' (Step.tx_eng x rest q e) h = ground arith
Step-Credits c s s' (Step.arrive a r t e) h = ground arith

pub data Reach (c : Times) (s : System) : System → Type 0 where
  here : Reach c s s
  next : {t u : System} → Reach c s t → Step c t u → Reach c s u

-- If the counters agree with the streams modulo 256, they do so in every state that is reached, in
-- whatever order the processes are called.
pub Reach-Credits : (c : Times) (s : System) {t : System} → Credits s → Reach c s t → Credits t
Reach-Credits c s h here = h
Reach-Credits c s h (next {t = t} {u = u} r st) = Step-Credits c t u st (Reach-Credits c s h r)

-- If the counters agree with the streams and fewer than 256 events or read counts are under way,
-- then an event of a timer or of the tx app is forwarded only when ack_delay has taken every event
-- before it and its read counts are all in; and then what ack_delay has sent but not yet reported
-- equals, modulo 256, what the tx engine has not yet read or reported.
pub forwarded_when_settled :
    (s : System) {e : EventWithTuple}
    → Credits s
    → s.ins.rx_eng_event ≡ []
    → s.ins.ack_delay_read + length s.to_delay < 2 ^ 8
    → (event_engine s.engine s.ins).1 ≡ some e
    → (length s.to_delay ≡ 0)
      × (s.ins.ack_delay_read ≡ 0)
      × (s.ins.ack_delay_write % 2 ^ 8 ≡ (s.ins.tx_eng_read + length s.to_tx_eng) % 2 ^ 8)
unfolding event_engine
forwarded_when_settled s h q b f = ground arith
