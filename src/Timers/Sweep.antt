-- ===== src/Timers/Sweep.antt =====
-- The intervals of hls/toe/toe_conn.hpp, and the cursor with which each timer goes round the
-- sessions.
use tcp_offload_engine_shell.Prelude.{
  ℕ, ◌+◌, ◌-◌, ◌*◌, ◌/◌, ◌%◌, ◌^◌, ◌<◌, ◌≡◌, ◌≢◌, ◌==◌, leb, if◌then◌else◌, arith,
}
use tcp_offload_engine_shell.Conn.Tables.{tcp_max_sessions}

pub record Times : Type 0 where
  pub time_64us : ℕ
  pub time_50ms : ℕ
  pub time_1s : ℕ
  pub time_5s : ℕ
  pub time_10s : ℕ
  pub time_15s : ℕ
  pub time_30s : ℕ
  pub time_60s : ℕ

-- The values of a simulation (no __SYNTHESIS__).
abbrev pub simulation_times : Times
simulation_times = record {
  time_64us = 1;
  time_50ms = 50;
  time_1s = 1;
  time_5s = 5;
  time_10s = 10;
  time_15s = 15;
  time_30s = 30;
  time_60s = 60;
}

-- `us / CLOCK_PERIOD / TCP_MAX_SESSIONS + 1`, with CLOCK_PERIOD 0.003103.
abbrev pub sweeps : ℕ → ℕ
sweeps us = us * 1_000_000 / (3103 * tcp_max_sessions) + 1

abbrev pub synthesis_times : Times
synthesis_times = record {
  time_64us = sweeps 64;
  time_50ms = sweeps 50_000;
  time_1s = sweeps 1_000_000;
  time_5s = sweeps 5_000_000;
  time_10s = sweeps 10_000_000;
  time_15s = sweeps 15_000_000;
  time_30s = sweeps 30_000_000;
  time_60s = sweeps 60_000_000;
}

-- `cur++; if (cur == TCP_MAX_SESSIONS) cur = 0;` on a TcpSessionID.
abbrev pub next_session : ℕ → ℕ
next_session cur = if (cur + 1) % 2 ^ 16 == tcp_max_sessions then 0 else (cur + 1) % 2 ^ 16

-- How many steps the cursor is away from a session.
abbrev pub distance : ℕ → ℕ → ℕ
distance cur id = if leb cur id then id - cur else id + tcp_max_sessions - cur

pub next_session-lt : (cur : ℕ) → cur < tcp_max_sessions → next_session cur < tcp_max_sessions
next_session-lt cur h = ground arith

pub distance-next_session :
    (cur id : ℕ)
    → cur < tcp_max_sessions
    → id < tcp_max_sessions
    → cur ≢ id
    → distance (next_session cur) id + 1 ≡ distance cur id
distance-next_session cur id h k n = ground arith

pub distance-next_session_self :
    (id : ℕ) → id < tcp_max_sessions → distance (next_session id) id + 1 ≡ tcp_max_sessions
distance-next_session_self id h = ground arith

pub distance_zero :
    (cur id : ℕ) → cur < tcp_max_sessions → id < tcp_max_sessions → distance cur id ≡ 0 → cur ≡ id
distance_zero cur id h k e = ground arith
