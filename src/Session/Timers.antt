-- ===== src/Session/Timers.antt =====
-- server/protocol/Socks5Session.cpp: the connect timer and the idle timer, and `Close`.
pub mod Laws
use socks5proxy_native.Prelude.{
  ℕ, suc, ◌+◌, ◌*◌, ◌/◌, ◌%◌, ◌^◌, Bool, true, false, not, ◌&&◌, ◌||◌, List, [], ◌∷◌, ◌==◌, leb,
  if◌then◌else◌,
}
use socks5proxy_native.Session.{
  Session, SessionState, Event, session_closed, relay_stopped, relay_awaited, past_request,
  is_connecting, is_closing,
}
use socks5proxy_native.Session.Env.{Config, System}

abbrev pub timer_connect : ℕ
timer_connect = 2

abbrev pub timer_idle : ℕ
timer_idle = 3

-- `++generation` on a `uint64_t`.
unfoldable pub next_generation : ℕ → ℕ
next_generation g = (g + 1) % 2 ^ 64

-- `(generation << 8) | kind`, with a kind below 256.
unfoldable pub timer_key : ℕ → ℕ → ℕ
timer_key generation kind = generation * 2 ^ 8 % 2 ^ 64 + kind

relay_events : Bool → List Event → List Event
relay_events relay es = if relay then relay_awaited ∷ relay_stopped ∷ es else es

module _ {C : Type 0} where
  unfoldable pub cancel_connect_timer : Session C → Session C
  unfolding next_generation
  cancel_connect_timer s = record s {
    connect_timer_generation = next_generation s.connect_timer_generation;
    connect_timer_id = 0;
  }

  unfoldable pub cancel_idle_timer : Session C → Session C
  unfolding next_generation
  cancel_idle_timer s = record s {
    idle_timer_generation = next_generation s.idle_timer_generation;
    idle_timer_id = 0;
  }

  -- The relay is stopped and its operations are awaited, the sockets are closed, and the server is told.
  shut_down : Session C → Session C
  unfolding relay_events
  shut_down s = record s {
    close_after_flush = false;
    udp_relay = false;
    client_open = false;
    dest_open = false;
    events = session_closed s.slot_held ∷ relay_events s.udp_relay s.events;
  }

  unfoldable pub close : Session C → Session C
  unfolding shut_down cancel_connect_timer cancel_idle_timer
  close s =
      if s.closed
      then s
      else shut_down (cancel_idle_timer (cancel_connect_timer (record s { closed = true })))

module _ {C : Type 0} (cfg : Config) (sys : System) where
  unfoldable pub arm_idle_timer : Session C → Session C
  unfolding cancel_idle_timer next_generation past_request
  arm_idle_timer s₀ =
      let s = cancel_idle_timer s₀ in
      if cfg.idle_timeout_ms == 0 then s else if past_request s.state then s else record s {
        idle_timer_generation = next_generation s.idle_timer_generation;
        idle_timer_id = sys.schedules s.posts;
        posts = s.posts + 1;
      }

  unfoldable pub arm_connect_timer : Session C → Session C × Bool
  unfolding cancel_connect_timer next_generation
  arm_connect_timer s₀ =
      let s = cancel_connect_timer s₀ in
      if cfg.connect_timeout_ms == 0 then (s, true) else (
        record s {
          connect_timer_generation = next_generation s.connect_timer_generation;
          connect_timer_id = sys.schedules s.posts;
          posts = s.posts + 1;
        },
        not (sys.schedules s.posts == 0),
      )
