-- ===== src/Tests/Timing.antt =====
-- The idle timer of a session that has just been accepted.
use socks5proxy_native.Prelude.{ℕ, ◌≡◌, refl, inl, inr, true, [], ◌∷◌, replicate, arith}
use socks5proxy_native.Session.{
  Session, relaying, client, dest, idle_io, new_session, reads_protocol,
}
use socks5proxy_native.Session.Streams.{on_client_send, on_dest_send}
use socks5proxy_native.Session.Streams.Pressure.{Cause, on_client_send-Cause, on_dest_send-Cause}
use socks5proxy_native.Session.Timers.{close, arm_idle_timer, timer_key, timer_idle}
use socks5proxy_native.Session.Handlers.{on_timer}
use socks5proxy_native.Session.Handlers.Expiry.{on_timer-arm_idle_timer}
use socks5proxy_native.Tests.Fixtures.{open_config, willing, plain_gss, greeted}

on_timer-arm_idle_timer_example :
    (on_timer plain_gss open_config willing
        (timer_key (arm_idle_timer open_config willing greeted).idle_timer_generation timer_idle)
        (arm_idle_timer open_config willing greeted)
      ≡ close (record (arm_idle_timer open_config willing greeted) { idle_timer_id = 0 }))
    × (on_timer plain_gss open_config willing
          (timer_key greeted.idle_timer_generation timer_idle)
          (arm_idle_timer open_config willing greeted)
        ≡ arm_idle_timer open_config willing greeted)
unfolding new_session reads_protocol
on_timer-arm_idle_timer_example =
    on_timer-arm_idle_timer plain_gss open_config willing greeted refl refl (λ e. omega (arith, e))
      (omega arith)

-- A relay whose client is paused while 32 buffers wait for the destination.
abbrev full : Session ℕ
full = record (new_session ℕ true) {
  state = relaying;
  dest_open = true;
  client_io = record idle_io { relay_read_paused = true };
  dest_io = record idle_io { sending = true; send_queue = replicate 32 (1 ∷ []) };
}

on_dest_send-Cause_example : Cause client (on_dest_send willing 1 0 full)
unfolding new_session
on_dest_send-Cause_example = on_dest_send-Cause willing 1 0 full refl (inr (inl refl))

abbrev reading_dest : Session ℕ
reading_dest = record (new_session ℕ true) {
  state = relaying;
  dest_open = true;
  dest_io = record idle_io { reading = true };
  client_io = record idle_io { sending = true; send_queue = (1 ∷ []) ∷ [] };
}

on_client_send-Cause_example : Cause dest (on_client_send willing 1 0 reading_dest)
unfolding new_session
on_client_send-Cause_example = on_client_send-Cause willing 1 0 reading_dest refl (inl refl)
