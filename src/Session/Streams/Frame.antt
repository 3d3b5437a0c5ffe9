-- ===== src/Session/Streams/Frame.antt =====
-- What queueing a buffer leaves alone.
use socks5proxy_native.Prelude.{ℕ, ◌≡◌, List, arith}
use socks5proxy_native.Session.{Session, StreamTag, client, dest}
use socks5proxy_native.Session.Env.{System}
use socks5proxy_native.Session.Timers.{close}
use socks5proxy_native.Session.Streams.{begin_client_read, post_read, pump_send, queue_send_raw}

-- Everything of a session that sending does not touch.
pub record SameTalk {C : Type 0} (s t : Session C) : Type 0 where
  pub state : t.state ≡ s.state
  pub ingest : t.ingest ≡ s.ingest
  pub gssapi : t.gssapi ≡ s.gssapi
  pub protect : t.gss_protect_active ≡ s.gss_protect_active
  pub unwrapped : t.gss_request_unwrapped ≡ s.gss_request_unwrapped
  pub host : t.pending_host ≡ s.pending_host
  pub port : t.pending_port ≡ s.pending_port

module _ {C : Type 0} where
  pub close-SameTalk : (s : Session C) → SameTalk s (close s)
  unfolding close
  close-SameTalk s = ground arith

  pub pump_send-SameTalk :
      (sys : System) (tag : StreamTag) (s : Session C) → SameTalk s (pump_send sys tag s)
  unfolding pump_send close
  pump_send-SameTalk sys client s = ground arith
  pump_send-SameTalk sys dest s = ground arith

  pub queue_send_raw-SameTalk :
      (sys : System) (tag : StreamTag) (chunk : List ℕ) (s : Session C)
      → SameTalk s (queue_send_raw sys tag chunk s)
  unfolding queue_send_raw pump_send close
  queue_send_raw-SameTalk sys client chunk s = ground arith
  queue_send_raw-SameTalk sys dest chunk s = ground arith

  pub begin_client_read-SameTalk :
      (sys : System) (s : Session C) → SameTalk s (begin_client_read sys s).0
  unfolding begin_client_read post_read close
  begin_client_read-SameTalk sys s = ground arith
