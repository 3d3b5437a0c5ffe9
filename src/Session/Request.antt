-- ===== src/Session/Request.antt =====
-- server/protocol/Socks5Session.cpp: the request, and how its command is begun.
pub mod Parse
pub mod Progress
use socks5proxy_native.Prelude.{
  ℕ, ◌+◌, ◌*◌, Bool, true, false, not, ◌&&◌, ◌||◌, List, [], ◌∷◌, ◌++◌, ◌==◌, leb, if◌then◌else◌,
  length, take, drop, get_or, Option, none, some,
}
use socks5proxy_native.Net.{Family, inet, inet6, Endpoint, parse_ip}
use socks5proxy_native.Socks.{version, reserved}
use socks5proxy_native.Socks.Gssapi.{msg_encapsulated}
use socks5proxy_native.Socks.Command.{connect, udp_associate}
use socks5proxy_native.Socks.ReplyCode.{
  succeeded, general_failure, host_unreachable, network_unreachable, command_not_supported,
  address_type_not_supported,
}
use socks5proxy_native.Session.{
  Session, SessionState, resolving, connecting, Event, post_connect, resolve, relay_started,
}
use socks5proxy_native.Session.Env.{Config, System, Gss}
use socks5proxy_native.Session.Timers.{close, cancel_idle_timer, arm_connect_timer}
use socks5proxy_native.Session.Streams.{begin_client_read}
use socks5proxy_native.Session.Replies.{
  FrameResult, need_more, protocol_error, frame, try_read_gss_frame, send_socks_reply,
  fail_and_close, request_close_after_flush,
}
use Parse.{Parsed, incomplete, refuse, parsed, parse_request}

module _ {C : Type 0} (gss : Gss C) (cfg : Config) (sys : System) where
  unwrapped : C × Option (List ℕ) → List ℕ → Session C → Session C × Bool
  unwrapped (c, none) rest s = (record s { ingest = rest; gssapi = some c }, false)
  unwrapped (c, some clear) rest s =
      (record s { ingest = clear ++ rest; gssapi = some c; gss_request_unwrapped = true }, true)

  unwrap_request : FrameResult → Session C → Session C × Bool
  unfolding unwrapped
  unwrap_request need_more s = (s, true)
  unwrap_request (protocol_error rest) s = (record s { ingest = rest }, false)
  unwrap_request (frame token rest) s = elim s.gssapi [
    | none ↦ (record s { ingest = rest }, false)
    | some c ↦ unwrapped (gss.unwrap c token) rest s
  ]

  unfoldable pub ensure_cleartext_request_ingest : Session C → Session C × Bool
  unfolding unwrap_request
  ensure_cleartext_request_ingest s =
      if not s.gss_protect_active || s.gss_request_unwrapped
      then (s, true)
      else unwrap_request (try_read_gss_frame msg_encapsulated s.ingest) s

  abbrev fails : ℕ → Session C → Session C × Bool
  fails code s = (fail_and_close gss sys code s, false)

  abbrev asked : Session C → Session C
  asked s = record s { posts = s.posts + 1 }

  -- From the post of the connect on. `ArmConnectTimer` comes last.
  post_connect_to : Endpoint → Session C → Session C × Bool
  post_connect_to destination s =
      let posted = record s { posts = s.posts + 1; events = post_connect destination ∷ s.events } in
      let (armed, timed) = arm_connect_timer cfg sys posted in
      if not (sys.accepts s.posts)
      then fails general_failure (record posted { dest_open = false })
      else if timed
      then (armed, true)
      else fails general_failure armed

  connect_endpoint : Endpoint → Session C → Session C × Bool
  unfolding post_connect_to
  connect_endpoint destination s₀ =
      let s₁ = record (asked s₀) { dest_open = true } in
      let s₂ = asked s₁ in
      let s₃ = asked s₂ in
      if not (sys.creates s₀.posts)
      then fails general_failure (record (asked s₀) { dest_open = false })
      else if not (sys.binds s₁.posts)
      then fails network_unreachable (record s₂ { dest_open = false })
      else if not (sys.associates s₂.posts)
      then fails general_failure (record s₃ { dest_open = false })
      else post_connect_to destination (cancel_idle_timer (record s₃ { state = connecting }))

  unfoldable pub connect_to_host : List ℕ → ℕ → Session C → Session C × Bool
  unfolding connect_endpoint
  connect_to_host destination_ip port s = elim (parse_ip sys.inet_pton destination_ip) [
    | none ↦ fails host_unreachable s
    | some (family, ip) ↦
        connect_endpoint
          (record { family = family; ip = ip; port = port; flow_info = 0; scope_id = 0 }) s
  ]

  unfoldable pub start_resolve : List ℕ → ℕ → Session C → Session C × Bool
  start_resolve address port s =
      let s' = cancel_idle_timer (record s {
        state = resolving;
        pending_host = address;
        pending_port = port;
        dns_result = none;
      }) in
      (record s' { events = resolve address ∷ s.events }, true)

  unfoldable pub start_connect : List ℕ → ℕ → Session C → Session C × Bool
  unfolding start_resolve
  start_connect address port s = elim (parse_ip sys.inet_pton address) [
    | some (family, ip) ↦ connect_to_host address port s
    | none ↦ start_resolve address port s
  ]

  start_udp : Option Endpoint → Session C → Session C × Bool
  start_udp none s = (fail_and_close gss sys general_failure s, true)
  start_udp (some advertised) s =
      let replied = send_socks_reply gss sys succeeded (some advertised) (cancel_idle_timer s) in
      ((begin_client_read sys (record replied { state = SessionState.udp_associate })).0, true)

  unfoldable pub run_command : ℕ → List ℕ → ℕ → Session C → Session C × Bool
  unfolding start_udp
  run_command command address port s =
      if command == connect
      then start_connect address port s
      else if command == udp_associate
      then start_udp (sys.starts_relay s.posts)
          (record s { udp_relay = true; posts = s.posts + 1; events = relay_started ∷ s.events })
      else (fail_and_close gss sys command_not_supported s, true)

  handle_request : Parsed → Session C → Session C × Bool
  handle_request incomplete s = (s, true)
  handle_request (refuse code) s = (fail_and_close gss sys code s, true)
  handle_request (parsed command address port need) s =
      run_command command address port (record s { ingest = drop need s.ingest })

  unfoldable pub process_request : Session C → Session C × Bool
  unfolding handle_request
  process_request s₀ =
      let (s, intact) = ensure_cleartext_request_ingest s₀ in
      if not intact
      then (s, false)
      else if s.gss_protect_active && not s.gss_request_unwrapped
      then (s, true)
      else handle_request (parse_request sys.inet_ntop s.ingest) s
