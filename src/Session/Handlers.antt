-- ===== src/Session/Handlers.antt =====
-- server/protocol/Socks5Session.cpp: the completions that a session handles, and their dispatch.
pub mod Laws
pub mod Expiry
use socks5proxy_native.Prelude.{
  ℕ, ◌+◌, ◌/◌, ◌%◌, ◌^◌, Bool, true, false, not, ◌&&◌, ◌||◌, List, [], ◌∷◌, ◌==◌, if◌then◌else◌,
  Option, none, some,
}
use socks5proxy_native.Net.{Family, inet, inet6, Endpoint, parse_ip, same_family}
use socks5proxy_native.Socks.ReplyCode.{
  succeeded, general_failure, host_unreachable, network_unreachable, connection_refused,
  ttl_expired,
}
use socks5proxy_native.Session.{
  Session, SessionState, handshake, StreamTag, client, dest, is_relaying, is_connecting,
  is_resolving, is_closing, past_request,
}
use socks5proxy_native.Session.Env.{Config, System, Gss}
use socks5proxy_native.Session.Timers.{
  close, cancel_connect_timer, arm_idle_timer, timer_connect, timer_idle,
}
use socks5proxy_native.Session.Streams.{
  begin_client_read, on_client_send, on_dest_send, io_of, set_io,
}
use socks5proxy_native.Session.Replies.{send_socks_reply, fail_and_close, request_close_after_flush}
use socks5proxy_native.Session.Request.{connect_to_host}
use socks5proxy_native.Session.Relay.{on_dest_recv, start_relay}
use socks5proxy_native.Session.Receive.{on_client_recv}

-- The error codes of Winsock that the program tells apart.
pub data ConnectError : Type 0 where
  wsa_timed_out wsa_refused wsa_net_unreach wsa_host_unreach other_error : ConnectError

-- What the completion port can hand to a session: the contexts of the class, with their results.
-- A received chunk holds the bytes of the transfer. `resolved` is the call of the resolver's
-- callback, which posts `dns_posted`.
pub data Completion : Type 0 where
  received : StreamTag → List ℕ → ℕ → Completion
  sent : StreamTag → ℕ → ℕ → Completion
  connected : Option ConnectError → Completion
  resolved : Option (List ℕ) → Completion
  dns_posted : Completion
  udp_stopped : Completion
  timer : ℕ → Completion

-- The reply for a failed connect.
abbrev pub connect_reply : ConnectError → ℕ
connect_reply wsa_timed_out = ttl_expired
connect_reply wsa_refused = connection_refused
connect_reply wsa_net_unreach = network_unreachable
connect_reply wsa_host_unreach = host_unreachable
connect_reply other_error = general_failure

module _ {C : Type 0} (gss : Gss C) (cfg : Config) (sys : System) where
  unfoldable pub on_connect_timer : ℕ → Session C → Session C
  on_connect_timer generation s =
      let fired = record s { connect_timer_id = 0 } in
      if not (generation == s.connect_timer_generation)
      then s
      else if not (is_connecting s.state)
      then fired
      else fail_and_close gss sys ttl_expired (record fired { dest_open = false })

  unfoldable pub on_idle_timer : ℕ → Session C → Session C
  on_idle_timer generation s =
      let fired = record s { idle_timer_id = 0 } in
      if not (generation == s.idle_timer_generation)
      then s
      else if past_request s.state || is_closing s.state
      then fired
      else close fired

  unfoldable pub on_timer : ℕ → Session C → Session C
  unfolding on_connect_timer on_idle_timer
  on_timer key s =
      if s.closed
      then s
      else if key % 2 ^ 8 == timer_connect
      then on_connect_timer (key / 2 ^ 8) s
      else if key % 2 ^ 8 == timer_idle
      then on_idle_timer (key / 2 ^ 8) s
      else s

  -- The callback that `StartConnect` hands to the resolver.
  unfoldable pub on_resolver_callback : Option (List ℕ) → Session C → Session C
  on_resolver_callback ip s =
      let answered = record s { dns_result = ip; posts = s.posts + 1 } in
      if s.closed then s else if sys.accepts s.posts then answered else close answered

  connect_resolved : List ℕ → Option (Family × List ℕ) → Session C → Session C
  connect_resolved destination_ip none s = fail_and_close gss sys host_unreachable s
  connect_resolved destination_ip (some (family, ip)) s =
      let connected = connect_to_host gss cfg sys destination_ip s.pending_port s in
      if not (same_family family cfg.output_family) && not cfg.output_any
      then fail_and_close gss sys host_unreachable s
      else if connected.1
      then connected.0
      else request_close_after_flush sys connected.0

  unfoldable pub on_dns_resolved : Session C → Session C
  unfolding connect_resolved
  on_dns_resolved s = if s.closed || not (is_resolving s.state) then s else elim s.dns_result [
    | none ↦ fail_and_close gss sys host_unreachable s
    | some destination_ip ↦
        connect_resolved destination_ip (parse_ip sys.inet_pton destination_ip) s
  ]

  connect_done : Option ConnectError → Session C → Option (Session C)
  connect_done (some e) s =
      some (fail_and_close gss sys (connect_reply e) (record s { dest_open = false }))
  connect_done none s =
      start_relay gss sys (send_socks_reply gss sys succeeded (some (sys.local_endpoint s.posts)) s)

  unfoldable pub on_dest_connect : Option ConnectError → Session C → Option (Session C)
  unfolding connect_done
  on_dest_connect error s₀ =
      let s = cancel_connect_timer s₀ in
      if not (is_connecting s.state) then some s else connect_done error s

  -- The end of an operation on a closed session only clears its flag.
  closed_completion : Completion → Session C → Session C
  closed_completion (received tag chunk error) s =
      set_io tag (record (io_of tag s) { reading = false }) s
  closed_completion (sent tag bytes error) s =
      set_io tag (record (io_of tag s) { sending = false }) s
  closed_completion _ s = s

  open_completion : Completion → Session C → Option (Session C)
  open_completion (received client chunk error) s =
      on_client_recv gss cfg sys chunk error
        (set_io client (record s.client_io { reading = false }) s)
  open_completion (received dest chunk error) s =
      on_dest_recv gss sys chunk error (set_io dest (record s.dest_io { reading = false }) s)
  open_completion (sent client bytes error) s = some (on_client_send sys bytes error s)
  open_completion (sent dest bytes error) s = some (on_dest_send sys bytes error s)
  open_completion (connected error) s = on_dest_connect error s
  open_completion (resolved ip) s = some (on_resolver_callback ip s)
  open_completion dns_posted s = some (on_dns_resolved s)
  open_completion udp_stopped s = some (close s)
  open_completion (timer key) s = some (on_timer key s)

  -- `none` would be a loop that does not end.
  unfoldable pub on_io_completed : Completion → Session C → Option (Session C)
  unfolding closed_completion open_completion
  on_io_completed c s = if s.closed then some (closed_completion c s) else open_completion c s

  -- `Start`, after the socket was associated with the port.
  unfoldable pub start : Session C → Session C × Bool
  start s = begin_client_read sys (arm_idle_timer cfg sys (record s { state = handshake }))
