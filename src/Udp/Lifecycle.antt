-- ===== src/Udp/Lifecycle.antt =====
-- server/protocol/UdpRelay.cpp: the relay's socket, `Start` and `Stop`. The buffer sizes of the socket
-- are options of the operating system and are left out.
use socks5proxy_native.Prelude.{
  ◌+◌, Bool, true, false, not, ◌&&◌, ◌||◌, [], ◌∷◌, none, some, if◌then◌else◌, replicate,
}
use socks5proxy_native.Net.{Family, inet, inet6, Endpoint, is_any_address}
use socks5proxy_native.Udp.{UdpRelay, Host, bind_to, post_recv_from, close_socket, session_told}

-- `closesocket` with `udpSocket_ = INVALID_SOCKET`, for a socket that is open.
unfoldable pub shut_socket : UdpRelay → UdpRelay
shut_socket r =
    if r.socket_open then record r { socket_open = false; events = close_socket ∷ r.events } else r

abbrev told : UdpRelay → UdpRelay
told r = record r { has_callback = false; events = session_told ∷ r.events }

unfoldable pub stop : Bool → UdpRelay → UdpRelay
unfolding shut_socket
stop notify_session r₀ =
    let r = record (shut_socket (record r₀ { stopped = true })) {
      pending_sends = [];
      frag_assemblies = [];
      pending_by_domain = [];
      dns_in_flight = [];
    } in
    if r₀.stopped then r₀ else if notify_session && r₀.has_callback then told r else r

abbrev pub any_endpoint : Family → Endpoint
any_endpoint inet = record {
  family = inet;
  ip = replicate 4 0;
  port = 0;
  flow_info = 0;
  scope_id = 0;
}
any_endpoint inet6 = record {
  family = inet6;
  ip = replicate 16 0;
  port = 0;
  flow_info = 0;
  scope_id = 0;
}

abbrev pub bound : Endpoint → UdpRelay → UdpRelay
bound template r = record r {
  socket_open = true;
  posts = r.posts + 1;
  events = bind_to (record template { port = 0 }) ∷ r.events;
}

module _ (host : Host) where
  unfoldable pub post_next_recv : UdpRelay → UdpRelay × Bool
  post_next_recv r = if r.stopped || not r.socket_open then (r, false) else (
    record r { posts = r.posts + 1; events = post_recv_from ∷ r.events },
    host.accepts r.posts,
  )

  -- `tryBind`: a socket on the address of the template and any port.
  unfoldable pub try_bind : Endpoint → UdpRelay → UdpRelay × Bool
  unfolding shut_socket
  try_bind template r₀ =
      let r = record (shut_socket r₀) { posts = r₀.posts + 1 } in
      if not (host.creates r₀.posts)
      then (record r { socket_open = false }, false)
      else if host.binds r.posts
      then (bound template r, true)
      else (shut_socket (bound template r), false)

  -- The output address if there is one, and then any address.
  unfoldable pub bind_elsewhere : UdpRelay → UdpRelay × Bool
  unfolding try_bind
  bind_elsewhere r = elim host.output_bind [
    | none ↦ try_bind (any_endpoint r.client_tcp.family) r
    | some output ↦
        let (next, done) = try_bind output r in
        if done then (next, true) else try_bind (any_endpoint r.client_tcp.family) next
  ]

  unfoldable pub bind_relay_socket : UdpRelay → UdpRelay × Bool
  unfolding bind_elsewhere
  bind_relay_socket r =
      let (next, done) = try_bind r.client_tcp_local r in
      if done then (next, true) else bind_elsewhere next

  -- The address for the client: its own side of the TCP connection in place of a wildcard.
  unfoldable pub advertise : Endpoint → Endpoint → Endpoint
  advertise local client_side =
      if is_any_address (host.inet_ntop local.family local.ip)
      then record client_side { port = local.port }
      else local

  -- From the bound socket on.
  unfoldable pub start_bound : UdpRelay → UdpRelay × Bool
  unfolding advertise post_next_recv
  start_bound r =
      let local = host.socket_name r.posts in
      let named = record r {
        local = local;
        advertised = advertise local r.client_tcp_local;
        posts = r.posts + 1;
      } in
      if host.associates r.posts then post_next_recv named else (shut_socket named, false)

  unfoldable pub start : UdpRelay → UdpRelay × Bool
  unfolding bind_relay_socket start_bound
  start r =
      let (next, done) = bind_relay_socket r in if done then start_bound next else (next, false)
