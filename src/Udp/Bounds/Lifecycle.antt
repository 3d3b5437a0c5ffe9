-- ===== src/Udp/Bounds/Lifecycle.antt =====
-- server/protocol/UdpRelay.cpp: its start and its stop: the limits are kept.
use socks5proxy_native.Prelude.{
  ◌+◌, ◌≡◌, refl, Bool, true, false, not, ◌&&◌, ◌||◌, [], Option-elim, if-elim, if◌then◌else◌,
  nat_eq, bytes_eq, arith,
}
use socks5proxy_native.Net.{Endpoint, endpoint_eq}
use socks5proxy_native.Udp.{UdpRelay, Host}
use socks5proxy_native.Udp.Bounds.{IsBounded}
use socks5proxy_native.Udp.Lifecycle.{
  stop, shut_socket, post_next_recv, try_bind, bind_elsewhere, bind_relay_socket, start_bound,
  start, any_endpoint, advertise, bound,
}

abbrev pub like :
    (r s : UdpRelay)
    → s.sends_in_flight ≡ r.sends_in_flight
    → s.in_flight_sends ≡ r.in_flight_sends
    → s.pending_sends ≡ r.pending_sends
    → s.active_destinations ≡ r.active_destinations
    → s.frag_assemblies ≡ r.frag_assemblies
    → s.pending_by_domain ≡ r.pending_by_domain
    → IsBounded r
    → IsBounded s
like r s c f q a t n b = record {
  sends = rw (c, f, q) b.sends;
  active = rw (a) b.active;
  frags = rw (t) b.frags;
  names = rw (n) b.names;
}

shut_socket-IsBounded : (r : UdpRelay) → IsBounded r → IsBounded (shut_socket r)
unfolding shut_socket
shut_socket-IsBounded r b =
    if-elim IsBounded r.socket_open _ _ (λ _. like r _ refl refl refl refl refl refl b) (λ _. b)

abbrev cleared : UdpRelay → UdpRelay
cleared r = record (shut_socket (record r { stopped = true })) {
  pending_sends = [];
  frag_assemblies = [];
  pending_by_domain = [];
  dns_in_flight = [];
}

pub stop-IsBounded : (notify : Bool) (r : UdpRelay) → IsBounded r → IsBounded (stop notify r)
unfolding stop
stop-IsBounded notify r b =
    let shut =
      shut_socket-IsBounded (record r { stopped = true })
        (like r (record r { stopped = true }) refl refl refl refl refl refl b) in
    let sends = shut.sends in
    let bounded : IsBounded (cleared r) = record {
      sends = (sends.0, sends.1, omega arith);
      active = shut.active;
      frags = (omega arith, tt);
      names = (omega arith, tt);
    } in
    if-elim IsBounded r.stopped _ _ (λ _. b)
      (λ _.
        if-elim IsBounded (notify && r.has_callback) _ _
          (λ _. like (cleared r) _ refl refl refl refl refl refl bounded) (λ _. bounded))

module _ (host : Host) where
  pub post_next_recv-IsBounded : (r : UdpRelay) → IsBounded r → IsBounded (post_next_recv host r).0
  unfolding post_next_recv
  post_next_recv-IsBounded r b =
      if-elim {A = UdpRelay × Bool} (λ out. IsBounded out.0) (r.stopped || not r.socket_open) _ _
        (λ _. b) (λ _. like r _ refl refl refl refl refl refl b)

  try_bind-IsBounded :
      (template : Endpoint) (r : UdpRelay) → IsBounded r → IsBounded (try_bind host template r).0
  unfolding try_bind
  try_bind-IsBounded template r b =
      let shut = shut_socket-IsBounded r b in
      if-elim {A = UdpRelay × Bool} (λ out. IsBounded out.0) (not (host.creates r.posts)) _ _
        (λ _. like (shut_socket r) _ refl refl refl refl refl refl shut)
        (λ _.
          if-elim {A = UdpRelay × Bool} (λ out. IsBounded out.0) (host.binds (r.posts + 1)) _ _
            (λ _. like (shut_socket r) _ refl refl refl refl refl refl shut)
            (λ _.
              shut_socket-IsBounded
                (bound template (record (shut_socket r) { posts = r.posts + 1 }))
                (like (shut_socket r) _ refl refl refl refl refl refl shut)))

  or_else-IsBounded :
      (template : Endpoint) (out : UdpRelay × Bool)
      → IsBounded out.0
      → IsBounded (if out.1 then (out.0, true) else try_bind host template out.0).0
  or_else-IsBounded template (r, true) b = b
  or_else-IsBounded template (r, false) b = try_bind-IsBounded template r b

  bind_elsewhere-IsBounded : (r : UdpRelay) → IsBounded r → IsBounded (bind_elsewhere host r).0
  unfolding bind_elsewhere
  bind_elsewhere-IsBounded r b =
      Option-elim {B = UdpRelay × Bool} (λ out. IsBounded out.0) host.output_bind _ _
        (try_bind-IsBounded (any_endpoint r.client_tcp.family) r b)
        (λ output.
          or_else-IsBounded (any_endpoint r.client_tcp.family) (try_bind host output r)
            (try_bind-IsBounded output r b))

  start_bound-IsBounded : (r : UdpRelay) → IsBounded r → IsBounded (start_bound host r).0
  unfolding start_bound
  start_bound-IsBounded r b =
      let local = host.socket_name r.posts in
      let named : UdpRelay = record r {
        local = local;
        advertised = advertise host local r.client_tcp_local;
        posts = r.posts + 1;
      } in
      let bounded = like r named refl refl refl refl refl refl b in
      if-elim {A = UdpRelay × Bool} (λ out. IsBounded out.0) (host.associates r.posts) _ _
        (λ _. post_next_recv-IsBounded named bounded) (λ _. shut_socket-IsBounded named bounded)

  pub start-IsBounded : (r : UdpRelay) → IsBounded r → IsBounded (start host r).0
  unfolding start bind_relay_socket
  start-IsBounded r b =
      go (try_bind host r.client_tcp_local r) (try_bind-IsBounded r.client_tcp_local r b)
    where
      started :
          (out : UdpRelay × Bool)
          → IsBounded out.0
          → IsBounded (if out.1 then start_bound host out.0 else (out.0, false)).0
      started (s, true) c = start_bound-IsBounded s c
      started (s, false) c = c

      go :
          (out : UdpRelay × Bool)
          → IsBounded out.0
          → IsBounded
              (let (next, done) = if out.1 then (out.0, true) else bind_elsewhere host out.0 in
                if done then start_bound host next else (next, false)).0
      go (s, true) c = start_bound-IsBounded s c
      go (s, false) c = started (bind_elsewhere host s) (bind_elsewhere-IsBounded s c)
