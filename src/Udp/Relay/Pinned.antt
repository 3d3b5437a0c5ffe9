-- ===== src/Udp/Relay/Pinned.antt =====
-- server/protocol/UdpRelay.cpp: whom a relay takes for its client, over every sequence of calls.
use socks5proxy_native.Prelude.{
  ℕ, ◌-◌, ◌≡◌, refl, ◌∙◌, ap, Bool, not, ◌&&◌, List, [], ◌∷◌, Option, none, some, Option-elim,
  if-elim, if◌then◌else◌, length, lookup, ltb, ◌==◌, ◌=?◌, same_bytes, nat_eq, bytes_eq, arith,
}
use socks5proxy_native.Net.{Endpoint, endpoint_eq}
use socks5proxy_native.Udp.{UdpRelay, Host, cleanup_interval_ms}
use socks5proxy_native.Udp.Domains.{is_active}
use socks5proxy_native.Udp.Fragments.{Assembled, process_fragment}
use socks5proxy_native.Udp.Packet.{parse_client_packet, assembly_key, server_packet}
use socks5proxy_native.Socks.UdpFrag.{standalone}
use socks5proxy_native.Udp.Lifecycle.{
  shut_socket, stop, post_next_recv, try_bind, bind_elsewhere, bind_relay_socket, start_bound,
  start, any_endpoint,
}
use socks5proxy_native.Udp.Relay.{
  user_done, send_done, recv_done, dispatch_assembled, relay_packet, handle_client_packet,
  handle_server_response, handle_from, handle_packet, cleanup_state, received, receive_again,
  on_io_completed,
}
use socks5proxy_native.Udp.Runs.{Call, starts, stops, resolved, completed, handle, run}
use socks5proxy_native.Udp.{new_relay}
use socks5proxy_native.Prelude.{same_bytes_iff}
use socks5proxy_native.Udp.Relay.Client.{
  Keeps, enqueue_send-Keeps, on_send_completed-Keeps, dispatch-Keeps, on_resolved-Keeps,
  user_completed-Keeps, process_fragment-Keeps,
}

module _ (host : Host) where
  -- The client's UDP endpoint, if known, has the text of the address of its TCP side.
  abbrev pub IsOwn : Endpoint → Option Endpoint → Type 0
  IsOwn tcp none = Unit {0}
  IsOwn tcp (some c) = host.inet_ntop c.family c.ip ≡ host.inet_ntop tcp.family tcp.ip

  -- A client that is known stays.
  abbrev pub Stays : Option Endpoint → Option Endpoint → Type 0
  Stays none known = Unit {0}
  Stays (some c) known = known ≡ some c

  record Pinned (r s : UdpRelay) : Type 0 where
    tcp : s.client_tcp ≡ r.client_tcp
    stays : Stays r.actual_client s.actual_client
    own : IsOwn r.client_tcp r.actual_client → IsOwn s.client_tcp s.actual_client

  Stays-same : (known : Option Endpoint) → Stays known known
  Stays-same none = tt
  Stays-same (some c) = refl

  Stays-both : (a b c : Option Endpoint) → Stays a b → Stays b c → Stays a c
  Stays-both none b c h k = tt
  Stays-both (some e) b c h k = rw h at k

  both : (r s t : UdpRelay) → Pinned r s → Pinned s t → Pinned r t
  both r s t p q = record {
    tcp = q.tcp ∙ p.tcp;
    stays = Stays-both r.actual_client s.actual_client t.actual_client p.stays q.stays;
    own = λ o. q.own (p.own o);
  }

  kept : (r s : UdpRelay) → Keeps r s → Pinned r s
  kept r s k =
      let tcp : s.client_tcp ≡ r.client_tcp = ap (λ c. c.0) k in
      let known : s.actual_client ≡ r.actual_client = ap (λ c. c.1) k in
      record {
        tcp = tcp;
        stays = rw known (Stays-same r.actual_client);
        own = rw (tcp, known) (λ o. o);
      }

  handle_client_packet-Keeps :
      (packet : List ℕ) (now : ℕ) (r : UdpRelay) → Keeps r (handle_client_packet host packet now r)
  unfolding handle_client_packet relay_packet dispatch_assembled
  handle_client_packet-Keeps packet now r =
      Option-elim (Keeps r) (parse_client_packet packet) _ _ refl (λ p.
        let key = assembly_key host.inet_ntop p.destination in
        if-elim (Keeps r) (p.frag == standalone) _ _
          (λ _. dispatch-Keeps host p.destination p.payload now r)
          (λ _.
            assembled (process_fragment p.frag key p.destination p.payload now r)
              (process_fragment-Keeps host p.frag key p.destination p.payload now r)))
    where
      assembled :
          (out : UdpRelay × Assembled) → Keeps r out.0 → Keeps r (dispatch_assembled host now out)
      assembled (s, none) k = k
      assembled (s, some (destination, payload)) k =
          dispatch-Keeps host destination payload now s ∙ k

  handle_from-Keeps :
      (packet : List ℕ) (remote client_udp : Endpoint) (now : ℕ) (r : UdpRelay)
      → Keeps r (handle_from host packet remote client_udp now r)
  unfolding handle_from handle_server_response
  handle_from-Keeps packet remote client_udp now r =
      if-elim (Keeps r) (remote =? client_udp) _ _ (λ _. handle_client_packet-Keeps packet now r)
        (λ _.
          if-elim (Keeps r) (not (is_active (lookup remote r.active_destinations))) _ _ (λ _. refl)
            (λ _. enqueue_send-Keeps host (server_packet remote packet) client_udp r))

  -- The one place where the client becomes known.
  handle_packet-Pinned :
      (packet : List ℕ) (remote : Endpoint) (now : ℕ) (r : UdpRelay)
      → Pinned r (handle_packet host packet remote now r)
  unfolding handle_packet
  handle_packet-Pinned packet remote now r = go r.actual_client refl
    where
      go :
          (o : Option Endpoint)
          → r.actual_client ≡ o
          → Pinned r (elim o [
            | some client_udp ↦ handle_from host packet remote client_udp now r
            | none ↦
                if same_bytes
                  (host.inet_ntop remote.family remote.ip)
                  (host.inet_ntop r.client_tcp.family r.client_tcp.ip)
                then handle_from host packet remote remote now
                    (record r { actual_client = some remote })
                else r
          ])
      go (some client_udp) e = kept r _ (handle_from-Keeps packet remote client_udp now r)
      go none e =
          if-elim (Pinned r)
            (same_bytes (host.inet_ntop remote.family remote.ip)
              (host.inet_ntop r.client_tcp.family r.client_tcp.ip))
            _ _
            (λ same.
              let known : UdpRelay = record r { actual_client = some remote } in
              let text =
                (same_bytes_iff (host.inet_ntop remote.family remote.ip)
                    (host.inet_ntop r.client_tcp.family r.client_tcp.ip)).0
                  same in
              both r known (handle_from host packet remote remote now known)
                (record { tcp = refl; stays = rw e tt; own = λ o. text })
                (kept known _ (handle_from-Keeps packet remote remote now known)))
            (λ _. kept r r refl)

  received-Pinned :
      (packet : List ℕ) (remote : Endpoint) (now later : ℕ) (r : UdpRelay)
      → Pinned r (received host packet remote now later r)
  unfolding received cleanup_state
  received-Pinned packet remote now later r =
      let active : UdpRelay = record r { last_activity = now } in
      let next = handle_packet host packet remote now active in
      let more = handle_packet-Pinned packet remote now active in
      let pinned : Pinned r next = record { tcp = more.tcp; stays = more.stays; own = more.own } in
      if-elim (Pinned r) (ltb cleanup_interval_ms (later - next.last_cleanup)) _ _
        (λ _. record { tcp = pinned.tcp; stays = pinned.stays; own = pinned.own }) (λ _. pinned)

  receive_again-Keeps : (later : ℕ) (r : UdpRelay) → Keeps r (receive_again host later r)
  unfolding receive_again post_next_recv stop shut_socket
  receive_again-Keeps later r = ground arith

  stop-Keeps : (notify : Bool) (r : UdpRelay) → Keeps r (stop notify r)
  unfolding stop shut_socket
  stop-Keeps notify r = ground arith

  try_bind-Keeps : (template : Endpoint) (r : UdpRelay) → Keeps r (try_bind host template r).0
  unfolding try_bind shut_socket
  try_bind-Keeps template r = ground arith

  bind_elsewhere-Keeps : (r : UdpRelay) → Keeps r (bind_elsewhere host r).0
  unfolding bind_elsewhere
  bind_elsewhere-Keeps r =
      Option-elim {B = UdpRelay × Bool} (λ out. Keeps r out.0) host.output_bind _ _
        (try_bind-Keeps (any_endpoint r.client_tcp.family) r)
        (λ output.
          let next = (try_bind host output r).0 in
          if-elim {A = UdpRelay × Bool} (λ out. Keeps r out.0) (try_bind host output r).1 _ _
            (λ _. try_bind-Keeps output r)
            (λ _. try_bind-Keeps (any_endpoint r.client_tcp.family) next ∙ try_bind-Keeps output r))

  bind_relay_socket-Keeps : (r : UdpRelay) → Keeps r (bind_relay_socket host r).0
  unfolding bind_relay_socket
  bind_relay_socket-Keeps r =
      let next = (try_bind host r.client_tcp_local r).0 in
      if-elim {A = UdpRelay × Bool} (λ out. Keeps r out.0) (try_bind host r.client_tcp_local r).1 _
        _ (λ _. try_bind-Keeps r.client_tcp_local r)
        (λ _. bind_elsewhere-Keeps next ∙ try_bind-Keeps r.client_tcp_local r)

  start_bound-Keeps : (r : UdpRelay) → Keeps r (start_bound host r).0
  unfolding start_bound post_next_recv shut_socket
  start_bound-Keeps r = ground arith

  start-Keeps : (r : UdpRelay) → Keeps r (start host r).0
  unfolding start
  start-Keeps r =
      let next = (bind_relay_socket host r).0 in
      if-elim {A = UdpRelay × Bool} (λ out. Keeps r out.0) (bind_relay_socket host r).1 _ _
        (λ _. start_bound-Keeps next ∙ bind_relay_socket-Keeps r) (λ _. bind_relay_socket-Keeps r)

  handle-Pinned : (call : Call) (r : UdpRelay) → Pinned r (handle host call r)
  unfolding on_io_completed
  handle-Pinned starts r = kept r _ (start-Keeps r)
  handle-Pinned (stops notify) r = kept r _ (stop-Keeps notify r)
  handle-Pinned (resolved name found) r = kept r _ (on_resolved-Keeps host name found r)
  handle-Pinned (completed (user_done ctx) now later) r =
      kept r _ (user_completed-Keeps host ctx now r)
  handle-Pinned (completed (send_done ctx) now later) r =
      kept r _ (on_send_completed-Keeps host ctx r)
  handle-Pinned (completed (recv_done error packet remote) now later) r =
      if-elim (Pinned r) r.stopped _ _ (λ _. kept r r refl)
        (λ _.
          if-elim (Pinned r) ((error == 0) && ltb 0 (length packet)) _ _
            (λ _.
              let s = received host packet remote now later r in
              both r s (receive_again host later s) (received-Pinned packet remote now later r)
                (kept s _ (receive_again-Keeps later s)))
            (λ _. kept r _ (receive_again-Keeps later r)))

  run-Pinned : (calls : List Call) (r : UdpRelay) → Pinned r (run host calls r)
  run-Pinned [] r = kept r r refl
  run-Pinned (call ∷ calls) r =
      both r (handle host call r) (run host calls (handle host call r)) (handle-Pinned call r)
        (run-Pinned calls (handle host call r))

  -- Whatever happens to a new relay: if it has taken an endpoint for its client, then one whose address has
  -- the text of the address of the client's TCP side, and whatever happens afterwards, it stays the client.
  pub run-IsOwn :
      (tcp tcp_local : Endpoint) (has_callback : Bool) (now : ℕ) (calls more : List Call)
      → IsOwn tcp (run host calls (new_relay tcp tcp_local has_callback now)).actual_client
        × Stays
            (run host calls (new_relay tcp tcp_local has_callback now)).actual_client
            (run host more
              (run host calls (new_relay tcp tcp_local has_callback now))).actual_client
  unfolding new_relay
  run-IsOwn tcp tcp_local has_callback now calls more =
      let r = new_relay tcp tcp_local has_callback now in
      let first = run-Pinned calls r in
      let own : IsOwn tcp (run host calls r).actual_client = rw first.tcp at (first.own tt) in
      (own, (run-Pinned more (run host calls r)).stays)
