-- ===== src/Udp/Bounds/Handlers.antt =====
-- server/protocol/UdpRelay.cpp: the limits over every sequence of calls.
use socks5proxy_native.Prelude.{
  ℕ, suc, ◌-◌, ◌≤◌, refl, Bool, true, not, ◌&&◌, List, [], ◌∷◌, some, none, length, lookup, erase,
  All, Option-elim, if-elim, ltb, ◌==◌, nat_eq, bytes_eq, ◌=?◌, same_bytes, arith,
}
use socks5proxy_native.Net.{Endpoint, endpoint_eq}
use socks5proxy_native.Socks.UdpFrag.{standalone}
use socks5proxy_native.Udp.{
  UdpRelay, Host, FragAssembly, new_relay, cleanup_interval_ms, frag_reassembly_timeout_ms,
}
use socks5proxy_native.Udp.Bounds.{IsSound, IsBounded}
use socks5proxy_native.Udp.Bounds.Sends.{enqueue_send-IsBounded, on_send_completed-IsBounded}
use socks5proxy_native.Udp.Bounds.Fragments.{Fitting, process_fragment-Fitting}
use socks5proxy_native.Udp.Bounds.Domains.{
  dispatch-IsBounded, on_resolved-IsBounded, on_dns_notify-IsBounded,
}
use socks5proxy_native.Udp.Bounds.Lifecycle.{
  like, stop-IsBounded, post_next_recv-IsBounded, start-IsBounded,
}
use socks5proxy_native.Udp.Domains.{is_active}
use socks5proxy_native.Udp.Packet.{parse_client_packet, assembly_key, server_packet}
use socks5proxy_native.Udp.Fragments.{Assembled, process_fragment}
use socks5proxy_native.Udp.Lifecycle.{post_next_recv}
use socks5proxy_native.Udp.Relay.{
  Completion, user_done, send_done, recv_done, keep_destinations, keep_assemblies, idle_timeout,
  dispatch_assembled, relay_packet, handle_client_packet, handle_server_response, handle_from,
  handle_packet, cleanup_state, user_completed, received, receive_again, on_io_completed,
}
use socks5proxy_native.Udp.Runs.{Call, starts, stops, resolved, completed, handle, run}

keep_destinations-shorter :
    (timeout now : ℕ) (m : List (Endpoint × ℕ))
    → length (keep_destinations timeout now m) ≤ length m
unfolding keep_destinations
keep_destinations-shorter timeout now [] = omega arith
keep_destinations-shorter timeout now ((key, seen) ∷ m) =
    ground (arith, keep_destinations-shorter timeout now m)

keep_assemblies-FewAssemblies :
    (now : ℕ) (m : List (List ℕ × FragAssembly))
    → All (λ e. IsSound e.1) m
    → (length (keep_assemblies now m) ≤ length m) × All (λ e. IsSound e.1) (keep_assemblies now m)
unfolding keep_assemblies
keep_assemblies-FewAssemblies now [] s = (omega arith, tt)
keep_assemblies-FewAssemblies now ((key, a) ∷ m) (s, all) =
    let (l, kept) = keep_assemblies-FewAssemblies now m all in
    if-elim (λ t. (length t ≤ suc (length m)) × All (λ e. IsSound e.1) t)
      (ltb frag_reassembly_timeout_ms (now - a.updated)) (keep_assemblies now m)
      ((key, a) ∷ keep_assemblies now m) (λ _. (omega (arith, l), kept))
      (λ _. (omega (arith, l), (s, kept)))

module _ (host : Host) where
  handle_client_packet-IsBounded :
      (packet : List ℕ) (now : ℕ) (r : UdpRelay)
      → IsBounded r
      → IsBounded (handle_client_packet host packet now r)
  unfolding handle_client_packet relay_packet dispatch_assembled
  handle_client_packet-IsBounded packet now r b =
      Option-elim IsBounded (parse_client_packet packet) _ _ b (λ p.
        if-elim IsBounded (p.frag == standalone) _ _
          (λ _. dispatch-IsBounded host p.destination p.payload now r b)
          (λ _.
            assembled
              (process_fragment p.frag (assembly_key host.inet_ntop p.destination) p.destination
                p.payload now r)
              (process_fragment-Fitting p.frag (assembly_key host.inet_ntop p.destination)
                p.destination p.payload now r b)))
    where
      assembled :
          (out : UdpRelay × Assembled) → Fitting out → IsBounded (dispatch_assembled host now out)
      assembled (s, none) f = f.relay
      assembled (s, some (destination, payload)) f =
          dispatch-IsBounded host destination payload now s f.relay

  handle_from-IsBounded :
      (packet : List ℕ) (remote client_udp : Endpoint) (now : ℕ) (r : UdpRelay)
      → IsBounded r
      → IsBounded (handle_from host packet remote client_udp now r)
  unfolding handle_from handle_server_response
  handle_from-IsBounded packet remote client_udp now r b =
      if-elim IsBounded (remote =? client_udp) _ _
        (λ _. handle_client_packet-IsBounded packet now r b)
        (λ _.
          if-elim IsBounded (not (is_active (lookup remote r.active_destinations))) _ _ (λ _. b)
            (λ _. enqueue_send-IsBounded host (server_packet remote packet) client_udp r b))

  handle_packet-IsBounded :
      (packet : List ℕ) (remote : Endpoint) (now : ℕ) (r : UdpRelay)
      → IsBounded r
      → IsBounded (handle_packet host packet remote now r)
  unfolding handle_packet
  handle_packet-IsBounded packet remote now r b =
      Option-elim IsBounded r.actual_client _ _
        (if-elim IsBounded
          (same_bytes (host.inet_ntop remote.family remote.ip)
            (host.inet_ntop r.client_tcp.family r.client_tcp.ip))
          _ _
          (λ _.
            handle_from-IsBounded packet remote remote now
              (record r { actual_client = some remote }) (like r _ refl refl refl refl refl refl b))
          (λ _. b))
        (λ client_udp. handle_from-IsBounded packet remote client_udp now r b)

  user_completed-IsBounded :
      (ctx now : ℕ) (r : UdpRelay) → IsBounded r → IsBounded (user_completed host ctx now r)
  unfolding user_completed
  user_completed-IsBounded ctx now r b =
      let taken : UdpRelay = record r { dns_notifies = erase ctx r.dns_notifies } in
      let bounded = like r taken refl refl refl refl refl refl b in
      Option-elim IsBounded (lookup ctx r.dns_notifies) _ _ b (λ notify.
        if-elim IsBounded r.stopped _ _ (λ _. bounded)
          (λ _. on_dns_notify-IsBounded host notify now taken bounded))

  cleanup_state-IsBounded :
      (now : ℕ) (r : UdpRelay) → IsBounded r → IsBounded (cleanup_state host now r)
  unfolding cleanup_state
  cleanup_state-IsBounded now r b =
      let (l, all) = keep_assemblies-FewAssemblies now r.frag_assemblies b.frags.1 in
      record {
        sends = b.sends;
        active = omega (
          arith,
          keep_destinations-shorter (idle_timeout host) now r.active_destinations,
          b.active,
        );
        frags = (omega (arith, l, b.frags.0), all);
        names = b.names;
      }

  received-IsBounded :
      (packet : List ℕ) (remote : Endpoint) (now later : ℕ) (r : UdpRelay)
      → IsBounded r
      → IsBounded (received host packet remote now later r)
  unfolding received
  received-IsBounded packet remote now later r b =
      let next = handle_packet host packet remote now (record r { last_activity = now }) in
      let bounded : IsBounded next =
        handle_packet-IsBounded packet remote now (record r { last_activity = now })
          (like r (record r { last_activity = now }) refl refl refl refl refl refl b) in
      if-elim IsBounded (ltb cleanup_interval_ms (later - next.last_cleanup)) _ _
        (λ _.
          like (cleanup_state host later next) _ refl refl refl refl refl refl
            (cleanup_state-IsBounded later next bounded))
        (λ _. bounded)

  receive_again-IsBounded :
      (later : ℕ) (r : UdpRelay) → IsBounded r → IsBounded (receive_again host later r)
  unfolding receive_again
  receive_again-IsBounded later r b =
      let next = post_next_recv-IsBounded host r b in
      if-elim IsBounded (ltb (idle_timeout host) (later - r.last_activity)) _ _
        (λ _. stop-IsBounded true r b)
        (λ _.
          if-elim IsBounded (post_next_recv host r).1 _ _ (λ _. next)
            (λ _. stop-IsBounded true (post_next_recv host r).0 next))

  pub on_io_completed-IsBounded :
      (completion : Completion) (now later : ℕ) (r : UdpRelay)
      → IsBounded r
      → IsBounded (on_io_completed host completion now later r)
  unfolding on_io_completed
  on_io_completed-IsBounded (user_done ctx) now later r b = user_completed-IsBounded ctx now r b
  on_io_completed-IsBounded (send_done ctx) now later r b = on_send_completed-IsBounded host ctx r b
  on_io_completed-IsBounded (recv_done error packet remote) now later r b =
      if-elim IsBounded r.stopped _ _ (λ _. b)
        (λ _.
          if-elim IsBounded ((error == 0) && ltb 0 (length packet)) _ _
            (λ _.
              receive_again-IsBounded later (received host packet remote now later r)
                (received-IsBounded packet remote now later r b))
            (λ _. receive_again-IsBounded later r b))

  handle-IsBounded : (call : Call) (r : UdpRelay) → IsBounded r → IsBounded (handle host call r)
  handle-IsBounded starts r b = start-IsBounded host r b
  handle-IsBounded (stops notify_session) r b = stop-IsBounded notify_session r b
  handle-IsBounded (resolved name found) r b = on_resolved-IsBounded host name found r b
  handle-IsBounded (completed completion now later) r b =
      on_io_completed-IsBounded completion now later r b

  run_keeps-IsBounded :
      (calls : List Call) (r : UdpRelay) → IsBounded r → IsBounded (run host calls r)
  run_keeps-IsBounded [] r b = b
  run_keeps-IsBounded (call ∷ calls) r b =
      run_keeps-IsBounded calls (handle host call r) (handle-IsBounded call r b)

  -- Whatever happens to a new relay: its counter of datagrams under way is right and at most 16, at most
  -- 1024 datagrams wait, at most 4096 destinations, 256 assemblies and 256 names are kept, at most 64
  -- datagrams wait for a name, and each assembly counts its bytes right, at most 65535 of them.
  pub run-IsBounded :
      (client_tcp client_tcp_local : Endpoint) (has_callback : Bool) (now : ℕ) (calls : List Call)
      → IsBounded (run host calls (new_relay client_tcp client_tcp_local has_callback now))
  unfolding new_relay
  run-IsBounded client_tcp client_tcp_local has_callback now calls =
      run_keeps-IsBounded calls _ new-IsBounded
    where
      new-IsBounded : IsBounded (new_relay client_tcp client_tcp_local has_callback now)
      new-IsBounded = record {
        sends = (refl, omega arith, omega arith);
        active = omega arith;
        frags = (omega arith, tt);
        names = (omega arith, tt);
      }
