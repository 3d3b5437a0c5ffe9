-- ===== src/Udp/Relay.antt =====
-- server/protocol/UdpRelay.cpp: the packets that arrive, and `OnIoCompleted`. The clock is read before
-- a packet is handled (`now`) and after it (`later`).
pub mod Access
pub mod Client
pub mod Pinned
use socks5proxy_native.Prelude.{
  ℕ, zero, suc, ◌+◌, ◌-◌, Bool, true, false, not, ◌&&◌, ◌||◌, List, [], ◌∷◌, Option, none, some,
  ltb, leb, ◌==◌, if◌then◌else◌, length, lookup, erase, same_bytes, ◌=?◌, nat_eq, bytes_eq,
}
use socks5proxy_native.Net.{Family, Endpoint, endpoint_eq}
use socks5proxy_native.Socks.UdpFrag.{standalone}
use socks5proxy_native.Udp.{
  UdpRelay, FragAssembly, DnsNotify, Host, cleanup_interval_ms, frag_reassembly_timeout_ms,
}
use socks5proxy_native.Udp.Sends.{enqueue_send, on_send_completed}
use socks5proxy_native.Udp.Fragments.{Assembled, process_fragment}
use socks5proxy_native.Udp.Packet.{ClientPacket, parse_client_packet, assembly_key, server_packet}
use socks5proxy_native.Udp.Domains.{is_active, dispatch_client_payload, notify_loop}
use socks5proxy_native.Udp.Lifecycle.{stop, post_next_recv}

-- The destinations heard of within the idle timeout, at the time `now`.
unfoldable pub keep_destinations : ℕ → ℕ → List (Endpoint × ℕ) → List (Endpoint × ℕ)
keep_destinations timeout now [] = []
keep_destinations timeout now ((key, seen) ∷ m) =
    let rest = keep_destinations timeout now m in
    if ltb timeout (now - seen) then rest else (key, seen) ∷ rest

unfoldable pub keep_assemblies : ℕ → List (List ℕ × FragAssembly) → List (List ℕ × FragAssembly)
keep_assemblies now [] = []
keep_assemblies now ((key, a) ∷ m) =
    let rest = keep_assemblies now m in
    if ltb frag_reassembly_timeout_ms (now - a.updated) then rest else (key, a) ∷ rest

-- What the completion port reports: a call of `PostUser`, a send, or a received packet with its error.
pub data Completion : Type 0 where
  user_done : ℕ → Completion
  send_done : ℕ → Completion
  recv_done : ℕ → List ℕ → Endpoint → Completion

module _ (host : Host) where
  -- `UdpIdleTimeout`.
  unfoldable pub idle_timeout : ℕ
  idle_timeout =
      if ltb 0 host.associate_idle_timeout_ms then host.associate_idle_timeout_ms else 120000

  -- What follows `ProcessFragment`.
  unfoldable pub dispatch_assembled : ℕ → UdpRelay × Assembled → UdpRelay
  dispatch_assembled now (r, none) = r
  dispatch_assembled now (r, some (destination, payload)) =
      dispatch_client_payload host destination payload now r

  unfoldable pub relay_packet : ClientPacket → ℕ → UdpRelay → UdpRelay
  unfolding dispatch_assembled
  relay_packet p now r =
      if p.frag == standalone
      then dispatch_client_payload host p.destination p.payload now r
      else dispatch_assembled now (
          process_fragment p.frag (assembly_key host.inet_ntop p.destination) p.destination
            p.payload now r)

  unfoldable pub handle_client_packet : List ℕ → ℕ → UdpRelay → UdpRelay
  unfolding relay_packet
  handle_client_packet packet now r = elim (parse_client_packet packet) [
    | none ↦ r
    | some p ↦ relay_packet p now r
  ]

  unfoldable pub handle_server_response : List ℕ → Endpoint → Endpoint → UdpRelay → UdpRelay
  handle_server_response payload source client_udp r =
      if not (is_active (lookup source r.active_destinations))
      then r
      else enqueue_send host (server_packet source payload) client_udp r

  -- With the client's endpoint known.
  unfoldable pub handle_from : List ℕ → Endpoint → Endpoint → ℕ → UdpRelay → UdpRelay
  unfolding handle_client_packet handle_server_response
  handle_from packet remote client_udp now r =
      if remote =? client_udp
      then handle_client_packet packet now r
      else handle_server_response packet remote client_udp r

  -- The first packet from the client's address tells its port.
  unfoldable pub handle_packet : List ℕ → Endpoint → ℕ → UdpRelay → UdpRelay
  unfolding handle_from
  handle_packet packet remote now r = elim r.actual_client [
    | some client_udp ↦ handle_from packet remote client_udp now r
    | none ↦
        if same_bytes (host.inet_ntop remote.family remote.ip)
          (host.inet_ntop r.client_tcp.family r.client_tcp.ip)
        then handle_from packet remote remote now (record r { actual_client = some remote })
        else r
  ]

  unfoldable pub cleanup_state : ℕ → UdpRelay → UdpRelay
  unfolding keep_destinations keep_assemblies
  cleanup_state now r = record r {
    active_destinations = keep_destinations idle_timeout now r.active_destinations;
    frag_assemblies = keep_assemblies now r.frag_assemblies;
  }

  -- The loop ends in its second round at the latest.
  unfoldable pub on_dns_notify : DnsNotify → ℕ → UdpRelay → UdpRelay
  on_dns_notify notify now r = elim (notify_loop host 2 notify now r) [
    | none ↦ r
    | some next ↦ next
  ]

  unfoldable pub user_completed : ℕ → ℕ → UdpRelay → UdpRelay
  unfolding on_dns_notify
  user_completed ctx now r = elim (lookup ctx r.dns_notifies) [
    | none ↦ r
    | some notify ↦
        let taken = record r { dns_notifies = erase ctx r.dns_notifies } in
        if r.stopped then taken else on_dns_notify notify now taken
  ]

  -- A packet without an error, which is not empty.
  unfoldable pub received : List ℕ → Endpoint → ℕ → ℕ → UdpRelay → UdpRelay
  unfolding handle_packet cleanup_state
  received packet remote now later r =
      let next = handle_packet packet remote now (record r { last_activity = now }) in
      if ltb cleanup_interval_ms (later - next.last_cleanup)
      then record (cleanup_state later next) { last_cleanup = later }
      else next

  -- The end of the handler: the idle timeout, and the next receive.
  unfoldable pub receive_again : ℕ → UdpRelay → UdpRelay
  receive_again later r =
      let (next, posted) = post_next_recv host r in
      if ltb idle_timeout (later - r.last_activity)
      then stop true r
      else if posted
      then next
      else stop true next

  unfoldable pub on_io_completed : Completion → ℕ → ℕ → UdpRelay → UdpRelay
  unfolding user_completed received receive_again
  on_io_completed (user_done ctx) now later r = user_completed ctx now r
  on_io_completed (send_done ctx) now later r = on_send_completed host ctx r
  on_io_completed (recv_done error packet remote) now later r =
      if r.stopped
      then r
      else if (error == 0) && ltb 0 (length packet)
      then receive_again later (received packet remote now later r)
      else receive_again later r
