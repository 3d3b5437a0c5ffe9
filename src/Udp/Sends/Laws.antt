-- ===== src/Udp/Sends/Laws.antt =====
-- server/protocol/UdpRelay.cpp, the queue of datagrams: what sending leaves alone.
use socks5proxy_native.Prelude.{ℕ, ◌≡◌, refl, List, [], ◌∷◌, ◌++◌, arith}
use socks5proxy_native.Net.{Endpoint}
use socks5proxy_native.Udp.{UdpRelay, Outbound, Host}
use socks5proxy_native.Udp.Sends.{with_pending, posted, pump_loop, pump_send, enqueue_send}

-- The members that sending does not touch.
pub record SameTables (r s : UdpRelay) : Type 0 where
  pub client : s.actual_client ≡ r.actual_client
  pub stopped : s.stopped ≡ r.stopped
  pub socket : s.socket_open ≡ r.socket_open
  pub active : s.active_destinations ≡ r.active_destinations
  pub waiting : s.pending_by_domain ≡ r.pending_by_domain
  pub asked : s.dns_in_flight ≡ r.dns_in_flight
  pub frags : s.frag_assemblies ≡ r.frag_assemblies

abbrev same : (r : UdpRelay) → SameTables r r
same r = record {
  client = refl;
  stopped = refl;
  socket = refl;
  active = refl;
  waiting = refl;
  asked = refl;
  frags = refl;
}

module _ (host : Host) where
  pub pump_loop-SameTables :
      (queue : List Outbound) (r : UdpRelay) → SameTables r (pump_loop host queue r)
  unfolding pump_loop
  pump_loop-SameTables [] r = ground (arith, same r)
  pump_loop-SameTables (out ∷ rest) r =
      ground (arith, same r, pump_loop-SameTables rest (posted out r))

  pub enqueue_send-SameTables :
      (bytes : List ℕ) (to : Endpoint) (r : UdpRelay) → SameTables r (enqueue_send host bytes to r)
  unfolding enqueue_send pump_send
  enqueue_send-SameTables bytes to r =
      let queue = r.pending_sends ++ (record { bytes = bytes; to = to } ∷ []) in
      ground (arith, same r, pump_loop-SameTables queue (with_pending queue r))
