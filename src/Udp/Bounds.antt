-- ===== src/Udp/Bounds.antt =====
-- server/protocol/UdpRelay.cpp: the limits on the queues and tables of the relay.
pub mod Sends
pub mod Fragments
pub mod Domains
pub mod Lifecycle
pub mod Handlers
use socks5proxy_native.Prelude.{ℕ, ◌+◌, ◌≤◌, ◌≡◌, List, [], ◌∷◌, length, All}
use socks5proxy_native.Udp.{
  UdpRelay, FragAssembly, Outbound, PendingDomainPacket, max_udp_sends_in_flight,
  max_pending_udp_sends, max_pending_domains, max_packets_per_domain, max_fragment_assemblies,
  max_active_destinations, max_assembled_udp_payload,
}

abbrev pub sizes : List (ℕ × List ℕ) → ℕ
sizes [] = 0
sizes ((i, part) ∷ parts) = length part + sizes parts

-- The count of bytes is right and within its limit.
abbrev pub IsSound : FragAssembly → Type 0
IsSound a = (a.total_bytes ≡ sizes a.parts) × (a.total_bytes ≤ max_assembled_udp_payload)

abbrev pub IsShort : List PendingDomainPacket → Type 0
IsShort queue = length queue ≤ max_packets_per_domain

-- The limits of the send queue: the counter is right, and at most 16 datagrams are under way.
abbrev pub InLimits : ℕ → List (ℕ × Outbound) → List Outbound → Type 0
InLimits count flight queue =
    (count ≡ length flight)
    × (count ≤ max_udp_sends_in_flight)
    × (length queue ≤ max_pending_udp_sends)

abbrev pub FewAssemblies : List (List ℕ × FragAssembly) → Type 0
FewAssemblies table = (length table ≤ max_fragment_assemblies) × All (λ e. IsSound e.1) table

abbrev pub FewNames : List (List ℕ × List PendingDomainPacket) → Type 0
FewNames table = (length table ≤ max_pending_domains) × All (λ e. IsShort e.1) table

-- The limits of UdpRelay.h.
pub record IsBounded (r : UdpRelay) : Type 0 where
  pub sends : InLimits r.sends_in_flight r.in_flight_sends r.pending_sends
  pub active : length r.active_destinations ≤ max_active_destinations
  pub frags : FewAssemblies r.frag_assemblies
  pub names : FewNames r.pending_by_domain

-- What a handler that only sends, or only binds, leaves alone.
pub sends-IsBounded :
    (r s : UdpRelay)
    → s.active_destinations ≡ r.active_destinations
    → s.frag_assemblies ≡ r.frag_assemblies
    → s.pending_by_domain ≡ r.pending_by_domain
    → InLimits s.sends_in_flight s.in_flight_sends s.pending_sends
    → IsBounded r
    → IsBounded s
sends-IsBounded r s a f n h b = record {
  sends = h;
  active = rw (a) b.active;
  frags = rw (f) b.frags;
  names = rw (n) b.names;
}
