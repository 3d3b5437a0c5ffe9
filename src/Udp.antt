-- ===== src/Udp.antt =====
-- server/protocol/UdpRelay.h: the state of one UDP association. Times are milliseconds of the steady
-- clock. Contexts of the completion port are represented by numbers, one for each call that posts one.
pub mod Sends
pub mod Fragments
pub mod Packet
pub mod Domains
pub mod Lifecycle
pub mod Relay
pub mod Runs
pub mod Bounds
use socks5proxy_native.Prelude.{ℕ, ◌+◌, Bool, true, false, List, [], ◌∷◌, Option, none}
use socks5proxy_native.Net.{Family, Endpoint}

abbrev pub max_udp_sends_in_flight : ℕ
max_udp_sends_in_flight = 16

abbrev pub max_pending_udp_sends : ℕ
max_pending_udp_sends = 1024

abbrev pub max_pending_domains : ℕ
max_pending_domains = 256

abbrev pub max_packets_per_domain : ℕ
max_packets_per_domain = 64

abbrev pub max_fragment_assemblies : ℕ
max_fragment_assemblies = 256

abbrev pub max_active_destinations : ℕ
max_active_destinations = 4096

abbrev pub cleanup_interval_ms : ℕ
cleanup_interval_ms = 10000

abbrev pub frag_reassembly_timeout_ms : ℕ
frag_reassembly_timeout_ms = 5000

abbrev pub max_assembled_udp_payload : ℕ
max_assembled_udp_payload = 65535

pub record PendingDomainPacket : Type 0 where
  pub payload : List ℕ
  pub port : ℕ

-- Where a packet goes: `hasIpDestination` with `destination`, or `domain` and `port`.
pub data Destination : Type 0 where
  to_ip : Endpoint → Destination
  to_domain : List ℕ → ℕ → Destination

-- `parts` is the `std::map` from fragment numbers; the code looks numbers up in it, and never iterates.
pub record FragAssembly : Type 0 where
  pub destination : Destination
  pub parts : List (ℕ × List ℕ)
  pub have_last : Bool
  pub last_frag_num : ℕ
  pub total_bytes : ℕ
  pub updated : ℕ

pub record Outbound : Type 0 where
  pub bytes : List ℕ
  pub to : Endpoint

pub record DnsNotify : Type 0 where
  pub domain : List ℕ
  pub found_ip : Option (List ℕ)

-- Calls that leave the relay.
pub data Event : Type 0 where
  bind_to : Endpoint → Event
  post_recv_from : Event
  post_send_to : Outbound → Event
  post_user : ℕ → Event
  resolve_async : List ℕ → Event
  close_socket : Event
  session_told : Event

-- The answers of Windows and of the collaborators; the argument of the first fields is the number of
-- such calls that the relay has made.
pub record Host : Type 0 where
  -- Does the completion port accept the operation?
  pub accepts : ℕ → Bool
  -- `CreateUdpSocket`, `bind`, `Associate`.
  pub creates : ℕ → Bool
  pub binds : ℕ → Bool
  pub associates : ℕ → Bool
  -- `getsockname`.
  pub socket_name : ℕ → Endpoint
  -- `FillOutputBindAddress`.
  pub output_bind : Option Endpoint
  -- `UdpAssociateIdleTimeoutMs`; an `int` of zero or less is 0.
  pub associate_idle_timeout_ms : ℕ
  pub inet_pton : Family → List ℕ → Option (List ℕ)
  pub inet_ntop : Family → List ℕ → List ℕ
  -- The place of `begin()` in a map that is iterated.
  pub begin_of : List (Endpoint × ℕ) → ℕ

-- `posts` counts the calls whose answer is up to the host, and `events` lists the calls made, the latest
-- first.
pub record UdpRelay : Type 0 where
  pub client_tcp : Endpoint
  pub client_tcp_local : Endpoint
  pub local : Endpoint
  pub advertised : Endpoint
  pub actual_client : Option Endpoint
  pub socket_open : Bool
  pub stopped : Bool
  pub has_callback : Bool
  pub pending_sends : List Outbound
  pub in_flight_sends : List (ℕ × Outbound)
  pub sends_in_flight : ℕ
  pub dns_notifies : List (ℕ × DnsNotify)
  pub active_destinations : List (Endpoint × ℕ)
  pub pending_by_domain : List (List ℕ × List PendingDomainPacket)
  pub dns_in_flight : List (List ℕ)
  pub frag_assemblies : List (List ℕ × FragAssembly)
  pub last_activity : ℕ
  pub last_cleanup : ℕ
  pub posts : ℕ
  pub events : List Event

abbrev pub no_endpoint : Endpoint
no_endpoint = record { family = Family.inet; ip = []; port = 0; flow_info = 0; scope_id = 0 }

-- The constructor.
unfoldable pub new_relay : Endpoint → Endpoint → Bool → ℕ → UdpRelay
new_relay client_tcp client_tcp_local has_callback now = record {
  client_tcp = client_tcp;
  client_tcp_local = client_tcp_local;
  local = no_endpoint;
  advertised = no_endpoint;
  actual_client = none;
  socket_open = false;
  stopped = false;
  has_callback = has_callback;
  pending_sends = [];
  in_flight_sends = [];
  sends_in_flight = 0;
  dns_notifies = [];
  active_destinations = [];
  pending_by_domain = [];
  dns_in_flight = [];
  frag_assemblies = [];
  last_activity = now;
  last_cleanup = now;
  posts = 0;
  events = [];
}
