-- ===== src/Udp/Packet.antt =====
-- server/protocol/UdpRelay.cpp: the header of a client's packet in `HandleClientPacket`, and the header
-- that `HandleServerResponse` writes.
pub mod Laws
use socks5proxy_native.Prelude.{
  ℕ, ◌+◌, ◌*◌, ◌/◌, ◌%◌, Bool, true, false, not, ◌&&◌, ◌||◌, List, [], ◌∷◌, ◌++◌, Option, none,
  some, leb, ◌==◌, if◌then◌else◌, length, take, drop, get_or,
}
use socks5proxy_native.Net.{Family, inet, inet6, Endpoint, endpoint_to_string, to_string}
use socks5proxy_native.Socks.AddressType.{ipv4, ipv6, domain_name}
use socks5proxy_native.Udp.{Destination, to_ip, to_domain}

pub record ClientPacket : Type 0 where
  pub frag : ℕ
  pub destination : Destination
  pub payload : List ℕ

-- Two bytes at `i` in network byte order.
abbrev pub u16_at : List ℕ → ℕ → ℕ
u16_at packet i = get_or packet i 0 * 256 + get_or packet (i + 1) 0

-- An address of `size` bytes and the port, from byte 4 on.
unfoldable pub parse_ip_packet : Family → ℕ → List ℕ → Option ClientPacket
parse_ip_packet family size packet =
    if not (leb (4 + (size + 2)) (length packet))
    then none
    else some (record {
      frag = get_or packet 2 0;
      destination = to_ip (record {
        family = family;
        ip = take size (drop 4 packet);
        port = u16_at packet (4 + size);
        flow_info = 0;
        scope_id = 0;
      });
      payload = drop (4 + (size + 2)) packet;
    })

unfoldable pub parse_domain_packet : List ℕ → Option ClientPacket
parse_domain_packet packet =
    let len = get_or packet 4 0 in
    if not (leb 5 (length packet))
    then none
    else if (len == 0) || not (leb (5 + len + 2) (length packet))
    then none
    else some (record {
      frag = get_or packet 2 0;
      destination = to_domain (take len (drop 5 packet)) (u16_at packet (5 + len));
      payload = drop (5 + len + 2) packet;
    })

-- The packet up to its payload; `none` where the code returns.
unfoldable pub parse_client_packet : List ℕ → Option ClientPacket
unfolding parse_ip_packet parse_domain_packet
parse_client_packet packet =
    let atyp = get_or packet 3 0 in
    if not (leb 4 (length packet))
    then none
    else if atyp == ipv4
    then parse_ip_packet inet 4 packet
    else if atyp == ipv6
    then parse_ip_packet inet6 16 packet
    else if atyp == domain_name
    then parse_domain_packet packet
    else none

-- `assemblyKey`: the text of the endpoint, or "d:" with the name and the port.
unfoldable pub assembly_key : (Family → List ℕ → List ℕ) → Destination → List ℕ
assembly_key inet_ntop (to_ip endpoint) = endpoint_to_string inet_ntop endpoint
assembly_key inet_ntop (to_domain name port) = b'd' ∷ b':' ∷ (name ++ (b':' ∷ to_string port))

abbrev pub address_type : Family → ℕ
address_type inet = ipv4
address_type inet6 = ipv6

-- The packet for the client: the header names the server that answered.
unfoldable pub server_packet : Endpoint → List ℕ → List ℕ
server_packet source payload =
    0
    ∷ 0
    ∷ 0
    ∷ address_type source.family
    ∷ (source.ip ++ (source.port / 256 ∷ source.port % 256 ∷ payload))
