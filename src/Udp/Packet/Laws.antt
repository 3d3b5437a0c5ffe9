-- ===== src/Udp/Packet/Laws.antt =====
-- server/protocol/UdpRelay.cpp: packets as a client writes them, and as it reads them.
use socks5proxy_native.Prelude.{
  ℕ, ◌+◌, ◌/◌, ◌%◌, ◌<◌, ◌≡◌, refl, sym, true, false, ◌==◌, List, [], ◌∷◌, ◌++◌, append_assoc,
  length, take, drop, get_or, leb, length-append, take_at, get_or_at, drop-append, some, arith,
}
use socks5proxy_native.Net.{Family, inet, inet6, Endpoint}
use socks5proxy_native.Socks.AddressType.{ipv4, ipv6, domain_name}
use socks5proxy_native.Udp.{Destination, to_ip, to_domain}
use socks5proxy_native.Udp.Packet.{
  u16_at, parse_ip_packet, parse_domain_packet, parse_client_packet, address_type, server_packet,
}

abbrev address_size : Family → ℕ
address_size inet = 4
address_size inet6 = 16

-- A destination that the header of RFC 1928 can hold; it has no room for a flow or a scope.
abbrev pub IsDestination : Destination → Type 0
IsDestination (to_ip e) =
    (length e.ip ≡ address_size e.family) × (e.port < 65536) × (e.flow_info ≡ 0) × (e.scope_id ≡ 0)
IsDestination (to_domain name port) = (0 < length name) × (length name < 256) × (port < 65536)

-- A packet, as RFC 1928 writes it.
unfoldable pub client_packet : ℕ → Destination → List ℕ → List ℕ
client_packet frag (to_ip e) payload =
    0 ∷ 0 ∷ frag ∷ address_type e.family ∷ (e.ip ++ (e.port / 256 ∷ e.port % 256 ∷ payload))
client_packet frag (to_domain name port) payload =
    0 ∷ 0 ∷ frag ∷ domain_name ∷ length name ∷ (name ++ (port / 256 ∷ port % 256 ∷ payload))

-- What stands behind `pre` and an address: the port, and then the payload.
module _ (pre address : List ℕ) (port : ℕ) (payload : List ℕ) (i : ℕ) where
  port_at :
      i ≡ length pre + length address
      → port < 65536
      → u16_at (pre ++ (address ++ (port / 256 ∷ port % 256 ∷ payload))) i ≡ port
  port_at e h =
      let msg = pre ++ (address ++ (port / 256 ∷ port % 256 ∷ payload)) in
      let high : get_or msg i 0 ≡ port / 256 =
        rw (← append_assoc pre address (port / 256 ∷ port % 256 ∷ payload)) (
          get_or_at (pre ++ address) (port / 256) (port % 256 ∷ payload) i 0
            (omega (arith, e, length-append pre address))) in
      let low : get_or msg (i + 1) 0 ≡ port % 256 =
        rw
          (
            ← append_assoc pre address (port / 256 ∷ port % 256 ∷ payload),
            ← append_assoc (pre ++ address) (port / 256 ∷ []) (port % 256 ∷ payload),
          )
          (get_or_at ((pre ++ address) ++ (port / 256 ∷ [])) (port % 256) payload (i + 1) 0 (
            omega (
              arith,
              e,
              length-append pre address,
              length-append (pre ++ address) (port / 256 ∷ []),
            ))) in
      rw (high, low) (omega (arith, h))

  payload_at :
      i ≡ length pre + length address + 2
      → drop i (pre ++ (address ++ (port / 256 ∷ port % 256 ∷ payload))) ≡ payload
  payload_at e =
      let ports = port / 256 ∷ port % 256 ∷ [] in
      rw
        (
          ← append_assoc pre address (port / 256 ∷ port % 256 ∷ payload),
          ← append_assoc (pre ++ address) ports payload,
        )
        (drop-append ((pre ++ address) ++ ports) payload i
          (omega (arith, e, length-append pre address, length-append (pre ++ address) ports)))

  fits_at :
      i ≡ length pre + length address + 2
      → leb i (length (pre ++ (address ++ (port / 256 ∷ port % 256 ∷ payload)))) ≡ true
  fits_at e = ground (
    arith,
    e,
    length-append pre (address ++ (port / 256 ∷ port % 256 ∷ payload)),
    length-append address (port / 256 ∷ port % 256 ∷ payload),
  )

module _ (frag : ℕ) (payload : List ℕ) where
  parse_ip_client_packet :
      (family : Family) (atyp : ℕ) (ip : List ℕ) (port size : ℕ)
      → length ip ≡ size
      → port < 65536
      → parse_ip_packet family size
          (0 ∷ 0 ∷ frag ∷ atyp ∷ (ip ++ (port / 256 ∷ port % 256 ∷ payload)))
        ≡ some (record {
          frag = frag;
          destination =
              to_ip (record { family = family; ip = ip; port = port; flow_info = 0; scope_id = 0 });
          payload = payload;
        })
  unfolding parse_ip_packet
  parse_ip_client_packet family atyp ip port size l h =
      let pre = 0 ∷ 0 ∷ frag ∷ atyp ∷ [] in
      let tail = port / 256 ∷ port % 256 ∷ payload in
      let address : take size (drop 4 (pre ++ (ip ++ tail))) ≡ ip =
        take_at pre ip tail 4 size refl (sym l) in
      rw
        (
          fits_at pre ip port payload (4 + (size + 2)) (omega (arith, l)),
          address,
          port_at pre ip port payload (4 + size) (omega (arith, l)) h,
          payload_at pre ip port payload (4 + (size + 2)) (omega (arith, l)),
        )
        refl

  parse_domain_client_packet :
      (name : List ℕ) (port : ℕ)
      → 0 < length name
      → port < 65536
      → parse_domain_packet
          (0 ∷ 0 ∷ frag ∷ domain_name ∷ length name ∷ (name ++ (port / 256 ∷ port % 256 ∷ payload)))
        ≡ some (record { frag = frag; destination = to_domain name port; payload = payload })
  unfolding parse_domain_packet
  parse_domain_client_packet name port p h =
      let pre = 0 ∷ 0 ∷ frag ∷ domain_name ∷ length name ∷ [] in
      let tail = port / 256 ∷ port % 256 ∷ payload in
      let short : leb 5 (length (pre ++ (name ++ tail))) ≡ true = ground arith in
      let some_name : (length name == 0) ≡ false = ground (arith, p) in
      let found : take (length name) (drop 5 (pre ++ (name ++ tail))) ≡ name =
        take_at pre name tail 5 (length name) refl refl in
      rw
        (
          short,
          some_name,
          fits_at pre name port payload (5 + length name + 2) (omega arith),
          found,
          port_at pre name port payload (5 + length name) (omega arith) h,
          payload_at pre name port payload (5 + length name + 2) (omega arith),
        )
        refl

  -- A packet for an IPv4 address of 4 bytes, an IPv6 address of 16 without flow and scope, or a name of 1 to
  -- 255 bytes, with a port below 65536, is read with its fragment byte, its destination and its payload.
  pub parse_client_packet-client_packet :
      (destination : Destination)
      → IsDestination destination
      → parse_client_packet (client_packet frag destination payload)
        ≡ some (record { frag = frag; destination = destination; payload = payload })
  unfolding parse_client_packet client_packet
  parse_client_packet-client_packet (to_ip e) (l, h, fl, sc) = go e.family refl
    where
      go :
          (family : Family)
          → e.family ≡ family
          → parse_client_packet (client_packet frag (to_ip e) payload)
            ≡ some (record { frag = frag; destination = to_ip e; payload = payload })
      go inet f = ground (
        arith,
        f,
        l,
        fl,
        sc,
        parse_ip_client_packet inet ipv4 e.ip e.port 4 (ground (arith, f, l)) h,
      )
      go inet6 f = ground (
        arith,
        f,
        l,
        fl,
        sc,
        parse_ip_client_packet inet6 ipv6 e.ip e.port 16 (ground (arith, f, l)) h,
      )
  parse_client_packet-client_packet (to_domain name port) (p, m, h) =
      ground (arith, parse_domain_client_packet name port p h)

-- An endpoint without the flow and the scope.
abbrev pub unscoped : Endpoint → Endpoint
unscoped e = record e { flow_info = 0; scope_id = 0 }

-- A client that reads its packets as the relay does finds in the relay's packet the server that answered,
-- with an address of the length of its family and a port below 65536, less its flow and scope, and the
-- server's payload.
pub parse_client_packet-server_packet :
    (source : Endpoint) (payload : List ℕ)
    → length source.ip ≡ address_size source.family
    → source.port < 65536
    → parse_client_packet (server_packet source payload)
      ≡ some (record { frag = 0; destination = to_ip (unscoped source); payload = payload })
unfolding server_packet client_packet
parse_client_packet-server_packet source payload l h =
    parse_client_packet-client_packet 0 payload (to_ip (unscoped source)) (l, h, refl, refl)
