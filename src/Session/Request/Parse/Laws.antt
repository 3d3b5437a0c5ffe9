-- ===== src/Session/Request/Parse/Laws.antt =====
-- Requests as a client writes them.
use socks5proxy_native.Prelude.{
  ℕ, ◌+◌, ◌*◌, ◌/◌, ◌%◌, ◌<◌, ◌≡◌, refl, sym, ap, ◌∙◌, true, false, ◌==◌, List, [], ◌∷◌, ◌++◌,
  append_assoc, length, take, drop, get_or, leb, length-append, take_at, get_or_at, arith,
}
use socks5proxy_native.Net.{Family, inet, inet6}
use socks5proxy_native.Socks.{version, reserved}
use socks5proxy_native.Socks.AddressType.{ipv4, ipv6, domain_name}
use socks5proxy_native.Session.Request.Parse.{parsed, parse_ip_address, parse_domain, parse_request}

-- The two bytes of a port.
port_field : ℕ → List ℕ
port_field port = port / 256 ∷ port % 256 ∷ []

-- The destination of a request, as RFC 1928 writes it.
pub data Destination : Type 0 where
  ip_address : Family → List ℕ → Destination
  domain : List ℕ → Destination

abbrev pub IsDestination : Destination → Type 0
IsDestination (ip_address inet ip) = length ip ≡ 4
IsDestination (ip_address inet6 ip) = length ip ≡ 16
IsDestination (domain name) = (0 < length name) × (length name < 256)

address_field : Destination → List ℕ
address_field (ip_address inet ip) = ipv4 ∷ ip
address_field (ip_address inet6 ip) = ipv6 ∷ ip
address_field (domain name) = domain_name ∷ length name ∷ name

-- A request for a command.
unfoldable pub request_message : ℕ → Destination → ℕ → List ℕ
unfolding port_field address_field
request_message command destination port =
    version ∷ command ∷ reserved ∷ (address_field destination ++ port_field port)

-- What the code looks up or connects to.
abbrev pub text_of : (Family → List ℕ → List ℕ) → Destination → List ℕ
text_of inet_ntop (ip_address family ip) = inet_ntop family ip
text_of inet_ntop (domain name) = name

port_value : (port : ℕ) → port < 65536 → port / 256 * 256 + port % 256 ≡ port
port_value port h = omega arith

long_enough : (tail : List ℕ) → leb 4 (4 + length tail) ≡ true
long_enough tail = ground arith

module _ (inet_ntop : Family → List ℕ → List ℕ) (command port : ℕ) (rest : List ℕ) where
  parse_ip_message :
      (family : Family) (atyp : ℕ) (ip : List ℕ) (size : ℕ)
      → port < 65536
      → length ip ≡ size
      → parse_ip_address inet_ntop
          (version ∷ command ∷ reserved ∷ atyp ∷ (ip ++ (port / 256 ∷ port % 256 ∷ rest)))
          family
          size
        ≡ parsed command (inet_ntop family ip) port (4 + (size + 2))
  unfolding parse_ip_address
  parse_ip_message family atyp ip size h l =
      let head = version ∷ command ∷ reserved ∷ atyp ∷ [] in
      let msg = version ∷ command ∷ reserved ∷ atyp ∷ (ip ++ (port / 256 ∷ port % 256 ∷ rest)) in
      let fits : leb (4 + (size + 2)) (length msg) ≡ true =
        ground (arith, l, length-append ip (port / 256 ∷ port % 256 ∷ rest)) in
      let high : get_or msg (4 + size) 0 ≡ port / 256 =
        get_or_at (version ∷ command ∷ reserved ∷ atyp ∷ ip) (port / 256) (port % 256 ∷ rest)
          (4 + size) 0 (omega (arith, l)) in
      let low : get_or msg (4 + size + 1) 0 ≡ port % 256 =
        rw (← append_assoc ip (port / 256 ∷ []) (port % 256 ∷ rest)) (
          get_or_at (version ∷ command ∷ reserved ∷ atyp ∷ (ip ++ (port / 256 ∷ []))) (port % 256)
            rest (4 + size + 1) 0 (omega (arith, l, length-append ip (port / 256 ∷ [])))) in
      let addr : take size (drop 4 msg) ≡ ip =
        take_at head ip (port / 256 ∷ port % 256 ∷ rest) 4 size refl (sym l) in
      rw (fits, high, low, addr, port_value port h) refl

  parse_domain_message :
      (name : List ℕ)
      → port < 65536
      → 0 < length name
      → parse_domain inet_ntop (
          version
          ∷ command
          ∷ reserved
          ∷ domain_name
          ∷ length name
          ∷ (name ++ (port / 256 ∷ port % 256 ∷ rest)))
        ≡ parsed command name port (5 + length name + 2)
  unfolding parse_domain
  parse_domain_message name h p =
      let head = version ∷ command ∷ reserved ∷ domain_name ∷ length name ∷ [] in
      let msg =
        version
        ∷ command
        ∷ reserved
        ∷ domain_name
        ∷ length name
        ∷ (name ++ (port / 256 ∷ port % 256 ∷ rest)) in
      let fits₀ : leb 5 (length msg) ≡ true = ground arith in
      let fits : leb (5 + length name + 2) (length msg) ≡ true =
        ground (arith, length-append name (port / 256 ∷ port % 256 ∷ rest)) in
      let some_name : (length name == 0) ≡ false = ground (arith, p) in
      let high : get_or msg (5 + length name) 0 ≡ port / 256 =
        get_or_at (version ∷ command ∷ reserved ∷ domain_name ∷ length name ∷ name) (port / 256)
          (port % 256 ∷ rest) (5 + length name) 0 (omega arith) in
      let low : get_or msg (5 + length name + 1) 0 ≡ port % 256 =
        rw (← append_assoc name (port / 256 ∷ []) (port % 256 ∷ rest)) (
          get_or_at
            (version ∷ command ∷ reserved ∷ domain_name ∷ length name ∷ (name ++ (port / 256 ∷ [])))
            (port % 256) rest (5 + length name + 1) 0
            (omega (arith, length-append name (port / 256 ∷ [])))) in
      let addr : take (length name) (drop 5 msg) ≡ name =
        take_at head name (port / 256 ∷ port % 256 ∷ rest) 5 (length name) refl refl in
      rw (fits₀, some_name, fits, high, low, addr, port_value port h) refl

  parse_request-ipv4 :
      (tail : List ℕ)
      → parse_request inet_ntop (version ∷ command ∷ reserved ∷ ipv4 ∷ tail)
        ≡ parse_ip_address inet_ntop (version ∷ command ∷ reserved ∷ ipv4 ∷ tail) inet 4
  unfolding parse_request
  parse_request-ipv4 tail = ground (arith, long_enough tail)

  parse_request-ipv6 :
      (tail : List ℕ)
      → parse_request inet_ntop (version ∷ command ∷ reserved ∷ ipv6 ∷ tail)
        ≡ parse_ip_address inet_ntop (version ∷ command ∷ reserved ∷ ipv6 ∷ tail) inet6 16
  unfolding parse_request
  parse_request-ipv6 tail = ground (arith, long_enough tail)

  parse_request-domain :
      (tail : List ℕ)
      → parse_request inet_ntop (version ∷ command ∷ reserved ∷ domain_name ∷ tail)
        ≡ parse_domain inet_ntop (version ∷ command ∷ reserved ∷ domain_name ∷ tail)
  unfolding parse_request
  parse_request-domain tail = ground (arith, long_enough tail)

  -- A request for an IPv4 address of 4 bytes, an IPv6 address of 16 or a name of 1 to 255, with a port below
  -- 65536, whatever follows it, is read as it was written, and takes up its own length.
  pub parse_request-request_message :
      (destination : Destination)
      → port < 65536
      → IsDestination destination
      → parse_request inet_ntop (request_message command destination port ++ rest)
        ≡ parsed command
            (text_of inet_ntop destination)
            port
            (length (request_message command destination port))
  unfolding request_message address_field port_field
  parse_request-request_message (ip_address inet ip) h l =
      rw (append_assoc ip (port / 256 ∷ port % 256 ∷ []) rest) (
        parse_request-ipv4 (ip ++ (port / 256 ∷ port % 256 ∷ rest))
        ∙ parse_ip_message inet ipv4 ip 4 h l
        ∙ ap (parsed command (inet_ntop inet ip) port)
            (omega (arith, l, length-append ip (port / 256 ∷ port % 256 ∷ []))))
  parse_request-request_message (ip_address inet6 ip) h l =
      rw (append_assoc ip (port / 256 ∷ port % 256 ∷ []) rest) (
        parse_request-ipv6 (ip ++ (port / 256 ∷ port % 256 ∷ rest))
        ∙ parse_ip_message inet6 ipv6 ip 16 h l
        ∙ ap (parsed command (inet_ntop inet6 ip) port)
            (omega (arith, l, length-append ip (port / 256 ∷ port % 256 ∷ []))))
  parse_request-request_message (domain name) h (l, m) =
      rw (append_assoc name (port / 256 ∷ port % 256 ∷ []) rest) (
        parse_request-domain (length name ∷ (name ++ (port / 256 ∷ port % 256 ∷ rest)))
        ∙ parse_domain_message name h l
        ∙ ap (parsed command name port)
            (omega (arith, length-append name (port / 256 ∷ port % 256 ∷ []))))
