-- ===== src/Session/Request/Parse.antt =====
-- `ProcessRequestBuffer`, the part that reads the request.
pub mod Laws
use socks5proxy_native.Prelude.{
  ℕ, ◌+◌, ◌*◌, Bool, true, false, not, ◌&&◌, ◌||◌, List, ◌==◌, leb, if◌then◌else◌, length, take,
  drop, get_or,
}
use socks5proxy_native.Net.{Family, inet, inet6}
use socks5proxy_native.Socks.{version, reserved}
use socks5proxy_native.Socks.AddressType.{ipv4, ipv6, domain_name}
use socks5proxy_native.Socks.ReplyCode.{general_failure, address_type_not_supported}

-- `parsed command address port need`: `need` bytes of `ingest` make up the request.
pub data Parsed : Type 0 where
  incomplete : Parsed
  refuse : ℕ → Parsed
  parsed : ℕ → List ℕ → ℕ → ℕ → Parsed

-- Two bytes at `i` in network byte order; `|` joins disjoint bits.
abbrev pub u16_at : List ℕ → ℕ → ℕ
u16_at ingest i = get_or ingest i 0 * 256 + get_or ingest (i + 1) 0

module _ (inet_ntop : Family → List ℕ → List ℕ) (ingest : List ℕ) where
  -- An address of `size` bytes and the port.
  parse_ip_address : Family → ℕ → Parsed
  parse_ip_address family size =
      let need = 4 + (size + 2) in
      if not (leb need (length ingest))
      then incomplete
      else parsed (get_or ingest 1 0) (inet_ntop family (take size (drop 4 ingest)))
          (u16_at ingest (4 + size)) need

  parse_domain : Parsed
  parse_domain =
      let dlen = get_or ingest 4 0 in
      let need = 5 + dlen + 2 in
      if not (leb 5 (length ingest))
      then incomplete
      else if dlen == 0
      then refuse address_type_not_supported
      else if not (leb need (length ingest))
      then incomplete
      else parsed (get_or ingest 1 0) (take dlen (drop 5 ingest)) (u16_at ingest (5 + dlen)) need

  unfoldable pub parse_request : Parsed
  unfolding parse_ip_address parse_domain
  parse_request =
      let atyp = get_or ingest 3 0 in
      if not (leb 4 (length ingest))
      then incomplete
      else if not (get_or ingest 0 0 == version) || not (get_or ingest 2 0 == reserved)
      then refuse general_failure
      else if atyp == ipv4
      then parse_ip_address inet 4
      else if atyp == ipv6
      then parse_ip_address inet6 16
      else if atyp == domain_name
      then parse_domain
      else refuse address_type_not_supported
