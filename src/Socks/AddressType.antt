-- ===== src/Socks/AddressType.antt =====
-- server/protocol/Socks5Constants.h: the address types of a request.
use socks5proxy_native.Prelude.{ℕ}

abbrev pub ipv4 : ℕ
ipv4 = 0x01

abbrev pub domain_name : ℕ
domain_name = 0x03

abbrev pub ipv6 : ℕ
ipv6 = 0x04
