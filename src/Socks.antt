-- ===== src/Socks.antt =====
-- server/protocol/Socks5Constants.h: the numbers of RFC 1928, RFC 1929 and RFC 1961.
pub mod AddressType
pub mod Command
pub mod ReplyCode
pub mod AuthMethod
pub mod AuthProtocol
pub mod Gssapi
pub mod UdpFrag
use socks5proxy_native.Prelude.{ℕ}

abbrev pub version : ℕ
version = 0x05

abbrev pub reserved : ℕ
reserved = 0x00
