-- ===== src/Socks/AuthProtocol.antt =====
-- server/protocol/Socks5Constants.h: the user name and password negotiation.
use socks5proxy_native.Prelude.{ℕ}

abbrev pub auth_version : ℕ
auth_version = 0x01

abbrev pub success : ℕ
success = 0x00

abbrev pub failure : ℕ
failure = 0x01
