-- ===== src/Socks/AuthMethod.antt =====
-- server/protocol/Socks5Constants.h: the methods of authentication.
use socks5proxy_native.Prelude.{ℕ}

abbrev pub no_auth : ℕ
no_auth = 0x00

abbrev pub gssapi : ℕ
gssapi = 0x01

abbrev pub username_password : ℕ
username_password = 0x02

abbrev pub no_acceptable_methods : ℕ
no_acceptable_methods = 0xFF
