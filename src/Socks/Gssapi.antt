-- ===== src/Socks/Gssapi.antt =====
-- server/protocol/Socks5Constants.h: the frames and protection levels of RFC 1961.
use socks5proxy_native.Prelude.{ℕ}

abbrev pub gss_version : ℕ
gss_version = 0x01

abbrev pub msg_auth : ℕ
msg_auth = 0x01

abbrev pub msg_protection : ℕ
msg_protection = 0x02

abbrev pub msg_encapsulated : ℕ
msg_encapsulated = 0x03

abbrev pub msg_abort : ℕ
msg_abort = 0xFF

abbrev pub protect_integrity : ℕ
protect_integrity = 0x01

abbrev pub protect_confidentiality : ℕ
protect_confidentiality = 0x02

abbrev pub protect_selective : ℕ
protect_selective = 0x03
