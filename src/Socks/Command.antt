-- ===== src/Socks/Command.antt =====
-- server/protocol/Socks5Constants.h: the commands of a request.
use socks5proxy_native.Prelude.{ℕ}

abbrev pub connect : ℕ
connect = 0x01

abbrev pub udp_associate : ℕ
udp_associate = 0x03
