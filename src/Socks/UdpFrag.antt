-- ===== src/Socks/UdpFrag.antt =====
-- server/protocol/Socks5Constants.h: the fragment byte of a UDP packet.
use socks5proxy_native.Prelude.{ℕ}

abbrev pub standalone : ℕ
standalone = 0x00

abbrev pub number_mask : ℕ
number_mask = 0x7F

abbrev pub last_flag : ℕ
last_flag = 0x80
