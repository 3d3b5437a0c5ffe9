-- ===== src/Dns/Name.antt =====
-- dns/DnsClient.cpp, `SkipName`: step over a name in a message, without following a pointer.
pub mod Laws
pub mod Labels
use socks5proxy_native.Prelude.{
  ℕ, zero, suc, ◌+◌, ◌*◌, List, ltb, leb, ◌==◌, bit_and, bit_or, if◌then◌else◌,
}
use socks5proxy_native.Outcome.{Outcome, ok, throws, stuck, ◌>>=◌, read_u8}

-- The branch of a compression pointer at `pos`, whose first byte is `len`.
skip_pointer : List ℕ → ℕ → ℕ → ℕ → ℕ → Outcome ℕ
unfolding read_u8
skip_pointer buffer n jumps pos len = if leb n (pos + 1) then throws else do
  low ← read_u8 buffer (pos + 1)
  if leb n (bit_or (bit_and len 0x3F * 256) low)
      then throws
      else if ltb 20 (jumps + 1)
      then throws
      else ok (pos + 2)

-- `n` is the parameter `length`. Each round that goes on moves `pos` forward.
skip_loop : ℕ → List ℕ → ℕ → ℕ → ℕ → Outcome ℕ
unfolding skip_pointer
skip_loop zero buffer n jumps pos = stuck
skip_loop (suc fuel) buffer n jumps pos = if leb n pos then throws else do
  len ← read_u8 buffer pos
  let rest = skip_loop fuel buffer n jumps (pos + (len + 1))
  if len == 0
      then ok (pos + 1)
      else if bit_and len 0xC0 == 0xC0
      then skip_pointer buffer n jumps pos len
      else if ltb n (pos + len + 1)
      then throws
      else rest

-- `n + 1` rounds are enough, since `pos` is at least the number of rounds made.
unfoldable pub skip_name : List ℕ → ℕ → ℕ → Outcome ℕ
unfolding skip_loop
skip_name buffer n pos = skip_loop (suc n) buffer n 0 pos
