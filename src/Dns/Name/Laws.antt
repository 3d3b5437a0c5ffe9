-- ===== src/Dns/Name/Laws.antt =====
-- `SkipName` on any input.
use socks5proxy_native.Prelude.{
  ℕ, zero, suc, ◌+◌, ◌≤◌, ◌<◌, inl, inr, List, Bool-cases, leb, length, arith,
}
use socks5proxy_native.Outcome.{Safe, read_u8-ok}
use socks5proxy_native.Dns.Name.{skip_pointer, skip_loop, skip_name}

skip_pointer-Safe :
    (buffer : List ℕ) (n jumps pos len lo : ℕ)
    → n ≤ length buffer
    → lo ≤ pos
    → Safe (λ p. (lo < p) × (p ≤ n)) (skip_pointer buffer n jumps pos len)
unfolding skip_pointer
skip_pointer-Safe buffer n jumps pos len lo h l = ground (arith, read_u8-ok buffer (pos + 1))

skip_loop-Safe :
    (fuel : ℕ) (buffer : List ℕ) (n jumps pos lo : ℕ)
    → n ≤ length buffer
    → lo ≤ pos
    → 0 < fuel
    → n < pos + fuel
    → Safe (λ p. (lo < p) × (p ≤ n)) (skip_loop fuel buffer n jumps pos)
unfolding skip_loop
skip_loop-Safe zero buffer n jumps pos lo h l z f = absurd (omega arith)
skip_loop-Safe (suc fuel) buffer n jumps pos lo h l z f = elim (Bool-cases (leb n pos)) [
  | inl e ↦ rw e tt
  | inr e ↦
      let (len, r) = read_u8-ok buffer pos (ground arith) in
      ground (
        arith,
        r,
        skip_pointer-Safe buffer n jumps pos len lo h,
        skip_loop-Safe fuel buffer n jumps (pos + (len + 1)) lo h,
      )
]

-- On any buffer whose first `n` bytes are the message, `SkipName` ends, reads no byte outside the buffer,
-- and throws or returns a position further on that still lies within the message.
pub skip_name-Safe :
    (buffer : List ℕ) (n pos : ℕ)
    → n ≤ length buffer
    → Safe (λ p. (pos < p) × (p ≤ n)) (skip_name buffer n pos)
unfolding skip_name
skip_name-Safe buffer n pos h =
    skip_loop-Safe (suc n) buffer n 0 pos pos h (omega arith) (omega arith) (omega arith)
