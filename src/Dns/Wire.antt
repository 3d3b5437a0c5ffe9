-- ===== src/Dns/Wire.antt =====
-- dns/DnsClient.cpp: 16 and 32 bit fields in network byte order. A byte is a number below 256;
-- the bits that the source joins by `|` are disjoint, so that `|` is a sum.
use socks5proxy_native.Prelude.{
  ℕ, ◌+◌, ◌*◌, ◌/◌, ◌%◌, ◌^◌, ◌≤◌, ◌<◌, ◌≡◌, ap, List, [], ◌∷◌, ◌++◌, length, append_assoc, arith,
}
use socks5proxy_native.Outcome.{Outcome, ok, ◌>>=◌, read_u8, read_u8-ok, read_u8-append}

unfoldable pub read_u16 : List ℕ → ℕ → Outcome ℕ
unfolding read_u8
read_u16 buffer pos = do hi ← read_u8 buffer pos; lo ← read_u8 buffer (pos + 1); ok (hi * 256 + lo)

unfoldable pub read_u32 : List ℕ → ℕ → Outcome ℕ
unfolding read_u8
read_u32 buffer pos = do
  a ← read_u8 buffer pos
  b ← read_u8 buffer (pos + 1)
  c ← read_u8 buffer (pos + 2)
  d ← read_u8 buffer (pos + 3)
  ok (a * 2 ^ 24 + b * 2 ^ 16 + c * 2 ^ 8 + d)

-- The parameter is a `uint16_t`.
unfoldable pub write_u16 : List ℕ → ℕ → List ℕ
write_u16 out value = out ++ (value / 256 % 256 ∷ value % 256 ∷ [])

pub read_u16-ok :
    (buffer : List ℕ) (pos : ℕ) → pos + 2 ≤ length buffer → (v : ℕ) × (read_u16 buffer pos ≡ ok v)
unfolding read_u16
read_u16-ok buffer pos h =
    let (hi, e) = read_u8-ok buffer pos (omega arith) in
    let (lo, e') = read_u8-ok buffer (pos + 1) (omega arith) in
    (hi * 256 + lo, ground (arith, e, e'))

pub read_u32-ok :
    (buffer : List ℕ) (pos : ℕ) → pos + 4 ≤ length buffer → (v : ℕ) × (read_u32 buffer pos ≡ ok v)
unfolding read_u32
read_u32-ok buffer pos h =
    let (a, e₀) = read_u8-ok buffer pos (omega arith) in
    let (b, e₁) = read_u8-ok buffer (pos + 1) (omega arith) in
    let (c, e₂) = read_u8-ok buffer (pos + 2) (omega arith) in
    let (d, e₃) = read_u8-ok buffer (pos + 3) (omega arith) in
    (a * 2 ^ 24 + b * 2 ^ 16 + c * 2 ^ 8 + d, ground (arith, e₀, e₁, e₂, e₃))

pub read_u16-append :
    (xs ys : List ℕ) (i j : ℕ) → i ≡ length xs + j → read_u16 (xs ++ ys) i ≡ read_u16 ys j
unfolding read_u16
read_u16-append xs ys i j e =
    rw (read_u8-append xs ys i j e, read_u8-append xs ys (i + 1) (j + 1) (omega arith))

pub read_u32-append :
    (xs ys : List ℕ) (i j : ℕ) → i ≡ length xs + j → read_u32 (xs ++ ys) i ≡ read_u32 ys j
unfolding read_u32
read_u32-append xs ys i j e = rw (
  read_u8-append xs ys i j e,
  read_u8-append xs ys (i + 1) (j + 1) (omega arith),
  read_u8-append xs ys (i + 2) (j + 2) (omega arith),
  read_u8-append xs ys (i + 3) (j + 3) (omega arith),
)

-- A field that `write_u16` wrote behind `out` is read back at its place, whatever follows.
pub read_u16-write_u16 :
    (out rest : List ℕ) (value pos : ℕ)
    → value < 65536
    → pos ≡ length out
    → read_u16 (write_u16 out value ++ rest) pos ≡ ok value
unfolding read_u16 write_u16
read_u16-write_u16 out rest value pos h e =
    let field : List ℕ = value / 256 % 256 ∷ value % 256 ∷ [] in
    rw
      (
        append_assoc out field rest,
        read_u8-append out (field ++ rest) pos 0 (omega arith),
        read_u8-append out (field ++ rest) (pos + 1) 1 (omega arith),
      )
      (ap ok (omega arith))
