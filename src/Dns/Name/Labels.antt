-- ===== src/Dns/Name/Labels.antt =====
-- `SkipName` on a name that `BuildQuery` wrote.
use socks5proxy_native.Prelude.{
  ℕ, zero, suc, ◌+◌, ◌≤◌, ◌<◌, ◌≡◌, refl, Bool, true, false, ◌&&◌, not, List, [], ◌∷◌, ◌++◌,
  append_assoc, length, length-append, All, ◌==◌, bit_and, arith,
}
use socks5proxy_native.Outcome.{ok, read_u8, read_u8-append}
use socks5proxy_native.Dns.Query.Laws.{IsLabel, encoding}
use socks5proxy_native.Dns.Name.{skip_loop, skip_name}

no_pointer_below : ℕ → Bool
no_pointer_below zero = true
no_pointer_below (suc n) = not (bit_and n 0xC0 == 0xC0) && no_pointer_below n

no_pointer : (n len : ℕ) → no_pointer_below n ≡ true → len < n → (bit_and len 0xC0 == 0xC0) ≡ false
unfolding no_pointer_below
no_pointer zero len e h = absurd (omega arith)
no_pointer (suc n) len e h = ground (arith, no_pointer n len)

-- No length of a label is taken for a compression pointer.
length_no_pointer : (len : ℕ) → len ≤ 63 → (bit_and len 0xC0 == 0xC0) ≡ false
unfolding no_pointer_below
length_no_pointer len h = no_pointer 64 len refl (omega arith)

skip_loop-encoding :
    (fuel : ℕ) (ls : List (List ℕ)) (front rest buffer : List ℕ) (n jumps pos : ℕ)
    → buffer ≡ front ++ (encoding ls ++ (0 ∷ rest))
    → pos ≡ length front
    → All IsLabel ls
    → pos + length (encoding ls) + 1 ≤ n
    → n < pos + fuel
    → skip_loop fuel buffer n jumps pos ≡ ok (pos + length (encoding ls) + 1)
unfolding skip_loop encoding
skip_loop-encoding zero ls front rest buffer n jumps pos b p a h f = absurd (omega arith)
skip_loop-encoding (suc fuel) [] front rest buffer n jumps pos b p a h f =
    ground (arith, read_u8-append front (0 ∷ rest) pos 0)
skip_loop-encoding (suc fuel) (l ∷ ls) front rest buffer n jumps pos b p (a, as') h f =
    let front' : List ℕ = front ++ (length l ∷ l) in
    ground (
      arith,
      read_u8-append front (length l ∷ (l ++ (encoding ls ++ (0 ∷ rest)))) pos 0,
      append_assoc front (length l ∷ l) (encoding ls ++ (0 ∷ rest)),
      append_assoc l (encoding ls) (0 ∷ rest),
      length-append front (length l ∷ l),
      length-append l (encoding ls),
      length_no_pointer (length l),
      skip_loop-encoding fuel ls front' rest buffer n jumps (pos + (length l + 1)),
    )

-- On an encoded name of labels of 1 to 63 bytes that lies within the message, `SkipName` returns the
-- position behind its closing zero.
pub skip_name-encoding :
    (ls : List (List ℕ)) (front rest buffer : List ℕ) (n pos : ℕ)
    → buffer ≡ front ++ (encoding ls ++ (0 ∷ rest))
    → pos ≡ length front
    → All IsLabel ls
    → pos + length (encoding ls) + 1 ≤ n
    → skip_name buffer n pos ≡ ok (pos + length (encoding ls) + 1)
unfolding skip_name
skip_name-encoding ls front rest buffer n pos b p a h =
    skip_loop-encoding (suc n) ls front rest buffer n 0 pos b p a h (omega arith)

-- On the pointer that answers begin with, it returns the position behind the pointer.
pub skip_name_pointer :
    (front rest buffer : List ℕ) (n pos : ℕ)
    → buffer ≡ front ++ (0xC0 ∷ 12 ∷ rest)
    → pos ≡ length front
    → 12 < n
    → pos + 2 ≤ n
    → skip_name buffer n pos ≡ ok (pos + 2)
unfolding skip_name skip_loop read_u8
skip_name_pointer front rest buffer n pos b p t h =
    let at0 = read_u8-append front (0xC0 ∷ 12 ∷ rest) pos 0 (omega arith) in
    let at1 = read_u8-append front (0xC0 ∷ 12 ∷ rest) (pos + 1) 1 (omega arith) in
    ground (arith, at0, at1)
