-- ===== src/Session/Negotiation/Laws.antt =====
-- server/protocol/Socks5Session.cpp: `ConstantTimeEqual`.
use socks5proxy_native.Prelude.{
  ℕ, ◌≡◌, refl, ◌↔◌, true, List, [], ◌∷◌, length, bit_or, bit_xor, bit_or-zero, bit_xor-zero,
  bit_xor_self, arith,
}
use socks5proxy_native.Session.Negotiation.{differences, constant_time_equal}

-- What a difference is accumulated from: 0 only if it was 0 and no bytes differ.
differences_start : (lhs rhs : List ℕ) (d : ℕ) → differences lhs rhs d ≡ 0 → d ≡ 0
unfolding differences
differences_start [] [] d e = e
differences_start [] (b ∷ rhs) d e =
    (bit_or-zero d (bit_xor 0 b) (differences_start [] rhs (bit_or d (bit_xor 0 b)) e)).0
differences_start (a ∷ lhs) [] d e =
    (bit_or-zero d (bit_xor a 0) (differences_start lhs [] (bit_or d (bit_xor a 0)) e)).0
differences_start (a ∷ lhs) (b ∷ rhs) d e =
    (bit_or-zero d (bit_xor a b) (differences_start lhs rhs (bit_or d (bit_xor a b)) e)).0

differences-eq :
    (lhs rhs : List ℕ) (d : ℕ) → length lhs ≡ length rhs → differences lhs rhs d ≡ 0 → lhs ≡ rhs
unfolding differences
differences-eq [] [] d l e = refl
differences-eq [] (b ∷ rhs) d l e = absurd (omega arith)
differences-eq (a ∷ lhs) [] d l e = absurd (omega arith)
differences-eq (a ∷ lhs) (b ∷ rhs) d l e =
    let heads =
      bit_xor-zero a b
        (bit_or-zero d (bit_xor a b) (differences_start lhs rhs (bit_or d (bit_xor a b)) e)).1 in
    cc (heads, differences-eq lhs rhs (bit_or d (bit_xor a b)) (omega arith) e)

differences_self : (s : List ℕ) → differences s s 0 ≡ 0
unfolding differences
differences_self [] = refl
differences_self (a ∷ s) = rw (bit_xor_self a) (differences_self s)

-- The comparison in constant time is equality of texts.
pub constant_time_equal_iff :
    (lhs rhs : List ℕ) → (constant_time_equal lhs rhs ≡ true) ↔ (lhs ≡ rhs)
unfolding constant_time_equal
constant_time_equal_iff lhs rhs = (
  (λ e.
      let zeroed : differences lhs rhs (bit_xor (length lhs) (length rhs)) ≡ 0 =
        ground (arith, e) in
      differences-eq lhs rhs (bit_xor (length lhs) (length rhs))
        (bit_xor-zero _ _ (differences_start lhs rhs _ zeroed)) zeroed),
  (λ e. rw (← e, bit_xor_self (length lhs), differences_self lhs)),
)
