-- ===== src/Resolver/Pending/Ids/Laws.antt =====
-- dns/DnsResolver.cpp, `AllocTxidLocked`: an id is found.
use socks5proxy_native.Prelude.{
  ℕ, zero, suc, ◌+◌, ◌%◌, ◌^◌, ◌≤◌, ◌<◌, ◌≡◌, ◌≢◌, refl, sym, ap, Bool, true, false, List, [], ◌∷◌,
  Option, none, some, length, lookup, nat_eq, ◌==◌, if◌then◌else◌, Bool-cases, inl, inr, arith,
}
use socks5proxy_native.Resolver.Pending.{Host, DnsResolver}
use socks5proxy_native.Resolver.Pending.Ids.{
  is_free, id_or_zero, random_id, sequence_id, from_sequence, alloc_txid,
}

-- How often the counter is at an id in `n` rounds from `s` on.
abbrev hits : ℕ → ℕ → ℕ → ℕ
hits id zero s = 0
hits id (suc n) s = (if (s % 65536) == id then 1 else 0) + hits id n (s + 1)

-- How often it is at an id that is not free.
abbrev misses : List (ℕ × ℕ) → ℕ → ℕ → ℕ
misses by_id zero s = 0
misses by_id (suc n) s = (if is_free (s % 65536) by_id then 0 else 1) + misses by_id n (s + 1)

away : (id n s d : ℕ) → s % 65536 ≡ id → 1 ≤ d → d + n ≤ 65536 → hits id n (s + d) ≡ 0
away id zero s d at_id h k = refl
away id (suc n) s d at_id h k =
    let rest = away id n s (d + 1) at_id (omega arith) (omega (arith, k)) in
    let same = ap (hits id n) (next s d) in
    let apart : (s + d) % 65536 ≢ id = λ e. omega (arith, at_id, e, h, k) in
    ground (arith, rest, same, apart)
  where
    next : (a b : ℕ) → (a + b) + 1 ≡ a + (b + 1)
    next a b = omega arith

hits_once : (id n s : ℕ) → n ≤ 65536 → hits id n s ≤ 1
hits_once id zero s h = omega arith
hits_once id (suc n) s h = elim (Bool-cases ((s % 65536) == id)) [
  | inl here ↦
      let at_id : s % 65536 ≡ id = ground (arith, here) in
      ground (arith, here, away id n s 1 at_id (omega arith) (omega (arith, h)))
  | inr elsewhere ↦ ground (arith, elsewhere, hits_once id n (s + 1) (omega (arith, h)))
]

misses_none : (n s : ℕ) → misses [] n s ≤ hits 0 n s
unfolding lookup
misses_none zero s = omega arith
misses_none (suc n) s = ground (arith, misses_none n (s + 1))

misses_more :
    (id ref : ℕ) (by_id : List (ℕ × ℕ)) (n s : ℕ)
    → misses ((id, ref) ∷ by_id) n s ≤ hits id n s + misses by_id n s
unfolding lookup
misses_more id ref by_id zero s = omega arith
misses_more id ref by_id (suc n) s = ground (arith, misses_more id ref by_id n (s + 1))

misses_few : (by_id : List (ℕ × ℕ)) (n s : ℕ) → n ≤ 65536 → misses by_id n s ≤ length by_id + 1
misses_few [] n s h = omega (arith, misses_none n s, hits_once 0 n s h)
misses_few ((id, ref) ∷ by_id) n s h =
    omega (arith, misses_more id ref by_id n s, hits_once id n s h, misses_few by_id n s h)

sequence_found :
    (n t s : ℕ) (by_id : List (ℕ × ℕ))
    → t % 65536 ≡ s % 65536
    → misses by_id n s < n
    → is_free (id_or_zero (sequence_id n t by_id).1) by_id ≡ true
unfolding sequence_id
sequence_found zero t s by_id e h = absurd (omega (arith, h))
sequence_found (suc n) t s by_id e h = go (is_free (t % 65536) by_id) refl (λ taken.
    let taken_here : is_free (s % 65536) by_id ≡ false = rw (sym e) taken in
    sequence_found n ((t + 1) % 2 ^ 32) (s + 1) by_id (omega (arith, e))
      (ground (arith, h, taken_here)))
  where
    go :
        (b : Bool)
        → is_free (t % 65536) by_id ≡ b
        → (is_free (t % 65536) by_id ≡ false
            → is_free (id_or_zero (sequence_id n ((t + 1) % 2 ^ 32) by_id).1) by_id ≡ true)
        → is_free
            (id_or_zero
              (elim b as (λ x. ℕ × Option ℕ) [
                | true ↦ ((t + 1) % 2 ^ 32, some (t % 65536))
                | false ↦ sequence_id n ((t + 1) % 2 ^ 32) by_id
              ]).1)
            by_id
          ≡ true
    go true free later = free
    go false taken later = later taken

random_found :
    (generate : ℕ → ℕ) (fuel draws : ℕ) (by_id : List (ℕ × ℕ)) (id : ℕ)
    → (random_id generate fuel draws by_id).1 ≡ some id
    → is_free id by_id ≡ true
unfolding random_id
random_found generate zero draws by_id id e = absurd (cc)
random_found generate (suc fuel) draws by_id id e₀ =
    go (is_free (generate draws) by_id) refl
      (λ e. random_found generate fuel (draws + 1) by_id id e) e₀
  where
    go :
        (b : Bool)
        → is_free (generate draws) by_id ≡ b
        → ((random_id generate fuel (draws + 1) by_id).1 ≡ some id → is_free id by_id ≡ true)
        → (elim b as (λ x. ℕ × Option ℕ) [
          | true ↦ (draws + 1, some (generate draws))
          | false ↦ random_id generate fuel (draws + 1) by_id
        ]).1
          ≡ some id
        → is_free id by_id ≡ true
    go true free later e = let same : generate draws ≡ id = cc in rw (sym same) free
    go false taken later e = later e

from_sequence_found :
    (r : DnsResolver) → length r.by_id ≤ 65534 → is_free (from_sequence r).1 r.by_id ≡ true
unfolding from_sequence
from_sequence_found r h =
    sequence_found (length r.by_id + 2) r.id_seq r.id_seq r.by_id refl
      (omega (arith, misses_few r.by_id (length r.by_id + 2) r.id_seq (omega (arith, h))))

-- With at most 65534 ids in use, whatever is drawn and whatever the counter is: the id given is not 0 and
-- not in use.
pub alloc_txid-is_free :
    (host : Host) (r : DnsResolver)
    → length r.by_id ≤ 65534
    → is_free (alloc_txid host r).1 r.by_id ≡ true
unfolding alloc_txid
alloc_txid-is_free host r h =
    go (random_id host.generate_id 10000 r.draws r.by_id).1
      (random_found host.generate_id 10000 r.draws r.by_id)
  where
    go :
        (found : Option ℕ)
        → ((id : ℕ) → found ≡ some id → is_free id r.by_id ≡ true)
        → is_free
            (elim found as (λ x. DnsResolver × ℕ) [
              | some id ↦
                  (record r { draws = (random_id host.generate_id 10000 r.draws r.by_id).0 }, id)
              | none ↦ from_sequence r
            ]).1
            r.by_id
          ≡ true
    go none free = from_sequence_found r h
    go (some id) free = free id refl
