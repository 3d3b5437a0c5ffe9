-- ===== src/Resolver/Pending/Ids.antt =====
-- dns/DnsResolver.cpp, `AllocTxidLocked`.
pub mod Laws
use socks5proxy_native.Prelude.{
  ℕ, zero, suc, ◌+◌, ◌%◌, ◌^◌, Bool, true, false, not, ◌&&◌, List, Option, none, some, length,
  lookup, nat_eq, ◌==◌,
}
use socks5proxy_native.Resolver.Pending.{Host, DnsResolver}

abbrev pub is_none : Option ℕ → Bool
is_none none = true
is_none (some ref) = false

abbrev pub is_free : ℕ → List (ℕ × ℕ) → Bool
is_free id by_id = not (id == 0) && is_none (lookup id by_id)

-- The first loop: the draws made, and the id if one was free.
unfoldable pub random_id : (ℕ → ℕ) → ℕ → ℕ → List (ℕ × ℕ) → ℕ × Option ℕ
random_id generate zero draws by_id = (draws, none)
random_id generate (suc fuel) draws by_id = elim (is_free (generate draws) by_id) [
  | true ↦ (draws + 1, some (generate draws))
  | false ↦ random_id generate fuel (draws + 1) by_id
]

-- The second loop, on fuel: the counter of 32 bits is cut to 16.
unfoldable pub sequence_id : ℕ → ℕ → List (ℕ × ℕ) → ℕ × Option ℕ
sequence_id zero seq by_id = (seq, none)
sequence_id (suc fuel) seq by_id = elim (is_free (seq % 65536) by_id) [
  | true ↦ ((seq + 1) % 2 ^ 32, some (seq % 65536))
  | false ↦ sequence_id fuel ((seq + 1) % 2 ^ 32) by_id
]

abbrev pub id_or_zero : Option ℕ → ℕ
id_or_zero none = 0
id_or_zero (some id) = id

-- The ids are spent, and the counter is asked. Two more rounds are made than ids are in use.
unfoldable pub from_sequence : DnsResolver → DnsResolver × ℕ
from_sequence r =
    let (seq, found) = sequence_id (length r.by_id + 2) r.id_seq r.by_id in
    (record r { draws = r.draws + 10000; id_seq = seq }, id_or_zero found)

unfoldable pub alloc_txid : Host → DnsResolver → DnsResolver × ℕ
unfolding from_sequence
alloc_txid host r =
    let (draws, found) = random_id host.generate_id 10000 r.draws r.by_id in
    elim found [ some id ↦ (record r { draws = draws }, id) | none ↦ from_sequence r ]
