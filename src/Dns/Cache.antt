-- ===== src/Dns/Cache.antt =====
-- dns/DnsClient.cpp, `TryGetCached` and `Cache`. The map is an association list in its order of
-- iteration, which `std::unordered_map` leaves open: where entries are dropped from the front, that
-- order is a parameter. Times are milliseconds of the steady clock, arguments of each call.
pub mod Laws
use socks5proxy_native.Prelude.{
  ℕ, ◌+◌, ◌*◌, Bool, true, false, not, ◌&&◌, List, [], ◌∷◌, map, Option, none, some, ltb, leb, ◌==◌,
  if◌then◌else◌, length, drop, Eq, bytes_eq, lookup, insert,
}
use socks5proxy_native.Dns.Response.{DnsResult}

-- `std::tolower` in the "C" locale.
unfoldable pub lower : ℕ → ℕ
lower c = if leb b'A' c && leb c b'Z' then c + 32 else c

unfoldable pub to_lower : List ℕ → List ℕ
unfolding lower
to_lower s = map lower s

pub record CacheEntry : Type 0 where
  pub address : Option (List ℕ)
  pub expiry_ms : ℕ
  pub negative : Bool

abbrev pub Table : Type 0
Table = List (List ℕ × CacheEntry)

read_entry : ℕ → CacheEntry → Option (Option (List ℕ))
read_entry now e =
    if leb e.expiry_ms now then none else if e.negative then some none else some e.address

-- The outer `none` is a miss, the inner one a negative entry.
unfoldable pub try_get_cached : Table → List ℕ → ℕ → Option (Option (List ℕ))
unfolding read_entry
try_get_cached cache domain_raw now =
    if length domain_raw == 0
    then none
    else elim (lookup (to_lower domain_raw) cache) [ none ↦ none | some e ↦ read_entry now e ]

abbrev is_none : Option (List ℕ) → Bool
is_none none = true
is_none (some a) = false

-- Seconds that a result is kept.
unfoldable pub kept_for : DnsResult → ℕ
kept_for r = if is_none r.address then 5 else if ltb 0 r.ttl then r.ttl else 30

abbrev pub stored : DnsResult → ℕ → CacheEntry
stored r now = record {
  address = r.address;
  expiry_ms = now + kept_for r * 1000;
  negative = is_none r.address;
}

-- The loop that erases from `begin()`, 1000 times at most.
drop_front : Table → Table
drop_front cache = drop 1000 cache

module _ (order : Table → Table) where
  -- A full table loses the first 1000 entries of its iteration.
  pub make_room : Table → Table
  make_room cache = if leb 10000 (length cache) then drop_front (order cache) else cache

  pub cache_result : Table → List ℕ → DnsResult → ℕ → Table
  cache_result cache domain_raw result now =
      if not result.from_network
      then cache
      else if length domain_raw == 0
      then cache
      else insert (to_lower domain_raw) (stored result now) (make_room cache)
