-- ===== src/Dns/Cache/Laws.antt =====
-- dns/DnsClient.cpp: lookups after `Cache`.
use socks5proxy_native.Prelude.{
  ℕ, ◌+◌, ◌-◌, ◌*◌, ◌≤◌, ◌<◌, ◌≡◌, ◌≢◌, true, List, none, some, ltb, if◌then◌else◌, length,
  length-drop, bytes_eq, same_bytes_iff, lookup-insert, lookup-insert_self, length-insert, arith,
}
use socks5proxy_native.Dns.Response.{DnsResult}
use socks5proxy_native.Dns.Cache.{
  Table, drop_front, stored, to_lower, kept_for, try_get_cached, make_room, cache_result,
}

length-drop_front : (cache : Table) → length (drop_front cache) ≡ length cache - 1000
unfolding drop_front
length-drop_front cache = length-drop 1000 cache

length-make_room :
    (order : Table → Table) (cache : Table)
    → length (order cache) ≡ length cache
    → length cache ≤ 10000
    → length (make_room order cache) < 10000
unfolding make_room
length-make_room order cache o h = ground (arith, length-drop_front (order cache))

module _ (order : Table → Table) (cache : Table) where
  -- After `Cache` has stored a network result for a name that is not empty, a lookup under any spelling of
  -- the name with other letter case returns the result's address until its time is over, and is a miss
  -- from then on.
  pub try_get_cached-cache_result :
      (domain spelling : List ℕ) (r : DnsResult) (now later : ℕ)
      → r.from_network ≡ true
      → 0 < length domain
      → 0 < length spelling
      → to_lower spelling ≡ to_lower domain
      → try_get_cached (cache_result order cache domain r now) spelling later
        ≡ (if ltb later (now + kept_for r * 1000) then some r.address else none)
  unfolding try_get_cached cache_result
  try_get_cached-cache_result domain spelling r now later f d s e =
      ground (arith, lookup-insert_self (to_lower domain) (stored r now) (make_room order cache))

  -- Storing a result keeps a table of at most 10000 entries so, where iteration visits each entry once.
  pub length-cache_result :
      (domain : List ℕ) (r : DnsResult) (now : ℕ)
      → length (order cache) ≡ length cache
      → length cache ≤ 10000
      → length (cache_result order cache domain r now) ≤ 10000
  unfolding cache_result
  length-cache_result domain r now o h = ground (
    arith,
    length-make_room order cache o,
    length-insert (to_lower domain) (stored r now) (make_room order cache),
  )

  -- Below 10000 entries, storing a result changes no lookup of a name that differs by more than letter
  -- case.
  pub try_get_cached-cache_result_ne :
      (domain other : List ℕ) (r : DnsResult) (now later : ℕ)
      → length cache < 10000
      → to_lower domain ≢ to_lower other
      → try_get_cached (cache_result order cache domain r now) other later
        ≡ try_get_cached cache other later
  unfolding try_get_cached cache_result make_room
  try_get_cached-cache_result_ne domain other r now later h ne = ground (
    arith,
    lookup-insert (to_lower domain) (to_lower other) (stored r now) cache,
    same_bytes_iff (to_lower domain) (to_lower other),
  )
