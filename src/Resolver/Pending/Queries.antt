-- ===== src/Resolver/Pending/Queries.antt =====
-- dns/DnsResolver.cpp: `ResolveAsync` and what becomes of a query. Times are milliseconds of the steady
-- clock, for the cache.
use socks5proxy_native.Prelude.{
  ℕ, ◌+◌, Bool, true, false, not, ◌&&◌, ◌||◌, List, [], ◌∷◌, ◌++◌, Option, none, some, ltb, leb,
  ◌==◌, if◌then◌else◌, length, lookup, insert, erase, nat_eq, bytes_eq,
}
use socks5proxy_native.Outcome.{Outcome, ok}
use socks5proxy_native.Dns.Query.{build_query}
use socks5proxy_native.Dns.Response.{DnsResult, invalid}
use socks5proxy_native.Dns.Cache.{to_lower, try_get_cached, cache_result}
use socks5proxy_native.Resolver.Pending.{
  DnsResolver, PendingQuery, Host, called, start_tcp_query, query_at, put_query, call_all,
  cancel_timer, arm_timer, max_udp_attempts, max_pending_queries, max_callbacks_per_query,
}
use socks5proxy_native.Resolver.Pending.Ids.{alloc_txid}
use socks5proxy_native.Resolver.Pending.Sends.{enqueue_udp_send}

abbrev pub has : {A : Type 0} → Option A → Bool
has none = false
has (some a) = true

-- The query leaves both maps, and its callbacks are taken out and called.
unfoldable pub release_query : ℕ → PendingQuery → Option (List ℕ) → DnsResolver → DnsResolver
release_query ref q address r = record (put_query ref (record q { callbacks = [] }) r) {
  by_id = erase q.txid r.by_id;
  by_domain = erase q.domain r.by_domain;
  events = call_all q.callbacks address r.events;
}

module _ (host : Host) where
  -- With the packet built. A timer that cannot be set ends the query.
  unfoldable pub send_udp_query : ℕ → PendingQuery → Outcome (List ℕ) → DnsResolver → DnsResolver
  unfolding release_query arm_timer
  send_udp_query ref q (ok query) r =
      let (armed, set) = arm_timer host ref q r in
      if set
      then enqueue_udp_send host query armed
      else release_query ref (record q { timer_id = 0 }) none armed
  send_udp_query ref q _ r = release_query ref q none r

  unfoldable pub begin_udp_query : ℕ → PendingQuery → DnsResolver → DnsResolver
  unfolding send_udp_query
  begin_udp_query ref q₀ r =
      let q = record q₀ { via_tcp = false; udp_attempts = q₀.udp_attempts + 1 } in
      send_udp_query ref q (build_query q.domain q.txid q.qtype) (put_query ref q r)

  -- A query `q` under a new id.
  unfoldable pub renew_query : ℕ → PendingQuery → DnsResolver → DnsResolver
  unfolding begin_udp_query
  renew_query ref q r₀ =
      let (r, txid) = alloc_txid host (record r₀ { by_id = erase q.txid r₀.by_id }) in
      begin_udp_query ref (record q { txid = txid; has_tcp = false })
        (record r { by_id = insert txid ref r.by_id })

  -- `FinishQuery`, for the query `q` that stands at `ref`.
  unfoldable pub finish_query : ℕ → PendingQuery → DnsResult → ℕ → DnsResolver → DnsResolver
  unfolding release_query cancel_timer
  finish_query ref q result now r =
      let cached =
        if q.use_cache
        then cache_result host.cache_order r.cache q.domain result now
        else r.cache in
      record (release_query ref (record q { timer_id = 0; has_tcp = false }) result.address
        (cancel_timer ref q r)) { cache = cached }

  -- With the packet built.
  unfoldable pub send_tcp_query :
      ℕ → PendingQuery → Outcome (List ℕ) → ℕ → DnsResolver → DnsResolver
  unfolding finish_query arm_timer
  send_tcp_query ref q₀ (ok query) now r =
      let q = record q₀ { via_tcp = true } in
      let (armed, set) = arm_timer host ref q r in
      let timer = host.schedules r.posts in
      let p = record q { timer_id = timer; has_tcp = true } in
      let begun = record (put_query ref p armed) {
        posts = armed.posts + 1;
        events = start_tcp_query q.txid query ∷ armed.events;
      } in
      if not set
      then finish_query ref (record q { timer_id = timer }) invalid now armed
      else if host.starts_tcp armed.posts
      then begun
      else finish_query ref p invalid now begun
  send_tcp_query ref q _ now r = finish_query ref q invalid now r

  unfoldable pub start_tcp_fallback : ℕ → PendingQuery → ℕ → DnsResolver → DnsResolver
  unfolding send_tcp_query
  start_tcp_fallback ref q now r = send_tcp_query ref q (build_query q.domain q.txid q.qtype) now r

  -- From the cancelled timer on.
  unfoldable pub take_result :
      ℕ → PendingQuery → DnsResult → Bool → Bool → ℕ → DnsResolver → DnsResolver
  unfolding renew_query start_tcp_fallback
  take_result ref q result from_tcp is_timeout now r =
      if is_timeout && (not from_tcp && not q.via_tcp)
      then (if ltb q.udp_attempts max_udp_attempts
          then renew_query ref q r
          else start_tcp_fallback ref q now r)
      else if not from_tcp && result.truncated
      then (if has result.address
          then finish_query ref q result now r
          else start_tcp_fallback ref q now r)
      else if result.from_network
          && (not (has result.address) && (q.try_aaaa && ((q.qtype == 1) && not result.truncated)))
      then renew_query ref (record q { qtype = 28; try_aaaa = false; udp_attempts = 0 }) r
      else finish_query ref q result now r

  unfoldable pub on_query_result : ℕ → DnsResult → Bool → Bool → ℕ → DnsResolver → DnsResolver
  unfolding take_result cancel_timer
  on_query_result txid result from_tcp is_timeout now r = elim (lookup txid r.by_id) [
    | none ↦ r
    | some ref ↦ elim (query_at ref r) [
      | none ↦ r
      | some q ↦
          if not from_tcp && (not is_timeout && q.via_tcp)
          then r
          else take_result ref (record q { timer_id = 0 }) result from_tcp is_timeout now
              (cancel_timer ref q r)
    ]
  ]

  -- The cache is asked first, then the queries under way. A new query has the next number.
  unfoldable pub new_query : List ℕ → ℕ → Bool → DnsResolver → DnsResolver
  unfolding begin_udp_query
  new_query domain callback use_cache r₀ =
      let (r, txid) = alloc_txid host r₀ in
      let q : PendingQuery = record {
        domain = domain;
        txid = txid;
        qtype = 1;
        try_aaaa = host.output_ipv6_available;
        via_tcp = false;
        use_cache = use_cache;
        udp_attempts = 0;
        callbacks = callback ∷ [];
        timer_id = 0;
        has_tcp = false;
      } in
      begin_udp_query r.next_query q (record r {
        queries = insert r.next_query q r.queries;
        next_query = r.next_query + 1;
        by_id = insert txid r.next_query r.by_id;
        by_domain = insert domain r.next_query r.by_domain;
      })

  abbrev answer : ℕ → Option (List ℕ) → DnsResolver → DnsResolver
  answer callback address r = record r { events = called callback address ∷ r.events }

  -- A query under way takes one more callback.
  unfoldable pub join_query : ℕ → PendingQuery → ℕ → Bool → DnsResolver → DnsResolver
  join_query ref q callback use_cache r =
      if leb max_callbacks_per_query (length q.callbacks)
      then answer callback none r
      else put_query ref
          (record q {
            use_cache = q.use_cache && use_cache;
            callbacks = q.callbacks ++ (callback ∷ []);
          })
          r

  unfoldable pub ask : List ℕ → ℕ → Bool → DnsResolver → DnsResolver
  unfolding new_query join_query
  ask domain callback use_cache r = elim (lookup domain r.by_domain) [
    | some ref ↦ elim (query_at ref r) [ none ↦ r | some q ↦ join_query ref q callback use_cache r ]
    | none ↦
        if leb max_pending_queries (length r.by_domain)
        then answer callback none r
        else new_query domain callback use_cache r
  ]

  unfoldable pub resolve_async : List ℕ → ℕ → Bool → ℕ → DnsResolver → DnsResolver
  unfolding ask
  resolve_async domain_raw callback use_cache now r =
      let domain = to_lower domain_raw in
      if (length domain_raw == 0) || (r.stopping || not r.is_started)
      then answer callback none r
      else elim (if use_cache then try_get_cached r.cache domain now else none) [
        | some address ↦ answer callback address r
        | none ↦ ask domain callback use_cache r
      ]
