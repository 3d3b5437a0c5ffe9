-- ===== src/Resolver/Pending/Called.antt =====
-- dns/DnsResolver.cpp: the callbacks over `ResolveAsync`.
use socks5proxy_native.Prelude.{
  ℕ, ◌+◌, ◌≡◌, ◌≢◌, refl, sym, ◌∙◌, ap, Bool, true, false, not, ◌&&◌, ◌||◌, List, [], ◌∷◌, ◌++◌,
  Option, none, some, leb, ◌==◌, if◌then◌else◌, if-elim, Option-elim, length, lookup, insert,
  lookup-insert, lookup-insert_self, nat_eq, bytes_eq, ◌=?◌, arith,
}
use socks5proxy_native.Dns.Cache.{to_lower, try_get_cached}
use socks5proxy_native.Resolver.Pending.{
  DnsResolver, PendingQuery, Host, query_at, max_pending_queries, max_callbacks_per_query, called,
}
use socks5proxy_native.Resolver.Pending.Ids.{alloc_txid}
use socks5proxy_native.Resolver.Pending.Queries.{new_query, join_query, ask, resolve_async}
use socks5proxy_native.Resolver.Pending.Once.{
  count, callbacks_of, waits-insert, IsGood, At, insert-stands, insert-fresh, like-IsGood,
  alloc_txid-SameQueries,
}
use socks5proxy_native.Resolver.Pending.Conserves.{begin_udp_query-IsGood, query_at-old}

-- One more of a callback.
abbrev pub submitted : ℕ → (ℕ → ℕ) → ℕ → ℕ
submitted callback total c = (if callback == c then 1 else 0) + total c

append-count : (c : ℕ) (ds es : List ℕ) → count c (ds ++ es) ≡ count c ds + count c es
append-count c [] es = omega arith
append-count c (d ∷ ds) es = omega (arith, append-count c ds es)

module _ (total : ℕ → ℕ) (host : Host) where
  -- A callback that is answered at once.
  answered :
      (callback : ℕ) (address : Option (List ℕ)) (r : DnsResolver)
      → IsGood total r
      → IsGood (submitted callback total) (record r { events = called callback address ∷ r.events })
  answered callback address r g = record {
    counts = λ c. omega (arith, g.counts c);
    stands = g.stands;
    fresh = g.fresh;
  }

  join_query-IsGood :
      (ref : ℕ) (q : PendingQuery) (callback : ℕ) (use_cache : Bool) (r : DnsResolver)
      → At ref q r
      → IsGood total r
      → IsGood (submitted callback total) (join_query host ref q callback use_cache r)
  unfolding join_query
  join_query-IsGood ref q callback use_cache r p g =
      let joined : PendingQuery = record q {
        use_cache = q.use_cache && use_cache;
        callbacks = q.callbacks ++ (callback ∷ []);
      } in
      if-elim (IsGood (submitted callback total)) (leb max_callbacks_per_query (length q.callbacks))
        _ _ (λ _. answered callback none r g)
        (λ _. record {
          counts = λ c. omega (
            arith,
            g.counts c,
            waits-insert c ref joined r.queries,
            ap (count c) p.0,
            append-count c q.callbacks (callback ∷ []),
          );
          stands = λ domain j e. insert-stands ref j joined r.queries (g.stands domain j e);
          fresh = λ j h. insert-fresh ref j joined r.queries (omega (arith, h, p.1)) (g.fresh j h);
        })

  -- A new query that waits for one callback.
  added :
      (q : PendingQuery) (callback txid : ℕ) (r : DnsResolver)
      → q.callbacks ≡ callback ∷ []
      → IsGood total r
      → IsGood (submitted callback total) (record r {
        queries = insert r.next_query q r.queries;
        next_query = r.next_query + 1;
        by_id = insert txid r.next_query r.by_id;
        by_domain = insert q.domain r.next_query r.by_domain;
      })
  added q callback txid r one g = record {
    counts = λ c. omega (
      arith,
      g.counts c,
      waits-insert c r.next_query q r.queries,
      ap (λ o. count c (callbacks_of o)) (g.fresh r.next_query (omega arith)),
      ap (count c) one,
    );
    stands = λ domain j e.
        stands_still domain j (q.domain =? domain)
          (sym (lookup-insert q.domain domain r.next_query r.by_domain) ∙ e);
    fresh = λ j h.
        insert-fresh r.next_query j q r.queries (omega (arith, h)) (g.fresh j (omega (arith, h)));
  }
    where
      itself : (j : ℕ) → r.next_query ≡ j → lookup j (insert r.next_query q r.queries) ≢ none
      itself j e = λ h. let found = lookup-insert_self r.next_query q r.queries in absurd (cc)

      stands_still :
          (domain : List ℕ) (j : ℕ) (b : Bool)
          → (if b then some r.next_query else lookup domain r.by_domain) ≡ some j
          → lookup j (insert r.next_query q r.queries) ≢ none
      stands_still domain j true e = itself j (cc)
      stands_still domain j false e = insert-stands r.next_query j q r.queries (g.stands domain j e)

  new_query-IsGood :
      (domain : List ℕ) (callback : ℕ) (use_cache : Bool) (r : DnsResolver)
      → IsGood total r
      → IsGood (submitted callback total) (new_query host domain callback use_cache r)
  unfolding new_query
  new_query-IsGood domain callback use_cache r₀ g₀ =
      let same = alloc_txid-SameQueries host r₀ in
      let r = (alloc_txid host r₀).0 in
      let txid = (alloc_txid host r₀).1 in
      let g = like-IsGood total r₀ r same.told same.queries same.names same.next g₀ in
      let q : PendingQuery = record {
        domain = domain;
        txid = txid;
        qtype = 1;
        try_aaaa = host.output_ipv6_available;
        via_tcp = false;
        use_cache = use_cache;
        udp_attempts = 0;
        callbacks = callback ∷ [];
        timer_id = 0;
        has_tcp = false;
      } in
      begin_udp_query-IsGood (submitted callback total) host r.next_query q _
        (ap callbacks_of (lookup-insert_self r.next_query q r.queries), omega arith)
        (added q callback txid r refl g)

  -- A name leads to a query that stands.
  ask-IsGood :
      (domain : List ℕ) (callback : ℕ) (use_cache : Bool) (r : DnsResolver)
      → IsGood total r
      → IsGood (submitted callback total) (ask host domain callback use_cache r)
  unfolding ask
  ask-IsGood domain callback use_cache r g = known (lookup domain r.by_domain) refl
    where
      standing :
          (ref : ℕ) (o : Option PendingQuery)
          → query_at ref r ≡ o
          → lookup domain r.by_domain ≡ some ref
          → IsGood
              (submitted callback total)
              (elim o [ none ↦ r | some q ↦ join_query host ref q callback use_cache r ])
      standing ref none e d = absurd (g.stands domain ref d e)
      standing ref (some q) e d =
          join_query-IsGood ref q callback use_cache r
            (ap callbacks_of e, query_at-old total r g ref q e) g

      known :
          (o : Option ℕ)
          → lookup domain r.by_domain ≡ o
          → IsGood (submitted callback total) (elim o [
            | some ref ↦ elim (query_at ref r) [
              | none ↦ r
              | some q ↦ join_query host ref q callback use_cache r
            ]
            | none ↦
                if leb max_pending_queries (length r.by_domain)
                then record r { events = called callback none ∷ r.events }
                else new_query host domain callback use_cache r
          ])
      known (some ref) d = standing ref (query_at ref r) refl d
      known none d =
          if-elim (IsGood (submitted callback total)) (leb max_pending_queries (length r.by_domain))
            _ _ (λ _. answered callback none r g)
            (λ _. new_query-IsGood domain callback use_cache r g)

  pub resolve_async-IsGood :
      (domain : List ℕ) (callback : ℕ) (use_cache : Bool) (now : ℕ) (r : DnsResolver)
      → IsGood total r
      → IsGood (submitted callback total) (resolve_async host domain callback use_cache now r)
  unfolding resolve_async
  resolve_async-IsGood domain_raw callback use_cache now r g =
      let domain = to_lower domain_raw in
      if-elim (IsGood (submitted callback total))
        ((length domain_raw == 0) || (r.stopping || not r.is_started)) _ _
        (λ _. answered callback none r g)
        (λ _.
          Option-elim (IsGood (submitted callback total))
            (if use_cache then try_get_cached r.cache domain now else none) _ _
            (ask-IsGood domain callback use_cache r g) (λ address. answered callback address r g))
