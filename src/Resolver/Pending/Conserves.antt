-- ===== src/Resolver/Pending/Conserves.antt =====
-- dns/DnsResolver.cpp: the routines of a query, and the callbacks it has.
use socks5proxy_native.Prelude.{
  ℕ, ◌+◌, ◌≡◌, refl, ap, inl, inr, Bool, true, false, not, ◌&&◌, ◌||◌, List, [], ◌∷◌, ◌++◌, Option,
  none, some, ltb, leb, ltb→lt, Bool-cases, ◌<◌, ◌==◌, if◌then◌else◌, if-elim, Option-elim, length,
  lookup, insert, erase, lookup-insert_self, nat_eq, bytes_eq, arith,
}
use socks5proxy_native.Outcome.{Outcome, ok, throws, fault, stuck}
use socks5proxy_native.Dns.Query.{build_query}
use socks5proxy_native.Dns.Response.{DnsResult, invalid}
use socks5proxy_native.Resolver.Pending.{
  DnsResolver, PendingQuery, Host, query_at, put_query, cancel_timer, arm_timer, max_udp_attempts,
  max_pending_sends, start_tcp_query,
}
use socks5proxy_native.Resolver.Pending.Ids.{alloc_txid}
use socks5proxy_native.Resolver.Pending.Sends.{pump_loop, enqueue_udp_send}
use socks5proxy_native.Resolver.Pending.Queries.{
  has, release_query, send_udp_query, begin_udp_query, renew_query, finish_query, send_tcp_query,
  start_tcp_fallback, take_result, on_query_result,
}
use socks5proxy_native.Resolver.Pending.Once.{
  calls, callbacks_of, IsGood, At, put_query-IsGood, like-IsGood, release_query-IsGood,
  calls-cancelled, pump_loop-SameQueries, alloc_txid-SameQueries,
}

-- The callbacks are accounted for, and the query stands with those of `q`.
pub record Holds (total : ℕ → ℕ) (ref : ℕ) (q : PendingQuery) (r : DnsResolver) : Type 0 where
  pub good : IsGood total r
  pub place : At ref q r

module _ (total : ℕ → ℕ) (host : Host) (ref : ℕ) where
  put_query-Holds :
      (q : PendingQuery) (r : DnsResolver)
      → Holds total ref q r
      → Holds total ref q (put_query ref q r)
  put_query-Holds q r h = record {
    good = put_query-IsGood total ref q r h.place h.good;
    place = (ap callbacks_of (lookup-insert_self ref q r.queries), h.place.1);
  }

  -- Only the state around the queries changes.
  around :
      (q : PendingQuery) (r s : DnsResolver)
      → ((c : ℕ) → calls c s.events ≡ calls c r.events)
      → s.queries ≡ r.queries
      → s.by_domain ≡ r.by_domain
      → s.next_query ≡ r.next_query
      → Holds total ref q r
      → Holds total ref q s
  around q r s e p d n h = record {
    good = like-IsGood total r s e p d n h.good;
    place = rw (p, n) h.place;
  }

  pub cancel_timer-Holds :
      (q : PendingQuery) (r : DnsResolver)
      → Holds total ref q r
      → Holds total ref q (cancel_timer ref q r)
  unfolding cancel_timer
  cancel_timer-Holds q r h =
      let quiet : PendingQuery = record q { timer_id = 0 } in
      let put = put_query-Holds quiet r (record { good = h.good; place = h.place }) in
      around q (put_query ref quiet r) _ (λ c. calls-cancelled q.timer_id c r.events) refl refl refl
        (record { good = put.good; place = put.place })

  arm_timer-Holds :
      (q : PendingQuery) (r : DnsResolver)
      → Holds total ref q r
      → Holds total ref q (arm_timer host ref q r).0
  unfolding arm_timer
  arm_timer-Holds q r h =
      let off = cancel_timer-Holds q r h in
      let armed : PendingQuery = record q { timer_id = host.schedules r.posts } in
      let put =
        put_query-Holds armed (cancel_timer ref q r)
          (record { good = off.good; place = off.place }) in
      around q (put_query ref armed (cancel_timer ref q r)) _ (λ c. refl) refl refl refl
        (record { good = put.good; place = put.place })

  enqueue-IsGood :
      (query : List ℕ) (r : DnsResolver)
      → IsGood total r
      → IsGood total (enqueue_udp_send host query r)
  unfolding enqueue_udp_send
  enqueue-IsGood query r g =
      if-elim (IsGood total) (not r.socket_open || leb max_pending_sends (length r.pending_sends)) _
        _ (λ _. g)
        (λ _.
          let more = pump_loop-SameQueries host (r.pending_sends ++ (query ∷ [])) r in
          like-IsGood total r (pump_loop host (r.pending_sends ++ (query ∷ [])) r) more.told
            more.queries more.names more.next g)

  send_udp_query-IsGood :
      (q : PendingQuery) (packet : Outcome (List ℕ)) (r : DnsResolver)
      → Holds total ref q r
      → IsGood total (send_udp_query host ref q packet r)
  unfolding send_udp_query
  send_udp_query-IsGood q (ok query) r h =
      let armed = arm_timer-Holds q r h in
      if-elim (IsGood total) (arm_timer host ref q r).1 _ _
        (λ _. enqueue-IsGood query (arm_timer host ref q r).0 armed.good)
        (λ _.
          release_query-IsGood total ref (record q { timer_id = 0 }) none (arm_timer host ref q r).0
            armed.place armed.good)
  send_udp_query-IsGood q throws r h = release_query-IsGood total ref q none r h.place h.good
  send_udp_query-IsGood q fault r h = release_query-IsGood total ref q none r h.place h.good
  send_udp_query-IsGood q stuck r h = release_query-IsGood total ref q none r h.place h.good

  pub begin_udp_query-IsGood :
      (q : PendingQuery) (r : DnsResolver)
      → At ref q r
      → IsGood total r
      → IsGood total (begin_udp_query host ref q r)
  unfolding begin_udp_query
  begin_udp_query-IsGood q₀ r p g =
      let q : PendingQuery = record q₀ { via_tcp = false; udp_attempts = q₀.udp_attempts + 1 } in
      send_udp_query-IsGood q (build_query q.domain q.txid q.qtype) (put_query ref q r)
        (put_query-Holds q r (record { good = g; place = p }))

  renew_query-IsGood :
      (q : PendingQuery) (r : DnsResolver)
      → At ref q r
      → IsGood total r
      → IsGood total (renew_query host ref q r)
  unfolding renew_query
  renew_query-IsGood q r p g =
      let erased : DnsResolver = record r { by_id = erase q.txid r.by_id } in
      let same = alloc_txid-SameQueries host erased in
      let s = (alloc_txid host erased).0 in
      let txid = (alloc_txid host erased).1 in
      let h =
        around q r (record s { by_id = insert txid ref s.by_id }) same.told same.queries same.names
          same.next (record { good = g; place = p }) in
      begin_udp_query-IsGood (record q { txid = txid; has_tcp = false })
        (record s { by_id = insert txid ref s.by_id }) h.place h.good

  pub finish_query-IsGood :
      (q : PendingQuery) (result : DnsResult) (now : ℕ) (r : DnsResolver)
      → At ref q r
      → IsGood total r
      → IsGood total (finish_query host ref q result now r)
  unfolding finish_query
  finish_query-IsGood q result now r p g =
      let quiet = cancel_timer-Holds q r (record { good = g; place = p }) in
      let done : PendingQuery = record q { timer_id = 0; has_tcp = false } in
      like-IsGood total (release_query ref done result.address (cancel_timer ref q r)) _ (λ c. refl)
        refl refl refl
        (release_query-IsGood total ref done result.address (cancel_timer ref q r) quiet.place
          quiet.good)

  send_tcp_query-IsGood :
      (q : PendingQuery) (packet : Outcome (List ℕ)) (now : ℕ) (r : DnsResolver)
      → At ref q r
      → IsGood total r
      → IsGood total (send_tcp_query host ref q packet now r)
  unfolding send_tcp_query
  send_tcp_query-IsGood q₀ (ok query) now r at_ref g =
      let q : PendingQuery = record q₀ { via_tcp = true } in
      let armed = arm_timer-Holds q r (record { good = g; place = at_ref }) in
      let s = (arm_timer host ref q r).0 in
      let p : PendingQuery = record q { timer_id = host.schedules r.posts; has_tcp = true } in
      let put = put_query-Holds p s (record { good = armed.good; place = armed.place }) in
      let begun : DnsResolver = record (put_query ref p s) {
        posts = s.posts + 1;
        events = start_tcp_query q.txid query ∷ s.events;
      } in
      let running = around p (put_query ref p s) begun (λ c. refl) refl refl refl put in
      if-elim (IsGood total) (not (arm_timer host ref q r).1) _ _
        (λ _.
          finish_query-IsGood (record q { timer_id = host.schedules r.posts }) invalid now s
            armed.place armed.good)
        (λ _.
          if-elim (IsGood total) (host.starts_tcp s.posts) _ _ (λ _. running.good)
            (λ _. finish_query-IsGood p invalid now begun running.place running.good))
  send_tcp_query-IsGood q throws now r p g = finish_query-IsGood q invalid now r p g
  send_tcp_query-IsGood q fault now r p g = finish_query-IsGood q invalid now r p g
  send_tcp_query-IsGood q stuck now r p g = finish_query-IsGood q invalid now r p g

  pub start_tcp_fallback-IsGood :
      (q : PendingQuery) (now : ℕ) (r : DnsResolver)
      → At ref q r
      → IsGood total r
      → IsGood total (start_tcp_fallback host ref q now r)
  unfolding start_tcp_fallback
  start_tcp_fallback-IsGood q now r p g =
      send_tcp_query-IsGood q (build_query q.domain q.txid q.qtype) now r p g

  take_result-IsGood :
      (q : PendingQuery) (result : DnsResult) (from_tcp is_timeout : Bool) (now : ℕ)
      (r : DnsResolver)
      → At ref q r
      → IsGood total r
      → IsGood total (take_result host ref q result from_tcp is_timeout now r)
  unfolding take_result
  take_result-IsGood q result from_tcp is_timeout now r p g =
      let finished = finish_query-IsGood q result now r p g in
      let over_tcp = start_tcp_fallback-IsGood q now r p g in
      let six : PendingQuery = record q { qtype = 28; try_aaaa = false; udp_attempts = 0 } in
      if-elim (IsGood total) (is_timeout && (not from_tcp && not q.via_tcp)) _ _
        (λ _.
          if-elim (IsGood total) (ltb q.udp_attempts max_udp_attempts) _ _
            (λ _. renew_query-IsGood q r p g) (λ _. over_tcp))
        (λ _.
          if-elim (IsGood total) (not from_tcp && result.truncated) _ _
            (λ _. if-elim (IsGood total) (has result.address) _ _ (λ _. finished) (λ _. over_tcp))
            (λ _.
              if-elim (IsGood total)
                (result.from_network
                  && (not (has result.address)
                      && (q.try_aaaa && ((q.qtype == 1) && not result.truncated))))
                _ _ (λ _. renew_query-IsGood six r p g) (λ _. finished)))

-- A query that is found has been made before.
pub query_at-old :
    (total : ℕ → ℕ) (r : DnsResolver)
    → IsGood total r
    → (ref : ℕ) (q : PendingQuery) → query_at ref r ≡ some q
    → ref < r.next_query
query_at-old total r g ref q e = elim (Bool-cases (ltb ref r.next_query)) [
  | inl old ↦ ltb→lt ref r.next_query old
  | inr new ↦ let none_there = g.fresh ref (ground (arith, new)) in absurd (cc)
]

pub on_query_result-IsGood :
    (total : ℕ → ℕ) (host : Host) (txid : ℕ) (result : DnsResult) (from_tcp is_timeout : Bool)
    (now : ℕ) (r : DnsResolver)
    → IsGood total r
    → IsGood total (on_query_result host txid result from_tcp is_timeout now r)
unfolding on_query_result
on_query_result-IsGood total host txid result from_tcp is_timeout now r g =
    Option-elim (IsGood total) (lookup txid r.by_id) _ _ g (λ ref. found ref (query_at ref r) refl)
  where
    found :
        (ref : ℕ) (o : Option PendingQuery)
        → query_at ref r ≡ o
        → IsGood total (elim o [
          | none ↦ r
          | some q ↦
              if not from_tcp && (not is_timeout && q.via_tcp)
              then r
              else take_result host ref
                  (record q { timer_id = 0 })
                  result
                  from_tcp
                  is_timeout
                  now
                  (cancel_timer ref q r)
        ])
    found ref none e = g
    found ref (some q) e =
        let quiet =
          cancel_timer-Holds total host ref q r
            (record { good = g; place = (ap callbacks_of e, query_at-old total r g ref q e) }) in
        if-elim (IsGood total) (not from_tcp && (not is_timeout && q.via_tcp)) _ _ (λ _. g)
          (λ _.
            take_result-IsGood total host ref (record q { timer_id = 0 }) result from_tcp is_timeout
              now (cancel_timer ref q r) quiet.place quiet.good)
