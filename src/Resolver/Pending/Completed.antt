-- ===== src/Resolver/Pending/Completed.antt =====
-- dns/DnsResolver.cpp: the callbacks over responses and completions.
use socks5proxy_native.Prelude.{
  ℕ, ◌+◌, ◌*◌, ◌-◌, ◌≡◌, refl, ap, true, false, not, ◌&&◌, ◌||◌, List, [], ◌∷◌, Option, none, some,
  ltb, ◌==◌, if-elim, Option-elim, length, lookup, nat_eq, bytes_eq, get_or,
}
use socks5proxy_native.Outcome.{Outcome, ok, throws, fault, stuck}
use socks5proxy_native.Net.{Endpoint}
use socks5proxy_native.Dns.Response.{DnsResult, parse_response}
use socks5proxy_native.Resolver.Pending.{DnsResolver, PendingQuery, Host, query_at}
use socks5proxy_native.Resolver.Pending.Sends.{remove_context, pump_loop, on_udp_send_completed}
use socks5proxy_native.Resolver.Pending.Handlers.{
  same_server, Completion, timed_out, send_done, recv_done, tcp_done, take_response,
  handle_udp_response, fall_back_all, receive_again, on_io_completed,
}
use socks5proxy_native.Resolver.Pending.Once.{
  callbacks_of, IsGood, At, like-IsGood, pump_loop-SameQueries,
}
use socks5proxy_native.Resolver.Pending.Conserves.{
  start_tcp_fallback-IsGood, on_query_result-IsGood, query_at-old,
}

module _ (total : ℕ → ℕ) (host : Host) where
  -- What keeps the account for the query at a number keeps it for the lookup of the number.
  pub at_query :
      (r : DnsResolver)
      → IsGood total r
      → (ref : ℕ) (f : PendingQuery → DnsResolver)
      → ((q : PendingQuery) → At ref q r → IsGood total (f q))
      → IsGood total (elim (query_at ref r) [ none ↦ r | some q ↦ f q ])
  at_query r g ref f h = go (query_at ref r) refl
    where
      go :
          (o : Option PendingQuery)
          → query_at ref r ≡ o
          → IsGood total (elim o [ none ↦ r | some q ↦ f q ])
      go none e = g
      go (some q) e = h q (ap callbacks_of e, query_at-old total r g ref q e)

  take_response-IsGood :
      (txid : ℕ) (parsed : Outcome DnsResult) (now : ℕ) (r : DnsResolver)
      → IsGood total r
      → IsGood total (take_response host txid parsed now r)
  unfolding take_response
  take_response-IsGood txid (ok result) now r g =
      if-elim (IsGood total) result.from_network _ _
        (λ _. on_query_result-IsGood total host txid result false false now r g) (λ _. g)
  take_response-IsGood txid throws now r g = g
  take_response-IsGood txid fault now r g = g
  take_response-IsGood txid stuck now r g = g

  handle_udp_response-IsGood :
      (packet : List ℕ) (from : Endpoint) (now : ℕ) (r : DnsResolver)
      → IsGood total r
      → IsGood total (handle_udp_response host packet from now r)
  unfolding handle_udp_response
  handle_udp_response-IsGood packet from now r g =
      let txid = get_or packet 0 0 * 256 + get_or packet 1 0 in
      if-elim (IsGood total) (ltb (length packet) 12 || not (same_server from host.dns_address)) _ _
        (λ _. g)
        (λ _. Option-elim (IsGood total) (lookup txid r.by_id) _ _ g (λ ref.
          at_query r g ref _ (λ q _.
            if-elim (IsGood total) q.via_tcp _ _ (λ _. g)
              (λ _.
                take_response-IsGood txid
                  (parse_response host.inet_ntop packet (length packet) q.txid q.qtype) now r g))))

  fall_back_all-IsGood :
      (ids : List (ℕ × ℕ)) (now : ℕ) (r : DnsResolver)
      → IsGood total r
      → IsGood total (fall_back_all host ids now r)
  unfolding fall_back_all
  fall_back_all-IsGood [] now r g = g
  fall_back_all-IsGood ((txid, ref) ∷ ids) now r g = fall_back_all-IsGood ids now _ (
      at_query r g ref _ (λ q p.
        if-elim (IsGood total) q.via_tcp _ _ (λ _. g)
          (λ _. start_tcp_fallback-IsGood total host ref q now r p g)))

  receive_again-IsGood :
      (now : ℕ) (r : DnsResolver) → IsGood total r → IsGood total (receive_again host now r)
  unfolding receive_again
  receive_again-IsGood now r g =
      if-elim (IsGood total) (r.stopping || not r.socket_open) _ _ (λ _. g)
        (λ _.
          if-elim (IsGood total) (host.accepts r.posts) _ _
            (λ _. like-IsGood total r _ (λ c. refl) refl refl refl g)
            (λ _.
              fall_back_all-IsGood r.by_id now _
                (like-IsGood total r _ (λ c. refl) refl refl refl g)))

  on_udp_send_completed-IsGood :
      (ctx : ℕ) (r : DnsResolver) → IsGood total r → IsGood total (on_udp_send_completed host ctx r)
  unfolding on_udp_send_completed
  on_udp_send_completed-IsGood ctx r g =
      Option-elim (IsGood total) (remove_context host ctx r.in_flight_sends) _ _ g (λ rest.
        let done : DnsResolver = record r {
          in_flight_sends = rest;
          sends_in_flight = r.sends_in_flight - 1;
        } in
        let more = pump_loop-SameQueries host r.pending_sends done in
        if-elim (IsGood total) r.stopping _ _
          (λ _. like-IsGood total r done (λ c. refl) refl refl refl g)
          (λ _.
            like-IsGood total r (pump_loop host r.pending_sends done) more.told more.queries
              more.names more.next g))

  pub on_io_completed-IsGood :
      (completion : Completion) (now : ℕ) (r : DnsResolver)
      → IsGood total r
      → IsGood total (on_io_completed host completion now r)
  unfolding on_io_completed
  on_io_completed-IsGood (timed_out txid) now r g =
      on_query_result-IsGood total host txid _ false true now r g
  on_io_completed-IsGood (send_done ctx) now r g = on_udp_send_completed-IsGood ctx r g
  on_io_completed-IsGood (recv_done error packet from) now r g =
      if-elim (IsGood total) (not r.stopping && ((error == 0) && ltb 0 (length packet))) _ _
        (λ _. receive_again-IsGood now _ (handle_udp_response-IsGood packet from now r g))
        (λ _. receive_again-IsGood now r g)
  on_io_completed-IsGood (tcp_done txid result) now r g =
      on_query_result-IsGood total host txid result true false now r g
