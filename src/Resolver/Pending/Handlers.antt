-- ===== src/Resolver/Pending/Handlers.antt =====
-- dns/DnsResolver.cpp: responses, `OnIoCompleted` and `Stop`.
use socks5proxy_native.Prelude.{
  same_bytes, Bool, ℕ, ◌+◌, ◌*◌, true, false, not, ◌&&◌, ◌||◌, List, [], ◌∷◌, none, some, ltb, ◌==◌,
  if◌then◌else◌, length, get_or, lookup, nat_eq,
}
use socks5proxy_native.Outcome.{Outcome, ok}
use socks5proxy_native.Net.{Endpoint, inet, inet6, same_family}
use socks5proxy_native.Dns.Response.{DnsResult, invalid, parse_response}
use socks5proxy_native.Resolver.Pending.{
  DnsResolver, Host, post_recv_from, query_at, put_query, call_all, cancel_timer,
}
use socks5proxy_native.Resolver.Pending.Sends.{on_udp_send_completed}
use socks5proxy_native.Resolver.Pending.Queries.{on_query_result, start_tcp_fallback}

-- A timer of an id, a send, a packet with its error and its sender, and the result of a query over TCP.
pub data Completion : Type 0 where
  timed_out : ℕ → Completion
  send_done : ℕ → Completion
  recv_done : ℕ → List ℕ → Endpoint → Completion
  tcp_done : ℕ → DnsResult → Completion

-- The address, and for IPv6 the scope.
abbrev same_address : Endpoint → Endpoint → Bool
same_address a b = elim a.family [
  | inet ↦ same_bytes a.ip b.ip
  | inet6 ↦ same_bytes a.ip b.ip && (a.scope_id == b.scope_id)
]

-- `SameEndpoint` of the resolver: the flow information does not count.
abbrev pub same_server : Endpoint → Endpoint → Bool
same_server a b = same_family a.family b.family && ((a.port == b.port) && same_address a b)

module _ (host : Host) where
  -- An answer that does not parse is left to the timer.
  unfoldable pub take_response : ℕ → Outcome DnsResult → ℕ → DnsResolver → DnsResolver
  take_response txid (ok result) now r =
      if result.from_network then on_query_result host txid result false false now r else r
  take_response txid _ now r = r

  unfoldable pub handle_udp_response : List ℕ → Endpoint → ℕ → DnsResolver → DnsResolver
  unfolding take_response
  handle_udp_response packet from now r =
      let txid = get_or packet 0 0 * 256 + get_or packet 1 0 in
      if ltb (length packet) 12 || not (same_server from host.dns_address)
      then r
      else elim (lookup txid r.by_id) [
        | none ↦ r
        | some ref ↦ elim (query_at ref r) [
          | none ↦ r
          | some q ↦
              if q.via_tcp
              then r
              else take_response txid
                  (parse_response host.inet_ntop packet (length packet) q.txid q.qtype) now r
        ]
      ]

  -- The queries that are not over TCP yet.
  unfoldable pub fall_back_all : List (ℕ × ℕ) → ℕ → DnsResolver → DnsResolver
  fall_back_all [] now r = r
  fall_back_all ((txid, ref) ∷ ids) now r = fall_back_all ids now (elim (query_at ref r) [
    | none ↦ r
    | some q ↦ if q.via_tcp then r else start_tcp_fallback host ref q now r
  ])

  -- The next receive; when it is refused, the socket is closed.
  unfoldable pub receive_again : ℕ → DnsResolver → DnsResolver
  unfolding fall_back_all
  receive_again now r =
      let posted = record r { posts = r.posts + 1; events = post_recv_from ∷ r.events } in
      if r.stopping || not r.socket_open
      then r
      else if host.accepts r.posts
      then posted
      else fall_back_all r.by_id now (record posted { socket_open = false; pending_sends = [] })

  unfoldable pub on_io_completed : Completion → ℕ → DnsResolver → DnsResolver
  unfolding handle_udp_response receive_again
  on_io_completed (timed_out txid) now r = on_query_result host txid invalid false true now r
  on_io_completed (send_done ctx) now r = on_udp_send_completed host ctx r
  on_io_completed (recv_done error packet from) now r =
      if not r.stopping && ((error == 0) && ltb 0 (length packet))
      then receive_again now (handle_udp_response packet from now r)
      else receive_again now r
  on_io_completed (tcp_done txid result) now r = on_query_result host txid result true false now r

-- The timers of the queries are cancelled, as `CancelTimerLocked` does.
unfoldable pub cancel_timers : List (ℕ × ℕ) → DnsResolver → DnsResolver
unfolding cancel_timer
cancel_timers [] r = r
cancel_timers ((txid, ref) ∷ ids) r =
    cancel_timers ids (elim (query_at ref r) [ none ↦ r | some q ↦ cancel_timer ref q r ])

-- Then the callbacks of each query are called, and its query over TCP is let go.
unfoldable pub drop_all : List (ℕ × ℕ) → DnsResolver → DnsResolver
drop_all [] r = r
drop_all ((txid, ref) ∷ ids) r = drop_all ids (elim (query_at ref r) [
  | none ↦ r
  | some q ↦ record (put_query ref (record q { callbacks = []; has_tcp = false }) r) {
    events = call_all q.callbacks none r.events;
  }
])

-- `Stop`, without the calls of `TcpDnsQuery::Cancel` and the waits for what is pending.
unfoldable pub stop : DnsResolver → DnsResolver
unfolding cancel_timers drop_all
stop r =
    let quiet = cancel_timers r.by_id (record r { stopping = true }) in
    let dropped =
      drop_all r.by_id (record quiet { by_id = []; by_domain = []; pending_sends = [] }) in
    if not r.is_started then r else record dropped { socket_open = false; is_started = false }
