-- ===== src/Resolver/Pending.antt =====
-- dns/DnsResolver.h and dns/DnsResolver.cpp: the state of the resolver. A `shared_ptr` to a pending query
-- is a number under which the query stands in `queries`, so that both maps share it. Callbacks are
-- numbers. Maps are association lists in their order of iteration.
pub mod Ids
pub mod Sends
pub mod Queries
pub mod Handlers
pub mod Once
pub mod Conserves
pub mod Called
pub mod Completed
pub mod Runs
pub mod Stopped
use socks5proxy_native.Prelude.{
  ℕ, ◌+◌, Bool, true, false, List, [], ◌∷◌, Option, none, some, lookup, insert, nat_eq, ◌==◌,
  if◌then◌else◌,
}
use socks5proxy_native.Net.{Family, Endpoint}
use socks5proxy_native.Dns.Cache.{Table}

abbrev pub max_udp_attempts : ℕ
max_udp_attempts = 3

abbrev pub max_dns_sends_in_flight : ℕ
max_dns_sends_in_flight = 16

abbrev pub max_pending_sends : ℕ
max_pending_sends = 4096

abbrev pub max_pending_queries : ℕ
max_pending_queries = 4096

abbrev pub max_callbacks_per_query : ℕ
max_callbacks_per_query = 256

pub record PendingQuery : Type 0 where
  pub domain : List ℕ
  pub txid : ℕ
  pub qtype : ℕ
  pub try_aaaa : Bool
  pub via_tcp : Bool
  pub use_cache : Bool
  pub udp_attempts : ℕ
  pub callbacks : List ℕ
  pub timer_id : ℕ
  pub has_tcp : Bool

-- Calls that leave the resolver.
pub data Event : Type 0 where
  called : ℕ → Option (List ℕ) → Event
  post_send_to : List ℕ → Event
  post_recv_from : Event
  schedule_timeout : ℕ → Event
  cancel_timeout : ℕ → Event
  start_tcp_query : ℕ → List ℕ → Event

-- The answers of Windows, of the random numbers and of the configuration.
pub record Host : Type 0 where
  pub accepts : ℕ → Bool
  -- `ScheduleTimeout`: the timer's id, 0 on failure.
  pub schedules : ℕ → ℕ
  -- `TcpDnsQuery::Start`.
  pub starts_tcp : ℕ → Bool
  -- `GenerateId`, by the number of draws.
  pub generate_id : ℕ → ℕ
  pub output_ipv6_available : Bool
  pub dns_address : Endpoint
  pub inet_ntop : Family → List ℕ → List ℕ
  -- The iteration of the cache.
  pub cache_order : Table → Table

pub record DnsResolver : Type 0 where
  pub is_started : Bool
  pub stopping : Bool
  pub socket_open : Bool
  pub queries : List (ℕ × PendingQuery)
  pub next_query : ℕ
  pub by_id : List (ℕ × ℕ)
  pub by_domain : List (List ℕ × ℕ)
  pub pending_sends : List (List ℕ)
  pub in_flight_sends : List (ℕ × List ℕ)
  pub sends_in_flight : ℕ
  pub cache : Table
  pub id_seq : ℕ
  pub draws : ℕ
  pub posts : ℕ
  pub events : List Event

-- Through the pointer.
abbrev pub query_at : ℕ → DnsResolver → Option PendingQuery
query_at ref r = lookup ref r.queries

abbrev pub put_query : ℕ → PendingQuery → DnsResolver → DnsResolver
put_query ref q r = record r { queries = insert ref q r.queries }

-- Each callback of a list, in its order.
abbrev pub call_all : List ℕ → Option (List ℕ) → List Event → List Event
call_all [] address events = events
call_all (callback ∷ callbacks) address events =
    call_all callbacks address (called callback address ∷ events)

abbrev pub cancelled : ℕ → List Event → List Event
cancelled timer events = if timer == 0 then events else cancel_timeout timer ∷ events

-- `CancelTimerLocked`, for the query `q` that stands at `ref`.
unfoldable pub cancel_timer : ℕ → PendingQuery → DnsResolver → DnsResolver
cancel_timer ref q r = record (put_query ref (record q { timer_id = 0 }) r) {
  events = cancelled q.timer_id r.events;
}

-- `ArmTimerLocked`. The key holds the id of the query in its low bits.
unfoldable pub arm_timer : Host → ℕ → PendingQuery → DnsResolver → DnsResolver × Bool
unfolding cancel_timer
arm_timer host ref q r =
    let timer = host.schedules r.posts in
    let armed = put_query ref (record q { timer_id = timer }) (cancel_timer ref q r) in
    (
      record armed { posts = r.posts + 1; events = schedule_timeout q.txid ∷ armed.events },
      if timer == 0 then false else true,
    )
