-- ===== src/Tests/Resolving.antt =====
-- Concrete runs of the queries over TCP, and of the server.
use socks5proxy_native.Prelude.{
  ℕ, ◌≡◌, refl, inl, true, false, List, [], ◌∷◌, some, ◌+◌, ◌≤◌, All, lookup, insert, same_bytes,
  ltb, if◌then◌else◌, arith,
}
use socks5proxy_native.Net.{inet}
use socks5proxy_native.Dns.Response.{parse_response}
use socks5proxy_native.Resolver.Tcp.{TcpDnsQuery, Host, recv_len, new_query, start}
use socks5proxy_native.Resolver.Tcp.Steps.{results}
use socks5proxy_native.Resolver.Tcp.Laws.{receive_all, receive_all-frame}
use socks5proxy_native.Resolver.Tcp.Told.{Once, run_query, run_query-Once}
use socks5proxy_native.Resolver.Pending.{DnsResolver}
use socks5proxy_native.Resolver.Pending
use socks5proxy_native.Resolver.Pending.Ids.{is_free, alloc_txid}
use socks5proxy_native.Resolver.Pending.Ids.Laws.{alloc_txid-is_free}
use socks5proxy_native.Resolver.Pending.Handlers.{timed_out, stop}
use socks5proxy_native.Resolver.Pending.{cancel_timer, arm_timer}
use socks5proxy_native.Resolver.Pending.Sends.{pump_loop, enqueue_udp_send}
use socks5proxy_native.Resolver.Pending.Ids.{random_id}
use socks5proxy_native.Resolver.Pending.Queries.{
  resolve_async, ask, begin_udp_query, send_udp_query, join_query,
}
use socks5proxy_native.Resolver.Pending.Queries
use socks5proxy_native.Dns.Query.{build_query, labels, write_labels, onto_first}
use socks5proxy_native.Dns.Wire.{write_u16}
use socks5proxy_native.Dns.Cache.{to_lower, lower, try_get_cached}
use socks5proxy_native.Resolver.Pending.Stopped.{IsEmpty, stop-run_resolver}
use socks5proxy_native.Resolver.Pending.Once.{calls, waits}
use socks5proxy_native.Resolver.Pending.Runs.{
  Call, asks, completes, stops, run_resolver, calls-run_resolver,
}
use socks5proxy_native.Server.{new_server, started, on_accept, on_session_closed}
use socks5proxy_native.Server.Slots.{
  World, accepts, ends, Reaches, stays, goes, HasSlots, Reaches-HasSlots,
}

abbrev tcp_host : Host
tcp_host = record {
  accepts = λ n. true;
  creates = λ n. true;
  binds = λ n. true;
  associates = λ n. true;
  output_bind =
      some
        (record { family = inet; ip = 0 ∷ 0 ∷ 0 ∷ 0 ∷ []; port = 0; flow_info = 0; scope_id = 0 });
  inet_ntop = λ family ip. ip;
}

-- A query that waits for the first byte of its answer.
abbrev asking : TcpDnsQuery
asking = record (new_query 7 1 (7 ∷ 7 ∷ [])) { phase = recv_len }

-- An answer of three bytes, in three parts: within the length, and within the message.
abbrev answer_parts : List (List ℕ)
answer_parts = (0 ∷ []) ∷ (3 ∷ 7 ∷ []) ∷ (8 ∷ 9 ∷ []) ∷ []

receive_all-frame_example :
    (results (receive_all tcp_host answer_parts asking).events
      ≡ (7, parse_response (λ family ip. ip) (7 ∷ 8 ∷ 9 ∷ []) 3 7 1) ∷ [])
    × ((receive_all tcp_host answer_parts asking).done ≡ true)
unfolding new_query
receive_all-frame_example =
    receive_all-frame tcp_host (λ n. refl) (7 ∷ 8 ∷ 9 ∷ []) (omega arith) (omega arith) answer_parts
      [] asking (record { buffer = refl; going = refl; stage = inl (refl, omega arith) }) refl
      (omega arith, (omega arith, (omega arith, tt))) (omega arith)

abbrev some_completions : List (ℕ × List ℕ × ℕ)
some_completions = (0, [], 0) ∷ (0, [], 2) ∷ (0, [], 2) ∷ (0, 0 ∷ 1 ∷ 5 ∷ [], 0) ∷ (64, [], 0) ∷ []

run_query-Once_example :
    Once (run_query tcp_host some_completions (start tcp_host (new_query 7 1 (7 ∷ 7 ∷ []))).0)
run_query-Once_example = run_query-Once tcp_host 7 1 (7 ∷ 7 ∷ []) some_completions

-- One client is accepted, and its session ends.
abbrev opened : World
opened = record { server = new_server 2; live = [] }

abbrev served : World
served = record { server = on_accept (some 5) (started true) (new_server 2); live = (5, true) ∷ [] }

abbrev closed_again : World
closed_again = record { server = on_session_closed 5 true served.server; live = [] }

visit : Reaches opened closed_again
unfolding new_server
visit =
    goes opened served closed_again
      (goes opened opened served (stays opened) (accepts opened (some 5) (started true) tt))
      (ends served.server [] [] 5 true)

Reaches-HasSlots_example : HasSlots 2 closed_again
Reaches-HasSlots_example = Reaches-HasSlots 1 closed_again visit

-- Timers can be set until the third call of the completion port.
abbrev resolver_host : Pending.Host
resolver_host = record {
  accepts = λ n. true;
  schedules = λ n. if ltb n 3 then n + 1 else 0;
  starts_tcp = λ n. true;
  generate_id = λ n. n + 1;
  output_ipv6_available = false;
  dns_address = record {
    family = inet;
    ip = 8 ∷ 8 ∷ 8 ∷ 8 ∷ [];
    port = 53;
    flow_info = 0;
    scope_id = 0;
  };
  inet_ntop = λ family ip. ip;
  cache_order = λ table. table;
}

abbrev started_resolver : DnsResolver
started_resolver = record {
  is_started = true;
  stopping = false;
  socket_open = true;
  queries = [];
  next_query = 0;
  by_id = [];
  by_domain = [];
  pending_sends = [];
  in_flight_sends = [];
  sends_in_flight = 0;
  cache = [];
  id_seq = 1;
  draws = 0;
  posts = 0;
  events = [];
}

-- The name `a` for two callbacks, and `b` for one of them again; a timeout, and the end.
abbrev resolver_script : List Call
resolver_script =
    asks (97 ∷ []) 1 true 0
    ∷ asks (97 ∷ []) 2 false 5
    ∷ asks (98 ∷ []) 1 true 9
    ∷ completes (timed_out 1) 3000
    ∷ stops
    ∷ []

calls-run_resolver_example :
    calls 1 (run_resolver resolver_host resolver_script started_resolver).events ≤ 2
calls-run_resolver_example =
    calls-run_resolver resolver_host resolver_script started_resolver refl refl refl 1

-- Two callbacks for the name `a`, with nothing sent back.
abbrev waiting_script : List Call
waiting_script = asks (97 ∷ []) 1 false 0 ∷ asks (97 ∷ []) 2 false 5 ∷ []

-- The resolver is still open.
still_started : (run_resolver resolver_host waiting_script started_resolver).is_started ≡ true
unfolding resolve_async ask Queries.new_query begin_udp_query alloc_txid random_id build_query
    labels write_labels write_u16 arm_timer cancel_timer send_udp_query enqueue_udp_send pump_loop
    join_query lookup insert to_lower lower onto_first same_bytes try_get_cached
still_started = refl

stop-run_resolver_example :
    All
      (λ entry. IsEmpty (stop (run_resolver resolver_host waiting_script started_resolver)) entry.1)
      (run_resolver resolver_host waiting_script started_resolver).by_id
    × (calls 2 (stop (run_resolver resolver_host waiting_script started_resolver)).events
          + waits 2 (stop (run_resolver resolver_host waiting_script started_resolver)).queries
        ≡ 1)
stop-run_resolver_example =
    stop-run_resolver resolver_host waiting_script started_resolver refl refl refl still_started 2

-- The draws are all 0, and the next id of the counter is in use.
abbrev zero_host : Pending.Host
zero_host = record resolver_host { generate_id = λ n. 0 }

abbrev crowded : DnsResolver
crowded = record started_resolver { by_id = (1, 0) ∷ []; id_seq = 65536 }

alloc_txid-is_free_example : is_free (alloc_txid zero_host crowded).1 crowded.by_id ≡ true
alloc_txid-is_free_example = alloc_txid-is_free zero_host crowded (omega arith)
