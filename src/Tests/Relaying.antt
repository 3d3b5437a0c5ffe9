-- ===== src/Tests/Relaying.antt =====
-- Concrete runs of the UDP relay.
use socks5proxy_native.Prelude.{
  ℕ, zero, suc, same_bytes, ◌+◌, ◌≡◌, ◌≢◌, refl, inl, inr, true, List, [], ◌∷◌, ◌++◌, none, some,
  flatten, lookup, insert, nat_eq, bytes_eq, arith,
}
use socks5proxy_native.Net.{inet, parse_ip, Endpoint, endpoint_eq}
use socks5proxy_native.Udp.{
  UdpRelay, Host, to_ip, to_domain, DnsNotify, Outbound, PendingDomainPacket, new_relay,
}
use socks5proxy_native.Udp.Bounds.{IsBounded}
use socks5proxy_native.Udp.Bounds.Handlers.{run-IsBounded}
use socks5proxy_native.Udp.Packet.{parse_client_packet, server_packet}
use socks5proxy_native.Udp.Packet.Laws.{
  client_packet, unscoped, parse_client_packet-client_packet, parse_client_packet-server_packet,
}
use socks5proxy_native.Udp.Fragments.Runs.{send_parts, send_parts-flatten}
use socks5proxy_native.Udp.Sends.Order.{
  SendOp, enqueued, ended, line, run_sends, all_added, Drained, line-run_sends, run_sends-Drained,
}
use socks5proxy_native.Udp.Domains.{
  notify_loop, dispatch_client_payload, refuses_packet, queue_packet, is_member, remove_member,
  on_resolved, notify_round, forward_batch, forward_payload, touch,
}
use socks5proxy_native.Udp.Sends.{enqueue_send, pump_send, pump_loop}
use socks5proxy_native.Udp.Domains.Laws.{waiting, Free, notify_loop-on_dns_notify}
use socks5proxy_native.Udp.Domains.Awaited.{NameOp, dispatched, answered, noticed, run_names}
use socks5proxy_native.Udp.Domains.Asked.{lookups, ended_lookups, run_names-lookups}
use socks5proxy_native.Udp.Domains.Leak.{dispatch-on_dns_notify}
use socks5proxy_native.Udp.Relay.{recv_done, on_dns_notify}
use socks5proxy_native.Udp.Relay.Access.{IsStopped, stop-IsStopped, run-IsStopped}
use socks5proxy_native.Udp.Relay.Pinned.{IsOwn, Stays, run-IsOwn}
use socks5proxy_native.Udp.Lifecycle.{stop}
use socks5proxy_native.Udp.Runs.{Call, starts, stops, completed, run}

abbrev here : Endpoint
here = record { family = inet; ip = 127 ∷ 0 ∷ 0 ∷ 1 ∷ []; port = 1080; flow_info = 0; scope_id = 0 }

abbrev client_side : Endpoint
client_side = record {
  family = inet;
  ip = 10 ∷ 0 ∷ 0 ∷ 2 ∷ [];
  port = 5000;
  flow_info = 0;
  scope_id = 0;
}

abbrev server_side : Endpoint
server_side = record {
  family = inet;
  ip = 8 ∷ 8 ∷ 8 ∷ 8 ∷ [];
  port = 53;
  flow_info = 0;
  scope_id = 0;
}

-- A host that accepts every call; texts of addresses are their bytes.
abbrev plain_host : Host
plain_host = record {
  accepts = λ n. true;
  creates = λ n. true;
  binds = λ n. true;
  associates = λ n. true;
  socket_name = λ n. here;
  output_bind = none;
  associate_idle_timeout_ms = 60000;
  inet_pton = λ family text. some text;
  inet_ntop = λ family ip. ip;
  begin_of = λ m. 0;
}

abbrev fresh : UdpRelay
fresh = new_relay client_side here true 0

-- A relay with an open socket.
abbrev ready : UdpRelay
ready = record fresh { socket_open = true }

abbrev to_server : List ℕ
to_server = client_packet 0 (to_ip server_side) (1 ∷ 2 ∷ 3 ∷ [])

abbrev some_calls : List Call
some_calls = starts ∷ completed (recv_done 0 to_server client_side) 5 6 ∷ stops true ∷ []

run-IsBounded_example : IsBounded (run plain_host some_calls (new_relay client_side here true 0))
run-IsBounded_example = run-IsBounded plain_host client_side here true 0 some_calls

parse_client_packet-client_packet_example :
    parse_client_packet (client_packet 1 (to_domain (97 ∷ 98 ∷ []) 53) (7 ∷ []))
    ≡ some (record { frag = 1; destination = to_domain (97 ∷ 98 ∷ []) 53; payload = 7 ∷ [] })
parse_client_packet-client_packet_example =
    parse_client_packet-client_packet 1 (7 ∷ []) (to_domain (97 ∷ 98 ∷ []) 53)
      (omega arith, omega arith, omega arith)

parse_client_packet-server_packet_example :
    parse_client_packet (server_packet server_side (7 ∷ []))
    ≡ some (record { frag = 0; destination = to_ip (unscoped server_side); payload = 7 ∷ [] })
parse_client_packet-server_packet_example =
    parse_client_packet-server_packet server_side (7 ∷ []) refl (omega arith)

-- Three fragments.
abbrev three : List (List ℕ)
three = (1 ∷ 2 ∷ []) ∷ (3 ∷ []) ∷ (4 ∷ 5 ∷ []) ∷ []

send_parts-flatten_example :
    ((send_parts (100 ∷ []) (to_ip server_side) 9 1 three ready).1
      ≡ (to_ip server_side, flatten three) ∷ [])
    × (lookup
          (100 ∷ [])
          (send_parts (100 ∷ []) (to_ip server_side) 9 1 three ready).0.frag_assemblies
        ≡ none)
unfolding new_relay
send_parts-flatten_example =
    send_parts-flatten (100 ∷ []) (to_ip server_side) 9 three ready (omega arith) (omega arith)
      (omega arith) (inr (omega arith))

abbrev one_datagram : Outbound
one_datagram = record { bytes = 7 ∷ []; to = server_side }

abbrev some_sends : List SendOp
some_sends = enqueued one_datagram ∷ enqueued one_datagram ∷ ended 0 ∷ []

line-run_sends_example :
    line (run_sends plain_host some_sends ready)
    ≡ line ready ++ all_added plain_host some_sends ready
line-run_sends_example = line-run_sends plain_host some_sends ready

run_sends-Drained_example : Drained (run_sends plain_host some_sends ready)
unfolding new_relay
run_sends-Drained_example =
    run_sends-Drained plain_host (λ n. refl) some_sends ready refl refl (inl refl)

-- A lookup of the name "a" that has succeeded.
abbrev found_a : DnsNotify
found_a = record { domain = 97 ∷ []; found_ip = some (8 ∷ 8 ∷ 8 ∷ 8 ∷ []) }

notify_loop-on_dns_notify_example :
    (notify_loop plain_host 2 found_a 9 ready ≡ some (on_dns_notify plain_host found_a 9 ready))
    × Free (97 ∷ []) (on_dns_notify plain_host found_a 9 ready)
notify_loop-on_dns_notify_example = notify_loop-on_dns_notify plain_host 0 found_a 9 ready

abbrev some_names : List NameOp
some_names =
    dispatched (to_domain (97 ∷ []) 53) (7 ∷ []) 3
    ∷ answered (97 ∷ []) (some (8 ∷ 8 ∷ 8 ∷ 8 ∷ []))
    ∷ noticed found_a 5
    ∷ []

-- Two datagrams for the name "a", and between them the end of a lookup.
abbrev asked_again : List NameOp
asked_again = some_names ++ (dispatched (to_domain (97 ∷ []) 53) (8 ∷ []) 7 ∷ [])

still_waits : waiting (97 ∷ []) (run_names plain_host asked_again ready) ≢ []
unfolding new_relay lookup insert same_bytes dispatch_client_payload refuses_packet queue_packet
    is_member remove_member on_resolved on_dns_notify notify_loop notify_round forward_batch
    forward_payload touch enqueue_send pump_send pump_loop parse_ip
still_waits = λ e. cc

run_names-lookups_example :
    lookups (97 ∷ []) (run_names plain_host asked_again ready).events
    ≡ lookups (97 ∷ []) ready.events + ended_lookups plain_host (97 ∷ []) asked_again ready + 1
unfolding new_relay
run_names-lookups_example =
    run_names-lookups plain_host (97 ∷ []) asked_again ready refl refl still_waits

-- Names of two bytes, the first one from `n` on.
names_from : ℕ → ℕ → List (List ℕ × List PendingDomainPacket)
names_from n zero = []
names_from n (suc count) = (n ∷ 1 ∷ [], []) ∷ names_from (n + 1) count

-- One of the 256 names has a datagram that waits.
abbrev full : UdpRelay
full = record ready {
  pending_by_domain = (97 ∷ [], record { payload = 7 ∷ []; port = 53 } ∷ []) ∷ names_from 0 255;
  dns_in_flight = (97 ∷ []) ∷ [];
}

dispatch-on_dns_notify_example :
    (waiting (97 ∷ []) (on_dns_notify plain_host found_a 9 full) ≡ [])
    × (dispatch_client_payload plain_host
          (to_domain (99 ∷ 99 ∷ []) 53)
          (7 ∷ [])
          9
          (on_dns_notify plain_host found_a 9 full)
        ≡ on_dns_notify plain_host found_a 9 full)
unfolding names_from lookup new_relay same_bytes
dispatch-on_dns_notify_example =
    dispatch-on_dns_notify plain_host (99 ∷ 99 ∷ []) (97 ∷ []) (8 ∷ 8 ∷ 8 ∷ 8 ∷ []) 53 (7 ∷ []) 9
      full refl (omega arith) refl

abbrev late_calls : List Call
late_calls = completed (recv_done 0 to_server client_side) 5 6 ∷ stops true ∷ []

run-IsStopped_example :
    IsStopped (run plain_host late_calls (stop true ready))
    × ((run plain_host late_calls (stop true ready)).events ≡ (stop true ready).events)
unfolding new_relay
run-IsStopped_example =
    run-IsStopped plain_host late_calls (stop true ready) (tt, (tt, tt))
      (stop-IsStopped true ready refl)

-- Another endpoint with the client's packet, after the client.
abbrev from_elsewhere : List Call
from_elsewhere = completed (recv_done 0 to_server server_side) 7 8 ∷ stops true ∷ []

run-IsOwn_example :
    IsOwn plain_host client_side (run plain_host some_calls fresh).actual_client
    × Stays plain_host
        (run plain_host some_calls fresh).actual_client
        (run plain_host from_elsewhere (run plain_host some_calls fresh)).actual_client
run-IsOwn_example = run-IsOwn plain_host client_side here true 0 some_calls from_elsewhere
