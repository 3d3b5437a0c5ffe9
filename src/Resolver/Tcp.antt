-- ===== src/Resolver/Tcp.antt =====
-- dns/DnsResolver.cpp, `TcpDnsQuery`: one query over TCP, where a message stands behind its length in two
-- bytes. `recv_buffer` has the bytes received so far, `recvGot_` of them.
pub mod Steps
pub mod Laws
pub mod Told
use socks5proxy_native.Prelude.{
  ℕ, ◌+◌, ◌-◌, ◌*◌, ◌/◌, ◌%◌, Bool, true, false, not, ◌&&◌, ◌||◌, List, [], ◌∷◌, ◌++◌, Option, none,
  some, ltb, leb, ◌==◌, if◌then◌else◌, length, take, drop, get_or,
}
use socks5proxy_native.Outcome.{Outcome, ok}
use socks5proxy_native.Net.{Family, Endpoint}
use socks5proxy_native.Dns.Response.{DnsResult, invalid, parse_response}

pub data Phase : Type 0 where
  connecting sending recv_len recv_body : Phase

-- Calls that leave the query; `query_result` is `OnQueryResult` of the resolver.
pub data Event : Type 0 where
  post_connect : Event
  post_send : List ℕ → Event
  post_recv : ℕ → ℕ → Event
  query_result : ℕ → Outcome DnsResult → Event

-- The answers of Windows and of the configuration, by the number of calls made.
pub record Host : Type 0 where
  pub accepts : ℕ → Bool
  pub creates : ℕ → Bool
  pub binds : ℕ → Bool
  pub associates : ℕ → Bool
  pub output_bind : Option Endpoint
  pub inet_ntop : Family → List ℕ → List ℕ

pub record TcpDnsQuery : Type 0 where
  pub txid : ℕ
  pub qtype : ℕ
  pub query : List ℕ
  pub socket_open : Bool
  pub phase : Phase
  pub send_buffer : List ℕ
  pub send_offset : ℕ
  pub send_length : ℕ
  pub recv_buffer : List ℕ
  pub recv_need : ℕ
  pub done : Bool
  pub posts : ℕ
  pub events : List Event

-- The constructor.
unfoldable pub new_query : ℕ → ℕ → List ℕ → TcpDnsQuery
new_query txid qtype query = record {
  txid = txid;
  qtype = qtype;
  query = query;
  socket_open = false;
  phase = connecting;
  send_buffer = [];
  send_offset = 0;
  send_length = 0;
  recv_buffer = [];
  recv_need = 0;
  done = false;
  posts = 0;
  events = [];
}

unfoldable pub cancel : TcpDnsQuery → TcpDnsQuery
cancel q = record q { done = true; socket_open = false }

abbrev pub tell : Outcome DnsResult → TcpDnsQuery → TcpDnsQuery
tell result q = record q {
  done = true;
  socket_open = false;
  events = query_result q.txid result ∷ q.events;
}

unfoldable pub fail : TcpDnsQuery → TcpDnsQuery
fail q = if q.done then q else tell (ok invalid) q

-- The two bytes of the length.
abbrev pub body_length : List ℕ → ℕ
body_length buffer = get_or buffer 0 0 * 256 + get_or buffer 1 0

abbrev asked : Event → TcpDnsQuery → TcpDnsQuery
asked event q = record q { posts = q.posts + 1; events = event ∷ q.events }

module _ (host : Host) where
  -- A socket that Windows has made is bound and associated, and then connected.
  unfoldable pub start : TcpDnsQuery → TcpDnsQuery × Bool
  start q₀ =
      let q₁ = record q₀ { posts = q₀.posts + 1; socket_open = true } in
      let q₂ = record q₁ { posts = q₁.posts + 1 } in
      let q₃ = record q₂ { posts = q₂.posts + 1 } in
      if q₀.done then (q₀, false) else elim host.output_bind [
        | none ↦ (q₀, false)
        | some bind_address ↦
            if not (host.creates q₀.posts)
            then (record q₁ { socket_open = false }, false)
            else if not (host.binds q₁.posts)
            then (record q₂ { socket_open = false }, false)
            else if not (host.associates q₂.posts)
            then (record q₃ { socket_open = false }, false)
            else (asked post_connect (record q₃ { phase = connecting }), host.accepts q₃.posts)
      ]

  -- `PostSend` of a part of the buffer; a refused call fails the query.
  unfoldable pub post_part : ℕ → ℕ → TcpDnsQuery → TcpDnsQuery
  post_part offset size q =
      let posted =
        asked (post_send (take size (drop offset q.send_buffer)))
          (record q { send_offset = offset; send_length = size }) in
      if host.accepts q.posts then posted else fail posted

  unfoldable pub on_connected : TcpDnsQuery → TcpDnsQuery
  unfolding post_part
  on_connected q =
      let size = length q.query in
      let buffer = size / 256 % 256 ∷ size % 256 ∷ q.query in
      post_part 0 (length buffer) (record q { send_buffer = buffer; phase = sending })

  -- `PostRecv`: 0 bytes stand for the whole buffer.
  unfoldable pub post_recv_part : ℕ → ℕ → TcpDnsQuery → TcpDnsQuery × Bool
  post_recv_part offset size q = (asked (post_recv offset size) q, host.accepts q.posts)

  unfoldable pub on_sent : ℕ → TcpDnsQuery → TcpDnsQuery
  unfolding post_part post_recv_part
  on_sent bytes q =
      let (waiting, posted) =
        post_recv_part 0 0 (record q { recv_need = 2; recv_buffer = []; phase = recv_len }) in
      if ltb bytes q.send_length
      then post_part (q.send_offset + bytes) (q.send_length - bytes) q
      else if posted
      then waiting
      else fail waiting

  unfoldable pub post_recv_more : TcpDnsQuery → TcpDnsQuery × Bool
  unfolding post_recv_part
  post_recv_more q =
      if leb q.recv_need (length q.recv_buffer)
      then (q, true)
      else post_recv_part (length q.recv_buffer) (q.recv_need - length q.recv_buffer) q

  -- `CompleteBody`. `ParseResponse` is given what stands behind the two bytes.
  unfoldable pub complete_body : TcpDnsQuery → TcpDnsQuery
  complete_body q =
      tell
        (parse_response host.inet_ntop (drop 2 q.recv_buffer) (body_length q.recv_buffer) q.txid
          q.qtype)
        q

  unfoldable pub continue_body : TcpDnsQuery → TcpDnsQuery × Bool
  unfolding post_recv_more complete_body
  continue_body q =
      if ltb (length q.recv_buffer) q.recv_need then post_recv_more q else (complete_body q, true)

  unfoldable pub sized_body : TcpDnsQuery → TcpDnsQuery × Bool
  unfolding continue_body
  sized_body q =
      continue_body (record q { recv_need = 2 + body_length q.recv_buffer; phase = recv_body })

  -- In `RecvLen`. A length of two bytes is at most 65535.
  unfoldable pub receive_length : TcpDnsQuery → TcpDnsQuery × Bool
  unfolding sized_body
  receive_length q =
      if ltb (length q.recv_buffer) 2
      then post_recv_more q
      else if (body_length q.recv_buffer == 0) || ltb 65535 (body_length q.recv_buffer)
      then (q, false)
      else sized_body q

  unfoldable pub continue_recv : TcpDnsQuery → TcpDnsQuery × Bool
  unfolding receive_length
  continue_recv q = elim q.phase [ recv_len ↦ receive_length q | _ ↦ continue_body q ]

  unfoldable pub on_received : List ℕ → TcpDnsQuery → TcpDnsQuery
  unfolding continue_recv
  on_received bytes q =
      let (next, going) = continue_recv (record q { recv_buffer = q.recv_buffer ++ bytes }) in
      if length bytes == 0 then fail q else if going then next else fail next

  -- A completion with its error, and the bytes that were received or the number of those sent.
  unfoldable pub on_io_completed : ℕ → List ℕ → ℕ → TcpDnsQuery → TcpDnsQuery
  unfolding on_connected on_sent on_received
  on_io_completed error received sent q =
      if q.done then q else if not (error == 0) then fail q else elim q.phase [
        | connecting ↦ on_connected q
        | sending ↦ on_sent sent q
        | recv_len ↦ on_received received q
        | recv_body ↦ on_received received q
      ]
