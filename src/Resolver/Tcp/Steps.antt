-- ===== src/Resolver/Tcp/Steps.antt =====
-- dns/DnsResolver.cpp, `TcpDnsQuery`: the steps of receiving.
use socks5proxy_native.Prelude.{
  ℕ, ◌+◌, ◌/◌, ◌%◌, ◌≤◌, ◌<◌, ◌≡◌, ◌⊎◌, refl, ap, ◌∙◌, true, false, ◌||◌, List, [], ◌∷◌, ◌++◌,
  length, get_or, ltb, ◌==◌, arith,
}
use socks5proxy_native.Outcome.{Outcome}
use socks5proxy_native.Dns.Response.{DnsResult}
use socks5proxy_native.Resolver.Tcp.{
  TcpDnsQuery, recv_len, recv_body, Host, Event, query_result, body_length, post_recv_part,
  post_recv_more, complete_body, continue_body, continue_recv, on_received,
}

-- What the query has told the resolver, the latest first.
abbrev pub results : List Event → List (ℕ × Outcome DnsResult)
results [] = []
results (query_result txid result ∷ events) = (txid, result) ∷ results events
results (event ∷ events) = results events

-- A message behind its length.
abbrev pub frame : List ℕ → List ℕ
frame body = length body / 256 ∷ length body % 256 ∷ body

-- The two bytes of the length stand at the front.
pub body_length-frame :
    (body part rest : List ℕ)
    → part ++ rest ≡ frame body
    → 2 ≤ length part
    → body_length part ≡ length body
body_length-frame body [] rest e h = absurd (omega arith)
body_length-frame body (a ∷ []) rest e h = absurd (omega arith)
body_length-frame body (a ∷ b ∷ part) rest e h =
    let high : a ≡ length body / 256 = ap (λ m. get_or m 0 0) e in
    let low : b ≡ length body % 256 = ap (λ m. get_or m 1 0) e in omega (arith, high, low)

-- Some of the message is still to come, and `part` is there.
pub record IsWaiting (body part : List ℕ) (q : TcpDnsQuery) : Type 0 where
  pub buffer : q.recv_buffer ≡ part
  pub going : q.done ≡ false
  pub stage :
      ((q.phase ≡ recv_len) × (length part < 2))
      ⊎ ((q.phase ≡ recv_body) × (q.recv_need ≡ 2 + length body) × (2 ≤ length part))

-- What asking for more bytes leaves alone.
record SameQuery (q s : TcpDnsQuery) : Type 0 where
  buffer : s.recv_buffer ≡ q.recv_buffer
  going : s.done ≡ q.done
  phase : s.phase ≡ q.phase
  need : s.recv_need ≡ q.recv_need
  txid : s.txid ≡ q.txid
  qtype : s.qtype ≡ q.qtype
  told : results s.events ≡ results q.events

-- The bytes of a receive are appended to those that are there.
abbrev pub with_bytes : List ℕ → TcpDnsQuery → TcpDnsQuery
with_bytes bytes q = record q { recv_buffer = q.recv_buffer ++ bytes }

pub on_received-continue :
    (host : Host) (bytes : List ℕ) (q : TcpDnsQuery)
    → 0 < length bytes
    → (continue_recv host (with_bytes bytes q)).1 ≡ true
    → on_received host bytes q ≡ (continue_recv host (with_bytes bytes q)).0
unfolding on_received
on_received-continue host bytes q h e =
    let not_empty : (length bytes == 0) ≡ false = ground (arith, h) in rw (not_empty, e) refl

pub continue_recv-body :
    (host : Host) (q : TcpDnsQuery)
    → q.phase ≡ recv_body
    → continue_recv host q ≡ continue_body host q
unfolding continue_recv
continue_recv-body host q e = rw (e) refl

pub continue_recv-few :
    (host : Host) (q : TcpDnsQuery)
    → q.phase ≡ recv_len
    → length q.recv_buffer < 2
    → continue_recv host q ≡ post_recv_more host q
unfolding continue_recv
continue_recv-few host q e h =
    let few : ltb (length q.recv_buffer) 2 ≡ true = ground (arith, h) in rw (e, few) refl

-- The length is known.
abbrev pub sized : TcpDnsQuery → TcpDnsQuery
sized q = record q { recv_need = 2 + body_length q.recv_buffer; phase = recv_body }

pub continue_recv-sized :
    (host : Host) (q : TcpDnsQuery)
    → q.phase ≡ recv_len
    → 2 ≤ length q.recv_buffer
    → 0 < body_length q.recv_buffer
    → body_length q.recv_buffer < 65536
    → continue_recv host q ≡ continue_body host (sized q)
unfolding continue_recv
continue_recv-sized host q e h some_length short =
    let many : ltb (length q.recv_buffer) 2 ≡ false = ground (arith, h) in
    let legal : ((body_length q.recv_buffer == 0) || ltb 65535 (body_length q.recv_buffer))
        ≡ false =
      ground (arith, some_length, short) in
    rw (e, many, legal) refl

pub continue_body-more :
    (host : Host) (q : TcpDnsQuery)
    → length q.recv_buffer < q.recv_need
    → continue_body host q ≡ post_recv_more host q
unfolding continue_body
continue_body-more host q h =
    let more : ltb (length q.recv_buffer) q.recv_need ≡ true = ground (arith, h) in rw (more) refl

pub continue_body_complete :
    (host : Host) (q : TcpDnsQuery)
    → q.recv_need ≤ length q.recv_buffer
    → continue_body host q ≡ (complete_body host q, true)
unfolding continue_body
continue_body_complete host q h =
    let all : ltb (length q.recv_buffer) q.recv_need ≡ false = ground (arith, h) in rw (all) refl

post_recv_more-SameQuery :
    (host : Host) (q : TcpDnsQuery)
    → host.accepts q.posts ≡ true
    → ((post_recv_more host q).1 ≡ true) × SameQuery q (post_recv_more host q).0
unfolding post_recv_more post_recv_part
post_recv_more-SameQuery host q e = ground (arith, e)

-- The query asks for more, and `part` is there.
pub record Continues (body part : List ℕ) (q s : TcpDnsQuery) : Type 0 where
  pub waits : IsWaiting body part s
  pub txid : s.txid ≡ q.txid
  pub qtype : s.qtype ≡ q.qtype
  pub told : results s.events ≡ results q.events

pub more-Continues :
    (host : Host) (body part bytes : List ℕ) (q s : TcpDnsQuery)
    → ((n : ℕ) → host.accepts n ≡ true)
    → 0 < length bytes
    → continue_recv host (with_bytes bytes q) ≡ post_recv_more host s
    → IsWaiting body part s
    → s.txid ≡ q.txid
    → s.qtype ≡ q.qtype
    → results s.events ≡ results q.events
    → Continues body part q (on_received host bytes q)
more-Continues host body part bytes q s willing h e w t y r =
    let (posted, same) = post_recv_more-SameQuery host s (willing s.posts) in
    let step : on_received host bytes q ≡ (post_recv_more host s).0 =
      on_received-continue host bytes q h (ap (λ out. out.1) e ∙ posted) ∙ ap (λ out. out.0) e in
    rw (step) (record {
      waits = ground (arith, w, same);
      txid = same.txid ∙ t;
      qtype = same.qtype ∙ y;
      told = same.told ∙ r;
    })
