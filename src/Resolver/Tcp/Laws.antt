-- ===== src/Resolver/Tcp/Laws.antt =====
-- dns/DnsResolver.cpp, `TcpDnsQuery`: a message that arrives in parts.
use socks5proxy_native.Prelude.{
  ℕ, ◌+◌, ◌≤◌, ◌<◌, ◌≡◌, inl, inr, refl, sym, ap, ◌∙◌, true, List, [], ◌∷◌, ◌++◌, append_assoc,
  append-nil, length, length-append, drop, flatten, All, ltb, ltb→lt, Bool-cases, arith,
}
use socks5proxy_native.Outcome.{Outcome}
use socks5proxy_native.Dns.Response.{DnsResult, parse_response}
use socks5proxy_native.Resolver.Tcp.{
  TcpDnsQuery, Host, body_length, complete_body, continue_recv, on_received,
}
use socks5proxy_native.Resolver.Tcp.Steps.{
  results, frame, body_length-frame, IsWaiting, with_bytes, on_received-continue,
  continue_recv-body, continue_recv-few, sized, continue_recv-sized, continue_body-more,
  continue_body_complete, Continues, more-Continues,
}

-- The parts of the message that are received, one after the other.
abbrev pub receive_all : Host → List (List ℕ) → TcpDnsQuery → TcpDnsQuery
receive_all host [] q = q
receive_all host (bytes ∷ parts) q = receive_all host parts (on_received host bytes q)

-- The result that the query tells.
abbrev pub expected : Host → List ℕ → TcpDnsQuery → ℕ × Outcome DnsResult
expected host body q = (q.txid, parse_response host.inet_ntop body (length body) q.txid q.qtype)

module _ (host : Host) (willing : (n : ℕ) → host.accepts n ≡ true) (body : List ℕ)
    (short : 0 < length body) (fits : length body < 65536) where
  on_received-Continues :
      (part bytes rest : List ℕ) (q : TcpDnsQuery)
      → IsWaiting body part q
      → (part ++ bytes) ++ rest ≡ frame body
      → 0 < length bytes
      → length (part ++ bytes) < 2 + length body
      → Continues body (part ++ bytes) q (on_received host bytes q)
  on_received-Continues part bytes rest q w e h more = elim w.stage [
    | inl (phase, few) ↦ elim (Bool-cases (ltb (length (part ++ bytes)) 2)) [
      | inl f ↦
          let f' : length (part ++ bytes) < 2 = ltb→lt (length (part ++ bytes)) 2 f in
          more-Continues host body (part ++ bytes) bytes q (with_bytes bytes q) willing h
            (continue_recv-few host (with_bytes bytes q) phase (rw (buffer) f'))
            (record { buffer = buffer; going = w.going; stage = inl (phase, f') }) refl refl refl
      | inr f ↦
          let f' : 2 ≤ length (part ++ bytes) = ground (arith, f) in
          let size = known f' in
          more-Continues host body (part ++ bytes) bytes q (sized (with_bytes bytes q)) willing h
            (continue_recv-sized host (with_bytes bytes q) phase (rw (buffer) f') (rw (size) short)
                (rw (size) fits)
              ∙ continue_body-more host (sized (with_bytes bytes q))
                  (omega (arith, more, size, ap length buffer)))
            (record {
              buffer = buffer;
              going = w.going;
              stage = inr (refl, omega (arith, size), f');
            })
            refl refl refl
    ]
    | inr (phase, need, many) ↦
        more-Continues host body (part ++ bytes) bytes q (with_bytes bytes q) willing h
          (continue_recv-body host (with_bytes bytes q) phase
            ∙ continue_body-more host (with_bytes bytes q)
                (omega (arith, more, need, ap length buffer)))
          (record {
            buffer = buffer;
            going = w.going;
            stage = inr (phase, need, omega (arith, many, length-append part bytes));
          })
          refl refl refl
  ]
    where
      buffer : q.recv_buffer ++ bytes ≡ part ++ bytes
      buffer = ap (λ b. b ++ bytes) w.buffer

      known : 2 ≤ length (part ++ bytes) → body_length (q.recv_buffer ++ bytes) ≡ length body
      known f = ap body_length buffer ∙ body_length-frame body (part ++ bytes) rest e f

  on_received_complete :
      (part bytes : List ℕ) (q : TcpDnsQuery)
      → IsWaiting body part q
      → part ++ bytes ≡ frame body
      → 0 < length bytes
      → (results (on_received host bytes q).events ≡ expected host body q ∷ results q.events)
        × ((on_received host bytes q).done ≡ true)
  unfolding complete_body
  on_received_complete part bytes q w e h = elim w.stage [
    | inl (phase, few) ↦
        finished (sized (with_bytes bytes q))
          (continue_recv-sized host (with_bytes bytes q) phase (rw (buffer) (omega (arith, short)))
              (rw (size) short) (rw (size) fits)
            ∙ continue_body_complete host (sized (with_bytes bytes q))
                (omega (arith, size, ap length buffer)))
          buffer refl refl refl
    | inr (phase, need, many) ↦
        finished (with_bytes bytes q)
          (continue_recv-body host (with_bytes bytes q) phase
            ∙ continue_body_complete host (with_bytes bytes q)
                (omega (arith, need, ap length buffer)))
          buffer refl refl refl
  ]
    where
      buffer : q.recv_buffer ++ bytes ≡ frame body
      buffer = ap (λ b. b ++ bytes) w.buffer ∙ e

      size : body_length (q.recv_buffer ++ bytes) ≡ length body
      size =
          body_length-frame body (q.recv_buffer ++ bytes) []
            (append-nil (q.recv_buffer ++ bytes) ∙ buffer) (rw (buffer) (omega (arith, short)))

      told :
          (s : TcpDnsQuery)
          → s.recv_buffer ≡ frame body
          → body_length s.recv_buffer ≡ length body
          → s.txid ≡ q.txid
          → s.qtype ≡ q.qtype
          → results s.events ≡ results q.events
          → results (complete_body host s).events ≡ expected host body q ∷ results q.events
      told s b l t y r =
          let dropped : drop 2 s.recv_buffer ≡ body = ap (drop 2) b in rw (t, y, r, l, dropped) refl

      told_done : (s : TcpDnsQuery) → (complete_body host s).done ≡ true
      told_done s = refl

      finished :
          (s : TcpDnsQuery)
          → continue_recv host (with_bytes bytes q) ≡ (complete_body host s, true)
          → s.recv_buffer ≡ frame body
          → s.txid ≡ q.txid
          → s.qtype ≡ q.qtype
          → results s.events ≡ results q.events
          → (results (on_received host bytes q).events ≡ expected host body q ∷ results q.events)
            × ((on_received host bytes q).done ≡ true)
      finished s c b t y r =
          let step : on_received host bytes q ≡ complete_body host s =
            on_received-continue host bytes q h (ap (λ out. out.1) c) ∙ ap (λ out. out.0) c in
          let length_right : body_length s.recv_buffer ≡ length body =
            ap body_length b ∙ omega (arith, fits) in
          rw (step) (told s b length_right t y r, told_done s)

  -- However a message of 1 to 65535 bytes behind its length is cut into parts that are not empty, while
  -- each read is accepted: the query tells the resolver once what `ParseResponse` makes of the message.
  pub receive_all-frame :
      (parts : List (List ℕ)) (part : List ℕ) (q : TcpDnsQuery)
      → IsWaiting body part q
      → part ++ flatten parts ≡ frame body
      → All (λ bytes. 0 < length bytes) parts
      → length part < 2 + length body
      → (results (receive_all host parts q).events ≡ expected host body q ∷ results q.events)
        × ((receive_all host parts q).done ≡ true)
  receive_all-frame [] part q w e h more =
      absurd (omega (arith, more, ap length e, length-append part []))
  receive_all-frame (bytes ∷ []) part q w e (h, hs) more =
      on_received_complete part bytes q w (ap (◌++◌ part) (sym (append-nil bytes)) ∙ e) h
  receive_all-frame (bytes ∷ next ∷ parts) part q w e (h, (n, hs)) more =
      let joined : (part ++ bytes) ++ flatten (next ∷ parts) ≡ frame body =
        append_assoc part bytes (flatten (next ∷ parts)) ∙ e in
      let short_of : length (part ++ bytes) < 2 + length body = omega (
        arith,
        n,
        ap length joined,
        length-append (part ++ bytes) (flatten (next ∷ parts)),
        length-append next (flatten parts),
      ) in
      let step = on_received-Continues part bytes (flatten (next ∷ parts)) q w joined h short_of in
      let (told, done) =
        receive_all-frame (next ∷ parts) (part ++ bytes) (on_received host bytes q) step.waits
          joined (n, hs) short_of in
      (told ∙ same_result q (on_received host bytes q) step, done)
    where
      same_result :
          (q s : TcpDnsQuery)
          → Continues body (part ++ bytes) q s
          → expected host body s ∷ results s.events ≡ expected host body q ∷ results q.events
      same_result q s c = rw (c.txid, c.qtype, c.told) refl
