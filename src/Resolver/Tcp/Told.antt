-- ===== src/Resolver/Tcp/Told.antt =====
-- dns/DnsResolver.cpp, `TcpDnsQuery`: how often the resolver is told.
use socks5proxy_native.Prelude.{
  ℕ, ◌+◌, ◌-◌, ◌≡◌, refl, Bool, false, not, List, [], ◌∷◌, ◌++◌, length, ◌==◌, if-elim,
  if◌then◌else◌, arith,
}
use socks5proxy_native.Outcome.{Outcome}
use socks5proxy_native.Dns.Response.{DnsResult}
use socks5proxy_native.Resolver.Tcp.{
  TcpDnsQuery, Phase, connecting, sending, recv_len, recv_body, Host, body_length, new_query, fail,
  tell, start, post_part, on_connected, post_recv_part, on_sent, post_recv_more, complete_body,
  continue_body, sized_body, receive_length, continue_recv, on_received, on_io_completed,
}
use socks5proxy_native.Resolver.Tcp.Steps.{results}

-- The resolver has been told once if the query is done, and never if it is not.
abbrev pub Once : TcpDnsQuery → Type 0
Once q = length (results q.events) ≡ (if q.done then 1 else 0)

-- A query that goes on, of which the resolver knows nothing yet.
record IsOpen (q : TcpDnsQuery) : Type 0 where
  going : q.done ≡ false
  silent : results q.events ≡ []

fail-Once : (q : TcpDnsQuery) → Once q → Once (fail q)
unfolding fail
fail-Once q o = ground (arith, o)

tell-Once : (result : Outcome DnsResult) (q : TcpDnsQuery) → IsOpen q → Once (tell result q)
tell-Once result q o = ground (arith, o)

open-Once : (q : TcpDnsQuery) → IsOpen q → Once q
open-Once q o = ground (arith, o)

module _ (host : Host) where
  post_part-Once :
      (offset size : ℕ) (q : TcpDnsQuery) → IsOpen q → Once (post_part host offset size q)
  unfolding post_part fail
  post_part-Once offset size q o = ground (arith, o)

  on_connected-Once : (q : TcpDnsQuery) → IsOpen q → Once (on_connected host q)
  unfolding on_connected post_part fail
  on_connected-Once q o = ground (arith, o)

  on_sent-Once : (bytes : ℕ) (q : TcpDnsQuery) → IsOpen q → Once (on_sent host bytes q)
  unfolding on_sent post_recv_part fail
  on_sent-Once bytes q o =
      ground (arith, o, post_part-Once (q.send_offset + bytes) (q.send_length - bytes) q o)

  post_recv_more-Once : (q : TcpDnsQuery) → IsOpen q → Once (post_recv_more host q).0
  unfolding post_recv_more post_recv_part
  post_recv_more-Once q o = ground (arith, o)

  continue_body-Once : (q : TcpDnsQuery) → IsOpen q → Once (continue_body host q).0
  unfolding continue_body complete_body
  continue_body-Once q o = ground (arith, o, post_recv_more-Once q o)

  sized-Once : (q : TcpDnsQuery) → IsOpen q → Once (sized_body host q).0
  unfolding sized_body
  sized-Once q o =
      let known : TcpDnsQuery = record q {
        recv_need = 2 + body_length q.recv_buffer;
        phase = recv_body;
      } in
      continue_body-Once known (record { going = o.going; silent = o.silent })

  continue_recv-Once : (q : TcpDnsQuery) → IsOpen q → Once (continue_recv host q).0
  unfolding continue_recv
  continue_recv-Once q o = go q.phase
    where
      length_part : Once (receive_length host q).0
      length_part = ground (arith, open-Once q o, post_recv_more-Once q o, sized-Once q o)

      go :
          (phase : Phase)
          → Once
              (elim phase as (λ _. TcpDnsQuery × Bool) [
                | recv_len ↦ receive_length host q
                | _ ↦ continue_body host q
              ]).0
      go connecting = continue_body-Once q o
      go sending = continue_body-Once q o
      go recv_len = length_part
      go recv_body = continue_body-Once q o

  on_received-Once : (bytes : List ℕ) (q : TcpDnsQuery) → IsOpen q → Once (on_received host bytes q)
  unfolding on_received
  on_received-Once bytes q o =
      let longer : TcpDnsQuery = record q { recv_buffer = q.recv_buffer ++ bytes } in
      let next = continue_recv-Once longer (record { going = o.going; silent = o.silent }) in
      ground
        (arith, next, fail-Once q (open-Once q o), fail-Once (continue_recv host longer).0 next)

  going-IsOpen : (q : TcpDnsQuery) → q.done ≡ false → Once q → IsOpen q
  going-IsOpen q e o = record {
    going = e;
    silent = none_told (results q.events) (ground (arith, e, o));
  }
    where
      none_told : (told : List (ℕ × Outcome DnsResult)) → length told ≡ 0 → told ≡ []
      none_told [] z = refl
      none_told (result ∷ told) z = absurd (omega arith)

  on_io_completed-Once :
      (error : ℕ) (received : List ℕ) (sent : ℕ) (q : TcpDnsQuery)
      → Once q
      → Once (on_io_completed host error received sent q)
  unfolding on_io_completed
  on_io_completed-Once error received sent q o =
      if-elim Once q.done _ _ (λ _. o)
        (λ e.
          if-elim Once (not (error == 0)) _ _ (λ _. fail-Once q o)
            (λ _. by_phase (going-IsOpen q e o) q.phase))
    where
      by_phase :
          IsOpen q
          → (phase : Phase)
          → Once (elim phase as (λ _. TcpDnsQuery) [
            | connecting ↦ on_connected host q
            | sending ↦ on_sent host sent q
            | recv_len ↦ on_received host received q
            | recv_body ↦ on_received host received q
          ])
      by_phase u connecting = on_connected-Once q u
      by_phase u sending = on_sent-Once sent q u
      by_phase u recv_len = on_received-Once received q u
      by_phase u recv_body = on_received-Once received q u

  start-Once : (q : TcpDnsQuery) → Once q → Once (start host q).0
  unfolding start
  start-Once q o = ground (arith, o)

  -- Completions, each with its error, the bytes received and the number of bytes sent.
  abbrev pub run_query : List (ℕ × List ℕ × ℕ) → TcpDnsQuery → TcpDnsQuery
  run_query [] q = q
  run_query ((error, received, sent) ∷ completions) q =
      run_query completions (on_io_completed host error received sent q)

  keeps-Once :
      (completions : List (ℕ × List ℕ × ℕ)) (q : TcpDnsQuery)
      → Once q
      → Once (run_query completions q)
  keeps-Once [] q o = o
  keeps-Once ((error, received, sent) ∷ completions) q o =
      keeps-Once completions (on_io_completed host error received sent q)
        (on_io_completed-Once error received sent q o)

  -- After `Start` of a new query and any sequence of completions, the resolver has been told exactly once
  -- if the query is done, and never if it is not.
  pub run_query-Once :
      (txid qtype : ℕ) (query : List ℕ) (completions : List (ℕ × List ℕ × ℕ))
      → Once (run_query completions (start host (new_query txid qtype query)).0)
  unfolding new_query
  run_query-Once txid qtype query completions =
      keeps-Once completions (start host (new_query txid qtype query)).0
        (start-Once (new_query txid qtype query) refl)
