-- ===== src/Resolver/Pending/Sends.antt =====
-- dns/DnsResolver.cpp: the queue of UDP queries.
use socks5proxy_native.Prelude.{
  ℕ, ◌+◌, ◌-◌, Bool, not, ◌&&◌, ◌||◌, List, [], ◌∷◌, ◌++◌, Option, none, some, ltb, leb, ◌==◌,
  if◌then◌else◌, length,
}
use socks5proxy_native.Resolver.Pending.{
  DnsResolver, Host, post_send_to, max_dns_sends_in_flight, max_pending_sends,
}

abbrev pub can_send : DnsResolver → Bool
can_send r = ltb r.sends_in_flight max_dns_sends_in_flight && (r.socket_open && not r.stopping)

abbrev pub posted : List ℕ → DnsResolver → DnsResolver
posted query r = record r {
  in_flight_sends = r.in_flight_sends ++ ((r.posts, query) ∷ []);
  sends_in_flight = r.sends_in_flight + 1;
  posts = r.posts + 1;
  events = post_send_to query ∷ r.events;
}

module _ (host : Host) where
  unfoldable pub pump_loop : List (List ℕ) → DnsResolver → DnsResolver
  pump_loop [] r = record r { pending_sends = [] }
  pump_loop (query ∷ rest) r =
      let sent = pump_loop rest (posted query r) in
      if not (can_send r)
      then record r { pending_sends = query ∷ rest }
      else if host.accepts r.posts
      then sent
      else record r { pending_sends = query ∷ rest; posts = r.posts + 1 }

  unfoldable pub enqueue_udp_send : List ℕ → DnsResolver → DnsResolver
  unfolding pump_loop
  enqueue_udp_send query r =
      if not r.socket_open || leb max_pending_sends (length r.pending_sends)
      then r
      else pump_loop (r.pending_sends ++ (query ∷ [])) r

  unfoldable pub remove_context : ℕ → List (ℕ × List ℕ) → Option (List (ℕ × List ℕ))
  remove_context ctx [] = none
  remove_context ctx ((c, query) ∷ flight) =
      let found : Option (List (ℕ × List ℕ)) = elim (remove_context ctx flight) [
        | none ↦ none
        | some rest ↦ some ((c, query) ∷ rest)
      ] in
      if c == ctx then some flight else found

  unfoldable pub on_udp_send_completed : ℕ → DnsResolver → DnsResolver
  unfolding pump_loop remove_context
  on_udp_send_completed ctx r = elim (remove_context ctx r.in_flight_sends) [
    | none ↦ r
    | some rest ↦
        let done = record r { in_flight_sends = rest; sends_in_flight = r.sends_in_flight - 1 } in
        if r.stopping then done else pump_loop r.pending_sends done
  ]
