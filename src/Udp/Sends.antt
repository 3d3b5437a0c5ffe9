-- ===== src/Udp/Sends.antt =====
-- server/protocol/UdpRelay.cpp: the queue of datagrams to send.
pub mod Laws
pub mod Order
use socks5proxy_native.Prelude.{
  ℕ, ◌+◌, ◌-◌, Bool, true, false, not, ◌&&◌, ◌||◌, List, [], ◌∷◌, ◌++◌, Option, none, some, ltb,
  leb, if◌then◌else◌, length, ◌==◌,
}
use socks5proxy_native.Net.{Endpoint}
use socks5proxy_native.Udp.{
  UdpRelay, Outbound, Host, post_send_to, max_udp_sends_in_flight, max_pending_udp_sends,
}

abbrev pub can_send : UdpRelay → Bool
can_send r = ltb r.sends_in_flight max_udp_sends_in_flight && (not r.stopped && r.socket_open)

-- A datagram that the completion port has taken, under the number of its context.
abbrev pub posted : Outbound → UdpRelay → UdpRelay
posted out r = record r {
  in_flight_sends = r.in_flight_sends ++ ((r.posts, out) ∷ []);
  sends_in_flight = r.sends_in_flight + 1;
  posts = r.posts + 1;
  events = post_send_to out ∷ r.events;
}

abbrev pub with_pending : List Outbound → UdpRelay → UdpRelay
with_pending queue r = record r { pending_sends = queue }

-- The search for the context that has ended; `none` when it is unknown.
unfoldable pub remove_context : ℕ → List (ℕ × Outbound) → Option (List (ℕ × Outbound))
remove_context ctx [] = none
remove_context ctx ((c, out) ∷ flight) =
    let found : Option (List (ℕ × Outbound)) = elim (remove_context ctx flight) [
      | none ↦ none
      | some rest ↦ some ((c, out) ∷ rest)
    ] in
    if c == ctx then some flight else found

module _ (host : Host) where
  -- The loop of `PumpSendLocked`, on the queue.
  unfoldable pub pump_loop : List Outbound → UdpRelay → UdpRelay
  pump_loop [] r = with_pending [] r
  pump_loop (out ∷ rest) r =
      let sent = pump_loop rest (posted out r) in
      if not (can_send r)
      then with_pending (out ∷ rest) r
      else if host.accepts r.posts
      then sent
      else with_pending (out ∷ rest) (record r { posts = r.posts + 1 })

  unfoldable pub pump_send : UdpRelay → UdpRelay
  unfolding pump_loop
  pump_send r = pump_loop r.pending_sends r

  -- `EnqueueSend` and `EnqueueSendLocked`.
  unfoldable pub enqueue_send : List ℕ → Endpoint → UdpRelay → UdpRelay
  unfolding pump_send
  enqueue_send bytes to r =
      if leb max_pending_udp_sends (length r.pending_sends)
      then r
      else pump_send (with_pending (r.pending_sends ++ (record { bytes = bytes; to = to } ∷ [])) r)

  unfoldable pub on_send_completed : ℕ → UdpRelay → UdpRelay
  unfolding pump_send
  on_send_completed ctx r = elim (remove_context ctx r.in_flight_sends) [
    | none ↦ r
    | some rest ↦
        let done = record r { in_flight_sends = rest; sends_in_flight = r.sends_in_flight - 1 } in
        if r.stopped then done else pump_send done
  ]
