-- ===== src/Udp/Bounds/Sends.antt =====
-- server/protocol/UdpRelay.cpp, the queue of datagrams: its limits.
use socks5proxy_native.Prelude.{
  ℕ, ◌+◌, ◌-◌, ◌≤◌, ◌≡◌, refl, true, List, [], ◌∷◌, ◌++◌, Option, some, none, length, length-append,
  Option-cases, if-elim, not, leb, inl, inr, arith,
}
use socks5proxy_native.Net.{Endpoint}
use socks5proxy_native.Udp.{UdpRelay, Outbound, Host, max_pending_udp_sends}
use socks5proxy_native.Udp.Bounds.{IsBounded, sends-IsBounded}
use socks5proxy_native.Udp.Sends.{
  can_send, with_pending, posted, pump_loop, pump_send, enqueue_send, remove_context,
  on_send_completed,
}

with_pending-IsBounded :
    (queue : List Outbound) (r : UdpRelay)
    → length queue ≤ max_pending_udp_sends
    → IsBounded r
    → IsBounded (with_pending queue r)
with_pending-IsBounded queue r h b =
    sends-IsBounded r (with_pending queue r) refl refl refl (b.sends.0, b.sends.1, h) b

posted-IsBounded :
    (out : Outbound) (r : UdpRelay) → can_send r ≡ true → IsBounded r → IsBounded (posted out r)
posted-IsBounded out r h b =
    sends-IsBounded r (posted out r) refl refl refl
      (
        omega (arith, b.sends, length-append r.in_flight_sends ((r.posts, out) ∷ [])),
        ground (arith, h),
        b.sends.2,
      )
      b

remove_context-length :
    (ctx : ℕ) (flight rest : List (ℕ × Outbound))
    → remove_context ctx flight ≡ some rest
    → length flight ≡ length rest + 1
unfolding remove_context
remove_context-length ctx [] rest e = absurd (cc)
remove_context-length ctx ((c, out) ∷ flight) rest e =
    elim (Option-cases (remove_context ctx flight)) [
      | inl n ↦ ground (arith, e, n)
      | inr (found, f) ↦ ground (arith, e, f, remove_context-length ctx flight found f)
    ]

module _ (host : Host) where
  pub pump_loop-IsBounded :
      (queue : List Outbound) (r : UdpRelay)
      → length queue ≤ max_pending_udp_sends
      → IsBounded r
      → IsBounded (pump_loop host queue r)
  unfolding pump_loop
  pump_loop-IsBounded [] r h b = with_pending-IsBounded [] r h b
  pump_loop-IsBounded (out ∷ rest) r h b =
      if-elim IsBounded (not (can_send r)) _ _ (λ e. with_pending-IsBounded (out ∷ rest) r h b)
        (λ e.
          if-elim IsBounded (host.accepts r.posts) _ _
            (λ _.
              pump_loop-IsBounded rest (posted out r) (omega arith)
                (posted-IsBounded out r (ground (arith, e)) b))
            (λ _.
              with_pending-IsBounded (out ∷ rest) (record r { posts = r.posts + 1 }) h
                (sends-IsBounded r (record r { posts = r.posts + 1 }) refl refl refl b.sends b)))

  pub pump_send-IsBounded : (r : UdpRelay) → IsBounded r → IsBounded (pump_send host r)
  unfolding pump_send
  pump_send-IsBounded r b = pump_loop-IsBounded r.pending_sends r b.sends.2 b

  pub enqueue_send-IsBounded :
      (bytes : List ℕ) (to : Endpoint) (r : UdpRelay)
      → IsBounded r
      → IsBounded (enqueue_send host bytes to r)
  unfolding enqueue_send
  enqueue_send-IsBounded bytes to r b =
      if-elim IsBounded (leb max_pending_udp_sends (length r.pending_sends)) _ _ (λ _. b)
        (λ e.
          let out : Outbound = record { bytes = bytes; to = to } in
          pump_send-IsBounded (with_pending (r.pending_sends ++ (out ∷ [])) r) (
            with_pending-IsBounded (r.pending_sends ++ (out ∷ [])) r
              (ground (arith, e, length-append r.pending_sends (out ∷ []))) b))

  pub on_send_completed-IsBounded :
      (ctx : ℕ) (r : UdpRelay) → IsBounded r → IsBounded (on_send_completed host ctx r)
  unfolding on_send_completed
  on_send_completed-IsBounded ctx r b = go (remove_context ctx r.in_flight_sends) refl
    where
      go :
          (o : Option (List (ℕ × Outbound)))
          → remove_context ctx r.in_flight_sends ≡ o
          → IsBounded (on_send_completed host ctx r)
      go none e = rw (e, on_send_completed) b
      go (some rest) e =
          let done : UdpRelay = record r {
            in_flight_sends = rest;
            sends_in_flight = r.sends_in_flight - 1;
          } in
          let bounded : IsBounded done =
            sends-IsBounded r done refl refl refl
              (
                omega (arith, b.sends, remove_context-length ctx r.in_flight_sends rest e),
                omega (arith, b.sends),
                b.sends.2,
              )
              b in
          rw (e, on_send_completed)
            (if-elim IsBounded r.stopped done (pump_send host done) (λ _. bounded)
              (λ _. pump_send-IsBounded done bounded))
