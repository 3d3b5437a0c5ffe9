-- ===== src/Udp/Sends/Order.antt =====
-- server/protocol/UdpRelay.cpp, the queue of datagrams: their order, and when they wait.
use socks5proxy_native.Prelude.{
  ℕ, ◌-◌, ◌≤◌, ◌≡◌, refl, sym, ◌∙◌, ap, ◌⊎◌, inl, inr, Bool, true, false, not, List, [], ◌∷◌, ◌++◌,
  append_assoc, append-nil, Option-elim, length, if-elim, if◌then◌else◌, leb, Option-cases, arith,
}
use socks5proxy_native.Udp.{
  UdpRelay, Outbound, Host, Event, post_send_to, max_pending_udp_sends, max_udp_sends_in_flight,
}
use socks5proxy_native.Udp.Sends.Laws.{pump_loop-SameTables, enqueue_send-SameTables}
use socks5proxy_native.Udp.Sends.{
  with_pending, posted, remove_context, pump_loop, pump_send, enqueue_send, on_send_completed,
}

-- The datagrams that the completion port took, the first one first.
abbrev pub posted_sends : List Event → List Outbound
posted_sends [] = []
posted_sends (post_send_to out ∷ events) = posted_sends events ++ (out ∷ [])
posted_sends (event ∷ events) = posted_sends events

-- The datagrams posted, and then those that wait.
abbrev pub line : UdpRelay → List Outbound
line r = posted_sends r.events ++ r.pending_sends

pub data SendOp : Type 0 where
  enqueued : Outbound → SendOp
  ended : ℕ → SendOp

-- Is there room for a datagram in the queue?
abbrev pub has_room : UdpRelay → Bool
has_room r = not (leb max_pending_udp_sends (length r.pending_sends))

-- Nothing waits, or as many datagrams as allowed are under way.
abbrev pub Drained : UdpRelay → Type 0
Drained r = (r.pending_sends ≡ []) ⊎ (max_udp_sends_in_flight ≤ r.sends_in_flight)

abbrev done : List (ℕ × Outbound) → UdpRelay → UdpRelay
done rest r = record r { in_flight_sends = rest; sends_in_flight = r.sends_in_flight - 1 }

module _ (host : Host) where
  abbrev pub apply_send : SendOp → UdpRelay → UdpRelay
  apply_send (enqueued out) r = enqueue_send host out.bytes out.to r
  apply_send (ended ctx) r = on_send_completed host ctx r

  abbrev pub run_sends : List SendOp → UdpRelay → UdpRelay
  run_sends [] r = r
  run_sends (op ∷ ops) r = run_sends ops (apply_send op r)

  -- What an operation adds to the queue: nothing when it is full.
  abbrev pub added : SendOp → UdpRelay → List Outbound
  added (enqueued out) r = if has_room r then out ∷ [] else []
  added (ended ctx) r = []

  abbrev pub all_added : List SendOp → UdpRelay → List Outbound
  all_added [] r = []
  all_added (op ∷ ops) r = added op r ++ all_added ops (apply_send op r)

  line-pump_loop :
      (queue : List Outbound) (r : UdpRelay)
      → line (pump_loop host queue r) ≡ posted_sends r.events ++ queue
  unfolding pump_loop
  line-pump_loop [] r = refl
  line-pump_loop (out ∷ rest) r = ground (
    arith,
    line-pump_loop rest (posted out r),
    append_assoc (posted_sends r.events) (out ∷ []) rest,
  )

  line-apply_send : (op : SendOp) (r : UdpRelay) → line (apply_send op r) ≡ line r ++ added op r
  unfolding enqueue_send pump_send on_send_completed
  line-apply_send (enqueued out) r =
      let queue = r.pending_sends ++ (out ∷ []) in
      ground (
        arith,
        append-nil (line r),
        line-pump_loop queue (with_pending queue r),
        append_assoc (posted_sends r.events) r.pending_sends (out ∷ []),
      )
  line-apply_send (ended ctx) r = elim (Option-cases (remove_context ctx r.in_flight_sends)) [
    | inl n ↦ ground (arith, n, append-nil (line r))
    | inr (rest, e) ↦
        ground (arith, e, append-nil (line r), line-pump_loop r.pending_sends (done rest r))
  ]

  -- However datagrams are queued and sends end: the datagrams posted so far, in their order, followed by
  -- those that wait are the ones of the beginning and then those queued while there was room, in their
  -- order.
  pub line-run_sends :
      (ops : List SendOp) (r : UdpRelay) → line (run_sends ops r) ≡ line r ++ all_added ops r
  line-run_sends [] r = sym (append-nil (line r))
  line-run_sends (op ∷ ops) r =
      line-run_sends ops (apply_send op r)
      ∙ ap (λ w. w ++ all_added ops (apply_send op r)) (line-apply_send op r)
      ∙ append_assoc (line r) (added op r) (all_added ops (apply_send op r))

  module _ (willing : (n : ℕ) → host.accepts n ≡ true) where
    pump_loop-Drained :
        (queue : List Outbound) (r : UdpRelay)
        → r.stopped ≡ false
        → r.socket_open ≡ true
        → Drained (pump_loop host queue r)
    unfolding pump_loop
    pump_loop-Drained [] r s o = inl refl
    pump_loop-Drained (out ∷ rest) r s o =
        ground (arith, s, o, willing r.posts, pump_loop-Drained rest (posted out r) s o)

    apply_send-Drained :
        (op : SendOp) (r : UdpRelay)
        → r.stopped ≡ false
        → r.socket_open ≡ true
        → Drained r
        → Drained (apply_send op r)
    unfolding enqueue_send pump_send on_send_completed
    apply_send-Drained (enqueued out) r s o d =
        let queue = r.pending_sends ++ (out ∷ []) in
        if-elim Drained (leb max_pending_udp_sends (length r.pending_sends)) _ _ (λ _. d)
          (λ _. pump_loop-Drained queue (with_pending queue r) s o)
    apply_send-Drained (ended ctx) r s o d =
        Option-elim Drained (remove_context ctx r.in_flight_sends) _ _ d (λ rest.
          if-elim Drained r.stopped _ _ (λ e. absurd (cc))
            (λ _. pump_loop-Drained r.pending_sends (done rest r) s o))

    apply_send-open :
        (op : SendOp) (r : UdpRelay)
        → r.stopped ≡ false
        → r.socket_open ≡ true
        → ((apply_send op r).stopped ≡ false) × ((apply_send op r).socket_open ≡ true)
    unfolding on_send_completed pump_send
    apply_send-open (enqueued out) r s o =
        ground (arith, s, o, enqueue_send-SameTables host out.bytes out.to r)
    apply_send-open (ended ctx) r s o = elim (Option-cases (remove_context ctx r.in_flight_sends)) [
      | inl n ↦ ground (arith, n, s, o)
      | inr (rest, e) ↦
          ground (arith, e, s, o, pump_loop-SameTables host r.pending_sends (done rest r))
    ]

    -- In an open relay whose completion port takes every datagram, with nothing waiting at first or 16
    -- datagrams under way: however datagrams are queued and sends end, a datagram waits only while 16
    -- are under way.
    pub run_sends-Drained :
        (ops : List SendOp) (r : UdpRelay)
        → r.stopped ≡ false
        → r.socket_open ≡ true
        → Drained r
        → Drained (run_sends ops r)
    run_sends-Drained [] r s o d = d
    run_sends-Drained (op ∷ ops) r s o d =
        let (s', o') = apply_send-open op r s o in
        run_sends-Drained ops (apply_send op r) s' o' (apply_send-Drained op r s o d)
