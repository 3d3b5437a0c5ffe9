-- ===== src/Udp/Domains/Asked.antt =====
-- server/protocol/UdpRelay.cpp: the calls of `ResolveAsync` for the names that datagrams wait for.
use socks5proxy_native.Prelude.{
  ℕ, zero, suc, ◌+◌, ◌≡◌, ◌≢◌, refl, sym, ◌∙◌, ap, Bool, true, false, not, ◌&&◌, ◌||◌, List, [],
  ◌∷◌, ◌++◌, Option, none, some, Option-elim, if-elim, if◌then◌else◌, length, leb, insert,
  lookup_empty, ◌==◌, ◌=?◌, bytes_eq, arith,
}
use socks5proxy_native.Net.{Family, Endpoint, parse_ip}
use socks5proxy_native.Udp.{
  UdpRelay, Host, Event, Outbound, resolve_async, DnsNotify, PendingDomainPacket, Destination,
  to_ip, to_domain, max_pending_udp_sends,
}
use socks5proxy_native.Udp.Sends.{posted, with_pending, pump_loop, pump_send, enqueue_send}
use socks5proxy_native.Udp.Domains.{
  queue_of, is_member, remove_member, touch, forward_payload, forward_batch, queue_packet,
  refuse_packet, refuses_packet, dispatch_client_payload, on_resolved, drop_domain, notify_round,
  notify_loop,
}
use socks5proxy_native.Udp.Domains.Laws.{
  is_member-remove_member, waiting, forward_payload-SameNames,
}
use socks5proxy_native.Udp.Domains.Awaited.{
  Awaited, NameOp, dispatched, answered, noticed, apply_name, run_names, run_names-Awaited,
}
use socks5proxy_native.Udp.Relay.{on_dns_notify}

-- How often the resolver was asked for a name.
abbrev pub lookups : List ℕ → List Event → ℕ
lookups name [] = 0
lookups name (resolve_async asked ∷ events) = (if asked =? name then 1 else 0) + lookups name events
lookups name (event ∷ events) = lookups name events

-- Is a lookup of the name under way?
abbrev pub is_asked : List ℕ → UdpRelay → Bool
is_asked name r = is_member name r.dns_in_flight

abbrev one : Bool → ℕ
one true = 1
one false = 0

-- How many lookups of the name were under way and are over after the next operation.
abbrev pub ended_lookups : Host → List ℕ → List NameOp → UdpRelay → ℕ
ended_lookups host name [] r = 0
ended_lookups host name (op ∷ ops) r =
    one (is_asked name r && not (is_asked name (apply_name host op r)))
    + ended_lookups host name ops (apply_name host op r)

module _ (host : Host) (name : List ℕ) where
  -- Nothing is asked for, and no lookup begins.
  record Quiet (r s : UdpRelay) : Type 0 where
    same : lookups name s.events ≡ lookups name r.events
    ends : is_asked name s ≡ true → is_asked name r ≡ true

  pump_loop-lookups :
      (queue : List Outbound) (r : UdpRelay)
      → lookups name (pump_loop host queue r).events ≡ lookups name r.events
  unfolding pump_loop
  pump_loop-lookups [] r = refl
  pump_loop-lookups (out ∷ rest) r = ground (arith, pump_loop-lookups rest (posted out r))

  forward_payload-lookups :
      (payload : List ℕ) (to : Endpoint) (now : ℕ) (r : UdpRelay)
      → lookups name (forward_payload host payload to now r).events ≡ lookups name r.events
  unfolding forward_payload enqueue_send pump_send
  forward_payload-lookups payload to now r =
      let queue = r.pending_sends ++ (record { bytes = payload; to = to } ∷ []) in
      let touched : UdpRelay = record r {
        active_destinations = touch host to now r.active_destinations;
      } in
      if-elim {A = UdpRelay} (λ s. lookups name s.events ≡ lookups name r.events)
        (leb max_pending_udp_sends (length r.pending_sends)) _ _ (λ _. refl)
        (λ _. pump_loop-lookups queue (with_pending queue touched))

  forward_batch-Quiet :
      (family : Family) (ip : List ℕ) (batch : List PendingDomainPacket) (now : ℕ) (r : UdpRelay)
      → Quiet r (forward_batch host family ip batch now r)
  unfolding forward_batch
  forward_batch-Quiet family ip [] now r = record { same = refl; ends = λ e. e }
  forward_batch-Quiet family ip (pending ∷ batch) now r =
      let to : Endpoint = record {
        family = family;
        ip = ip;
        port = pending.port;
        flow_info = 0;
        scope_id = 0;
      } in
      let next = forward_payload host pending.payload to now r in
      let more = forward_batch-Quiet family ip batch now next in
      let kept = (forward_payload-SameNames host pending.payload to now r).asked in
      record {
        same = more.same ∙ forward_payload-lookups pending.payload to now r;
        ends = λ e. ap (is_member name) (sym kept) ∙ more.ends e;
      }

  removed-ends :
      (other : List ℕ) (names : List (List ℕ))
      → is_member name (remove_member other names) ≡ true
      → is_member name names ≡ true
  removed-ends other names e = ground (arith, e, is_member-remove_member name other names)

  round-Quiet :
      (notify : DnsNotify) (now : ℕ) (r : UdpRelay) → Quiet r (notify_round host notify now r).0
  unfolding notify_round drop_domain
  round-Quiet notify now r =
      if-elim {A = UdpRelay × Bool} (λ out. Quiet r out.0) (length queue == 0) _ _
        (λ _. record { same = refl; ends = removed-ends notify.domain r.dns_in_flight })
        (λ _.
          Option-elim {B = UdpRelay × Bool} (λ out. Quiet r out.0) notify.found_ip _ _
            (record { same = refl; ends = removed-ends notify.domain r.dns_in_flight })
            (λ text.
              Option-elim {B = UdpRelay × Bool} (λ out. Quiet r out.0)
                (parse_ip host.inet_pton text) _ _ (record { same = refl; ends = λ e. e })
                (λ address.
                  let more = forward_batch-Quiet address.0 address.1 queue now taken in
                  record { same = more.same; ends = more.ends })))
    where
      queue : List PendingDomainPacket
      queue = waiting notify.domain r

      taken : UdpRelay
      taken = record r { pending_by_domain = insert notify.domain [] r.pending_by_domain }

  abbrev EndsQuiet : UdpRelay → Option UdpRelay → Type 0
  EndsQuiet r none = Unit {0}
  EndsQuiet r (some s) = Quiet r s

  loop-Quiet :
      (fuel : ℕ) (notify : DnsNotify) (now : ℕ) (r s : UdpRelay)
      → Quiet r s
      → EndsQuiet r (notify_loop host fuel notify now s)
  unfolding notify_loop
  loop-Quiet zero notify now r s q = tt
  loop-Quiet (suc fuel) notify now r s q =
      let next = round-Quiet notify now s in
      let both : Quiet r (notify_round host notify now s).0 = record {
        same = next.same ∙ q.same;
        ends = λ e. q.ends (next.ends e);
      } in
      if-elim (EndsQuiet r) (notify_round host notify now s).1 _ _
        (λ _. loop-Quiet fuel notify now r (notify_round host notify now s).0 both) (λ _. both)

  on_dns_notify-Quiet :
      (notify : DnsNotify) (now : ℕ) (r : UdpRelay) → Quiet r (on_dns_notify host notify now r)
  unfolding on_dns_notify
  on_dns_notify-Quiet notify now r =
      go (notify_loop host 2 notify now r)
        (loop-Quiet 2 notify now r r (record { same = refl; ends = λ e. e }))
    where
      go : (o : Option UdpRelay) → EndsQuiet r o → Quiet r (elim o [ none ↦ r | some s ↦ s ])
      go none e = record { same = refl; ends = λ e. e }
      go (some s) e = e

  on_resolved-Quiet :
      (other : List ℕ) (found : Option (List ℕ)) (r : UdpRelay)
      → Quiet r (on_resolved host other found r)
  unfolding on_resolved
  on_resolved-Quiet other found r =
      if-elim (Quiet r) r.stopped _ _ (λ _. record { same = refl; ends = λ e. e })
        (λ _.
          if-elim (Quiet r) (host.accepts r.posts) _ _ (λ _. record { same = refl; ends = λ e. e })
            (λ _. record { same = refl; ends = removed-ends other r.dns_in_flight }))

  -- What an operation asks for: one lookup when one begins.
  abbrev Balanced : UdpRelay → UdpRelay → Type 0
  Balanced r s =
      lookups name s.events + one (is_asked name r)
      ≡ lookups name r.events
        + (one (is_asked name s) + one (is_asked name r && not (is_asked name s)))

  Quiet-Balanced : (r s : UdpRelay) → Quiet r s → Balanced r s
  Quiet-Balanced r s q = go (is_asked name r) (is_asked name s) q.same q.ends
    where
      go :
          (a b : Bool)
          → lookups name s.events ≡ lookups name r.events
          → (b ≡ true → a ≡ true)
          → lookups name s.events + one a ≡ lookups name r.events + (one b + one (a && not b))
      go true true e h = omega (arith, e)
      go true false e h = omega (arith, e)
      go false true e h = absurd (let never = h refl in cc)
      go false false e h = omega (arith, e)

  queue_packet-Balanced :
      (other : List ℕ) (pending : PendingDomainPacket) (r : UdpRelay)
      → Balanced r (queue_packet host other pending r)
  unfolding queue_packet is_member
  queue_packet-Balanced other pending r =
      if-elim (Balanced r) (is_asked other r) _ _
        (λ _. Quiet-Balanced r r (record { same = refl; ends = λ e. e }))
        (λ n.
          begins (other =? name) (is_asked name r)
            (λ e. rw (sym ((bytes_eq.beq_iff other name).0 e)) n))
    where
      begins :
          (b m : Bool)
          → (b ≡ true → m ≡ false)
          → (if b then 1 else 0) + lookups name r.events + one m
            ≡ lookups name r.events + (one (b || m) + one (m && not (b || m)))
      begins true true h = absurd (let never = h refl in cc)
      begins true false h = omega arith
      begins false true h = omega arith
      begins false false h = omega arith

  dispatch-Balanced :
      (destination : Destination) (payload : List ℕ) (now : ℕ) (r : UdpRelay)
      → Balanced r (dispatch_client_payload host destination payload now r)
  unfolding dispatch_client_payload refuse_packet
  dispatch-Balanced (to_ip to) payload now r =
      Quiet-Balanced r (forward_payload host payload to now r) (record {
        same = forward_payload-lookups payload to now r;
        ends = λ e.
            ap (is_member name) (sym (forward_payload-SameNames host payload to now r).asked) ∙ e;
      })
  dispatch-Balanced (to_domain other port) payload now r =
      let still = Quiet-Balanced r r (record { same = refl; ends = λ e. e }) in
      if-elim (Balanced r) (length other == 0) _ _ (λ _. still)
        (λ _.
          if-elim (Balanced r) (refuses_packet host other r) _ _
            (λ _.
              if-elim (Balanced r) (length (waiting other r) == 0) _ _ (λ _. still) (λ _. still))
            (λ _. queue_packet-Balanced other (record { payload = payload; port = port }) r))

  apply_name-Balanced : (op : NameOp) (r : UdpRelay) → Balanced r (apply_name host op r)
  apply_name-Balanced (dispatched to payload now) r = dispatch-Balanced to payload now r
  apply_name-Balanced (answered other found) r =
      Quiet-Balanced r _ (on_resolved-Quiet other found r)
  apply_name-Balanced (noticed notify now) r = Quiet-Balanced r _ (on_dns_notify-Quiet notify now r)

  run_names-Balanced :
      (ops : List NameOp) (r : UdpRelay)
      → lookups name (run_names host ops r).events + one (is_asked name r)
        ≡ lookups name r.events
          + (one (is_asked name (run_names host ops r)) + ended_lookups host name ops r)
  run_names-Balanced [] r = omega arith
  run_names-Balanced (op ∷ ops) r =
      omega (arith, apply_name-Balanced op r, run_names-Balanced ops (apply_name host op r))

  pub run_names-lookups :
      (ops : List NameOp) (r : UdpRelay)
      → r.dns_in_flight ≡ []
      → r.pending_by_domain ≡ []
      → waiting name (run_names host ops r) ≢ []
      → lookups name (run_names host ops r).events
        ≡ lookups name r.events + ended_lookups host name ops r + 1
  run_names-lookups ops r idle empty waits =
      let none_waits_yet : Awaited r =
        λ other h. absurd (h (ap queue_of (lookup_empty other r.pending_by_domain empty))) in
      let asked = run_names-Awaited host ops r none_waits_yet name waits in
      let idle_name : is_asked name r ≡ false =
        ap (is_member name) idle ∙ unfold is_member in refl in
      omega (arith, run_names-Balanced ops r, ap one asked, ap one idle_name)
