-- ===== src/Udp/Domains/Awaited.antt =====
-- server/protocol/UdpRelay.cpp: datagrams that wait for a name wait for a lookup under way.
use socks5proxy_native.Prelude.{
  ℕ, zero, suc, ◌≡◌, ◌≢◌, refl, Bool, true, List, [], ◌∷◌, ◌++◌, Option, none, some, Option-elim,
  if-elim, length, lookup, insert, erase, lookup-insert, lookup-erase, beq_refl, Bool-cases, inl,
  inr, ◌==◌, ◌=?◌, bytes_eq, arith,
}
use socks5proxy_native.Net.{parse_ip}
use socks5proxy_native.Udp.{
  UdpRelay, Host, DnsNotify, PendingDomainPacket, Destination, to_ip, to_domain,
}
use socks5proxy_native.Udp.Domains.{
  queue_of, is_member, remove_member, queue_packet, refuse_packet, refuses_packet,
  dispatch_client_payload, on_resolved, drop_domain, notify_round, notify_loop,
}
use socks5proxy_native.Udp.Domains.Laws.{
  is_member-remove_member, waiting, SameNames, none_waits, forward_payload-SameNames, none_waits,
  forward_batch-SameNames,
}
use socks5proxy_native.Udp.Relay.{on_dns_notify}

-- A name that a datagram waits for is looked up.
abbrev pub IsAwaited : List (List ℕ × List PendingDomainPacket) → List (List ℕ) → Type 0
IsAwaited table asked =
    (name : List ℕ) → queue_of (lookup name table) ≢ [] → is_member name asked ≡ true

erase-IsAwaited :
    (name : List ℕ) (table : List (List ℕ × List PendingDomainPacket)) (asked : List (List ℕ))
    → IsAwaited table asked
    → IsAwaited (erase name table) (remove_member name asked)
erase-IsAwaited name table asked w other h = elim (Bool-cases (name =? other)) [
  | inl e ↦ absurd (rw (lookup-erase name other table, e) at h refl)
  | inr e ↦
      rw (is_member-remove_member other name asked, e)
        (w other (rw (lookup-erase name other table, e) at h))
]

insert-IsAwaited :
    (name : List ℕ) (queue : List PendingDomainPacket)
    (table : List (List ℕ × List PendingDomainPacket)) (asked : List (List ℕ))
    → is_member name asked ≡ true
    → IsAwaited table asked
    → IsAwaited (insert name queue table) asked
insert-IsAwaited name queue table asked m w other h = elim (Bool-cases (name =? other)) [
  | inl e ↦ let same = (bytes_eq.beq_iff name other).0 e in rw same at m
  | inr e ↦ w other (rw (lookup-insert name other queue table, e) at h)
]

same-IsAwaited :
    (r s : UdpRelay)
    → SameNames r s
    → IsAwaited r.pending_by_domain r.dns_in_flight
    → IsAwaited s.pending_by_domain s.dns_in_flight
same-IsAwaited r s same w = rw (same.table, same.asked) w

add-IsAwaited :
    (name : List ℕ) (table : List (List ℕ × List PendingDomainPacket)) (asked : List (List ℕ))
    → IsAwaited table asked
    → IsAwaited table (name ∷ asked)
unfolding is_member
add-IsAwaited name table asked w other h = ground (arith, w other h)

-- When nothing waits for a name, its lookup need not be under way.
remove-IsAwaited :
    (name : List ℕ) (table : List (List ℕ × List PendingDomainPacket)) (asked : List (List ℕ))
    → queue_of (lookup name table) ≡ []
    → IsAwaited table asked
    → IsAwaited table (remove_member name asked)
remove-IsAwaited name table asked n w other h = elim (Bool-cases (name =? other)) [
  | inl e ↦ let same = (bytes_eq.beq_iff name other).0 e in absurd (h (rw same at n))
  | inr e ↦ rw (is_member-remove_member other name asked, e) (w other h)
]

abbrev pub Awaited : UdpRelay → Type 0
Awaited r = IsAwaited r.pending_by_domain r.dns_in_flight

module _ (host : Host) where
  queue_packet-Awaited :
      (name : List ℕ) (pending : PendingDomainPacket) (r : UdpRelay)
      → Awaited r
      → Awaited (queue_packet host name pending r)
  unfolding queue_packet is_member
  queue_packet-Awaited name pending r w =
      let queue = waiting name r ++ (pending ∷ []) in
      if-elim Awaited (is_member name r.dns_in_flight) _ _
        (λ m. insert-IsAwaited name queue r.pending_by_domain r.dns_in_flight m w)
        (λ _.
          insert-IsAwaited name queue r.pending_by_domain (name ∷ r.dns_in_flight)
            (rw (beq_refl name) refl) (add-IsAwaited name r.pending_by_domain r.dns_in_flight w))

  -- Erasing a name that nothing waits for.
  forget-Awaited :
      (name : List ℕ) (r : UdpRelay)
      → Awaited r
      → Awaited (record r { pending_by_domain = erase name r.pending_by_domain })
  forget-Awaited name r w other h = elim (Bool-cases (name =? other)) [
    | inl e ↦ absurd (rw (lookup-erase name other r.pending_by_domain, e) at h refl)
    | inr e ↦ w other (rw (lookup-erase name other r.pending_by_domain, e) at h)
  ]

  dispatch-Awaited :
      (destination : Destination) (payload : List ℕ) (now : ℕ) (r : UdpRelay)
      → Awaited r
      → Awaited (dispatch_client_payload host destination payload now r)
  unfolding dispatch_client_payload refuse_packet
  dispatch-Awaited (to_ip destination) payload now r w =
      same-IsAwaited r _ (forward_payload-SameNames host payload destination now r) w
  dispatch-Awaited (to_domain name port) payload now r w =
      let pending : PendingDomainPacket = record { payload = payload; port = port } in
      if-elim Awaited (length name == 0) _ _ (λ _. w)
        (λ _.
          if-elim Awaited (refuses_packet host name r) _ _
            (λ _.
              if-elim Awaited (length (waiting name r) == 0) _ _ (λ _. forget-Awaited name r w)
                (λ _. w))
            (λ _. queue_packet-Awaited name pending r w))

  on_resolved-Awaited :
      (name : List ℕ) (found : Option (List ℕ)) (r : UdpRelay)
      → Awaited r
      → Awaited (on_resolved host name found r)
  unfolding on_resolved
  on_resolved-Awaited name found r w =
      if-elim Awaited r.stopped _ _ (λ _. w)
        (λ _.
          if-elim Awaited (host.accepts r.posts) _ _ (λ _. w)
            (λ _. erase-IsAwaited name r.pending_by_domain r.dns_in_flight w))

  taken-Awaited :
      (name : List ℕ) (r : UdpRelay)
      → Awaited r
      → Awaited (record r { pending_by_domain = insert name [] r.pending_by_domain })
  taken-Awaited name r w other h = elim (Bool-cases (name =? other)) [
    | inl e ↦ absurd (rw (lookup-insert name other [] r.pending_by_domain, e) at h refl)
    | inr e ↦ w other (rw (lookup-insert name other [] r.pending_by_domain, e) at h)
  ]

  round-Awaited :
      (notify : DnsNotify) (now : ℕ) (r : UdpRelay)
      → Awaited r
      → Awaited (notify_round host notify now r).0
  unfolding notify_round drop_domain
  round-Awaited notify now r w =
      if-elim {A = UdpRelay × Bool} (λ out. Awaited out.0) (length queue == 0) _ _
        (λ z.
          remove-IsAwaited notify.domain r.pending_by_domain r.dns_in_flight (none_waits queue z) w)
        (λ _.
          Option-elim {B = UdpRelay × Bool} (λ out. Awaited out.0) notify.found_ip _ _
            (erase-IsAwaited notify.domain taken.pending_by_domain r.dns_in_flight bare)
            (λ text.
              Option-elim {B = UdpRelay × Bool} (λ out. Awaited out.0)
                (parse_ip host.inet_pton text) _ _ bare
                (λ address.
                  same-IsAwaited taken _
                    (forward_batch-SameNames host address.0 address.1 queue now taken) bare)))
    where
      queue : List PendingDomainPacket
      queue = waiting notify.domain r

      taken : UdpRelay
      taken = record r { pending_by_domain = insert notify.domain [] r.pending_by_domain }

      bare : Awaited taken
      bare = taken-Awaited notify.domain r w

  abbrev EndsAwaited : Option UdpRelay → Type 0
  EndsAwaited none = Unit {0}
  EndsAwaited (some r) = Awaited r

  loop-Awaited :
      (fuel : ℕ) (notify : DnsNotify) (now : ℕ) (r : UdpRelay)
      → Awaited r
      → EndsAwaited (notify_loop host fuel notify now r)
  unfolding notify_loop
  loop-Awaited zero notify now r w = tt
  loop-Awaited (suc fuel) notify now r w =
      let kept = round-Awaited notify now r w in
      if-elim EndsAwaited (notify_round host notify now r).1 _ _
        (λ _. loop-Awaited fuel notify now (notify_round host notify now r).0 kept) (λ _. kept)

  on_dns_notify-Awaited :
      (notify : DnsNotify) (now : ℕ) (r : UdpRelay)
      → Awaited r
      → Awaited (on_dns_notify host notify now r)
  unfolding on_dns_notify
  on_dns_notify-Awaited notify now r w =
      go (notify_loop host 2 notify now r) (loop-Awaited 2 notify now r w)
    where
      go : (o : Option UdpRelay) → EndsAwaited o → Awaited (elim o [ none ↦ r | some next ↦ next ])
      go none e = w
      go (some next) e = e

-- What concerns names: a client's datagram, an answer of the resolver, and its notice in the relay.
pub data NameOp : Type 0 where
  dispatched : Destination → List ℕ → ℕ → NameOp
  answered : List ℕ → Option (List ℕ) → NameOp
  noticed : DnsNotify → ℕ → NameOp

abbrev pub apply_name : Host → NameOp → UdpRelay → UdpRelay
apply_name host (dispatched destination payload now) r =
    dispatch_client_payload host destination payload now r
apply_name host (answered name found) r = on_resolved host name found r
apply_name host (noticed notify now) r = on_dns_notify host notify now r

abbrev pub run_names : Host → List NameOp → UdpRelay → UdpRelay
run_names host [] r = r
run_names host (op ∷ ops) r = run_names host ops (apply_name host op r)

-- If every name with waiting datagrams is being looked up, that stays so over every sequence of datagrams
-- dispatched, answers of the resolver and notices of them, also when the completion port refuses a
-- notice.
pub run_names-Awaited :
    (host : Host) (ops : List NameOp) (r : UdpRelay) → Awaited r → Awaited (run_names host ops r)
run_names-Awaited host [] r w = w
run_names-Awaited host (dispatched destination payload now ∷ ops) r w =
    run_names-Awaited host ops _ (dispatch-Awaited host destination payload now r w)
run_names-Awaited host (answered name found ∷ ops) r w =
    run_names-Awaited host ops _ (on_resolved-Awaited host name found r w)
run_names-Awaited host (noticed notify now ∷ ops) r w =
    run_names-Awaited host ops _ (on_dns_notify-Awaited host notify now r w)
