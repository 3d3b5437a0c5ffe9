-- ===== src/Udp/Domains/Laws.antt =====
-- server/protocol/UdpRelay.cpp, `OnDnsNotify`: the rounds of its loop.
use socks5proxy_native.Prelude.{
  ℕ, suc, ◌≡◌, refl, ◌∙◌, ap, Bool, true, false, List, [], ◌∷◌, none, some, Option-elim, if-elim,
  if◌then◌else◌, length, lookup, insert, lookup-insert_self, lookup-erase_self, beq_refl,
  Bool-cases, inl, inr, ◌==◌, ◌=?◌, bytes_eq, arith,
}
use socks5proxy_native.Net.{Family, Endpoint, parse_ip}
use socks5proxy_native.Udp.{UdpRelay, Host, DnsNotify, PendingDomainPacket}
use socks5proxy_native.Udp.Sends.Laws.{enqueue_send-SameTables}
use socks5proxy_native.Udp.Domains.{
  queue_of, is_member, remove_member, touch, forward_payload, forward_batch, drop_domain,
  notify_round, notify_loop,
}
use socks5proxy_native.Udp.Relay.{on_dns_notify}

pub is_member-remove_member :
    (a b : List ℕ) (names : List (List ℕ))
    → is_member a (remove_member b names) ≡ (if b =? a then false else is_member a names)
unfolding is_member remove_member
is_member-remove_member a b [] = ground arith
is_member-remove_member a b (n ∷ names) = ground (
  arith,
  is_member-remove_member a b names,
  bytes_eq.beq_iff n b,
  bytes_eq.beq_iff n a,
  bytes_eq.beq_iff b a,
)

pub none_waits : (queue : List PendingDomainPacket) → (length queue == 0) ≡ true → queue ≡ []
none_waits [] z = refl
none_waits (pending ∷ queue) z = absurd (ground (arith, z))

-- The datagrams that wait for a name.
abbrev pub waiting : List ℕ → UdpRelay → List PendingDomainPacket
waiting name r = queue_of (lookup name r.pending_by_domain)

-- Forwarding leaves the names alone.
pub record SameNames (r s : UdpRelay) : Type 0 where
  pub table : s.pending_by_domain ≡ r.pending_by_domain
  pub asked : s.dns_in_flight ≡ r.dns_in_flight

-- Nothing waits for the name, and it can be asked for again.
abbrev pub Free : List ℕ → UdpRelay → Type 0
Free name s = (waiting name s ≡ []) × (is_member name s.dns_in_flight ≡ false)

module _ (host : Host) where
  pub forward_payload-SameNames :
      (payload : List ℕ) (destination : Endpoint) (now : ℕ) (r : UdpRelay)
      → SameNames r (forward_payload host payload destination now r)
  unfolding forward_payload
  forward_payload-SameNames payload destination now r = ground (
    arith,
    enqueue_send-SameTables host payload destination
        (record r { active_destinations = touch host destination now r.active_destinations }),
  )

  pub forward_batch-SameNames :
      (family : Family) (ip : List ℕ) (batch : List PendingDomainPacket) (now : ℕ) (r : UdpRelay)
      → SameNames r (forward_batch host family ip batch now r)
  unfolding forward_batch
  forward_batch-SameNames family ip [] now r = record { table = refl; asked = refl }
  forward_batch-SameNames family ip (pending ∷ batch) now r =
      let to : Endpoint = record {
        family = family;
        ip = ip;
        port = pending.port;
        flow_info = 0;
        scope_id = 0;
      } in
      let one = forward_payload-SameNames pending.payload to now r in
      let more =
        forward_batch-SameNames family ip batch now
          (forward_payload host pending.payload to now r) in
      record { table = more.table ∙ one.table; asked = more.asked ∙ one.asked }

  -- What a round leaves: no other round, or an empty queue for the name.
  abbrev Settled : DnsNotify → UdpRelay × Bool → Type 0
  Settled notify (s, again) = again ≡ true → waiting notify.domain s ≡ []

  round-Settled :
      (notify : DnsNotify) (now : ℕ) (r : UdpRelay)
      → Settled notify (notify_round host notify now r)
  unfolding notify_round
  round-Settled notify now r =
      if-elim (Settled notify) (length queue == 0) _ _ (λ _. λ e. absurd (cc))
        (λ _.
          Option-elim (Settled notify) notify.found_ip _ _ (λ e. absurd (cc))
            (λ text.
              Option-elim (Settled notify) (parse_ip host.inet_pton text) _ _ (λ _. taken-empty)
                (λ address.
                  let same = forward_batch-SameNames address.0 address.1 queue now taken in
                  λ _. ap (λ m. queue_of (lookup notify.domain m)) same.table ∙ taken-empty)))
    where
      queue : List PendingDomainPacket
      queue = waiting notify.domain r

      taken : UdpRelay
      taken = record r { pending_by_domain = insert notify.domain [] r.pending_by_domain }

      taken-empty : waiting notify.domain taken ≡ []
      taken-empty = ap queue_of (lookup-insert_self notify.domain [] r.pending_by_domain)

  -- A round with an empty queue is the last one.
  round-last :
      (notify : DnsNotify) (now : ℕ) (r : UdpRelay)
      → waiting notify.domain r ≡ []
      → notify_round host notify now r
        ≡ (record r { dns_in_flight = remove_member notify.domain r.dns_in_flight }, false)
  unfolding notify_round
  round-last notify now r e = rw (e) refl

  loop-ends :
      (fuel : ℕ) (notify : DnsNotify) (now : ℕ) (r : UdpRelay)
      → notify_loop host (suc (suc fuel)) notify now r ≡ notify_loop host 2 notify now r
  unfolding notify_loop
  loop-ends fuel notify now r =
      let next = (notify_round host notify now r).0 in
      elim (Bool-cases (notify_round host notify now r).1) [
        | inl again ↦
            let last = round-last notify now next (round-Settled notify now r again) in
            rw (again, last) refl
        | inr ended ↦ rw (ended) refl
      ]

  removed :
      (name : List ℕ) (names : List (List ℕ)) → is_member name (remove_member name names) ≡ false
  removed name names = is_member-remove_member name name names ∙ rw (beq_refl name) refl

  abbrev Finished : DnsNotify → UdpRelay × Bool → Type 0
  Finished notify (s, again) = again ≡ false → Free notify.domain s

  round-Finished :
      (notify : DnsNotify) (now : ℕ) (r : UdpRelay)
      → Finished notify (notify_round host notify now r)
  unfolding notify_round drop_domain
  round-Finished notify now r =
      if-elim (Finished notify) (length queue == 0) _ _
        (λ z. λ _. (none_waits queue z, removed notify.domain r.dns_in_flight))
        (λ _.
          Option-elim (Finished notify) notify.found_ip _ _
            (λ _. (
              ap queue_of (lookup-erase_self notify.domain taken),
              removed notify.domain r.dns_in_flight,
            ))
            (λ text.
              Option-elim (Finished notify) (parse_ip host.inet_pton text) _ _ (λ e. absurd (cc))
                (λ address. λ e. absurd (cc))))
    where
      queue : List PendingDomainPacket
      queue = waiting notify.domain r

      taken : List (List ℕ × List PendingDomainPacket)
      taken = insert notify.domain [] r.pending_by_domain

  -- The loop gives a relay in which the name is free.
  loop-Free :
      (notify : DnsNotify) (now : ℕ) (r : UdpRelay)
      → (s : UdpRelay) × (notify_loop host 2 notify now r ≡ some s) × Free notify.domain s
  unfolding notify_loop
  loop-Free notify now r =
      let next = (notify_round host notify now r).0 in
      elim (Bool-cases (notify_round host notify now r).1) [
        | inl again ↦
            let empty = round-Settled notify now r again in
            let last = round-last notify now next empty in
            (
              record next { dns_in_flight = remove_member notify.domain next.dns_in_flight },
              rw (again, last) refl,
              (empty, removed notify.domain next.dns_in_flight),
            )
        | inr ended ↦ (next, rw (ended) refl, round-Finished notify now r ended)
      ]

  -- With two rounds allowed or more, the loop of `OnDnsNotify` ends, with the result of `on_dns_notify`;
  -- then nothing waits for the name, and no lookup of it counts as under way.
  pub notify_loop-on_dns_notify :
      (fuel : ℕ) (notify : DnsNotify) (now : ℕ) (r : UdpRelay)
      → (notify_loop host (suc (suc fuel)) notify now r ≡ some (on_dns_notify host notify now r))
        × Free notify.domain (on_dns_notify host notify now r)
  unfolding on_dns_notify
  notify_loop-on_dns_notify fuel notify now r =
      let (s, e, free) = loop-Free notify now r in
      let result : on_dns_notify host notify now r ≡ s =
        ap (λ o. elim o as (λ _. UdpRelay) [ none ↦ r | some next ↦ next ]) e in
      (rw (result) (loop-ends fuel notify now r ∙ e), rw (result) free)
