-- ===== src/Udp/Bounds/Domains.antt =====
-- server/protocol/UdpRelay.cpp, the destinations and the datagrams that wait for a name: their limits.
use socks5proxy_native.Prelude.{
  ℕ, zero, suc, ◌+◌, ◌%◌, ◌≤◌, ◌<◌, ◌≡◌, refl, Bool, false, List, [], ◌∷◌, ◌++◌, Option, some, none,
  inl, inr, length, length-append, get_elem?-lt, lookup, insert, erase, All-insert, All-erase,
  length-insert, length-insert_old, length-insert_any, length-erase, length-erase_at, Option-cases,
  Option-elim, if-elim, ◌==◌, nat_eq, bytes_eq, arith,
}
use socks5proxy_native.Net.{Family, Endpoint, endpoint_eq, parse_ip}
use socks5proxy_native.Udp.{
  UdpRelay, Host, Destination, to_ip, to_domain, DnsNotify, PendingDomainPacket,
  max_active_destinations, max_pending_domains,
}
use socks5proxy_native.Udp.Bounds.{IsShort, FewNames, IsBounded}
use socks5proxy_native.Udp.Bounds.Sends.{enqueue_send-IsBounded}
use socks5proxy_native.Udp.Domains.{
  erase_begin, queue_of, is_member, touch, forward_payload, refuses_packet, queue_packet,
  refuse_packet, dispatch_client_payload, on_resolved, forward_batch, drop_domain, notify_round,
  notify_loop, remove_member,
}
use socks5proxy_native.Udp.Relay.{on_dns_notify}

-- The entry at `begin()` is one of the map.
erase_begin-shorter :
    (begin_of : List (Endpoint × ℕ) → ℕ) (m : List (Endpoint × ℕ))
    → 0 < length m
    → length (erase_begin begin_of m) + 1 ≤ length m
unfolding erase_begin
erase_begin-shorter begin_of [] h = elim h [ ]
erase_begin-shorter begin_of (entry ∷ m) h =
    let i = begin_of (entry ∷ m) % suc (length m) in
    let (found, e) = get_elem?-lt (entry ∷ m) i (omega arith) in
    ground (arith, e, length-erase_at i found.0 found.1 (entry ∷ m) e)

-- A table of names with one of them set to a short queue.
names-IsBounded :
    (table : List (List ℕ × List PendingDomainPacket)) (names : List (List ℕ)) (r : UdpRelay)
    → FewNames table
    → IsBounded r
    → IsBounded (record r { pending_by_domain = table; dns_in_flight = names })
names-IsBounded table names r n b = record {
  sends = b.sends;
  active = b.active;
  frags = b.frags;
  names = n;
}

erase-FewNames :
    (name : List ℕ) (table : List (List ℕ × List PendingDomainPacket))
    → FewNames table
    → FewNames (erase name table)
erase-FewNames name table (l, all) =
    (omega (arith, length-erase name table, l), All-erase (λ e. IsShort e.1) name table all)

abbrev EndsBounded : Option UdpRelay → Type 0
EndsBounded none = Unit {0}
EndsBounded (some r) = IsBounded r

module _ (host : Host) where
  touch-few :
      (destination : Endpoint) (now : ℕ) (active : List (Endpoint × ℕ))
      → length active ≤ max_active_destinations
      → length (touch host destination now active) ≤ max_active_destinations
  unfolding touch
  touch-few destination now active h = elim (Option-cases (lookup destination active)) [
    | inl n ↦ ground (
      arith,
      n,
      h,
      length-insert destination now active,
      length-insert destination now (erase_begin host.begin_of active),
      erase_begin-shorter host.begin_of active,
    )
    | inr (seen, e) ↦
        let old = length-insert_old destination now active (λ n. absurd (cc)) in
        ground (arith, e, h, old)
  ]

  pub forward_payload-IsBounded :
      (payload : List ℕ) (destination : Endpoint) (now : ℕ) (r : UdpRelay)
      → IsBounded r
      → IsBounded (forward_payload host payload destination now r)
  unfolding forward_payload
  forward_payload-IsBounded payload destination now r b =
      enqueue_send-IsBounded host payload destination
        (record r { active_destinations = touch host destination now r.active_destinations })
        (record {
          sends = b.sends;
          active = touch-few destination now r.active_destinations b.active;
          frags = b.frags;
          names = b.names;
        })

  queue_packet-FewNames :
      (name : List ℕ) (pending : PendingDomainPacket) (r : UdpRelay)
      → refuses_packet host name r ≡ false
      → FewNames r.pending_by_domain
      → FewNames (
          insert name
            (queue_of (lookup name r.pending_by_domain) ++ (pending ∷ []))
            r.pending_by_domain)
  unfolding refuses_packet
  queue_packet-FewNames name pending r e (l, all) =
      let table = r.pending_by_domain in
      let queue = queue_of (lookup name table) in
      let longer = length-append queue (pending ∷ []) in
      let short : IsShort (queue ++ (pending ∷ [])) = ground (arith, e, longer) in
      let any = length-insert_any name (queue ++ (pending ∷ [])) queue table in
      let few : length (insert name (queue ++ (pending ∷ [])) table) ≤ max_pending_domains =
        elim (Option-cases (lookup name table)) [
          | inl n ↦ ground (arith, e, n, any)
          | inr (old, f) ↦
              rw (length-insert_old name (queue ++ (pending ∷ [])) table (λ n. absurd (cc))) l
        ] in
      (few, All-insert (λ e. IsShort e.1) name (queue ++ (pending ∷ [])) table short all)

  queued :
      (name : List ℕ) (pending : PendingDomainPacket) (r : UdpRelay)
      → FewNames (
          insert name
            (queue_of (lookup name r.pending_by_domain) ++ (pending ∷ []))
            r.pending_by_domain)
      → IsBounded r
      → IsBounded (queue_packet host name pending r)
  unfolding queue_packet
  queued name pending r n b =
      if-elim IsBounded (is_member name r.dns_in_flight) _ _
        (λ _. record { sends = b.sends; active = b.active; frags = b.frags; names = n })
        (λ _. record { sends = b.sends; active = b.active; frags = b.frags; names = n })

  pub dispatch-IsBounded :
      (destination : Destination) (payload : List ℕ) (now : ℕ) (r : UdpRelay)
      → IsBounded r
      → IsBounded (dispatch_client_payload host destination payload now r)
  unfolding dispatch_client_payload queue_packet refuse_packet
  dispatch-IsBounded (to_ip destination) payload now r b =
      forward_payload-IsBounded payload destination now r b
  dispatch-IsBounded (to_domain name port) payload now r b =
      let pending : PendingDomainPacket = record { payload = payload; port = port } in
      if-elim IsBounded (length name == 0) _ _ (λ _. b)
        (λ _.
          if-elim IsBounded (refuses_packet host name r) _ _
            (λ _.
              if-elim IsBounded (length (queue_of (lookup name r.pending_by_domain)) == 0) _ _
                (λ _.
                  names-IsBounded (erase name r.pending_by_domain) r.dns_in_flight r
                    (erase-FewNames name r.pending_by_domain b.names) b)
                (λ _. b))
            (λ e. queued name pending r (queue_packet-FewNames name pending r e b.names) b))

  pub on_resolved-IsBounded :
      (name : List ℕ) (found : Option (List ℕ)) (r : UdpRelay)
      → IsBounded r
      → IsBounded (on_resolved host name found r)
  unfolding on_resolved
  on_resolved-IsBounded name found r b =
      if-elim IsBounded r.stopped _ _ (λ _. b)
        (λ _.
          if-elim IsBounded (host.accepts r.posts) _ _
            (λ _. record { sends = b.sends; active = b.active; frags = b.frags; names = b.names })
            (λ _. record {
              sends = b.sends;
              active = b.active;
              frags = b.frags;
              names = erase-FewNames name r.pending_by_domain b.names;
            }))

  pub forward_batch-IsBounded :
      (family : Family) (ip : List ℕ) (batch : List PendingDomainPacket) (now : ℕ) (r : UdpRelay)
      → IsBounded r
      → IsBounded (forward_batch host family ip batch now r)
  unfolding forward_batch
  forward_batch-IsBounded family ip [] now r b = b
  forward_batch-IsBounded family ip (pending ∷ batch) now r b =
      forward_batch-IsBounded family ip batch now _ (
        forward_payload-IsBounded pending.payload
          (record { family = family; ip = ip; port = pending.port; flow_info = 0; scope_id = 0 })
          now r b)

  -- A queue that is not empty is taken out whole.
  taken-IsBounded :
      (name : List ℕ) (r : UdpRelay)
      → (length (queue_of (lookup name r.pending_by_domain)) == 0) ≡ false
      → IsBounded r
      → IsBounded (record r { pending_by_domain = insert name [] r.pending_by_domain })
  taken-IsBounded name r e b = record {
    sends = b.sends;
    active = b.active;
    frags = b.frags;
    names = (
      few (lookup name r.pending_by_domain) refl,
      All-insert (λ e. IsShort e.1) name [] r.pending_by_domain (omega arith) b.names.1,
    );
  }
    where
      few :
          (o : Option (List PendingDomainPacket))
          → lookup name r.pending_by_domain ≡ o
          → length (insert name [] r.pending_by_domain) ≤ max_pending_domains
      few none f = ground (arith, e, f)
      few (some old) f =
          rw (length-insert_old name [] r.pending_by_domain (λ n. absurd (cc))) b.names.0

  round-IsBounded :
      (notify : DnsNotify) (now : ℕ) (r : UdpRelay)
      → IsBounded r
      → IsBounded (notify_round host notify now r).0
  unfolding notify_round drop_domain
  round-IsBounded notify now r b =
      if-elim {A = UdpRelay × Bool} (λ out. IsBounded out.0) (length queue == 0) _ _
        (λ _. record { sends = b.sends; active = b.active; frags = b.frags; names = b.names })
        (λ e.
          let bounded = taken-IsBounded notify.domain r e b in
          Option-elim {B = UdpRelay × Bool} (λ out. IsBounded out.0) notify.found_ip _ _
            (names-IsBounded (erase notify.domain taken.pending_by_domain)
              (remove_member notify.domain r.dns_in_flight) taken
              (erase-FewNames notify.domain taken.pending_by_domain bounded.names) bounded)
            (λ text.
              Option-elim {B = UdpRelay × Bool} (λ out. IsBounded out.0)
                (parse_ip host.inet_pton text) _ _ bounded
                (λ address. forward_batch-IsBounded address.0 address.1 queue now taken bounded)))
    where
      queue : List PendingDomainPacket
      queue = queue_of (lookup notify.domain r.pending_by_domain)

      taken : UdpRelay
      taken = record r { pending_by_domain = insert notify.domain [] r.pending_by_domain }

  -- The loop, when it ends.
  loop-IsBounded :
      (fuel : ℕ) (notify : DnsNotify) (now : ℕ) (r : UdpRelay)
      → IsBounded r
      → EndsBounded (notify_loop host fuel notify now r)
  unfolding notify_loop
  loop-IsBounded zero notify now r b = tt
  loop-IsBounded (suc fuel) notify now r b =
      let bounded = round-IsBounded notify now r b in
      if-elim EndsBounded (notify_round host notify now r).1 _ _
        (λ _. loop-IsBounded fuel notify now (notify_round host notify now r).0 bounded)
        (λ _. bounded)

  pub on_dns_notify-IsBounded :
      (notify : DnsNotify) (now : ℕ) (r : UdpRelay)
      → IsBounded r
      → IsBounded (on_dns_notify host notify now r)
  unfolding on_dns_notify
  on_dns_notify-IsBounded notify now r b =
      go (notify_loop host 2 notify now r) (loop-IsBounded 2 notify now r b)
    where
      go :
          (o : Option UdpRelay) → EndsBounded o → IsBounded (elim o [ none ↦ r | some next ↦ next ])
      go none e = b
      go (some next) e = e
