-- ===== src/Udp/Domains/Leak.antt =====
-- server/protocol/UdpRelay.cpp: the limit on names, and names whose datagrams have been forwarded.
use socks5proxy_native.Prelude.{
  ℕ, zero, suc, ◌+◌, ◌≤◌, ◌≡◌, refl, Bool, false, List, [], ◌∷◌, Option, none, some, Option-elim,
  if-elim, length, lookup, insert, erase, lookup-insert, ◌==◌, ◌=?◌, bytes_eq, arith,
}
use socks5proxy_native.Net.{parse_ip}
use socks5proxy_native.Udp.{
  UdpRelay, Host, DnsNotify, PendingDomainPacket, to_domain, max_pending_domains,
}
use socks5proxy_native.Udp.Domains.{
  refuse_packet, refuses_packet, dispatch_client_payload, notify_round, notify_loop,
}
use socks5proxy_native.Udp.Domains.Laws.{
  waiting, notify_loop-on_dns_notify, forward_batch-SameNames,
}
use socks5proxy_native.Udp.Relay.{on_dns_notify}

length-insert_new :
    (name : List ℕ) (queue : List PendingDomainPacket)
    (table : List (List ℕ × List PendingDomainPacket))
    → lookup name table ≡ none
    → length (insert name queue table) ≡ length table + 1
unfolding insert lookup
length-insert_new name queue [] e = omega arith
length-insert_new name queue ((n, q) ∷ table) e =
    ground (arith, e, length-insert_new name queue table)

erase_absent :
    (name : List ℕ) (table : List (List ℕ × List PendingDomainPacket))
    → lookup name table ≡ none
    → erase name table ≡ table
unfolding erase lookup
erase_absent name [] e = refl
erase_absent name ((n, q) ∷ table) e = ground (arith, e, erase_absent name table)

module _ (host : Host) where
  -- When 256 names are kept, a datagram to another name is dropped, and nothing else happens.
  dispatch-full :
      (name : List ℕ) (port : ℕ) (payload : List ℕ) (now : ℕ) (r : UdpRelay)
      → max_pending_domains ≤ length r.pending_by_domain
      → lookup name r.pending_by_domain ≡ none
      → dispatch_client_payload host (to_domain name port) payload now r ≡ r
  unfolding dispatch_client_payload refuses_packet refuse_packet
  dispatch-full name port payload now r h e =
      let longer = length-insert_new name [] r.pending_by_domain e in
      ground (arith, h, e, longer, erase_absent name r.pending_by_domain e)

length-insert_grows :
    (name : List ℕ) (queue : List PendingDomainPacket)
    (table : List (List ℕ × List PendingDomainPacket))
    → length table ≤ length (insert name queue table)
unfolding insert
length-insert_grows name queue [] = omega arith
length-insert_grows name queue ((n, q) ∷ table) =
    ground (arith, length-insert_grows name queue table)

-- No name is given up, and `name` does not come in.
abbrev Kept : List ℕ → UdpRelay → UdpRelay → Type 0
Kept name r s =
    (length r.pending_by_domain ≤ length s.pending_by_domain)
    × (lookup name r.pending_by_domain ≡ none → lookup name s.pending_by_domain ≡ none)

module _ (host : Host) (name domain text : List ℕ) (now : ℕ)
    (differ : (domain =? name) ≡ false) where
  abbrev notice : DnsNotify
  notice = record { domain = domain; found_ip = some text }

  round-Kept : (r : UdpRelay) → Kept name r (notify_round host notice now r).0
  unfolding notify_round
  round-Kept r =
      if-elim {A = UdpRelay × Bool} (λ out. Kept name r out.0) (length queue == 0) _ _
        (λ _. (omega arith, λ e. e))
        (λ _.
          Option-elim {B = UdpRelay × Bool} (λ out. Kept name r out.0)
            (parse_ip host.inet_pton text) _ _ bare
            (λ address.
              let same = forward_batch-SameNames host address.0 address.1 queue now taken in
              rw (same.table) bare))
    where
      queue : List PendingDomainPacket
      queue = waiting domain r

      taken : UdpRelay
      taken = record r { pending_by_domain = insert domain [] r.pending_by_domain }

      bare : Kept name r taken
      bare = (
        length-insert_grows domain [] r.pending_by_domain,
        λ e. rw (lookup-insert domain name [] r.pending_by_domain, differ) e,
      )

  abbrev EndsKept : UdpRelay → Option UdpRelay → Type 0
  EndsKept r none = Unit {0}
  EndsKept r (some s) = Kept name r s

  loop-Kept :
      (fuel : ℕ) (r s : UdpRelay) → Kept name r s → EndsKept r (notify_loop host fuel notice now s)
  unfolding notify_loop
  loop-Kept zero r s k = tt
  loop-Kept (suc fuel) r s (l, n) =
      let (l', n') = round-Kept s in
      let next : Kept name r (notify_round host notice now s).0 =
        (omega (arith, l, l'), λ e. n' (n e)) in
      if-elim (EndsKept r) (notify_round host notice now s).1 _ _
        (λ _. loop-Kept fuel r (notify_round host notice now s).0 next) (λ _. next)

  on_dns_notify-Kept : (r : UdpRelay) → Kept name r (on_dns_notify host notice now r)
  unfolding on_dns_notify
  on_dns_notify-Kept r =
      go (notify_loop host 2 notice now r) (loop-Kept 2 r r (omega arith, λ e. e))
    where
      go :
          (o : Option UdpRelay)
          → EndsKept r o
          → Kept name r (elim o [ none ↦ r | some next ↦ next ])
      go none e = (omega arith, λ e. e)
      go (some next) e = e

-- In a relay that keeps 256 names, after the notice of a successful lookup of one of them: nothing waits
-- for that name, and still a datagram to a name that is not kept is dropped and changes nothing.
pub dispatch-on_dns_notify :
    (host : Host) (name domain text : List ℕ) (port : ℕ) (payload : List ℕ) (now : ℕ) (r : UdpRelay)
    → (domain =? name) ≡ false
    → max_pending_domains ≤ length r.pending_by_domain
    → lookup name r.pending_by_domain ≡ none
    → (waiting domain (on_dns_notify host (record { domain = domain; found_ip = some text }) now r)
        ≡ [])
      × (dispatch_client_payload host
            (to_domain name port)
            payload
            now
            (on_dns_notify host (record { domain = domain; found_ip = some text }) now r)
          ≡ on_dns_notify host (record { domain = domain; found_ip = some text }) now r)
dispatch-on_dns_notify host name domain text port payload now r differ h e =
    let notice : DnsNotify = record { domain = domain; found_ip = some text } in
    let (l, n) = on_dns_notify-Kept host name domain text now differ r in
    (
      (notify_loop-on_dns_notify host 0 notice now r).1.0,
      dispatch-full host name port payload now (on_dns_notify host notice now r)
          (omega (arith, h, l)) (n e),
    )
