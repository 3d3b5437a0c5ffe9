-- ===== src/Udp/Domains.antt =====
-- server/protocol/UdpRelay.cpp: where a client's datagram goes, and the datagrams that wait for a name.
pub mod Laws
pub mod Awaited
pub mod Asked
pub mod Leak
use socks5proxy_native.Prelude.{
  ℕ, zero, suc, ◌+◌, ◌%◌, Bool, true, false, not, ◌&&◌, ◌||◌, List, [], ◌∷◌, ◌++◌, Option, none,
  some, ltb, leb, ◌==◌, if◌then◌else◌, length, get_elem?, lookup, insert, erase, bytes_eq, nat_eq,
  ◌=?◌,
}
use socks5proxy_native.Net.{Family, Endpoint, endpoint_eq, parse_ip}
use socks5proxy_native.Udp.{
  UdpRelay, PendingDomainPacket, Destination, to_ip, to_domain, DnsNotify, Host, post_user,
  resolve_async, max_pending_domains, max_packets_per_domain, max_active_destinations,
}
use socks5proxy_native.Udp.Sends.{enqueue_send}

abbrev pub is_active : Option ℕ → Bool
is_active none = false
is_active (some seen) = true

-- `m.erase(m.begin())` on a map that is not empty; the place of `begin()` is up to the library.
unfoldable pub erase_begin : (List (Endpoint × ℕ) → ℕ) → List (Endpoint × ℕ) → List (Endpoint × ℕ)
erase_begin begin_of [] = []
erase_begin begin_of (entry ∷ m) =
    elim (get_elem? (entry ∷ m) (begin_of (entry ∷ m) % suc (length m))) [
      | none ↦ entry ∷ m
      | some (key, seen) ↦ erase key (entry ∷ m)
    ]

abbrev pub queue_of : Option (List PendingDomainPacket) → List PendingDomainPacket
queue_of none = []
queue_of (some queue) = queue

-- `dnsInFlight_`, a set of names.
unfoldable pub is_member : List ℕ → List (List ℕ) → Bool
is_member name [] = false
is_member name (n ∷ names) = (n =? name) || is_member name names

unfoldable pub remove_member : List ℕ → List (List ℕ) → List (List ℕ)
remove_member name [] = []
remove_member name (n ∷ names) =
    let rest = remove_member name names in if n =? name then rest else n ∷ rest

module _ (host : Host) where
  -- The destinations after one more datagram.
  unfoldable pub touch : Endpoint → ℕ → List (Endpoint × ℕ) → List (Endpoint × ℕ)
  unfolding erase_begin
  touch destination now active =
      let room =
        if not (is_active (lookup destination active))
          && leb max_active_destinations (length active)
        then erase_begin host.begin_of active
        else active in
      insert destination now room

  unfoldable pub forward_payload : List ℕ → Endpoint → ℕ → UdpRelay → UdpRelay
  unfolding touch
  forward_payload payload destination now r =
      enqueue_send host payload destination
        (record r { active_destinations = touch destination now r.active_destinations })

  -- The part that holds the lock: is the queue of the name full, or are there too many names?
  unfoldable pub refuses_packet : List ℕ → UdpRelay → Bool
  refuses_packet name r =
      let queue = queue_of (lookup name r.pending_by_domain) in
      let names = insert name queue r.pending_by_domain in
      ((length queue == 0) && ltb max_pending_domains (length names))
      || leb max_packets_per_domain (length queue)

  unfoldable pub queue_packet : List ℕ → PendingDomainPacket → UdpRelay → UdpRelay
  queue_packet name pending r =
      let queue = queue_of (lookup name r.pending_by_domain) in
      let queued = record r {
        pending_by_domain = insert name (queue ++ (pending ∷ [])) r.pending_by_domain;
      } in
      if is_member name r.dns_in_flight then queued else record queued {
        dns_in_flight = name ∷ r.dns_in_flight;
        events = resolve_async name ∷ r.events;
      }

  -- A refused name whose queue is empty is erased again.
  unfoldable pub refuse_packet : List ℕ → UdpRelay → UdpRelay
  refuse_packet name r =
      if length (queue_of (lookup name r.pending_by_domain)) == 0
      then record r { pending_by_domain = erase name r.pending_by_domain }
      else r

  unfoldable pub dispatch_client_payload : Destination → List ℕ → ℕ → UdpRelay → UdpRelay
  unfolding forward_payload refuses_packet queue_packet refuse_packet
  dispatch_client_payload (to_ip destination) payload now r =
      forward_payload payload destination now r
  dispatch_client_payload (to_domain name port) payload now r =
      if length name == 0
      then r
      else if refuses_packet name r
      then refuse_packet name r
      else queue_packet name (record { payload = payload; port = port }) r

  -- The callback of `ResolveAsync`.
  unfoldable pub on_resolved : List ℕ → Option (List ℕ) → UdpRelay → UdpRelay
  on_resolved name found r =
      if r.stopped
      then r
      else if host.accepts r.posts
      then record r {
        dns_notifies = (r.posts, record { domain = name; found_ip = found }) ∷ r.dns_notifies;
        posts = r.posts + 1;
        events = post_user r.posts ∷ r.events;
      }
      else record r {
        posts = r.posts + 1;
        dns_in_flight = remove_member name r.dns_in_flight;
        pending_by_domain = erase name r.pending_by_domain;
      }

  -- The datagrams of one batch, each to its own port.
  unfoldable pub forward_batch :
      Family → List ℕ → List PendingDomainPacket → ℕ → UdpRelay → UdpRelay
  unfolding forward_payload
  forward_batch family ip [] now r = r
  forward_batch family ip (pending ∷ batch) now r = forward_batch family ip batch now (
      forward_payload pending.payload
        (record { family = family; ip = ip; port = pending.port; flow_info = 0; scope_id = 0 }) now
        r)

  -- A failed lookup drops what waits for the name.
  unfoldable pub drop_domain : List ℕ → UdpRelay → UdpRelay
  drop_domain name r = record r {
    pending_by_domain = erase name r.pending_by_domain;
    dns_in_flight = remove_member name r.dns_in_flight;
  }

  -- A round of the loop of `OnDnsNotify`: the state after it, and whether there is another round.
  unfoldable pub notify_round : DnsNotify → ℕ → UdpRelay → UdpRelay × Bool
  unfolding drop_domain
  notify_round notify now r =
      let queue = queue_of (lookup notify.domain r.pending_by_domain) in
      let taken = record r { pending_by_domain = insert notify.domain [] r.pending_by_domain } in
      if length queue == 0
      then (record r { dns_in_flight = remove_member notify.domain r.dns_in_flight }, false)
      else elim notify.found_ip [
        | none ↦ (drop_domain notify.domain taken, false)
        | some text ↦ elim (parse_ip host.inet_pton text) [
          | none ↦ (taken, true)
          | some (family, ip) ↦ (forward_batch family ip queue now taken, true)
        ]
      ]

  -- `none` when the fuel is too little for the rounds.
  unfoldable pub notify_loop : ℕ → DnsNotify → ℕ → UdpRelay → Option UdpRelay
  notify_loop zero notify now r = none
  notify_loop (suc fuel) notify now r =
      let (next, again) = notify_round notify now r in
      let rest = notify_loop fuel notify now next in if again then rest else some next
