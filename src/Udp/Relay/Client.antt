-- ===== src/Udp/Relay/Client.antt =====
-- server/protocol/UdpRelay.cpp: most calls leave the relay's client alone.
use socks5proxy_native.Prelude.{
  ℕ, zero, suc, ◌-◌, ◌≡◌, refl, ◌∙◌, Bool, not, ◌&&◌, List, [], ◌∷◌, ◌++◌, Option, none, some,
  Option-elim, if-elim, length, lookup, insert, erase, leb, ◌==◌, nat_eq, bytes_eq, arith,
}
use socks5proxy_native.Net.{Family, Endpoint, endpoint_eq, parse_ip}
use socks5proxy_native.Udp.{
  UdpRelay, Host, Outbound, Destination, to_ip, to_domain, DnsNotify, PendingDomainPacket,
  FragAssembly, max_pending_udp_sends, max_fragment_assemblies,
}
use socks5proxy_native.Udp.Sends.{
  posted, with_pending, pump_loop, pump_send, enqueue_send, remove_context, on_send_completed,
}
use socks5proxy_native.Udp.Domains.{
  touch, forward_payload, forward_batch, queue_packet, refuse_packet, dispatch_client_payload,
  on_resolved, drop_domain, notify_round, notify_loop,
}
use socks5proxy_native.Udp.Domains.Laws.{waiting}
use socks5proxy_native.Udp.Fragments.{
  Assembled, frag_number, has_key, new_assembly, overflows, finish_assembly, add_part,
  process_fragment, store_part,
}
use socks5proxy_native.Udp.Relay.{on_dns_notify, user_completed}

-- The TCP side of the client, and its UDP endpoint once it is known.
abbrev pub client : UdpRelay → Endpoint × Option Endpoint
client r = (r.client_tcp, r.actual_client)

abbrev pub Keeps : UdpRelay → UdpRelay → Type 0
Keeps r s = client s ≡ client r

module _ (host : Host) where
  pump_loop-Keeps : (queue : List Outbound) (r : UdpRelay) → Keeps r (pump_loop host queue r)
  unfolding pump_loop
  pump_loop-Keeps [] r = refl
  pump_loop-Keeps (out ∷ rest) r = ground (arith, pump_loop-Keeps rest (posted out r))

  pub enqueue_send-Keeps :
      (bytes : List ℕ) (to : Endpoint) (r : UdpRelay) → Keeps r (enqueue_send host bytes to r)
  unfolding enqueue_send pump_send
  enqueue_send-Keeps bytes to r =
      let queue = r.pending_sends ++ (record { bytes = bytes; to = to } ∷ []) in
      if-elim (Keeps r) (leb max_pending_udp_sends (length r.pending_sends)) _ _ (λ _. refl)
        (λ _. pump_loop-Keeps queue (with_pending queue r))

  pub on_send_completed-Keeps : (ctx : ℕ) (r : UdpRelay) → Keeps r (on_send_completed host ctx r)
  unfolding on_send_completed pump_send
  on_send_completed-Keeps ctx r =
      Option-elim (Keeps r) (remove_context ctx r.in_flight_sends) _ _ refl (λ rest.
        if-elim (Keeps r) r.stopped _ _ (λ _. refl)
          (λ _.
            pump_loop-Keeps r.pending_sends
              (record r { in_flight_sends = rest; sends_in_flight = r.sends_in_flight - 1 })))

  forward_payload-Keeps :
      (payload : List ℕ) (to : Endpoint) (now : ℕ) (r : UdpRelay)
      → Keeps r (forward_payload host payload to now r)
  unfolding forward_payload
  forward_payload-Keeps payload to now r =
      enqueue_send-Keeps payload to
        (record r { active_destinations = touch host to now r.active_destinations })

  forward_batch-Keeps :
      (family : Family) (ip : List ℕ) (batch : List PendingDomainPacket) (now : ℕ) (r : UdpRelay)
      → Keeps r (forward_batch host family ip batch now r)
  unfolding forward_batch
  forward_batch-Keeps family ip [] now r = refl
  forward_batch-Keeps family ip (pending ∷ batch) now r =
      let to : Endpoint = record {
        family = family;
        ip = ip;
        port = pending.port;
        flow_info = 0;
        scope_id = 0;
      } in
      forward_batch-Keeps family ip batch now (forward_payload host pending.payload to now r)
      ∙ forward_payload-Keeps pending.payload to now r

  pub dispatch-Keeps :
      (destination : Destination) (payload : List ℕ) (now : ℕ) (r : UdpRelay)
      → Keeps r (dispatch_client_payload host destination payload now r)
  unfolding dispatch_client_payload queue_packet refuse_packet
  dispatch-Keeps (to_ip to) payload now r = forward_payload-Keeps payload to now r
  dispatch-Keeps (to_domain name port) payload now r = ground arith

  pub on_resolved-Keeps :
      (name : List ℕ) (found : Option (List ℕ)) (r : UdpRelay)
      → Keeps r (on_resolved host name found r)
  unfolding on_resolved
  on_resolved-Keeps name found r = ground arith

  round-Keeps :
      (notify : DnsNotify) (now : ℕ) (r : UdpRelay) → Keeps r (notify_round host notify now r).0
  unfolding notify_round drop_domain
  round-Keeps notify now r =
      if-elim {A = UdpRelay × Bool} (λ out. Keeps r out.0) (length queue == 0) _ _ (λ _. refl)
        (λ _.
          Option-elim {B = UdpRelay × Bool} (λ out. Keeps r out.0) notify.found_ip _ _ refl
            (λ text.
              Option-elim {B = UdpRelay × Bool} (λ out. Keeps r out.0)
                (parse_ip host.inet_pton text) _ _ refl
                (λ address.
                  forward_batch-Keeps address.0 address.1 queue now (record r {
                    pending_by_domain = insert notify.domain [] r.pending_by_domain;
                  }))))
    where
      queue : List PendingDomainPacket
      queue = waiting notify.domain r

  abbrev EndsKept : UdpRelay → Option UdpRelay → Type 0
  EndsKept r none = Unit {0}
  EndsKept r (some s) = Keeps r s

  loop-Keeps :
      (fuel : ℕ) (notify : DnsNotify) (now : ℕ) (r s : UdpRelay)
      → Keeps r s
      → EndsKept r (notify_loop host fuel notify now s)
  unfolding notify_loop
  loop-Keeps zero notify now r s k = tt
  loop-Keeps (suc fuel) notify now r s k =
      let both = round-Keeps notify now s ∙ k in
      if-elim (EndsKept r) (notify_round host notify now s).1 _ _
        (λ _. loop-Keeps fuel notify now r (notify_round host notify now s).0 both) (λ _. both)

  on_dns_notify-Keeps :
      (notify : DnsNotify) (now : ℕ) (r : UdpRelay) → Keeps r (on_dns_notify host notify now r)
  unfolding on_dns_notify
  on_dns_notify-Keeps notify now r =
      go (notify_loop host 2 notify now r) (loop-Keeps 2 notify now r r refl)
    where
      go : (o : Option UdpRelay) → EndsKept r o → Keeps r (elim o [ none ↦ r | some s ↦ s ])
      go none e = refl
      go (some s) e = e

  pub user_completed-Keeps : (ctx now : ℕ) (r : UdpRelay) → Keeps r (user_completed host ctx now r)
  unfolding user_completed
  user_completed-Keeps ctx now r =
      Option-elim (Keeps r) (lookup ctx r.dns_notifies) _ _ refl (λ notify.
        if-elim (Keeps r) r.stopped _ _ (λ _. refl)
          (λ _.
            on_dns_notify-Keeps notify now (record r { dns_notifies = erase ctx r.dns_notifies })))

  finish_assembly-Keeps :
      (key : List ℕ) (table : List (List ℕ × FragAssembly)) (a : FragAssembly) (r : UdpRelay)
      → Keeps r (finish_assembly key table a r).0
  unfolding finish_assembly
  finish_assembly-Keeps key table a r = ground arith

  add_part-Keeps :
      (frag now : ℕ) (key payload : List ℕ) (table : List (List ℕ × FragAssembly))
      (a : FragAssembly) (r : UdpRelay)
      → Keeps r (add_part frag now key payload table a r).0
  unfolding add_part
  add_part-Keeps frag now key payload table a r =
      if-elim {A = UdpRelay × Assembled} (λ out. Keeps r out.0) (overflows frag payload a) _ _
        (λ _. refl) (λ _. finish_assembly-Keeps key table (store_part frag now payload a) r)

  pub process_fragment-Keeps :
      (frag : ℕ) (key : List ℕ) (destination : Destination) (payload : List ℕ) (now : ℕ)
      (r : UdpRelay)
      → Keeps r (process_fragment frag key destination payload now r).0
  unfolding process_fragment
  process_fragment-Keeps frag key destination payload now r =
      let table = r.frag_assemblies in
      let fresh = new_assembly destination now in
      if-elim {A = UdpRelay × Assembled} (λ out. Keeps r out.0) (frag_number frag == 0) _ _
        (λ _. refl)
        (λ _.
          if-elim {A = UdpRelay × Assembled} (λ out. Keeps r out.0) (frag_number frag == 1) _ _
            (λ _.
              if-elim {A = UdpRelay × Assembled} (λ out. Keeps r out.0)
                (not (has_key (lookup key table)) && leb max_fragment_assemblies (length table)) _ _
                (λ _. refl)
                (λ _. add_part-Keeps frag now key payload (insert key fresh table) fresh r))
            (λ _.
              Option-elim {B = UdpRelay × Assembled} (λ out. Keeps r out.0) (lookup key table) _ _
                refl (λ a. add_part-Keeps frag now key payload table a r)))
