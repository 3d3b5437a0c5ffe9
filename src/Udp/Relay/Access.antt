-- ===== src/Udp/Relay/Access.antt =====
-- server/protocol/UdpRelay.cpp: what a relay does after its end.
use socks5proxy_native.Prelude.{
  ℕ, ◌≡◌, refl, inl, inr, Bool, true, false, List, [], ◌∷◌, lookup, nat_eq, Option-cases, ◌∙◌, All,
  arith,
}
use socks5proxy_native.Net.{endpoint_eq}
use socks5proxy_native.Udp.{UdpRelay, Host}
use socks5proxy_native.Udp.Sends.{on_send_completed, remove_context}
use socks5proxy_native.Udp.Domains.{on_resolved}
use socks5proxy_native.Udp.Lifecycle.{stop, shut_socket}
use socks5proxy_native.Udp.Relay.{user_done, send_done, recv_done, on_io_completed, user_completed}
use socks5proxy_native.Udp.Runs.{Call, starts, stops, resolved, completed, handle, run}

-- A relay at its end, with nothing queued.
pub record IsStopped (r : UdpRelay) : Type 0 where
  pub stopped : r.stopped ≡ true
  pub sends : r.pending_sends ≡ []
  pub frags : r.frag_assemblies ≡ []
  pub names : r.pending_by_domain ≡ []

-- A call that can still come when a relay has been stopped; `Start` comes first.
abbrev pub IsLate : Call → Type 0
IsLate starts = ⊥
IsLate call = Unit {0}

pub stop-IsStopped : (notify : Bool) (r : UdpRelay) → r.stopped ≡ false → IsStopped (stop notify r)
unfolding stop shut_socket
stop-IsStopped notify r e = ground (arith, e)

-- What changes at the end of a relay, besides `stop` itself: contexts that were posted come back.
record Quiet (r s : UdpRelay) : Type 0 where
  stopped : IsStopped s
  silent : s.events ≡ r.events

on_send_completed-Quiet :
    (host : Host) (ctx : ℕ) (r : UdpRelay) → IsStopped r → Quiet r (on_send_completed host ctx r)
unfolding on_send_completed
on_send_completed-Quiet host ctx r q = elim (Option-cases (remove_context ctx r.in_flight_sends)) [
  | inl n ↦ ground (arith, n, q)
  | inr (rest, e) ↦ ground (arith, e, q)
]

user_completed-Quiet :
    (host : Host) (ctx now : ℕ) (r : UdpRelay)
    → IsStopped r
    → Quiet r (user_completed host ctx now r)
unfolding user_completed
user_completed-Quiet host ctx now r q = elim (Option-cases (lookup ctx r.dns_notifies)) [
  | inl n ↦ ground (arith, n, q)
  | inr (notify, e) ↦ ground (arith, e, q)
]

handle-Quiet :
    (host : Host) (call : Call) (r : UdpRelay)
    → IsLate call
    → IsStopped r
    → Quiet r (handle host call r)
unfolding on_io_completed on_resolved stop
handle-Quiet host starts r l q = elim l [ ]
handle-Quiet host (stops notify) r l q = ground (arith, q)
handle-Quiet host (resolved name found) r l q = ground (arith, q)
handle-Quiet host (completed (user_done ctx) now later) r l q =
    user_completed-Quiet host ctx now r q
handle-Quiet host (completed (send_done ctx) now later) r l q = on_send_completed-Quiet host ctx r q
handle-Quiet host (completed (recv_done error packet remote) now later) r l q = ground (arith, q)

-- Once a relay has been stopped, whatever completes, is resolved or stops it again, in any order: it makes
-- no further call, and nothing is queued in it again.
pub run-IsStopped :
    (host : Host) (calls : List Call) (r : UdpRelay)
    → All IsLate calls
    → IsStopped r
    → IsStopped (run host calls r) × ((run host calls r).events ≡ r.events)
run-IsStopped host [] r l q = (q, refl)
run-IsStopped host (call ∷ calls) r (l, ls) q =
    let quiet = handle-Quiet host call r l q in
    let (stopped, silent) = run-IsStopped host calls (handle host call r) ls quiet.stopped in
    (stopped, silent ∙ quiet.silent)
