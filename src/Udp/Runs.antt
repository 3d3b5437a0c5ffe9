-- ===== src/Udp/Runs.antt =====
-- server/protocol/UdpRelay.cpp: the calls that a relay gets, one after the other.
use socks5proxy_native.Prelude.{ℕ, Bool, List, [], ◌∷◌, Option}
use socks5proxy_native.Udp.{UdpRelay, Host}
use socks5proxy_native.Udp.Domains.{on_resolved}
use socks5proxy_native.Udp.Lifecycle.{start, stop}
use socks5proxy_native.Udp.Relay.{Completion, on_io_completed}

pub data Call : Type 0 where
  starts : Call
  stops : Bool → Call
  resolved : List ℕ → Option (List ℕ) → Call
  completed : Completion → ℕ → ℕ → Call

abbrev pub handle : Host → Call → UdpRelay → UdpRelay
handle host starts r = (start host r).0
handle host (stops notify_session) r = stop notify_session r
handle host (resolved name found) r = on_resolved host name found r
handle host (completed completion now later) r = on_io_completed host completion now later r

abbrev pub run : Host → List Call → UdpRelay → UdpRelay
run host [] r = r
run host (call ∷ calls) r = run host calls (handle host call r)
