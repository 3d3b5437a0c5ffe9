-- ===== src/Session/Handlers/Laws.antt =====
-- server/protocol/Socks5Session.cpp, `OnIoCompleted`: its completions.
use socks5proxy_native.Prelude.{◌≡◌, refl, not, if-elim, Option, none, some}
use socks5proxy_native.Session.{Session, client, dest, is_connecting}
use socks5proxy_native.Session.Env.{Config, System, Gss}
use socks5proxy_native.Session.Timers.{cancel_connect_timer}
use socks5proxy_native.Session.Relay.Laws.{Ends, start_relay-Ends, on_dest_recv-Ends}
use socks5proxy_native.Session.Receive.Laws.{on_client_recv-Ends}
use socks5proxy_native.Session.Handlers.{
  ConnectError, Completion, received, sent, connected, resolved, dns_posted, udp_stopped, timer,
  connect_done, on_dest_connect, closed_completion, open_completion, on_io_completed,
}

module _ {C : Type 0} (gss : Gss C) (cfg : Config) (sys : System) where
  connect_done-Ends :
      (error : Option ConnectError) (s : Session C) → Ends (connect_done gss cfg sys error s)
  unfolding connect_done
  connect_done-Ends none s = start_relay-Ends gss sys _
  connect_done-Ends (some e) s = (_, refl)

  on_dest_connect-Ends :
      (error : Option ConnectError) (s : Session C) → Ends (on_dest_connect gss cfg sys error s)
  unfolding on_dest_connect
  on_dest_connect-Ends error s₀ =
      let s = cancel_connect_timer s₀ in
      if-elim Ends (not (is_connecting s.state)) (some s) (connect_done gss cfg sys error s)
        (λ e. (s, refl)) (λ e. connect_done-Ends error s)

  open_completion-Ends : (c : Completion) (s : Session C) → Ends (open_completion gss cfg sys c s)
  unfolding open_completion
  open_completion-Ends (received client chunk error) s =
      on_client_recv-Ends gss cfg sys chunk error _
  open_completion-Ends (received dest chunk error) s = on_dest_recv-Ends gss sys chunk error _
  open_completion-Ends (sent client bytes error) s = (_, refl)
  open_completion-Ends (sent dest bytes error) s = (_, refl)
  open_completion-Ends (connected error) s = on_dest_connect-Ends error s
  open_completion-Ends (resolved ip) s = (_, refl)
  open_completion-Ends dns_posted s = (_, refl)
  open_completion-Ends udp_stopped s = (_, refl)
  open_completion-Ends (timer key) s = (_, refl)

  pub on_io_completed_ends :
      (c : Completion) (s : Session C)
      → (t : Session C) × (on_io_completed gss cfg sys c s ≡ some t)
  unfolding on_io_completed
  on_io_completed_ends c s =
      if-elim Ends s.closed (some (closed_completion gss cfg sys c s))
        (open_completion gss cfg sys c s) (λ e. (_, refl)) (λ e. open_completion-Ends c s)
