-- ===== src/Session/Receive.antt =====
-- server/protocol/Socks5Session.cpp: `OnClientRecv` and its loop over the protocol states.
pub mod Laws
pub mod Gate
use socks5proxy_native.Prelude.{
  ℕ, zero, suc, ◌+◌, Bool, true, false, not, ◌&&◌, ◌||◌, List, [], ◌∷◌, ◌++◌, ◌==◌, if◌then◌else◌,
  length, Option, none, some,
}
use socks5proxy_native.Session.{
  Session, SessionState, handshake, auth, gssapi_auth, gssapi_protect, request, resolving,
  connecting, relaying, udp_associate, closing, client, reads_protocol, is_relaying,
  is_udp_associate,
}
use socks5proxy_native.Session.Env.{Config, System, Gss}
use socks5proxy_native.Session.Timers.{close, arm_idle_timer}
use socks5proxy_native.Session.Streams.{begin_client_read, is_empty}
use socks5proxy_native.Session.Replies.{request_close_after_flush}
use socks5proxy_native.Session.Negotiation.{
  process_handshake, process_auth, process_gssapi_auth, process_gssapi_protect,
}
use socks5proxy_native.Session.Request.{process_request}
use socks5proxy_native.Session.Relay.{on_relay_data, end_of_stream, over_limit}

-- The values of the enumeration.
abbrev pub state_number : SessionState → ℕ
state_number handshake = 0
state_number auth = 1
state_number gssapi_auth = 2
state_number gssapi_protect = 3
state_number request = 4
state_number resolving = 5
state_number connecting = 6
state_number relaying = 7
state_number udp_associate = 8
state_number closing = 9

module _ {C : Type 0} (gss : Gss C) (cfg : Config) (sys : System) where
  step_in : SessionState → Session C → Session C × Bool
  step_in handshake s = process_handshake gss cfg sys s
  step_in auth s = process_auth gss cfg sys s
  step_in gssapi_auth s = process_gssapi_auth gss cfg sys s
  step_in gssapi_protect s = process_gssapi_protect gss cfg sys s
  step_in request s = process_request gss cfg sys s
  step_in _ s = (s, true)

  -- The `switch` of the loop.
  unfoldable pub process_step : Session C → Session C × Bool
  unfolding step_in
  process_step s = step_in s.state s

  -- Behind the loop.
  abbrev read_again : Session C → Session C
  read_again s = if reads_protocol s.state then (begin_client_read sys s).0 else s

  abbrev no_progress : Session C → Session C → Bool
  no_progress before after =
      state_number after.state == state_number before.state
      && length after.ingest == length before.ingest

  unfoldable pub protocol_loop : ℕ → Session C → Option (Session C)
  unfolding process_step
  protocol_loop zero s = none
  protocol_loop (suc fuel) s =
      let stepped = process_step s in
      let s' = stepped.0 in
      let rest = protocol_loop fuel s' in
      if s.closed || not (reads_protocol s.state)
      then some (read_again s)
      else if not stepped.1
      then some (request_close_after_flush sys s')
      else if not (reads_protocol s'.state)
      then some s'
      else if no_progress s s'
      then some (read_again s')
      else rest

  -- The rounds that are enough: each but the last takes bytes, or unwraps the request.
  abbrev pub rounds : Session C → ℕ
  rounds s = length s.ingest + 4

  take_input : List ℕ → Session C → Option (Session C)
  unfolding protocol_loop
  take_input chunk s =
      if over_limit (length s.ingest) (length chunk)
      then some (close s)
      else let s' = record s { ingest = s.ingest ++ chunk } in protocol_loop (rounds s') s'

  unfoldable pub on_client_recv : List ℕ → ℕ → Session C → Option (Session C)
  unfolding take_input
  on_client_recv chunk error s₀ =
      let s = if reads_protocol s₀.state then arm_idle_timer cfg sys s₀ else s₀ in
      if not (error == 0) || is_empty chunk
      then some (if is_relaying s₀.state then end_of_stream gss sys client s₀ else close s₀)
      else if is_udp_associate s.state
      then some (begin_client_read sys s).0
      else if is_relaying s.state
      then on_relay_data gss sys client chunk s
      else take_input chunk s
