-- ===== src/Session/Receive/Gate.antt =====
-- server/protocol/Socks5Session.cpp: the way into the request state, over the rounds of the loop.
use socks5proxy_native.Prelude.{◌≡◌, ◌≢◌, refl}
use socks5proxy_native.Session.{
  Session, SessionState, handshake, auth, gssapi_auth, gssapi_protect, request, resolving,
  connecting, relaying, udp_associate, closing,
}
use socks5proxy_native.Session.Env.{Config, System, Gss}
use socks5proxy_native.Session.Negotiation.Gate.{
  Admitted, by_gssapi, process_handshake-Admitted, process_auth-Admitted, process_gssapi_auth-state,
}
use socks5proxy_native.Session.Receive.{step_in, process_step}

module _ {C : Type 0} (gss : Gss C) (cfg : Config) (sys : System) where
  step_in-Admitted :
      (t : SessionState) (s : Session C)
      → s.state ≡ t
      → s.state ≢ request
      → (step_in gss cfg sys t s).0.state ≡ request
      → Admitted cfg s
  unfolding step_in
  step_in-Admitted handshake s e n h = process_handshake-Admitted gss cfg sys s e h
  step_in-Admitted auth s e n h = process_auth-Admitted gss cfg sys s e h
  step_in-Admitted gssapi_auth s e n h = absurd (process_gssapi_auth-state gss cfg sys s n h)
  step_in-Admitted gssapi_protect s e n h = by_gssapi e
  step_in-Admitted request s e n h = absurd (n e)
  step_in-Admitted resolving s e n h = absurd (n h)
  step_in-Admitted connecting s e n h = absurd (n h)
  step_in-Admitted relaying s e n h = absurd (n h)
  step_in-Admitted udp_associate s e n h = absurd (n h)
  step_in-Admitted closing s e n h = absurd (n h)

  -- A round of the loop that brings a session into the request state began in the handshake with the
  -- offer of no authentication to a proxy without credentials, in the authentication state with the
  -- configured user name and password, or in the protection state of GSSAPI.
  pub process_step-Admitted :
      (s : Session C)
      → s.state ≢ request
      → (process_step gss cfg sys s).0.state ≡ request
      → Admitted cfg s
  unfolding process_step
  process_step-Admitted s n h = step_in-Admitted s.state s refl n h
