-- ===== src/Session/Handlers/Expiry.antt =====
-- server/protocol/Socks5Session.cpp, `OnTimer`: timers that fire, and those that were replaced.
use socks5proxy_native.Prelude.{
  ℕ, ◌+◌, ◌^◌, ◌<◌, ◌≡◌, ◌≢◌, refl, true, false, ◌==◌, ◌∙◌, ap, ==_iff, arith,
}
use socks5proxy_native.Session.{Session, SessionState, reads_protocol, past_request, is_closing}
use socks5proxy_native.Session.Env.{Config, System, Gss}
use socks5proxy_native.Session.Timers.{
  close, next_generation, cancel_idle_timer, arm_idle_timer, timer_key, timer_idle,
}
use socks5proxy_native.Session.Timers.Laws.{timer_key_parts}
use socks5proxy_native.Session.Handlers.{on_timer, on_idle_timer}

protocol_state :
    (t : SessionState) → reads_protocol t ≡ true → (past_request t ≡ false) × (is_closing t ≡ false)
unfolding reads_protocol past_request
protocol_state t h = ground (arith, h)

-- Arming takes two steps of the generation and nothing else of a session that negotiates.
armed_generation :
    {C : Type 0} (cfg : Config) (sys : System) (s : Session C)
    → reads_protocol s.state ≡ true
    → cfg.idle_timeout_ms ≢ 0
    → s.idle_timer_generation + 2 < 2 ^ 56
    → ((arm_idle_timer cfg sys s).idle_timer_generation ≡ s.idle_timer_generation + 2)
      × ((arm_idle_timer cfg sys s).state ≡ s.state)
      × ((arm_idle_timer cfg sys s).closed ≡ s.closed)
unfolding arm_idle_timer cancel_idle_timer next_generation
armed_generation cfg sys s p n g =
    let on : (cfg.idle_timeout_ms == 0) ≡ false = ground (arith, n) in
    let open' : past_request s.state ≡ false = (protocol_state s.state p).0 in
    rw (on, open') (omega (arith, g), refl, refl)

module _ {C : Type 0} (gss : Gss C) (cfg : Config) (sys : System) where
  on_timer-idle :
      (generation : ℕ) (s : Session C)
      → s.closed ≡ false
      → generation < 2 ^ 56
      → on_timer gss cfg sys (timer_key generation timer_idle) s
        ≡ on_idle_timer gss cfg sys generation s
  unfolding on_timer
  on_timer-idle generation s h g =
      let (whole, kind) = timer_key_parts generation timer_idle g (omega arith) in
      rw (h, kind, whole) refl

  on_idle_timer-current :
      (t : Session C)
      → reads_protocol t.state ≡ true
      → on_idle_timer gss cfg sys t.idle_timer_generation t ≡ close (record t { idle_timer_id = 0 })
  unfolding on_idle_timer
  on_idle_timer-current t p =
      let (before, open') = protocol_state t.state p in
      rw ((==_iff t.idle_timer_generation t.idle_timer_generation).1 refl, before, open') refl

  on_idle_timer-stale :
      (generation : ℕ) (t : Session C)
      → generation ≢ t.idle_timer_generation
      → on_idle_timer gss cfg sys generation t ≡ t
  unfolding on_idle_timer
  on_idle_timer-stale generation t n =
      let differs : (generation == t.idle_timer_generation) ≡ false = ground (arith, n) in
      rw differs refl

  -- In a session that is open and reads the protocol, with an idle timeout and generations below 2^56:
  -- the key of the timer that `ArmIdleTimer` sets closes the session, and the key of the timer before
  -- it does nothing.
  pub on_timer-arm_idle_timer :
      (s : Session C)
      → s.closed ≡ false
      → reads_protocol s.state ≡ true
      → cfg.idle_timeout_ms ≢ 0
      → s.idle_timer_generation + 2 < 2 ^ 56
      → (on_timer gss cfg sys
            (timer_key (arm_idle_timer cfg sys s).idle_timer_generation timer_idle)
            (arm_idle_timer cfg sys s)
          ≡ close (record (arm_idle_timer cfg sys s) { idle_timer_id = 0 }))
        × (on_timer gss cfg sys
              (timer_key s.idle_timer_generation timer_idle)
              (arm_idle_timer cfg sys s)
            ≡ arm_idle_timer cfg sys s)
  on_timer-arm_idle_timer s h p n g =
      let t = arm_idle_timer cfg sys s in
      let (later, state, closed) = armed_generation cfg sys s p n g in
      (
        on_timer-idle t.idle_timer_generation t (closed ∙ h) (omega (arith, later, g))
            ∙ on_idle_timer-current t (ap reads_protocol state ∙ p),
        on_timer-idle s.idle_timer_generation t (closed ∙ h) (omega (arith, g))
            ∙ on_idle_timer-stale s.idle_timer_generation t (λ e. omega (arith, e, later)),
      )
