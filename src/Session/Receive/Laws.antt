-- ===== src/Session/Receive/Laws.antt =====
-- server/protocol/Socks5Session.cpp: the rounds of the loop over the protocol states.
use socks5proxy_native.Prelude.{
  ℕ, zero, suc, ◌+◌, ◌≤◌, ◌<◌, ◌≡◌, ◌≢◌, refl, ◌∙◌, Bool, true, false, not, ◌||◌, List, ◌++◌, ◌==◌,
  ==_iff, if◌then◌else◌, if-elim, length, Option, some, arith,
}
use socks5proxy_native.Session.{
  Session, SessionState, handshake, auth, gssapi_auth, gssapi_protect, request, resolving,
  connecting, relaying, udp_associate, closing, client, reads_protocol, is_udp_associate,
  is_relaying,
}
use socks5proxy_native.Session.Env.{Config, System, Gss}
use socks5proxy_native.Session.Timers.{close, arm_idle_timer}
use socks5proxy_native.Session.Streams.{is_empty}
use socks5proxy_native.Session.Relay.{over_limit}
use socks5proxy_native.Session.Relay.Laws.{Ends, on_relay_data-Ends}
use socks5proxy_native.Session.Negotiation.Progress.{
  Progress, ends, waits, takes, process_handshake-Progress, process_auth-Progress,
  process_gssapi_auth-Progress, process_gssapi_protect-Progress,
}
use socks5proxy_native.Session.Request.Progress.{
  RequestStep, goes_on, unwraps, Leaves, leaves, process_request-RequestStep,
}
use socks5proxy_native.Session.Receive.{
  state_number, step_in, process_step, no_progress, protocol_loop, rounds, take_input,
  on_client_recv,
}

-- A round that may be followed by another one.
pub data Round {C : Type 0} (s : Session C) (r : Session C × Bool) : Type 0 where
  last : Leaves r → Round s r
  idle : r.0 ≡ s → Round s r
  consumes : length r.0.ingest < length s.ingest → s.state ≢ request → Round s r
  opens :
      (s.state ≡ request)
        × (s.gss_request_unwrapped ≡ false)
        × (r.0.gss_request_unwrapped ≡ true)
        × (r.0.state ≡ request)
      → Round s r

Progress-Round :
    {C : Type 0} (s : Session C) (r : Session C × Bool)
    → s.state ≢ request
    → Progress s r
    → Round s r
Progress-Round s r n (ends e) = last (Leaves.ends e)
Progress-Round s r n (waits e) = idle e
Progress-Round s r n (takes e) = consumes e n

RequestStep-Round :
    {C : Type 0} (s : Session C) (r : Session C × Bool)
    → s.state ≡ request
    → RequestStep s r
    → Round s r
RequestStep-Round s r n (goes_on l) = last l
RequestStep-Round s r n (RequestStep.waits e) = idle e
RequestStep-Round s r n (unwraps (a, b, c, d)) = opens (n, a, b, c ∙ n)

branches-Ends :
    {C : Type 0} (b₀ b₁ b₂ b₃ : Bool) (s₀ s₁ s₂ s₃ : Session C) (rest : Option (Session C))
    → (b₀ ≡ false → b₁ ≡ false → b₂ ≡ false → b₃ ≡ false → Ends rest)
    → Ends (
        if b₀
        then some s₀
        else if b₁
        then some s₁
        else if b₂
        then some s₂
        else if b₃
        then some s₃
        else rest)
branches-Ends true b₁ b₂ b₃ s₀ s₁ s₂ s₃ rest k = (s₀, refl)
branches-Ends false true b₂ b₃ s₀ s₁ s₂ s₃ rest k = (s₁, refl)
branches-Ends false false true b₃ s₀ s₁ s₂ s₃ rest k = (s₂, refl)
branches-Ends false false false true s₀ s₁ s₂ s₃ rest k = (s₃, refl)
branches-Ends false false false false s₀ s₁ s₂ s₃ rest k = k refl refl refl refl

received-Ends :
    {C : Type 0} (b₀ b₁ b₂ : Bool) (s₀ s₁ : Session C) (x y : Option (Session C))
    → Ends x
    → Ends y
    → Ends (if b₀ then some s₀ else if b₁ then some s₁ else if b₂ then x else y)
received-Ends true b₁ b₂ s₀ s₁ x y h k = (s₀, refl)
received-Ends false true b₂ s₀ s₁ x y h k = (s₁, refl)
received-Ends false false true s₀ s₁ x y h k = h
received-Ends false false false s₀ s₁ x y h k = k

module _ {C : Type 0} (gss : Gss C) (cfg : Config) (sys : System) where
  step_in-Round :
      (t : SessionState) (s : Session C)
      → s.state ≡ t
      → s.closed ≡ false
      → Round s (step_in gss cfg sys t s)
  unfolding step_in
  step_in-Round handshake s e h =
      Progress-Round s _ (ground (arith, e)) (process_handshake-Progress gss cfg sys s)
  step_in-Round auth s e h =
      Progress-Round s _ (ground (arith, e)) (process_auth-Progress gss cfg sys s)
  step_in-Round gssapi_auth s e h =
      Progress-Round s _ (ground (arith, e)) (process_gssapi_auth-Progress gss cfg sys s)
  step_in-Round gssapi_protect s e h =
      Progress-Round s _ (ground (arith, e)) (process_gssapi_protect-Progress gss cfg sys s)
  step_in-Round request s e h =
      RequestStep-Round s _ e (process_request-RequestStep gss cfg sys s h)
  step_in-Round resolving s e h = idle refl
  step_in-Round connecting s e h = idle refl
  step_in-Round relaying s e h = idle refl
  step_in-Round udp_associate s e h = idle refl
  step_in-Round closing s e h = idle refl

  process_step-Round : (s : Session C) → s.closed ≡ false → Round s (process_step gss cfg sys s)
  unfolding process_step
  process_step-Round s h = step_in-Round s.state s refl h

  no_progress_idle : (s t : Session C) → t ≡ s → no_progress gss cfg sys s t ≡ true
  no_progress_idle s t e =
      rw
        (
          e,
          (==_iff (state_number s.state) (state_number s.state)).1 refl,
          (==_iff (length s.ingest) (length s.ingest)).1 refl,
        )
        refl

  -- The fuel that a session needs.
  data Enough (fuel : ℕ) (s : Session C) : Type 0 where
    unwrapped_now : s.state ≡ request → s.gss_request_unwrapped ≡ true → 1 ≤ fuel → Enough fuel s
    for_input : length s.ingest + 3 ≤ fuel → Enough fuel s

  next_Enough :
      (fuel : ℕ) (s : Session C) (r : Session C × Bool)
      → Round s r
      → Enough (suc fuel) s
      → not r.1 ≡ false
      → not (reads_protocol r.0.state) ≡ false
      → no_progress gss cfg sys s r.0 ≡ false
      → Enough fuel r.0
  next_Enough fuel s r (last (Leaves.ends e)) enough h₁ h₂ h₃ = absurd (ground (arith, e, h₁))
  next_Enough fuel s r (last (leaves e)) enough h₁ h₂ h₃ = absurd (ground (arith, e, h₂))
  next_Enough fuel s r (idle e) enough h₁ h₂ h₃ = absurd (cc (no_progress_idle s r.0 e, h₃))
  next_Enough fuel s r (consumes l n) (unwrapped_now e u f) h₁ h₂ h₃ = absurd (n e)
  next_Enough fuel s r (consumes l n) (for_input f) h₁ h₂ h₃ = for_input (omega arith)
  next_Enough fuel s r (opens (e, u, v, t)) (unwrapped_now e' u' f) h₁ h₂ h₃ = absurd (cc (u, u'))
  next_Enough fuel s r (opens (e, u, v, t)) (for_input f) h₁ h₂ h₃ = unwrapped_now t v (omega arith)

  protocol_loop-Ends :
      (fuel : ℕ) (s : Session C) → Enough fuel s → Ends (protocol_loop gss cfg sys fuel s)
  unfolding protocol_loop
  protocol_loop-Ends zero s (unwrapped_now e u f) = absurd (omega arith)
  protocol_loop-Ends zero s (for_input f) = absurd (omega arith)
  protocol_loop-Ends (suc fuel) s enough =
      let r = process_step gss cfg sys s in
      branches-Ends (s.closed || not (reads_protocol s.state)) (not r.1)
        (not (reads_protocol r.0.state)) (no_progress gss cfg sys s r.0) _ _ _ _
        (protocol_loop gss cfg sys fuel r.0)
        (λ h₀ h₁ h₂ h₃.
          protocol_loop-Ends fuel r.0
            (next_Enough fuel s r (process_step-Round s (ground (arith, h₀))) enough h₁ h₂ h₃))

  take_input-Ends : (chunk : List ℕ) (s : Session C) → Ends (take_input gss cfg sys chunk s)
  unfolding take_input
  take_input-Ends chunk s =
      let s' = record s { ingest = s.ingest ++ chunk } in
      if-elim Ends (over_limit (length s.ingest) (length chunk)) (some (close s)) _
        (λ e. (close s, refl))
        (λ e. protocol_loop-Ends (rounds gss cfg sys s') s' (for_input (omega arith)))

  pub on_client_recv-Ends :
      (chunk : List ℕ) (error : ℕ) (s : Session C) → Ends (on_client_recv gss cfg sys chunk error s)
  unfolding on_client_recv
  on_client_recv-Ends chunk error s₀ =
      let s = if reads_protocol s₀.state then arm_idle_timer cfg sys s₀ else s₀ in
      received-Ends (not (error == 0) || is_empty chunk) (is_udp_associate s.state)
        (is_relaying s.state) _ _ _ _ (on_relay_data-Ends gss sys client chunk s)
        (take_input-Ends chunk s)
