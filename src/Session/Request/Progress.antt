-- ===== src/Session/Request/Progress.antt =====
-- server/protocol/Socks5Session.cpp: how a round in the request state moves on.
use socks5proxy_native.Prelude.{
  ℕ, ◌+◌, ◌≡◌, refl, ◌∙◌, ap, Bool, true, false, not, ◌&&◌, ◌||◌, List, ◌∷◌, drop, ◌==◌,
  if◌then◌else◌, if-elim, Option-elim, Option, none, some, arith,
}
use socks5proxy_native.Net.{Endpoint, parse_ip}
use socks5proxy_native.Socks.Command.{connect, udp_associate}
use socks5proxy_native.Socks.Gssapi.{msg_encapsulated}
use socks5proxy_native.Socks.ReplyCode.{general_failure, command_not_supported}
use socks5proxy_native.Session.{Session, connecting, reads_protocol, post_connect}
use socks5proxy_native.Session.Env.{Config, System, Gss}
use socks5proxy_native.Session.Timers.{cancel_idle_timer, arm_connect_timer}
use socks5proxy_native.Session.Timers.Laws.{arm_connect_timer-state}
use socks5proxy_native.Session.Streams.Frame.{begin_client_read-SameTalk}
use socks5proxy_native.Session.Replies.{
  FrameResult, need_more, protocol_error, frame, try_read_gss_frame, fail_and_close,
}
use socks5proxy_native.Session.Replies.Frame.{fail_and_close-state}
use socks5proxy_native.Session.Request.Parse.{Parsed, incomplete, refuse, parsed, parse_request}
use socks5proxy_native.Session.Request.{
  unwrapped, unwrap_request, ensure_cleartext_request_ingest, fails, connect_endpoint,
  post_connect_to, connect_to_host, start_resolve, start_connect, start_udp, run_command,
  handle_request, process_request,
}

-- What follows a request: the session ends, or it reads no further messages.
pub data Leaves {C : Type 0} (r : Session C × Bool) : Type 0 where
  ends : r.1 ≡ false → Leaves r
  leaves : reads_protocol r.0.state ≡ false → Leaves r

pub data RequestStep {C : Type 0} (s : Session C) (r : Session C × Bool) : Type 0 where
  goes_on : Leaves r → RequestStep s r
  waits : r.0 ≡ s → RequestStep s r
  unwraps :
      (s.gss_request_unwrapped ≡ false)
        × (r.0.gss_request_unwrapped ≡ true)
        × (r.0.state ≡ s.state)
        × (r.0.closed ≡ s.closed)
      → RequestStep s r

-- What `EnsureCleartextRequestIngest` does.
data Unwrap {C : Type 0} (s : Session C) (r : Session C × Bool) : Type 0 where
  broken : r.1 ≡ false → Unwrap s r
  unchanged : r.0 ≡ s → Unwrap s r
  opened :
      (s.gss_request_unwrapped ≡ false)
        × (r.0.gss_request_unwrapped ≡ true)
        × (r.0.state ≡ s.state)
        × (r.0.closed ≡ s.closed)
      → Unwrap s r

link_closed :
    {C : Type 0} (s t : Session C) → s.closed ≡ false → Unwrap s (t, true) → t.closed ≡ false
link_closed s t h (broken e) = absurd (ground (arith, e))
link_closed s t h (unchanged e) = rw e h
link_closed s t h (opened (_, _, _, e)) = e ∙ h

-- A step after unwrapping, as a step of the whole.
link_step :
    {C : Type 0} (s t : Session C) (r : Session C × Bool)
    → s.closed ≡ false
    → Unwrap s (t, true)
    → RequestStep t r
    → RequestStep s r
link_step s t r h (broken e) k = absurd (ground (arith, e))
link_step s t r h (unchanged e) k = rw (← e) k
link_step s t r h (opened o) (goes_on l) = goes_on l
link_step s t r h (opened (a, b, c, d)) (waits w) = unwraps (a, rw w b, rw w c, rw w d)
link_step s t r h (opened (a, b, c, d)) (unwraps (a', b', c', d')) = absurd (cc (a', b))

ends_if :
    {C : Type 0} (b : Bool) (t : Session C) (y : Session C × Bool)
    → Leaves y
    → Leaves (if b then (t, false) else y)
ends_if true t y h = ends refl
ends_if false t y h = h

module _ {C : Type 0} (gss : Gss C) (cfg : Config) (sys : System) where
  failed-Leaves :
      (code : ℕ) (s : Session C) (b : Bool)
      → s.closed ≡ false
      → Leaves (fail_and_close gss sys code s, b)
  unfolding reads_protocol
  failed-Leaves code s b h = leaves (ap reads_protocol (fail_and_close-state gss sys code s h))

  post_connect_to-Leaves :
      (destination : Endpoint) (s : Session C)
      → s.state ≡ connecting
      → Leaves (post_connect_to gss cfg sys destination s)
  unfolding post_connect_to reads_protocol
  post_connect_to-Leaves destination s h =
      let posted = record s { posts = s.posts + 1; events = post_connect destination ∷ s.events } in
      let armed = arm_connect_timer cfg sys posted in
      if-elim Leaves (not (sys.accepts s.posts)) _
        (if armed.1 then (armed.0, true) else fails gss cfg sys general_failure armed.0)
        (λ e. ends refl)
        (λ e.
          if-elim Leaves armed.1 (armed.0, true) (fails gss cfg sys general_failure armed.0)
            (λ e'. leaves (ap reads_protocol (arm_connect_timer-state cfg sys posted ∙ h)))
            (λ e'. ends refl))

  connect_endpoint-Leaves :
      (destination : Endpoint) (s : Session C) → Leaves (connect_endpoint gss cfg sys destination s)
  unfolding connect_endpoint cancel_idle_timer
  connect_endpoint-Leaves destination s = ends_if (not (sys.creates s.posts)) _ _ (
      ends_if (not (sys.binds (s.posts + 1))) _ _ (
        ends_if (not (sys.associates (s.posts + 1 + 1))) _ _ (
          post_connect_to-Leaves destination
            (cancel_idle_timer
              (record s { state = connecting; dest_open = true; posts = s.posts + 1 + 1 + 1 }))
            refl)))

  connect_to_host-Leaves :
      (ip : List ℕ) (port : ℕ) (s : Session C) → Leaves (connect_to_host gss cfg sys ip port s)
  unfolding connect_to_host
  connect_to_host-Leaves ip port s =
      Option-elim Leaves (parse_ip sys.inet_pton ip) _
        (λ a.
          connect_endpoint gss cfg sys
            (record { family = a.0; ip = a.1; port = port; flow_info = 0; scope_id = 0 }) s)
        (ends refl) (λ a. connect_endpoint-Leaves _ s)

  start_connect-Leaves :
      (address : List ℕ) (port : ℕ) (s : Session C)
      → Leaves (start_connect gss cfg sys address port s)
  unfolding start_connect start_resolve cancel_idle_timer reads_protocol
  start_connect-Leaves address port s =
      Option-elim Leaves (parse_ip sys.inet_pton address) _ _ (leaves refl)
        (λ a. connect_to_host-Leaves address port s)

  start_udp-Leaves :
      (bound : Option Endpoint) (s : Session C)
      → s.closed ≡ false
      → Leaves (start_udp gss cfg sys bound s)
  unfolding start_udp reads_protocol
  start_udp-Leaves none s h = failed-Leaves general_failure s true h
  start_udp-Leaves (some advertised) s h =
      leaves (ap reads_protocol (begin_client_read-SameTalk sys _).state)

  run_command-Leaves :
      (command : ℕ) (address : List ℕ) (port : ℕ) (s : Session C)
      → s.closed ≡ false
      → Leaves (run_command gss cfg sys command address port s)
  unfolding run_command
  run_command-Leaves command address port s h =
      if-elim Leaves (command == connect) _ _ (λ e. start_connect-Leaves address port s)
        (λ e.
          if-elim Leaves (command == udp_associate) _ _
            (λ e'. start_udp-Leaves (sys.starts_relay s.posts) _ h)
            (λ e'. failed-Leaves command_not_supported s true h))

  handle_request-RequestStep :
      (p : Parsed) (s : Session C)
      → s.closed ≡ false
      → RequestStep s (handle_request gss cfg sys p s)
  unfolding handle_request
  handle_request-RequestStep incomplete s h = waits refl
  handle_request-RequestStep (refuse code) s h = goes_on (failed-Leaves code s true h)
  handle_request-RequestStep (parsed command address port need) s h =
      goes_on (run_command-Leaves command address port (record s { ingest = drop need s.ingest }) h)

  unwrapped-Unwrap :
      (a : C × Option (List ℕ)) (rest : List ℕ) (s : Session C)
      → s.gss_request_unwrapped ≡ false
      → Unwrap s (unwrapped gss cfg sys a rest s)
  unfolding unwrapped
  unwrapped-Unwrap (c, none) rest s h = broken refl
  unwrapped-Unwrap (c, some clear) rest s h = opened (h, refl, refl, refl)

  unwrap_request-Unwrap :
      (f : FrameResult) (s : Session C)
      → s.gss_request_unwrapped ≡ false
      → Unwrap s (unwrap_request gss cfg sys f s)
  unfolding unwrap_request
  unwrap_request-Unwrap need_more s h = unchanged refl
  unwrap_request-Unwrap (protocol_error rest) s h = broken refl
  unwrap_request-Unwrap (frame token rest) s h =
      Option-elim (Unwrap s) s.gssapi _ (λ c. unwrapped gss cfg sys (gss.unwrap c token) rest s)
        (broken refl) (λ c. unwrapped-Unwrap (gss.unwrap c token) rest s h)

  ensure-Unwrap : (s : Session C) → Unwrap s (ensure_cleartext_request_ingest gss cfg sys s)
  unfolding ensure_cleartext_request_ingest
  ensure-Unwrap s =
      if-elim (Unwrap s) (not s.gss_protect_active || s.gss_request_unwrapped) (s, true) _
        (λ e. unchanged refl)
        (λ e.
          unwrap_request-Unwrap (try_read_gss_frame msg_encapsulated s.ingest) s
            (ground (arith, e)))

  request_after :
      (s t : Session C) (intact b : Bool) (p : Parsed)
      → s.closed ≡ false
      → Unwrap s (t, intact)
      → RequestStep s (
          if not intact
          then (t, false)
          else if b
          then (t, true)
          else handle_request gss cfg sys p t)
  request_after s t false b p h u = goes_on (ends refl)
  request_after s t true true p h u = link_step s t (t, true) h u (waits refl)
  request_after s t true false p h u =
      link_step s t (handle_request gss cfg sys p t) h u
        (handle_request-RequestStep p t (link_closed s t h u))

  pub process_request-RequestStep :
      (s : Session C) → s.closed ≡ false → RequestStep s (process_request gss cfg sys s)
  unfolding process_request
  process_request-RequestStep s h =
      let r = ensure_cleartext_request_ingest gss cfg sys s in
      request_after s r.0 r.1 (r.0.gss_protect_active && not r.0.gss_request_unwrapped)
        (parse_request sys.inet_ntop r.0.ingest) h (ensure-Unwrap s)
