-- ===== src/Session/Replies/Frame.antt =====
-- What a reply to the client leaves alone, and where a failing session stands.
use socks5proxy_native.Prelude.{
  ℕ, ◌≡◌, refl, ◌∙◌, Bool, true, false, if-elim, Option-elim, ◌&&◌, ◌||◌, not, List, Option, none,
  some, ltb, length, if◌then◌else◌, arith,
}
use socks5proxy_native.Socks.Gssapi.{msg_encapsulated}
use socks5proxy_native.Session.{
  is_relaying, is_udp_associate, is_closing, Session, SessionState, closing, client,
}
use socks5proxy_native.Session.Env.{System, Gss}
use socks5proxy_native.Session.Timers.{close, cancel_idle_timer, cancel_connect_timer}
use socks5proxy_native.Session.Streams.Frame.{SameTalk, queue_send_raw-SameTalk, close-SameTalk}
use socks5proxy_native.Session.Streams.{queue_send_raw}
use socks5proxy_native.Session.Replies.{
  gss_frame, send_gss_frame, queue_token, wants_confidentiality, request_close_after_flush,
  wrap_and_queue_client, queue_client_send, send_socks_reply, encode_reply, fail_and_close,
}

module _ {C : Type 0} (sys : System) where
  sent-state :
      (chunk : List ℕ) (s : Session C) → (queue_send_raw sys client chunk s).state ≡ s.state
  sent-state chunk s = (queue_send_raw-SameTalk sys client chunk s).state

  pub request_close_after_flush-SameTalk :
      (s : Session C) → SameTalk s (request_close_after_flush sys s)
  unfolding request_close_after_flush close
  request_close_after_flush-SameTalk s = ground arith

if-state :
    {C : Type 0} (t : SessionState) (b : Bool) (x y : Session C)
    → x.state ≡ t
    → y.state ≡ t
    → (if b then x else y).state ≡ t
if-state t true x y h k = h
if-state t false x y h k = k

if_first-state :
    {C : Type 0} (t : SessionState) (b : Bool) (x y : Session C × Bool)
    → x.0.state ≡ t
    → y.0.state ≡ t
    → (if b then x else y).0.state ≡ t
if_first-state t true x y h k = h
if_first-state t false x y h k = k

is_closing-state : (t : SessionState) → is_closing t ≡ true → t ≡ closing
is_closing-state t h = ground arith

module _ {C : Type 0} (gss : Gss C) (sys : System) where
  queue_token-state :
      (a : C × Option (List ℕ)) (s : Session C) → (queue_token gss sys a s).0.state ≡ s.state
  unfolding send_gss_frame
  queue_token-state (c, none) s = refl
  queue_token-state (c, some token) s =
      if_first-state s.state (ltb 65535 (length token)) (record s { gssapi = some c }, false) _ refl
        (sent-state sys (gss_frame msg_encapsulated token) (record s { gssapi = some c }))

  wrap_and_queue_client-state :
      (chunk : List ℕ) (s : Session C) → (wrap_and_queue_client gss sys chunk s).0.state ≡ s.state
  unfolding wrap_and_queue_client
  wrap_and_queue_client-state chunk s =
      Option-elim (λ r. r.0.state ≡ s.state) s.gssapi (s, false)
        (λ c. queue_token gss sys (gss.wrap c chunk (wants_confidentiality gss sys c)) s) refl
        (λ c. queue_token-state (gss.wrap c chunk (wants_confidentiality gss sys c)) s)

  pub queue_client_send-state :
      (chunk : List ℕ) (s : Session C) → (queue_client_send gss sys chunk s).state ≡ s.state
  unfolding queue_client_send
  queue_client_send-state chunk s =
      let w = wrap_and_queue_client gss sys chunk s in
      if-state s.state
        (s.gss_protect_active && not (is_relaying s.state) && not (is_udp_associate s.state)) _ _
        (if-state s.state w.1 w.0 (close w.0) (wrap_and_queue_client-state chunk s)
          ((close-SameTalk w.0).state ∙ wrap_and_queue_client-state chunk s))
        (sent-state sys chunk s)

  -- The state after a session fails, from the moment it is closing.
  failing-state :
      (chunk : List ℕ) (s : Session C)
      → s.state ≡ closing
      → (request_close_after_flush sys (queue_client_send gss sys chunk s)).state ≡ closing
  failing-state chunk s h =
      (request_close_after_flush-SameTalk sys (queue_client_send gss sys chunk s)).state
      ∙ queue_client_send-state chunk s
      ∙ h

  -- A failing session that was open is closing.
  pub fail_and_close-state :
      (code : ℕ) (s : Session C)
      → s.closed ≡ false
      → (fail_and_close gss sys code s).state ≡ closing
  unfolding fail_and_close send_socks_reply cancel_idle_timer cancel_connect_timer
  fail_and_close-state code s h =
      if-elim (λ t. t.state ≡ closing) (s.closed || is_closing s.state) s _
        (λ e. is_closing-state s.state (ground (arith, e, h)))
        (λ e.
          failing-state (encode_reply code none)
            (record (cancel_idle_timer (cancel_connect_timer (record s { state = closing }))) {
              dest_open = false;
            })
            refl)
