-- ===== src/Session/Replies.antt =====
-- server/protocol/Socks5Session.cpp: replies to the client, GSSAPI frames, and failing a session.
pub mod Laws
pub mod Frame
use socks5proxy_native.Prelude.{
  ℕ, zero, suc, ◌+◌, ◌*◌, ◌/◌, ◌%◌, ◌<◌, Bool, true, false, not, ◌&&◌, ◌||◌, List, [], ◌∷◌, ◌++◌,
  ◌==◌, leb, ltb, if◌then◌else◌, length, take, drop, replicate, get_or, Option, none, some,
}
use socks5proxy_native.Net.{Family, inet, inet6, Endpoint}
use socks5proxy_native.Socks.{version, reserved}
use socks5proxy_native.Socks.AddressType.{ipv4, ipv6}
use socks5proxy_native.Socks.Gssapi.{
  gss_version, msg_encapsulated, msg_abort, protect_confidentiality, protect_selective,
}
use socks5proxy_native.Session.{
  Session, SessionState, closing, client, is_closing, is_relaying, is_udp_associate,
}
use socks5proxy_native.Session.Env.{System, Gss}
use socks5proxy_native.Session.Timers.{close, cancel_connect_timer, cancel_idle_timer}
use socks5proxy_native.Session.Streams.{queue_send_raw, is_empty}

-- The port in network byte order.
abbrev pub port_bytes : ℕ → List ℕ
port_bytes port = port / 256 % 256 ∷ port % 256 ∷ []

-- The buffer that `SendSocksReply` builds.
unfoldable pub encode_reply : ℕ → Option Endpoint → List ℕ
encode_reply code none = version ∷ code ∷ reserved ∷ ipv4 ∷ replicate 6 0
encode_reply code (some bound) = elim bound.family [
  | inet ↦ version ∷ code ∷ reserved ∷ ipv4 ∷ (take 4 bound.ip ++ port_bytes bound.port)
  | inet6 ↦ version ∷ code ∷ reserved ∷ ipv6 ∷ (take 16 bound.ip ++ port_bytes bound.port)
]

-- The frame that `SendGssFrame` builds.
unfoldable pub gss_frame : ℕ → List ℕ → List ℕ
gss_frame mtyp token = gss_version ∷ mtyp ∷ length token / 256 % 256 ∷ length token % 256 ∷ token

pub data FrameResult : Type 0 where
  need_more : FrameResult
  protocol_error : List ℕ → FrameResult
  frame : List ℕ → List ℕ → FrameResult

-- `TryReadGssFrame` on the bytes received, with what it leaves of them.
unfoldable pub try_read_gss_frame : ℕ → List ℕ → FrameResult
try_read_gss_frame expected_mtyp ingest =
    let mtyp = get_or ingest 1 0 in
    let len = get_or ingest 2 0 * 256 + get_or ingest 3 0 in
    if not (leb 2 (length ingest))
    then need_more
    else if not (get_or ingest 0 0 == gss_version)
    then protocol_error ingest
    else if mtyp == msg_abort
    then protocol_error (drop 2 ingest)
    else if not (mtyp == expected_mtyp)
    then protocol_error ingest
    else if not (leb 4 (length ingest))
    then need_more
    else if not (leb (4 + len) (length ingest))
    then need_more
    else frame (take len (drop 4 ingest)) (drop (4 + len) ingest)

module _ {C : Type 0} (sys : System) where
  unfoldable pub send_gss_frame : ℕ → List ℕ → Session C → Session C
  unfolding gss_frame
  send_gss_frame mtyp token s = queue_send_raw sys client (gss_frame mtyp token) s

  unfoldable pub send_gss_abort : Session C → Session C
  send_gss_abort s = queue_send_raw sys client (gss_version ∷ msg_abort ∷ []) s

  unfoldable pub request_close_after_flush : Session C → Session C
  request_close_after_flush s₀ =
      let s = record s₀ { close_after_flush = true } in
      if is_empty s.client_io.send_queue && not s.client_io.sending then close s else s

module _ {C : Type 0} (gss : Gss C) (sys : System) where
  abbrev wants_confidentiality : C → Bool
  wants_confidentiality c =
      gss.protection_level c == protect_confidentiality
      || (gss.protection_level c == protect_selective && gss.confidentiality_available c)

  abbrev queue_token : C × Option (List ℕ) → Session C → Session C × Bool
  queue_token (c, none) s = (record s { gssapi = some c }, false)
  queue_token (c, some token) s =
      if ltb 65535 (length token)
      then (record s { gssapi = some c }, false)
      else (send_gss_frame sys msg_encapsulated token (record s { gssapi = some c }), true)

  unfoldable pub wrap_and_queue_client : List ℕ → Session C → Session C × Bool
  wrap_and_queue_client cleartext s = elim s.gssapi [
    | none ↦ (s, false)
    | some c ↦ queue_token (gss.wrap c cleartext (wants_confidentiality c)) s
  ]

  unfoldable pub queue_client_send : List ℕ → Session C → Session C
  unfolding wrap_and_queue_client
  queue_client_send chunk s =
      let (wrapped, done) = wrap_and_queue_client chunk s in
      if s.gss_protect_active && not (is_relaying s.state) && not (is_udp_associate s.state)
      then (if done then wrapped else close wrapped)
      else queue_send_raw sys client chunk s

  unfoldable pub send_socks_reply : ℕ → Option Endpoint → Session C → Session C
  unfolding encode_reply queue_client_send
  send_socks_reply code bound s = queue_client_send (encode_reply code bound) s

  unfoldable pub fail_and_close : ℕ → Session C → Session C
  unfolding send_socks_reply request_close_after_flush cancel_connect_timer cancel_idle_timer
  fail_and_close code s =
      if s.closed || is_closing s.state
      then s
      else let failing = cancel_idle_timer (cancel_connect_timer (record s { state = closing })) in
        request_close_after_flush sys
          (send_socks_reply code none (record failing { dest_open = false }))
