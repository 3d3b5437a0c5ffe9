-- ===== src/Session/Negotiation.antt =====
-- server/protocol/Socks5Session.cpp: the negotiation before the request. Each step takes its message
-- from `ingest` when it has arrived whole; its result is false when the session must end.
pub mod Laws
pub mod Progress
pub mod Choice
pub mod Admission
pub mod Gate
use socks5proxy_native.Prelude.{
  ℕ, ◌+◌, ◌%◌, Bool, true, false, not, ◌&&◌, ◌||◌, List, [], ◌∷◌, ◌==◌, leb, ltb, if◌then◌else◌,
  length, take, drop, get_or, Option, none, some, bit_or, bit_xor, max,
}
use socks5proxy_native.Socks.{version}
use socks5proxy_native.Socks.AuthMethod.{no_auth, gssapi, username_password, no_acceptable_methods}
use socks5proxy_native.Socks.AuthProtocol.{auth_version, success, failure}
use socks5proxy_native.Socks.Gssapi.{
  msg_auth, msg_protection, protect_integrity, protect_confidentiality, protect_selective,
}
use socks5proxy_native.Session.{
  Session, SessionState, auth, gssapi_auth, gssapi_protect, request, client,
}
use socks5proxy_native.Session.Env.{Config, System, Gss, AcceptStatus, continue, complete, failed}
use socks5proxy_native.Session.Streams.{queue_send_raw, is_empty}
use socks5proxy_native.Session.Replies.{
  need_more, protocol_error, frame, FrameResult, try_read_gss_frame, send_gss_frame, send_gss_abort,
}

-- The loop of `ConstantTimeEqual` from `i` on: a byte past the end counts as 0.
unfoldable pub differences : List ℕ → List ℕ → ℕ → ℕ
differences [] [] difference = difference
differences [] (b ∷ rhs) difference = differences [] rhs (bit_or difference (bit_xor 0 b))
differences (a ∷ lhs) [] difference = differences lhs [] (bit_or difference (bit_xor a 0))
differences (a ∷ lhs) (b ∷ rhs) difference = differences lhs rhs (bit_or difference (bit_xor a b))

-- The cast of the sizes to 32 bits is left out: the texts are shorter than 2^32 bytes.
unfoldable pub constant_time_equal : List ℕ → List ℕ → Bool
unfolding differences
constant_time_equal lhs rhs = differences lhs rhs (bit_xor (length lhs) (length rhs)) == 0

-- `NetworkConfiguration::HasCredentials`.
unfoldable pub has_credentials : Config → Bool
has_credentials cfg = not (is_empty cfg.username) && not (is_empty cfg.password)

pub record Offers : Type 0 where
  pub gss : Bool
  pub user_pass : Bool
  pub no_auth_at_all : Bool

-- One round of the loop over the offered methods.
abbrev pub offer : ℕ → Offers → Offers
offer m o =
    if m == gssapi
    then record o { gss = true }
    else if m == username_password
    then record o { user_pass = true }
    else if m == no_auth
    then record o { no_auth_at_all = true }
    else o

unfoldable pub offers : List ℕ → Offers → Offers
offers [] o = o
offers (m ∷ ms) o = offers ms (offer m o)

unfoldable pub select_method : Config → List ℕ → ℕ
unfolding offers has_credentials
select_method cfg methods =
    let o = offers methods (record { gss = false; user_pass = false; no_auth_at_all = false }) in
    if cfg.enable_gssapi && o.gss
    then gssapi
    else if has_credentials cfg && o.user_pass
    then username_password
    else if not (has_credentials cfg) && o.no_auth_at_all
    then no_auth
    else no_acceptable_methods

module _ {C : Type 0} (gss : Gss C) (cfg : Config) (sys : System) where
  -- `AcquireDefaultCredentials` on a new context.
  start_gssapi : Session C → Session C × Bool
  start_gssapi s =
      let (c, acquired) = gss.acquire gss.fresh in
      if acquired
      then (record s { gssapi = some c; state = gssapi_auth }, true)
      else (send_gss_abort sys (record s { gssapi = some c }), false)

  enter_method : ℕ → Session C → Session C × Bool
  unfolding start_gssapi
  enter_method selected s =
      if selected == no_acceptable_methods
      then (s, false)
      else if selected == gssapi
      then start_gssapi s
      else if selected == username_password
      then (record s { state = auth }, true)
      else (record s { state = request }, true)

  unfoldable pub process_handshake : Session C → Session C × Bool
  unfolding enter_method
  process_handshake s =
      let method_count = get_or s.ingest 1 0 in
      let selected = select_method cfg (take method_count (drop 2 s.ingest)) in
      let rest = record s { ingest = drop (2 + method_count) s.ingest } in
      if not (leb 2 (length s.ingest))
      then (s, true)
      else if not (get_or s.ingest 0 0 == version)
      then (s, false)
      else if method_count == 0
      then (s, false)
      else if not (leb (2 + method_count) (length s.ingest))
      then (s, true)
      else enter_method selected (queue_send_raw sys client (version ∷ selected ∷ []) rest)

  finish_auth : Bool → Session C → Session C × Bool
  finish_auth matches s =
      let s' =
        queue_send_raw sys client (auth_version ∷ (if matches then success else failure) ∷ []) s in
      if not matches then (s', false) else (record s' { state = request }, true)

  unfoldable pub process_auth : Session C → Session C × Bool
  unfolding finish_auth
  process_auth s =
      let ulen = get_or s.ingest 1 0 in
      let plen = get_or s.ingest (2 + ulen) 0 in
      let username = take ulen (drop 2 s.ingest) in
      let password = take plen (drop (3 + ulen) s.ingest) in
      let rest = record s { ingest = drop (2 + ulen + 1 + plen) s.ingest } in
      if not (leb 2 (length s.ingest))
      then (s, true)
      else if not (get_or s.ingest 0 0 == auth_version)
      then (s, false)
      else if not (leb (2 + ulen + 1) (length s.ingest))
      then (s, true)
      else if not (leb (2 + ulen + 1 + plen) (length s.ingest))
      then (s, true)
      else finish_auth
          (constant_time_equal username cfg.username && constant_time_equal password cfg.password)
          rest

  abbrev rejected : Session C → Session C × Bool
  rejected s = (send_gss_abort sys s, false)

  gssapi_answer : C × AcceptStatus × List ℕ → Session C → Session C × Bool
  gssapi_answer (c, failed, out_token) s = rejected (record s { gssapi = some c })
  gssapi_answer (c, continue, out_token) s =
      if ltb 65535 (length out_token)
      then rejected (record s { gssapi = some c })
      else (send_gss_frame sys msg_auth out_token (record s { gssapi = some c }), true)
  gssapi_answer (c, complete, out_token) s =
      if ltb 65535 (length out_token) then rejected (record s { gssapi = some c }) else (
        record (send_gss_frame sys msg_auth out_token (record s { gssapi = some c })) {
          state = gssapi_protect;
        },
        true,
      )

  gssapi_token : FrameResult → Session C → Session C × Bool
  unfolding gssapi_answer
  gssapi_token need_more s = (s, true)
  gssapi_token (protocol_error rest) s = rejected (record s { ingest = rest })
  gssapi_token (frame token rest) s = elim s.gssapi [
    | none ↦ rejected (record s { ingest = rest })
    | some c ↦ gssapi_answer (gss.accept_token c token) (record s { ingest = rest })
  ]

  unfoldable pub process_gssapi_auth : Session C → Session C × Bool
  unfolding gssapi_token
  process_gssapi_auth s = gssapi_token (try_read_gss_frame msg_auth s.ingest) s

  -- The protection level that is agreed on.
  unfoldable pub agreed_level : C → ℕ → ℕ
  agreed_level c client_level =
      let capped =
        if ltb (cfg.gssapi_max_protection % 256) client_level
        then cfg.gssapi_max_protection % 256
        else client_level in
      if capped == protect_confidentiality && not (gss.confidentiality_available c)
      then protect_integrity
      else capped

  protect_reply : C × Option (List ℕ) → Session C → Session C × Bool
  protect_reply (c, none) s = rejected (record s { gssapi = some c })
  protect_reply (c, some wrapped) s =
      if ltb 65535 (length wrapped) then rejected (record s { gssapi = some c }) else (
        record (send_gss_frame sys msg_protection wrapped (record s { gssapi = some c })) {
          gss_protect_active = true;
          gss_request_unwrapped = false;
          state = request;
        },
        true,
      )

  protect_level : C × Option (List ℕ) → Session C → Session C × Bool
  unfolding protect_reply agreed_level
  protect_level (c, none) s = rejected (record s { gssapi = some c })
  protect_level (c, some []) s = rejected (record s { gssapi = some c })
  protect_level (c, some (client_level ∷ clear)) s =
      let selected = agreed_level c client_level in
      let c' = gss.set_protection_level c selected in
      if ltb client_level protect_integrity || ltb protect_selective client_level
      then rejected (record s { gssapi = some c })
      else protect_reply (gss.wrap c' (selected ∷ []) false) (record s { gssapi = some c' })

  protect_token : FrameResult → Session C → Session C × Bool
  unfolding protect_level
  protect_token need_more s = (s, true)
  protect_token (protocol_error rest) s = rejected (record s { ingest = rest })
  protect_token (frame token rest) s = elim s.gssapi [
    | none ↦ rejected (record s { ingest = rest })
    | some c ↦ protect_level (gss.unwrap c token) (record s { ingest = rest })
  ]

  unfoldable pub process_gssapi_protect : Session C → Session C × Bool
  unfolding protect_token
  process_gssapi_protect s = protect_token (try_read_gss_frame msg_protection s.ingest) s
