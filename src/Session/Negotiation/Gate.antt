-- ===== src/Session/Negotiation/Gate.antt =====
-- server/protocol/Socks5Session.cpp: the way into the request state, over the steps of the negotiation.
use socks5proxy_native.Prelude.{
  ℕ, ◌+◌, ◌≡◌, ◌≢◌, refl, ◌∙◌, sym, ◌⊎◌, inl, inr, Bool, true, false, not, ◌&&◌, List, [], ◌∷◌,
  ◌==◌, leb, ltb, length, take, drop, get_or, if◌then◌else◌, if-elim, Option-elim, some, arith,
}
use socks5proxy_native.Socks.{version}
use socks5proxy_native.Socks.AuthMethod.{no_auth, gssapi, username_password, no_acceptable_methods}
use socks5proxy_native.Socks.AuthProtocol.{auth_version, failure}
use socks5proxy_native.Socks.Gssapi.{msg_auth}
use socks5proxy_native.Session.{
  Session, handshake, auth, gssapi_auth, gssapi_protect, request, client,
}
use socks5proxy_native.Session.Env.{Config, System, Gss, AcceptStatus, continue, complete, failed}
use socks5proxy_native.Session.Streams.{queue_send_raw}
use socks5proxy_native.Session.Streams.Frame.{queue_send_raw-SameTalk}
use socks5proxy_native.Session.Replies.{
  gss_frame, send_gss_frame, send_gss_abort, FrameResult, need_more, protocol_error, frame,
  try_read_gss_frame,
}
use socks5proxy_native.Session.Negotiation.{
  has_credentials, select_method, constant_time_equal, start_gssapi, enter_method,
  process_handshake, finish_auth, process_auth, gssapi_answer, gssapi_token, process_gssapi_auth,
}
use socks5proxy_native.Session.Negotiation.Choice.{offered, admits, select_method-admits}
use socks5proxy_native.Session.Negotiation.Admission.{matches_iff}

-- The methods of a greeting.
abbrev pub methods : List ℕ → List ℕ
methods ingest = take (get_or ingest 1 0) (drop 2 ingest)

abbrev pub username_of : List ℕ → List ℕ
username_of ingest = take (get_or ingest 1 0) (drop 2 ingest)

abbrev pub password_of : List ℕ → List ℕ
password_of ingest =
    take (get_or ingest (2 + get_or ingest 1 0) 0) (drop (3 + get_or ingest 1 0) ingest)

-- What a session shows before it may send a request.
pub data Admitted {C : Type 0} (cfg : Config) (s : Session C) : Type 0 where
  without_auth :
      s.state ≡ handshake
      → has_credentials cfg ≡ false
      → offered no_auth (methods s.ingest) ≡ true
      → Admitted cfg s
  by_password :
      s.state ≡ auth
      → username_of s.ingest ≡ cfg.username
      → password_of s.ingest ≡ cfg.password
      → Admitted cfg s
  by_gssapi : s.state ≡ gssapi_protect → Admitted cfg s

-- Selecting a method that needs no more messages.
open_choice :
    (cfg : Config) (ms : List ℕ)
    → select_method cfg ms ≢ no_acceptable_methods
    → select_method cfg ms ≢ gssapi
    → select_method cfg ms ≢ username_password
    → (has_credentials cfg ≡ false) × (offered no_auth ms ≡ true)
unfolding admits
open_choice cfg ms n₁ n₂ n₃ = go (select_method cfg ms) (select_method-admits cfg ms) n₁ n₂ n₃
  where
    go :
        (k : ℕ)
        → ((offered k ms ≡ true) × (admits cfg k ≡ true))
          ⊎ ((k ≡ no_acceptable_methods) × ((m : ℕ) → admits cfg m ≡ true → offered m ms ≡ false))
        → k ≢ no_acceptable_methods
        → k ≢ gssapi
        → k ≢ username_password
        → (has_credentials cfg ≡ false) × (offered no_auth ms ≡ true)
    go k (inr (e, n)) n₁ n₂ n₃ = absurd (n₁ e)
    go k (inl (o, a)) n₁ n₂ n₃ =
        let e : k ≡ no_auth = ground (arith, a, n₂, n₃) in (ground (arith, a, n₂, n₃), rw (sym e) o)

module _ {C : Type 0} (gss : Gss C) (cfg : Config) (sys : System) where
  sent-state :
      (chunk : List ℕ) (s : Session C) → (queue_send_raw sys client chunk s).state ≡ s.state
  sent-state chunk s = (queue_send_raw-SameTalk sys client chunk s).state

  sent_abort-state : (s : Session C) → (send_gss_abort sys s).state ≡ s.state
  unfolding send_gss_abort
  sent_abort-state s = sent-state _ s

  sent_frame-state :
      (mtyp : ℕ) (token : List ℕ) (s : Session C)
      → (send_gss_frame sys mtyp token s).state ≡ s.state
  unfolding send_gss_frame
  sent_frame-state mtyp token s = sent-state (gss_frame mtyp token) s

  start_gssapi-state :
      (s : Session C) → s.state ≢ request → (start_gssapi gss cfg sys s).0.state ≢ request
  unfolding start_gssapi send_gss_abort
  start_gssapi-state s n =
      let (c, acquired) = gss.acquire gss.fresh in
      if-elim {A = Session C × Bool} (λ r. r.0.state ≢ request) acquired
        (record s { gssapi = some c; state = gssapi_auth }, true)
        (send_gss_abort sys (record s { gssapi = some c }), false) (λ e h. ground (arith, h))
        (λ e h. n (sym (sent_abort-state (record s { gssapi = some c })) ∙ h))

  enter_method-request :
      (selected : ℕ) (s : Session C)
      → s.state ≢ request
      → (enter_method gss cfg sys selected s).0.state ≡ request
      → (selected ≢ no_acceptable_methods) × (selected ≢ gssapi) × (selected ≢ username_password)
  unfolding enter_method
  enter_method-request selected s n =
      let P : Session C × Bool → Type 0 = λ r.
        r.0.state ≡ request
        → (selected ≢ no_acceptable_methods)
          × (selected ≢ gssapi)
          × (selected ≢ username_password) in
      if-elim P (selected == no_acceptable_methods) _ _ (λ e h. absurd (n h))
        (λ e₁.
          if-elim P (selected == gssapi) _ _ (λ e h. absurd (start_gssapi-state s n h))
            (λ e₂.
              if-elim P (selected == username_password) (record s { state = auth }, true)
                (record s { state = request }, true) (λ e h. ground (arith, h))
                (λ e₃ h. (
                  (λ k. ground (arith, k, e₁)),
                  (λ k. ground (arith, k, e₂)),
                  (λ k. ground (arith, k, e₃)),
                ))))

  -- A guard that leaves the session as it is.
  stays_if :
      (s : Session C) (stays b : Bool) (y : Session C × Bool)
      → s.state ≢ request
      → (y.0.state ≡ request → Admitted cfg s)
      → (if b then (s, stays) else y).0.state ≡ request
      → Admitted cfg s
  stays_if s stays true y n k h = absurd (n h)
  stays_if s stays false y n k h = k h

  pub process_handshake-Admitted :
      (s : Session C)
      → s.state ≡ handshake
      → (process_handshake gss cfg sys s).0.state ≡ request
      → Admitted cfg s
  unfolding process_handshake
  process_handshake-Admitted s e =
      let n : s.state ≢ request = λ h. ground (arith, e, h) in
      let rest = record s { ingest = drop (2 + get_or s.ingest 1 0) s.ingest } in
      let selected = select_method cfg (methods s.ingest) in
      let answered = queue_send_raw sys client (version ∷ selected ∷ []) rest in
      stays_if s true (not (leb 2 (length s.ingest))) _ n (
        stays_if s false (not (get_or s.ingest 0 0 == version)) _ n (
          stays_if s false (get_or s.ingest 1 0 == 0) _ n (
            stays_if s true (not (leb (2 + get_or s.ingest 1 0) (length s.ingest)))
              (enter_method gss cfg sys selected answered) n
              (λ h.
                let (n₁, n₂, n₃) =
                  enter_method-request selected answered
                    (λ t. n (sym (sent-state (version ∷ selected ∷ []) rest) ∙ t)) h in
                let (c, o) = open_choice cfg (methods s.ingest) n₁ n₂ n₃ in without_auth e c o))))

  finish_auth-request :
      (matches : Bool) (s : Session C)
      → s.state ≢ request
      → (finish_auth gss cfg sys matches s).0.state ≡ request
      → matches ≡ true
  unfolding finish_auth
  finish_auth-request true s n h = refl
  finish_auth-request false s n h =
      absurd (n (sym (sent-state (auth_version ∷ failure ∷ []) s) ∙ h))

  pub process_auth-Admitted :
      (s : Session C)
      → s.state ≡ auth
      → (process_auth gss cfg sys s).0.state ≡ request
      → Admitted cfg s
  unfolding process_auth
  process_auth-Admitted s e =
      let n : s.state ≢ request = λ h. ground (arith, e, h) in
      let ulen = get_or s.ingest 1 0 in
      let plen = get_or s.ingest (2 + ulen) 0 in
      let rest = record s { ingest = drop (2 + ulen + 1 + plen) s.ingest } in
      let user = username_of s.ingest in
      let pass = password_of s.ingest in
      let matches =
        constant_time_equal user cfg.username && constant_time_equal pass cfg.password in
      stays_if s true (not (leb 2 (length s.ingest))) _ n (
        stays_if s false (not (get_or s.ingest 0 0 == auth_version)) _ n (
          stays_if s true (not (leb (2 + ulen + 1) (length s.ingest))) _ n (
            stays_if s true (not (leb (2 + ulen + 1 + plen) (length s.ingest)))
              (finish_auth gss cfg sys matches rest) n
              (λ h.
                let (u, p) = (matches_iff cfg user pass).0 (finish_auth-request matches rest n h) in
                by_password e u p))))

  gssapi_answer-state :
      (a : C × AcceptStatus × List ℕ) (s : Session C)
      → s.state ≢ request
      → (gssapi_answer gss cfg sys a s).0.state ≢ request
  unfolding gssapi_answer
  gssapi_answer-state (c, failed, token) s n =
      λ h. n (sym (sent_abort-state (record s { gssapi = some c })) ∙ h)
  gssapi_answer-state (c, continue, token) s n =
      let s' = record s { gssapi = some c } in
      if-elim {A = Session C × Bool} (λ r. r.0.state ≢ request) (ltb 65535 (length token)) _ _
        (λ e h. n (sym (sent_abort-state s') ∙ h))
        (λ e h. n (sym (sent_frame-state msg_auth token s') ∙ h))
  gssapi_answer-state (c, complete, token) s n =
      let s' = record s { gssapi = some c } in
      if-elim {A = Session C × Bool} (λ r. r.0.state ≢ request) (ltb 65535 (length token)) _
        (record (send_gss_frame sys msg_auth token s') { state = gssapi_protect }, true)
        (λ e h. n (sym (sent_abort-state s') ∙ h)) (λ e h. ground (arith, h))

  gssapi_token-state :
      (f : FrameResult) (s : Session C)
      → s.state ≢ request
      → (gssapi_token gss cfg sys f s).0.state ≢ request
  unfolding gssapi_token
  gssapi_token-state need_more s n = n
  gssapi_token-state (protocol_error rest) s n =
      λ h. n (sym (sent_abort-state (record s { ingest = rest })) ∙ h)
  gssapi_token-state (frame token rest) s n =
      let s' = record s { ingest = rest } in
      Option-elim {B = Session C × Bool} (λ r. r.0.state ≢ request) s.gssapi
        (send_gss_abort sys s', false)
        (λ c. gssapi_answer gss cfg sys (gss.accept_token c token) s')
        (λ h. n (sym (sent_abort-state s') ∙ h))
        (λ c. gssapi_answer-state (gss.accept_token c token) s' n)

  pub process_gssapi_auth-state :
      (s : Session C) → s.state ≢ request → (process_gssapi_auth gss cfg sys s).0.state ≢ request
  unfolding process_gssapi_auth
  process_gssapi_auth-state s n = gssapi_token-state (try_read_gss_frame msg_auth s.ingest) s n
