-- ===== src/Session/Negotiation/Progress.antt =====
-- server/protocol/Socks5Session.cpp: how a step of the negotiation moves on.
use socks5proxy_native.Prelude.{
  ℕ, ◌+◌, ◌*◌, ◌<◌, ◌≤◌, ◌≡◌, refl, ◌⊎◌, inl, inr, Bool, true, false, not, ◌||◌, List, [], ◌∷◌,
  length, drop, if◌then◌else◌, length-drop, get_or, ◌==◌, take, ltb, Option, none, some, leb, arith,
}
use socks5proxy_native.Socks.{version}
use socks5proxy_native.Socks.AuthProtocol.{auth_version, success}
use socks5proxy_native.Socks.Gssapi.{msg_auth, msg_protection, protect_integrity, protect_selective}
use socks5proxy_native.Session.{Session, client}
use socks5proxy_native.Session.Env.{Config, System, Gss, AcceptStatus, continue, complete, failed}
use socks5proxy_native.Session.Streams.{queue_send_raw}
use socks5proxy_native.Session.Streams.Frame.{queue_send_raw-SameTalk}
use socks5proxy_native.Session.Replies.{
  FrameResult, need_more, protocol_error, frame, gss_frame, try_read_gss_frame, send_gss_frame,
}
use socks5proxy_native.Session.Negotiation.{
  start_gssapi, select_method, enter_method, process_handshake, finish_auth, process_auth,
  process_gssapi_auth, process_gssapi_protect, gssapi_answer, gssapi_token, agreed_level,
  protect_reply, protect_level, protect_token,
}

pub data Progress {C : Type 0} (s : Session C) (r : Session C × Bool) : Type 0 where
  ends : r.1 ≡ false → Progress s r
  waits : r.0 ≡ s → Progress s r
  takes : length r.0.ingest < length s.ingest → Progress s r

-- A guard of a step: it ends the session or waits.
Progress-if :
    {C : Type 0} (s : Session C) (stays b : Bool) (y : Session C × Bool)
    → (b ≡ false → Progress s y)
    → Progress s (if b then (s, stays) else y)
Progress-if s true true y k = waits refl
Progress-if s false true y k = ends refl
Progress-if s stays false y k = k refl

Ends-if :
    {C : Type 0} (s t : Session C) (b : Bool) (y : Session C × Bool)
    → Progress s y
    → Progress s (if b then (t, false) else y)
Ends-if s t true y h = ends refl
Ends-if s t false y h = h

Progress-option :
    {C : Type 0} {A : Type 0} (s : Session C) (o : Option A) (x : Session C × Bool)
    (f : A → Session C × Bool)
    → Progress s x
    → ((a : A) → Progress s (f a))
    → Progress s (elim o [ none ↦ x | some a ↦ f a ])
Progress-option s none x f h k = h
Progress-option s (some a) x f h k = k a

-- Sending leaves the input alone.
sent-ingest :
    {C : Type 0} (sys : System) (chunk : List ℕ) (s : Session C)
    → (queue_send_raw sys client chunk s).ingest ≡ s.ingest
sent-ingest sys chunk s = (queue_send_raw-SameTalk sys client chunk s).ingest

sent_frame-ingest :
    {C : Type 0} (sys : System) (mtyp : ℕ) (token : List ℕ) (s : Session C)
    → (send_gss_frame sys mtyp token s).ingest ≡ s.ingest
unfolding send_gss_frame
sent_frame-ingest sys mtyp token s = sent-ingest sys (gss_frame mtyp token) s

-- From a session with less input, a step that leaves the input alone.
answer_takes :
    {C : Type 0} (s s' : Session C) (r : Session C × Bool)
    → (r.1 ≡ false) ⊎ (r.0.ingest ≡ s'.ingest)
    → length s'.ingest < length s.ingest
    → Progress s r
answer_takes s s' r (inl e) h = ends e
answer_takes s s' r (inr e) h = takes (rw e h)

-- What is left behind a frame is shorter.
pub frame_shorter :
    (mtyp : ℕ) (ingest token rest : List ℕ)
    → try_read_gss_frame mtyp ingest ≡ frame token rest
    → length rest < length ingest
unfolding try_read_gss_frame
frame_shorter mtyp ingest token rest e =
    ground (arith, length-drop (4 + (get_or ingest 2 0 * 256 + get_or ingest 3 0)) ingest)

module _ {C : Type 0} (gss : Gss C) (cfg : Config) (sys : System) where
  enter_method-ingest :
      (selected : ℕ) (s : Session C)
      → ((enter_method gss cfg sys selected s).1 ≡ false)
        ⊎ ((enter_method gss cfg sys selected s).0.ingest ≡ s.ingest)
  unfolding enter_method start_gssapi
  enter_method-ingest selected s = ground arith

  -- Answering after `need` bytes were taken.
  handshake_answer :
      (s : Session C) (need selected : ℕ) (chunk : List ℕ)
      → 0 < need
      → need ≤ length s.ingest
      → Progress s (
          enter_method gss cfg sys selected
            (queue_send_raw sys client chunk (record s { ingest = drop need s.ingest })))
  handshake_answer s need selected chunk h l =
      let s' = queue_send_raw sys client chunk (record s { ingest = drop need s.ingest }) in
      answer_takes s s' (enter_method gss cfg sys selected s') (enter_method-ingest selected s') (
        ground (
          arith,
          sent-ingest sys chunk (record s { ingest = drop need s.ingest }),
          length-drop need s.ingest,
        ))

  pub process_handshake-Progress : (s : Session C) → Progress s (process_handshake gss cfg sys s)
  unfolding process_handshake
  process_handshake-Progress s =
      let method_count = get_or s.ingest 1 0 in
      Progress-if s true (not (leb 2 (length s.ingest))) _ (λ h₁.
        Progress-if s false (not (get_or s.ingest 0 0 == version)) _ (λ h₂.
          Progress-if s false (method_count == 0) _ (λ h₃.
            Progress-if s true (not (leb (2 + method_count) (length s.ingest))) _ (λ h₄.
              handshake_answer s (2 + method_count)
                (select_method cfg (take method_count (drop 2 s.ingest))) _ (omega arith)
                (ground (arith, h₄))))))

  finish_auth_takes :
      (matches : Bool) (s : Session C) (need : ℕ)
      → 0 < need
      → need ≤ length s.ingest
      → Progress s (finish_auth gss cfg sys matches (record s { ingest = drop need s.ingest }))
  unfolding finish_auth
  finish_auth_takes false s need h l = ends refl
  finish_auth_takes true s need h l =
      let s' = record s { ingest = drop need s.ingest } in
      takes (
        ground (arith, sent-ingest sys (auth_version ∷ success ∷ []) s', length-drop need s.ingest))

  pub process_auth-Progress : (s : Session C) → Progress s (process_auth gss cfg sys s)
  unfolding process_auth
  process_auth-Progress s =
      let ulen = get_or s.ingest 1 0 in
      let plen = get_or s.ingest (2 + ulen) 0 in
      Progress-if s true (not (leb 2 (length s.ingest))) _ (λ h₁.
        Progress-if s false (not (get_or s.ingest 0 0 == auth_version)) _ (λ h₂.
          Progress-if s true (not (leb (2 + ulen + 1) (length s.ingest))) _ (λ h₃.
            Progress-if s true (not (leb (2 + ulen + 1 + plen) (length s.ingest))) _ (λ h₄.
              finish_auth_takes _ s (2 + ulen + 1 + plen) (omega arith) (ground (arith, h₄))))))

  gssapi_answer_takes :
      (a : C × AcceptStatus × List ℕ) (s : Session C) (rest : List ℕ)
      → length rest < length s.ingest
      → Progress s (gssapi_answer gss cfg sys a (record s { ingest = rest }))
  unfolding gssapi_answer
  gssapi_answer_takes (c, failed, token) s rest h = ends refl
  gssapi_answer_takes (c, continue, token) s rest h =
      let s' = record s { ingest = rest; gssapi = some c } in
      Ends-if s _ (ltb 65535 (length token)) _
        (takes (rw (sent_frame-ingest sys msg_auth token s') h))
  gssapi_answer_takes (c, complete, token) s rest h =
      let s' = record s { ingest = rest; gssapi = some c } in
      Ends-if s _ (ltb 65535 (length token)) _
        (takes (rw (sent_frame-ingest sys msg_auth token s') h))

  gssapi_token_takes :
      (f : FrameResult) (s : Session C)
      → ((token rest : List ℕ) → f ≡ frame token rest → length rest < length s.ingest)
      → Progress s (gssapi_token gss cfg sys f s)
  unfolding gssapi_token
  gssapi_token_takes need_more s h = waits refl
  gssapi_token_takes (protocol_error rest) s h = ends refl
  gssapi_token_takes (frame token rest) s h =
      Progress-option s s.gssapi _ _ (ends refl)
        (λ c. gssapi_answer_takes (gss.accept_token c token) s rest (h token rest refl))

  pub process_gssapi_auth-Progress :
      (s : Session C) → Progress s (process_gssapi_auth gss cfg sys s)
  unfolding process_gssapi_auth
  process_gssapi_auth-Progress s =
      gssapi_token_takes (try_read_gss_frame msg_auth s.ingest) s (frame_shorter msg_auth s.ingest)

  protect_reply_takes :
      (a : C × Option (List ℕ)) (s s' : Session C)
      → length s'.ingest < length s.ingest
      → Progress s (protect_reply gss cfg sys a s')
  unfolding protect_reply
  protect_reply_takes (c, none) s s' h = ends refl
  protect_reply_takes (c, some wrapped) s s' h =
      Ends-if s _ (ltb 65535 (length wrapped)) _ (
        takes (rw (sent_frame-ingest sys msg_protection wrapped (record s' { gssapi = some c })) h))

  protect_level_takes :
      (a : C × Option (List ℕ)) (s : Session C) (rest : List ℕ)
      → length rest < length s.ingest
      → Progress s (protect_level gss cfg sys a (record s { ingest = rest }))
  unfolding protect_level
  protect_level_takes (c, none) s rest h = ends refl
  protect_level_takes (c, some []) s rest h = ends refl
  protect_level_takes (c, some (level ∷ clear)) s rest h =
      let selected = agreed_level gss cfg sys c level in
      let c' = gss.set_protection_level c selected in
      Ends-if s _ (ltb level protect_integrity || ltb protect_selective level) _ (
        protect_reply_takes (gss.wrap c' (selected ∷ []) false) s
          (record s { ingest = rest; gssapi = some c' }) h)

  protect_token_takes :
      (f : FrameResult) (s : Session C)
      → ((token rest : List ℕ) → f ≡ frame token rest → length rest < length s.ingest)
      → Progress s (protect_token gss cfg sys f s)
  unfolding protect_token
  protect_token_takes need_more s h = waits refl
  protect_token_takes (protocol_error rest) s h = ends refl
  protect_token_takes (frame token rest) s h =
      Progress-option s s.gssapi _ _ (ends refl)
        (λ c. protect_level_takes (gss.unwrap c token) s rest (h token rest refl))

  pub process_gssapi_protect-Progress :
      (s : Session C) → Progress s (process_gssapi_protect gss cfg sys s)
  unfolding process_gssapi_protect
  process_gssapi_protect-Progress s =
      protect_token_takes (try_read_gss_frame msg_protection s.ingest) s
        (frame_shorter msg_protection s.ingest)
