-- ===== src/Session/Negotiation/Admission.antt =====
-- server/protocol/Socks5Session.cpp: `ProcessAuthBuffer` on a whole message.
use socks5proxy_native.Prelude.{
  ℕ, ◌+◌, ◌≡◌, refl, ◌∙◌, sym, ◌↔◌, Bool, true, false, ◌&&◌, List, [], ◌∷◌, ◌++◌, leb, length, take,
  drop, get_or, length-append, drop-append, append_assoc, take_at, get_or_at, arith,
}
use socks5proxy_native.Socks.AuthProtocol.{auth_version, success, failure}
use socks5proxy_native.Session.{Session, request, client}
use socks5proxy_native.Session.Env.{Config, System, Gss}
use socks5proxy_native.Session.Streams.Frame.{queue_send_raw-SameTalk}
use socks5proxy_native.Session.Negotiation.{constant_time_equal, finish_auth, process_auth}
use socks5proxy_native.Session.Negotiation.Laws.{constant_time_equal_iff}

-- The message of RFC 1929.
unfoldable pub auth_message : List ℕ → List ℕ → List ℕ
auth_message username password =
    auth_version ∷ length username ∷ (username ++ (length password ∷ password))

message_length :
    (username password : List ℕ)
    → 2 + length username + 1 + length password ≡ length (auth_message username password)
unfolding auth_message
message_length username password =
    omega (arith, length-append username (length password ∷ password))

message_username :
    (username password rest : List ℕ)
    → take (length username) (drop 2 (auth_message username password ++ rest)) ≡ username
unfolding auth_message
message_username username password rest =
    rw (append_assoc username (length password ∷ password) rest) (
      take_at (auth_version ∷ length username ∷ []) username (length password ∷ (password ++ rest))
        2 (length username) refl refl)

message_plen :
    (username password rest : List ℕ)
    → get_or (auth_message username password ++ rest) (2 + length username) 0 ≡ length password
unfolding auth_message
message_plen username password rest = rw (append_assoc username (length password ∷ password) rest) (
    get_or_at (auth_version ∷ length username ∷ username) (length password) (password ++ rest)
      (2 + length username) 0 (omega arith))

message_password :
    (username password rest : List ℕ)
    → take (length password) (drop (3 + length username) (auth_message username password ++ rest))
      ≡ password
unfolding auth_message
message_password username password rest =
    rw
      (
        append_assoc username (length password ∷ password) rest,
        ← append_assoc username (length password ∷ []) (password ++ rest),
      )
      (take_at (auth_version ∷ length username ∷ (username ++ (length password ∷ []))) password rest
        (3 + length username) (length password)
        (omega (arith, length-append username (length password ∷ []))) refl)

message_rest :
    (username password rest : List ℕ)
    → drop (2 + length username + 1 + length password) (auth_message username password ++ rest)
      ≡ rest
unfolding auth_message
message_rest username password rest =
    drop-append (auth_message username password) rest (2 + length username + 1 + length password)
      (message_length username password)

-- What `finish_auth` makes of the comparison.
finish_auth-result :
    {C : Type 0} (gss : Gss C) (cfg : Config) (sys : System) (matches : Bool) (s : Session C)
    → ((finish_auth gss cfg sys matches s).1 ≡ matches)
      × (matches ≡ true → (finish_auth gss cfg sys matches s).0.state ≡ request)
      × ((finish_auth gss cfg sys matches s).0.ingest ≡ s.ingest)
unfolding finish_auth
finish_auth-result gss cfg sys true s =
    (refl, (λ e. refl), (queue_send_raw-SameTalk sys client (auth_version ∷ success ∷ []) s).ingest)
finish_auth-result gss cfg sys false s = (
  refl,
  (λ e. absurd (ground (arith, e))),
  (queue_send_raw-SameTalk sys client (auth_version ∷ failure ∷ []) s).ingest,
)

pub matches_iff :
    (cfg : Config) (username password : List ℕ)
    → ((constant_time_equal username cfg.username && constant_time_equal password cfg.password)
        ≡ true)
      ↔ ((username ≡ cfg.username) × (password ≡ cfg.password))
matches_iff cfg username password =
    let (u, u') = constant_time_equal_iff username cfg.username in
    let (p, p') = constant_time_equal_iff password cfg.password in
    ((λ e. (u (ground (arith, e)), p (ground (arith, e)))), (λ (a, b). rw (u' a, p' b) refl))

module _ {C : Type 0} (gss : Gss C) (cfg : Config) (sys : System) where
  process_auth-whole :
      (username password rest : List ℕ) (s : Session C)
      → s.ingest ≡ auth_message username password ++ rest
      → process_auth gss cfg sys s
        ≡ finish_auth gss cfg sys
            (constant_time_equal username cfg.username && constant_time_equal password cfg.password)
            (record s { ingest = rest })
  unfolding process_auth auth_message
  process_auth-whole username password rest s h =
      let l : length s.ingest ≡ 2 + length username + 1 + length password + length rest = rw h (
        omega (
          arith,
          message_length username password,
          length-append (auth_message username password) rest,
        )) in
      let ulen : get_or s.ingest 1 0 ≡ length username = rw h refl in
      let ver : get_or s.ingest 0 0 ≡ auth_version = rw h refl in
      let plen : get_or s.ingest (2 + length username) 0 ≡ length password =
        rw h (message_plen username password rest) in
      let user : take (length username) (drop 2 s.ingest) ≡ username =
        rw h (message_username username password rest) in
      let pass : take (length password) (drop (3 + length username) s.ingest) ≡ password =
        rw h (message_password username password rest) in
      let behind : drop (2 + length username + 1 + length password) s.ingest ≡ rest =
        rw h (message_rest username password rest) in
      let t₁ : leb 2 (length s.ingest) ≡ true = ground (arith, l) in
      let t₃ : leb (2 + length username + 1) (length s.ingest) ≡ true = ground (arith, l) in
      let t₄ : leb (2 + length username + 1 + length password) (length s.ingest) ≡ true =
        ground (arith, l) in
      rw (ulen, ver, t₁, t₃, plen, t₄, user, pass, behind) refl

  -- On input that begins with a whole message of user name and password: exactly the message is taken; the
  -- step succeeds iff both texts are the configured ones, and then the session is in the request state.
  pub process_auth-auth_message :
      (username password rest : List ℕ) (s : Session C)
      → s.ingest ≡ auth_message username password ++ rest
      → (((process_auth gss cfg sys s).1 ≡ true)
          ↔ ((username ≡ cfg.username) × (password ≡ cfg.password)))
        × ((process_auth gss cfg sys s).1 ≡ true → (process_auth gss cfg sys s).0.state ≡ request)
        × ((process_auth gss cfg sys s).0.ingest ≡ rest)
  unfolding process_auth
  process_auth-auth_message username password rest s h =
      rw (process_auth-whole username password rest s h) (
        let (e, k, l) = finish_auth-result gss cfg sys _ (record s { ingest = rest }) in
        (rw e (matches_iff cfg username password), (λ t. k (sym e ∙ t)), l))
