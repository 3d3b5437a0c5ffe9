-- ===== src/Tests/Fixtures.antt =====
-- A configuration, a system and a GSSAPI implementation to run sessions with.
use socks5proxy_native.Prelude.{ℕ, true, false, List, [], ◌∷◌, ◌++◌, none, some}
use socks5proxy_native.Net.{Family, inet}
use socks5proxy_native.Session.{Session, auth, new_session}
use socks5proxy_native.Session.Env.{Config, System, Gss, complete}
use socks5proxy_native.Dns.Response.Reply.{Resource}
use socks5proxy_native.Session.Negotiation.Admission.{auth_message}

abbrev pub open_config : Config
open_config = record {
  username = [];
  password = [];
  enable_gssapi = false;
  gssapi_max_protection = 3;
  idle_timeout_ms = 60000;
  connect_timeout_ms = 10000;
  buffer_size = 65536;
  output_family = inet;
  output_any = true;
}

-- With the user name "ab" and the password "c".
abbrev pub closed_config : Config
closed_config = record open_config { username = 97 ∷ 98 ∷ []; password = 99 ∷ [] }

-- A system that accepts every call; it reads one byte per part of an IPv4 address.
abbrev pub willing : System
willing = record {
  accepts = λ n. true;
  schedules = λ n. 1;
  creates = λ n. true;
  binds = λ n. true;
  associates = λ n. true;
  starts_relay = λ n. none;
  local_endpoint = λ n. record {
    family = inet;
    ip = 127 ∷ 0 ∷ 0 ∷ 1 ∷ [];
    port = 1080;
    flow_info = 0;
    scope_id = 0;
  };
  inet_pton = λ family text. none;
  inet_ntop = λ family ip. ip;
}

-- A GSSAPI that leaves its messages as they are.
abbrev pub plain_gss : Gss ℕ
plain_gss = record {
  fresh = 0;
  acquire = λ c. (c, true);
  accept_token = λ c token. (c, complete, []);
  wrap = λ c text secret. (c, some text);
  unwrap = λ c text. (c, some text);
  protection_level = λ c. 1;
  set_protection_level = λ c level. c;
  confidentiality_available = λ c. true;
}

abbrev pub greeting : List ℕ
greeting = 5 ∷ 1 ∷ 0 ∷ []

abbrev pub greeted : Session ℕ
greeted = record (new_session ℕ true) { ingest = greeting }

-- The message with the user name "ab" and the password "c", and one byte more.
abbrev pub logging_in : Session ℕ
logging_in = record (new_session ℕ true) {
  state = auth;
  ingest = auth_message (97 ∷ 98 ∷ []) (99 ∷ []) ++ (5 ∷ []);
}

-- `inet_ntop` that gives the bytes back.
abbrev pub plain_text : Family → List ℕ → List ℕ
plain_text family ip = ip

-- The name "ab.c".
abbrev pub ab_c : List ℕ
ab_c = 97 ∷ 98 ∷ 46 ∷ 99 ∷ []

abbrev pub one_address : Resource
one_address = record { type = 1; ttl = 60; rdata = 10 ∷ 0 ∷ 0 ∷ 1 ∷ [] }
