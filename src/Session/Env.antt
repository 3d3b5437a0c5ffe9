-- ===== src/Session/Env.antt =====
-- What a session takes from outside: the configuration, the answers of the system, and GSSAPI.
use socks5proxy_native.Prelude.{ℕ, Bool, List, Option}
use socks5proxy_native.Net.{Family, Endpoint}

-- config/NetworkConfiguration.h, the members that a session reads. An `int` of zero or less is 0.
pub record Config : Type 0 where
  pub username : List ℕ
  pub password : List ℕ
  pub enable_gssapi : Bool
  pub gssapi_max_protection : ℕ
  pub idle_timeout_ms : ℕ
  pub connect_timeout_ms : ℕ
  pub buffer_size : ℕ
  pub output_family : Family
  pub output_any : Bool

-- The answers of Windows and of the collaborators. The argument of the first fields is the number of
-- such calls that the session has made, so that equal calls may be answered differently.
pub record System : Type 0 where
  -- Does the completion port accept the operation?
  pub accepts : ℕ → Bool
  -- `ScheduleTimeout`: the timer's id, 0 on failure.
  pub schedules : ℕ → ℕ
  -- `CreateTcpSocket`, `FillOutputBindAddress` with `bind`, and `Associate` on the new socket.
  pub creates : ℕ → Bool
  pub binds : ℕ → Bool
  pub associates : ℕ → Bool
  -- `UdpRelay::Start`, with the advertised endpoint.
  pub starts_relay : ℕ → Option Endpoint
  -- `getsockname` on the destination socket.
  pub local_endpoint : ℕ → Endpoint
  -- The conversions between the bytes of an address and its text.
  pub inet_pton : Family → List ℕ → Option (List ℕ)
  pub inet_ntop : Family → List ℕ → List ℕ

pub data AcceptStatus : Type 0 where
  continue complete failed : AcceptStatus

-- server/protocol/GssapiContext.h: a context, which each call may change.
pub record Gss (C : Type 0) : Type 0 where
  pub fresh : C
  pub acquire : C → C × Bool
  pub accept_token : C → List ℕ → C × AcceptStatus × List ℕ
  pub wrap : C → List ℕ → Bool → C × Option (List ℕ)
  pub unwrap : C → List ℕ → C × Option (List ℕ)
  pub protection_level : C → ℕ
  pub set_protection_level : C → ℕ → C
  pub confidentiality_available : C → Bool
