-- ===== src/Session.antt =====
-- server/protocol/Socks5Session.h: the state of one client connection. Sockets are represented by
-- whether they are open, since a session has one to the client and one to the destination.
pub mod Env
pub mod Timers
pub mod Streams
pub mod Replies
pub mod Negotiation
pub mod Request
pub mod Relay
pub mod Receive
pub mod Handlers
use socks5proxy_native.Prelude.{ℕ, Bool, true, false, List, [], Option, none, ◌&&◌, ◌||◌, not}
use socks5proxy_native.Net.{Endpoint}

pub data SessionState : Type 0 where
  handshake auth gssapi_auth gssapi_protect request : SessionState
  resolving connecting relaying udp_associate closing : SessionState

pub data StreamTag : Type 0 where
  client dest : StreamTag

-- The overlapped contexts are represented by the flags that say whether they are in use.
pub record StreamIo : Type 0 where
  pub send_queue : List (List ℕ)
  pub send_front_offset : ℕ
  pub sending : Bool
  pub reading : Bool
  pub peer_closed : Bool
  pub relay_read_paused : Bool

-- Calls that leave the session: to the completion port, the resolver, the sockets, the server. The call
-- `relay_awaited` is `WaitPendingZero` of the relay, which blocks until its operations have ended.
pub data Event : Type 0 where
  post_recv : StreamTag → Event
  post_send : StreamTag → List ℕ → Event
  post_connect : Endpoint → Event
  shutdown_send : StreamTag → Event
  resolve : List ℕ → Event
  relay_started : Event
  relay_stopped : Event
  relay_awaited : Event
  session_closed : Bool → Event

-- `C` is the type of a GSSAPI context. `posts` counts the calls whose answer is up to the system, and
-- `events` lists the calls made, the latest first.
pub record Session (C : Type 0) : Type 0 where
  pub state : SessionState
  pub closed : Bool
  pub close_after_flush : Bool
  pub client_open : Bool
  pub dest_open : Bool
  pub client_io : StreamIo
  pub dest_io : StreamIo
  pub ingest : List ℕ
  pub pending_host : List ℕ
  pub pending_port : ℕ
  pub dns_result : Option (List ℕ)
  pub connect_timer_id : ℕ
  pub idle_timer_id : ℕ
  pub connect_timer_generation : ℕ
  pub idle_timer_generation : ℕ
  pub udp_relay : Bool
  pub slot_held : Bool
  pub gssapi : Option C
  pub gss_protect_active : Bool
  pub gss_request_unwrapped : Bool
  pub posts : ℕ
  pub events : List Event

-- `state_ == Handshake || Auth || GssapiAuth || GssapiProtect || Request`.
unfoldable pub reads_protocol : SessionState → Bool
reads_protocol handshake = true
reads_protocol auth = true
reads_protocol gssapi_auth = true
reads_protocol gssapi_protect = true
reads_protocol request = true
reads_protocol _ = false

-- `state_ == Relaying || UdpAssociate || Resolving || Connecting`.
unfoldable pub past_request : SessionState → Bool
past_request resolving = true
past_request connecting = true
past_request relaying = true
past_request udp_associate = true
past_request _ = false

abbrev pub is_relaying : SessionState → Bool
is_relaying relaying = true
is_relaying _ = false

abbrev pub is_connecting : SessionState → Bool
is_connecting connecting = true
is_connecting _ = false

abbrev pub is_resolving : SessionState → Bool
is_resolving resolving = true
is_resolving _ = false

abbrev pub is_closing : SessionState → Bool
is_closing closing = true
is_closing _ = false

abbrev pub is_udp_associate : SessionState → Bool
is_udp_associate udp_associate = true
is_udp_associate _ = false

abbrev pub idle_io : StreamIo
idle_io = record {
  send_queue = [];
  send_front_offset = 0;
  sending = false;
  reading = false;
  peer_closed = false;
  relay_read_paused = false;
}

-- The constructor, for a client that was accepted.
unfoldable pub new_session : (C : Type 0) → Bool → Session C
new_session C slot_held = record {
  state = handshake;
  closed = false;
  close_after_flush = false;
  client_open = true;
  dest_open = false;
  client_io = idle_io;
  dest_io = idle_io;
  ingest = [];
  pending_host = [];
  pending_port = 0;
  dns_result = none;
  connect_timer_id = 0;
  idle_timer_id = 0;
  connect_timer_generation = 0;
  idle_timer_generation = 0;
  udp_relay = false;
  slot_held = slot_held;
  gssapi = none;
  gss_protect_active = false;
  gss_request_unwrapped = false;
  posts = 0;
  events = [];
}
