-- ===== src/Server.antt =====
-- server/ProxyServer.h and server/ProxyServer.cpp: the sessions of the server and its connection slots.
-- Sessions are named by numbers, as their client sockets are. A semaphore is the number of its free slots.
pub mod Slots
use socks5proxy_native.Prelude.{
  ℕ, zero, suc, ◌+◌, Bool, true, false, not, ◌&&◌, ◌||◌, List, [], ◌∷◌, ◌++◌, Option, none, some,
  ◌==◌, if◌then◌else◌,
}

-- Calls that leave the server.
pub data Event : Type 0 where
  close_client : ℕ → Event
  close_session : ℕ → Event

pub record ProxyServer : Type 0 where
  pub stopping : Bool
  pub connection_slots : Option ℕ
  pub sessions : List ℕ
  pub events : List Event

-- After the checks of `Start`; a limit of 0 connections is none.
unfoldable pub new_server : ℕ → ProxyServer
new_server max_connections = record {
  stopping = false;
  connection_slots = elim max_connections [ zero ↦ none | suc k ↦ some (suc k) ];
  sessions = [];
  events = [];
}

-- `release` of the semaphore, if there is one.
abbrev pub release : Option ℕ → Option ℕ
release none = none
release (some k) = some (k + 1)

unfoldable pub remove : ℕ → List ℕ → List ℕ
remove session [] = []
remove session (s ∷ sessions) =
    let rest = remove session sessions in if s == session then rest else s ∷ rest

unfoldable pub on_session_closed : ℕ → Bool → ProxyServer → ProxyServer
unfolding remove
on_session_closed session release_slot server =
    let erased = record server { sessions = remove session server.sessions } in
    if release_slot
    then record erased { connection_slots = release erased.connection_slots }
    else erased

-- What becomes of a new session: its constructor throws, its `Start` throws, or `Start` returns.
pub data Creation : Type 0 where
  constructor_throws start_throws : Creation
  started : Bool → Creation

unfoldable pub retain_session : ℕ → ProxyServer → ProxyServer
retain_session session server = record server { sessions = session ∷ server.sessions }

-- The exception handler.
abbrev caught : ℕ → Bool → ProxyServer → ProxyServer
caught client slot_held server = record server {
  connection_slots = if slot_held then release server.connection_slots else server.connection_slots;
  events = close_client client ∷ server.events;
}

-- From the constructor of the session on. A session that does not start closes itself, and tells the
-- server so.
unfoldable pub open_session : ℕ → Bool → Creation → ProxyServer → ProxyServer
unfolding on_session_closed retain_session
open_session client slot_held constructor_throws server = caught client slot_held server
open_session client slot_held start_throws server =
    caught client slot_held (retain_session client server)
open_session client slot_held (started true) server = retain_session client server
open_session client slot_held (started false) server =
    on_session_closed client slot_held
      (record (retain_session client server) { events = close_session client ∷ server.events })

abbrev refused : ℕ → ProxyServer → ProxyServer
refused client server = record server { events = close_client client ∷ server.events }

-- With a slot, where slots are counted.
unfoldable pub take_slot : ℕ → Creation → Option ℕ → ProxyServer → ProxyServer
unfolding open_session
take_slot client creation none server = open_session client false creation server
take_slot client creation (some zero) server = refused client server
take_slot client creation (some (suc k)) server =
    open_session client true creation (record server { connection_slots = some k })

-- `none` stands for `INVALID_SOCKET`.
unfoldable pub on_accept : Option ℕ → Creation → ProxyServer → ProxyServer
unfolding take_slot
on_accept none creation server = server
on_accept (some client) creation server =
    if server.stopping
    then refused client server
    else take_slot client creation server.connection_slots server

-- `Close` of each session of a snapshot.
abbrev close_all : List ℕ → List Event → List Event
close_all [] events = events
close_all (session ∷ sessions) events = close_all sessions (close_session session ∷ events)

-- `Stop` up to the wait for the sessions. Each of these tells the server when it has closed.
unfoldable pub stop : ProxyServer → ProxyServer
stop server =
    if server.stopping
    then server
    else record server { stopping = true; events = close_all server.sessions server.events }

-- `Stop` when sessions are left after the wait.
unfoldable pub give_up : ProxyServer → ProxyServer
give_up server = record server { sessions = []; events = close_all server.sessions server.events }
