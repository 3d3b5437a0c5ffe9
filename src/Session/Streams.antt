-- ===== src/Session/Streams.antt =====
-- server/protocol/Socks5Session.cpp: the send queues of the two streams, the reads of the relay, and
-- their back pressure.
pub mod Laws
pub mod Frame
pub mod Pressure
use socks5proxy_native.Prelude.{
  ℕ, suc, ◌+◌, ◌<◌, Bool, true, false, not, ◌&&◌, ◌||◌, List, [], ◌∷◌, ◌++◌, ◌==◌, leb,
  if◌then◌else◌, length, drop,
}
use socks5proxy_native.Session.{
  Session, SessionState, StreamIo, StreamTag, client, dest, Event, post_recv, post_send,
  shutdown_send, is_relaying,
}
use socks5proxy_native.Session.Env.{System}
use socks5proxy_native.Session.Timers.{close}

abbrev pub max_relay_queue_depth : ℕ
max_relay_queue_depth = 32

abbrev pub other : StreamTag → StreamTag
other client = dest
other dest = client

abbrev pub is_empty {ℓ} : {A : Type ℓ} → List A → Bool
is_empty [] = true
is_empty (x ∷ xs) = false

-- What happens to the front buffer when `bytes` of it have been sent.
unfoldable pub advance : ℕ → StreamIo → StreamIo
advance bytes io = elim io.send_queue [
  | [] ↦ io
  | front ∷ rest ↦
      if leb (length front) (io.send_front_offset + bytes)
      then record io { send_queue = rest; send_front_offset = 0 }
      else record io { send_front_offset = io.send_front_offset + bytes }
]

-- `sendQueue.push_back`.
abbrev pub push_back : List ℕ → StreamIo → StreamIo
push_back chunk io = record io { send_queue = io.send_queue ++ (chunk ∷ []) }

-- The bytes that `PumpSend` hands over: the front buffer from the offset on.
unfoldable pub front_bytes : StreamIo → List ℕ
front_bytes io = elim io.send_queue [ [] ↦ [] | front ∷ rest ↦ drop io.send_front_offset front ]

module _ {C : Type 0} where
  abbrev pub io_of : StreamTag → Session C → StreamIo
  io_of client s = s.client_io
  io_of dest s = s.dest_io

  abbrev pub set_io : StreamTag → StreamIo → Session C → Session C
  set_io client io s = record s { client_io = io }
  set_io dest io s = record s { dest_io = io }

  abbrev pub socket_open : StreamTag → Session C → Bool
  socket_open client s = s.client_open
  socket_open dest s = s.dest_open

  abbrev pub called : Event → Session C → Session C
  called e s = record s { posts = s.posts + 1; events = e ∷ s.events }

module _ {C : Type 0} (sys : System) where
  unfoldable pub pump_send : StreamTag → Session C → Session C
  unfolding front_bytes
  pump_send tag s =
      let io = io_of tag s in
      if not (socket_open tag s)
      then s
      else if io.sending || is_empty io.send_queue
      then s
      else if sys.accepts s.posts
      then called (post_send tag (front_bytes io)) (set_io tag (record io { sending = true }) s)
      else close
          (called (post_send tag (front_bytes io)) (set_io tag (record io { sending = false }) s))

  -- `QueueClientSendRaw` and `QueueDestSend`.
  unfoldable pub queue_send_raw : StreamTag → List ℕ → Session C → Session C
  queue_send_raw tag chunk s = pump_send tag (set_io tag (push_back chunk (io_of tag s)) s)

  -- `PostRecv` with its flag; a refused read closes the session.
  unfoldable pub post_read : StreamTag → Session C → Session C × Bool
  post_read tag s =
      if sys.accepts s.posts
      then (called (post_recv tag) (set_io tag (record (io_of tag s) { reading = true }) s), true)
      else (
        close (called (post_recv tag) (set_io tag (record (io_of tag s) { reading = false }) s)),
        false,
      )

  unfoldable pub begin_client_read : Session C → Session C × Bool
  unfolding post_read
  begin_client_read s = if s.closed || s.client_io.reading then (s, false) else post_read client s

  unfoldable pub try_post_relay_read : StreamTag → Session C → Session C × Bool
  unfolding post_read
  try_post_relay_read receiver s =
      let recv_io = io_of receiver s in
      let send_io = io_of (other receiver) s in
      if not (is_relaying s.state) || s.closed
      then (s, false)
      else if recv_io.reading
          || recv_io.peer_closed
          || recv_io.relay_read_paused
          || not (socket_open receiver s)
      then (s, false)
      else if leb max_relay_queue_depth (length send_io.send_queue)
      then (set_io receiver (record recv_io { relay_read_paused = true }) s, false)
      else post_read receiver s

  unfoldable pub maybe_resume_relay_read : StreamTag → Session C → Session C
  unfolding try_post_relay_read
  maybe_resume_relay_read receiver s =
      let recv_io = io_of receiver s in
      let send_io = io_of (other receiver) s in
      if not (is_relaying s.state) || s.closed
      then s
      else if not recv_io.relay_read_paused
      then s
      else if leb max_relay_queue_depth (length send_io.send_queue)
      then s
      else (try_post_relay_read receiver
          (set_io receiver (record recv_io { relay_read_paused = false }) s)).0

  -- The part of `OnClientSend` and `OnDestSend` up to `PumpSend`.
  unfoldable pub after_send : StreamTag → ℕ → Session C → Session C
  unfolding advance pump_send
  after_send tag bytes s =
      pump_send tag (set_io tag (advance bytes (record (io_of tag s) { sending = false })) s)

  abbrev failed_send : StreamTag → Session C → Session C
  failed_send tag s = close (set_io tag (record (io_of tag s) { sending = false }) s)

  unfoldable pub on_client_send : ℕ → ℕ → Session C → Session C
  unfolding after_send maybe_resume_relay_read
  on_client_send bytes error s₀ =
      if not (error == 0)
      then failed_send client s₀
      else let s = after_send client bytes s₀ in
        if s.close_after_flush && (is_empty s.client_io.send_queue && not s.client_io.sending)
        then close s
        else maybe_resume_relay_read dest s

  unfoldable pub on_dest_send : ℕ → ℕ → Session C → Session C
  unfolding after_send maybe_resume_relay_read
  on_dest_send bytes error s₀ =
      if not (error == 0)
      then failed_send dest s₀
      else maybe_resume_relay_read client (after_send dest bytes s₀)
