-- ===== src/Session/Relay.antt =====
-- server/protocol/Socks5Session.cpp: forwarding data once the destination is connected.
pub mod Laws
use socks5proxy_native.Prelude.{
  ℕ, zero, suc, ◌+◌, ◌*◌, ◌-◌, Bool, true, false, not, ◌&&◌, ◌||◌, List, [], ◌∷◌, ◌++◌, ◌==◌, leb,
  ltb, if◌then◌else◌, length, take, drop, Option, none, some,
}
use socks5proxy_native.Socks.Gssapi.{msg_encapsulated}
use socks5proxy_native.Session.{
  Session, SessionState, relaying, StreamTag, client, dest, shutdown_send, is_relaying,
}
use socks5proxy_native.Session.Env.{System, Gss}
use socks5proxy_native.Session.Timers.{close, cancel_idle_timer}
use socks5proxy_native.Session.Streams.{
  queue_send_raw, is_empty, try_post_relay_read, begin_client_read, post_read, io_of, set_io,
  socket_open, called, other,
}
use socks5proxy_native.Session.Replies.{
  FrameResult, need_more, protocol_error, frame, try_read_gss_frame, wrap_and_queue_client,
}

abbrev pub max_protocol_buffered : ℕ
max_protocol_buffered = 1048576

-- `kGssRelayChunk`; shut, so that nothing counts it down.
pub gss_relay_chunk : ℕ
gss_relay_chunk = 16384

-- `a > kMaxProtocolBuffered || size > kMaxProtocolBuffered - a`.
abbrev pub over_limit : ℕ → ℕ → Bool
over_limit size more = ltb max_protocol_buffered more || ltb (max_protocol_buffered - more) size

module _ {C : Type 0} (gss : Gss C) (sys : System) where
  -- One frame of the client: its clear text goes to the destination.
  relay_clear : C × Option (List ℕ) → Session C → Session C × Bool
  relay_clear (c, none) s = (record s { gssapi = some c }, false)
  relay_clear (c, some clear) s =
      if is_empty clear
      then (record s { gssapi = some c }, true)
      else (queue_send_raw sys dest clear (record s { gssapi = some c }), true)

  pub relay_frame : List ℕ → Session C → Session C × Bool
  unfolding relay_clear
  relay_frame token s = elim s.gssapi [
    | none ↦ (s, false)
    | some c ↦ relay_clear (gss.unwrap c token) s
  ]

  -- Each round takes the bytes of one frame from `ingest`.
  gss_relay_loop : ℕ → Session C → Option (Session C × Bool)
  gss_relay_loop zero s = none
  gss_relay_loop (suc fuel) s =
      if is_empty s.ingest
      then some (s, true)
      else elim (try_read_gss_frame msg_encapsulated s.ingest) [
        | need_more ↦ some (s, true)
        | protocol_error rest ↦ some (record s { ingest = rest }, false)
        | frame token rest ↦
            (let after = relay_frame token (record s { ingest = rest }) in
              let more = gss_relay_loop fuel after.0 in if after.1 then more else some after)
      ]

  unfoldable pub process_gss_relay_input : Session C → Option (Session C × Bool)
  unfolding gss_relay_loop
  process_gss_relay_input s = gss_relay_loop (suc (length s.ingest)) s

  -- The loop over the parts of a chunk from the destination; each part has a byte at least.
  wrap_loop : ℕ → List ℕ → Session C → Option (Session C × Bool)
  wrap_loop zero chunk s = none
  wrap_loop (suc fuel) chunk s =
      let wrapped = wrap_and_queue_client gss sys (take gss_relay_chunk chunk) s in
      let more = wrap_loop fuel (drop gss_relay_chunk chunk) wrapped.0 in
      if is_empty chunk then some (s, true) else if wrapped.1 then more else some wrapped

  unfoldable pub wrap_chunks : List ℕ → Session C → Option (Session C × Bool)
  unfolding wrap_loop
  wrap_chunks chunk s = wrap_loop (suc (length chunk)) chunk s

  -- What follows forwarding: the session is closed, or the next read is posted.
  read_on : StreamTag → Option (Session C × Bool) → Option (Session C)
  read_on tag none = none
  read_on tag (some (s, false)) = some (close s)
  read_on tag (some (s, true)) = some (try_post_relay_read sys tag s).0

  -- `chunk` holds the bytes that were received.
  unfoldable pub on_relay_data : StreamTag → List ℕ → Session C → Option (Session C)
  unfolding process_gss_relay_input wrap_chunks read_on
  on_relay_data client chunk s =
      if s.gss_protect_active
      then (if over_limit (length s.ingest) (length chunk)
          then some (close s)
          else read_on client (process_gss_relay_input (record s { ingest = s.ingest ++ chunk })))
      else read_on client (some (queue_send_raw sys dest chunk s, true))
  on_relay_data dest chunk s =
      if s.gss_protect_active
      then read_on dest (wrap_chunks chunk s)
      else read_on dest (some (queue_send_raw sys client chunk s, true))

  -- The reads that begin the relay.
  start_reads : Session C → Session C
  start_reads s₀ =
      let s = if s₀.client_io.reading then s₀ else (begin_client_read sys s₀).0 in
      (post_read sys dest s).0

  begin_relay : Option (Session C × Bool) → Option (Session C)
  unfolding start_reads
  begin_relay none = none
  begin_relay (some (s, false)) = some (close s)
  begin_relay (some (s, true)) = some (start_reads s)

  unfoldable pub start_relay : Session C → Option (Session C)
  unfolding begin_relay process_gss_relay_input
  start_relay s₀ =
      let s = cancel_idle_timer (record s₀ { state = relaying }) in
      if is_empty s.ingest
      then begin_relay (some (s, true))
      else if s.gss_protect_active
      then begin_relay (process_gss_relay_input s)
      else begin_relay (some (queue_send_raw sys dest s.ingest (record s { ingest = [] }), true))

  -- The end of a stream, or an error on it, while data is relayed.
  unfoldable pub end_of_stream : StreamTag → Session C → Session C
  end_of_stream tag s₀ =
      let s₁ = set_io tag (record (io_of tag s₀) { peer_closed = true }) s₀ in
      let s₂ =
        if socket_open (other tag) s₁
        then record s₁ { events = shutdown_send (other tag) ∷ s₁.events }
        else s₁ in
      if (io_of (other tag) s₂).peer_closed then close s₂ else s₂

  unfoldable pub on_dest_recv : List ℕ → ℕ → Session C → Option (Session C)
  unfolding on_relay_data end_of_stream
  on_dest_recv chunk error s =
      if not (error == 0) || is_empty chunk
      then some (end_of_stream dest s)
      else on_relay_data dest chunk s
