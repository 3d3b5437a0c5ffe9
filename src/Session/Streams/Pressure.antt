-- ===== src/Session/Streams/Pressure.antt =====
-- server/protocol/Socks5Session.cpp: the back pressure of the relay.
use socks5proxy_native.Prelude.{
  ℕ, ◌≤◌, ◌≡◌, refl, ◌⊎◌, inl, Bool, true, false, not, ◌&&◌, if◌then◌else◌, length, if-elim, ◌∙◌,
  ◌==◌, arith,
}
use socks5proxy_native.Session.{Session, relaying, StreamTag, client, dest}
use socks5proxy_native.Session.Env.{System}
use socks5proxy_native.Session.Timers.{close}
use socks5proxy_native.Session.Timers.Laws.{close_closed}
use socks5proxy_native.Session.Streams.{
  is_empty, max_relay_queue_depth, other, io_of, socket_open, post_read, after_send, pump_send,
  on_client_send, on_dest_send, try_post_relay_read, maybe_resume_relay_read,
}

-- Nothing more comes from the receiver, or a read is posted, or it rests on a full queue.
abbrev pub Cause : {C : Type 0} → StreamTag → Session C → Type 0
Cause receiver s =
    (s.closed ≡ true)
    ⊎ ((io_of receiver s).peer_closed ≡ true)
    ⊎ (socket_open receiver s ≡ false)
    ⊎ ((io_of receiver s).reading ≡ true)
    ⊎ (((io_of receiver s).relay_read_paused ≡ true)
        × (max_relay_queue_depth ≤ length (io_of (other receiver) s).send_queue))

-- The receiver's side is read, its read is paused, or it is at its end.
abbrev pub Attended : {C : Type 0} → StreamTag → Session C → Type 0
Attended receiver s =
    ((io_of receiver s).reading ≡ true)
    ⊎ ((io_of receiver s).relay_read_paused ≡ true)
    ⊎ ((io_of receiver s).peer_closed ≡ true)

module _ {C : Type 0} (sys : System) where
  post_read-Cause :
      (receiver : StreamTag) (s : Session C) → Cause receiver (post_read sys receiver s).0
  unfolding post_read close
  post_read-Cause client s = ground arith
  post_read-Cause dest s = ground arith

  try_post_relay_read-Cause :
      (receiver : StreamTag) (s : Session C)
      → s.state ≡ relaying
      → (io_of receiver s).relay_read_paused ≡ false
      → Cause receiver (try_post_relay_read sys receiver s).0
  unfolding try_post_relay_read
  try_post_relay_read-Cause client s r p = ground (arith, r, p, post_read-Cause client s)
  try_post_relay_read-Cause dest s r p = ground (arith, r, p, post_read-Cause dest s)

  maybe_resume_relay_read-Cause :
      (receiver : StreamTag) (s : Session C)
      → s.state ≡ relaying
      → Attended receiver s
      → Cause receiver (maybe_resume_relay_read sys receiver s)
  unfolding maybe_resume_relay_read
  maybe_resume_relay_read-Cause client s r a = ground (
    arith,
    r,
    a,
    try_post_relay_read-Cause client
        (record s { client_io = record s.client_io { relay_read_paused = false } }) r refl,
  )
  maybe_resume_relay_read-Cause dest s r a = ground (
    arith,
    r,
    a,
    try_post_relay_read-Cause dest
        (record s { dest_io = record s.dest_io { relay_read_paused = false } }) r refl,
  )

  -- Sending on one side keeps the reads of the other side.
  after_send-keeps :
      (bytes : ℕ) (s : Session C)
      → ((after_send sys dest bytes s).client_io ≡ s.client_io)
        × ((after_send sys dest bytes s).state ≡ s.state)
  unfolding after_send pump_send close
  after_send-keeps bytes s = ground arith

  flushed-Cause :
      (flushed : Bool) (t : Session C)
      → Cause dest (maybe_resume_relay_read sys dest t)
      → Cause dest (if flushed then close t else maybe_resume_relay_read sys dest t)
  flushed-Cause true t h = inl (close_closed t)
  flushed-Cause false t h = h

  client_send-keeps :
      (bytes : ℕ) (s : Session C)
      → ((after_send sys client bytes s).dest_io ≡ s.dest_io)
        × ((after_send sys client bytes s).state ≡ s.state)
  unfolding after_send pump_send close
  client_send-keeps bytes s = ground arith

  -- When a send to the client has ended, or failed, while data is relayed and the destination's side was
  -- read, paused or at its end: the destination's side is read, or at its end, or the session or its
  -- socket is closed, or the pause has its cause in a full queue to the client.
  pub on_client_send-Cause :
      (bytes error : ℕ) (s : Session C)
      → s.state ≡ relaying
      → Attended dest s
      → Cause dest (on_client_send sys bytes error s)
  unfolding on_client_send
  on_client_send-Cause bytes error s r a =
      if-elim (Cause dest) (not (error == 0)) _ _ (λ e. inl (close_closed _))
        (λ e.
          let (io, state) = client_send-keeps bytes s in
          let t = after_send sys client bytes s in
          flushed-Cause
            (t.close_after_flush && (is_empty t.client_io.send_queue && not t.client_io.sending)) t
            (maybe_resume_relay_read-Cause dest t (state ∙ r) (ground (arith, io, a))))

  -- When a send to the destination has ended, or failed, while data is relayed and the client's side was
  -- read, paused or at its end: the client's side is read, or at its end, or the session or its socket is
  -- closed, or the pause has its cause in a full queue to the destination.
  pub on_dest_send-Cause :
      (bytes error : ℕ) (s : Session C)
      → s.state ≡ relaying
      → Attended client s
      → Cause client (on_dest_send sys bytes error s)
  unfolding on_dest_send
  on_dest_send-Cause bytes error s r a =
      if-elim (Cause client) (not (error == 0)) _ _ (λ e. inl (close_closed _))
        (λ e.
          let (io, state) = after_send-keeps bytes s in
          maybe_resume_relay_read-Cause client (after_send sys dest bytes s) (state ∙ r)
            (ground (arith, io, a)))
