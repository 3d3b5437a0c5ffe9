-- ===== src/Session/Relay/Laws.antt =====
-- server/protocol/Socks5Session.cpp: the loops that forward data.
use socks5proxy_native.Prelude.{
  ℕ, zero, suc, ◌<◌, ◌≡◌, refl, Bool, true, false, not, ◌||◌, ◌==◌, List, [], ◌∷◌, ◌++◌, if-elim,
  Option-elim, length, take, drop, length-drop, Option, none, some, arith,
}
use socks5proxy_native.Socks.Gssapi.{msg_encapsulated}
use socks5proxy_native.Session.{Session, relaying, StreamTag, client, dest}
use socks5proxy_native.Session.Env.{System, Gss}
use socks5proxy_native.Session.Timers.{close, cancel_idle_timer}
use socks5proxy_native.Session.Streams.{is_empty, queue_send_raw, try_post_relay_read}
use socks5proxy_native.Session.Streams.Frame.{queue_send_raw-SameTalk}
use socks5proxy_native.Session.Replies.{
  FrameResult, need_more, protocol_error, frame, try_read_gss_frame, wrap_and_queue_client,
}
use socks5proxy_native.Session.Negotiation.Progress.{frame_shorter}
use socks5proxy_native.Session.Relay.{
  gss_relay_chunk, relay_clear, relay_frame, gss_relay_loop, process_gss_relay_input, wrap_loop,
  wrap_chunks, read_on, on_relay_data, start_reads, begin_relay, start_relay, end_of_stream,
  on_dest_recv, over_limit,
}

abbrev pub Ends {ℓ} : {A : Type ℓ} → Option A → Type ℓ
Ends {A} o = (a : A) × (o ≡ some a)

FrameResult-elim {κ} :
    {B : Type κ} (P : B → Type κ) (f : FrameResult) (x : B) (y : List ℕ → B)
    (g : List ℕ → List ℕ → B)
    → P x
    → ((rest : List ℕ) → P (y rest))
    → ((token rest : List ℕ) → f ≡ frame token rest → P (g token rest))
    → P (elim f [ need_more ↦ x | protocol_error rest ↦ y rest | frame token rest ↦ g token rest ])
FrameResult-elim P need_more x y g h k l = h
FrameResult-elim P (protocol_error rest) x y g h k l = k rest
FrameResult-elim P (frame token rest) x y g h k l = l token rest refl

gss_relay_chunk_positive : 0 < gss_relay_chunk
unfolding gss_relay_chunk
gss_relay_chunk_positive = omega arith

-- Dropping a part of a chunk that is not empty.
rest_shorter :
    (chunk : List ℕ) (n : ℕ) → 0 < n → is_empty chunk ≡ false → length (drop n chunk) < length chunk
rest_shorter [] n h e = absurd (ground (arith, e))
rest_shorter (x ∷ chunk) n h e = ground (arith, length-drop n (x ∷ chunk))

shorter_enough : (fuel a b : ℕ) → a < b → b < suc fuel → a < fuel
shorter_enough fuel a b h k = omega arith

module _ {C : Type 0} (gss : Gss C) (sys : System) where
  relay_clear-ingest :
      (a : C × Option (List ℕ)) (s : Session C) → (relay_clear gss sys a s).0.ingest ≡ s.ingest
  unfolding relay_clear
  relay_clear-ingest (c, none) s = refl
  relay_clear-ingest (c, some clear) s =
      if-elim {A = Session C × Bool} (λ r. r.0.ingest ≡ s.ingest) (is_empty clear)
        (record s { gssapi = some c }, true)
        (queue_send_raw sys dest clear (record s { gssapi = some c }), true) (λ e. refl)
        (λ e. (queue_send_raw-SameTalk sys dest clear (record s { gssapi = some c })).ingest)

  relay_frame-ingest :
      (token : List ℕ) (s : Session C) → (relay_frame gss sys token s).0.ingest ≡ s.ingest
  unfolding relay_frame
  relay_frame-ingest token s =
      Option-elim {B = Session C × Bool} (λ r. r.0.ingest ≡ s.ingest) s.gssapi (s, false)
        (λ c. relay_clear gss sys (gss.unwrap c token) s) refl
        (λ c. relay_clear-ingest (gss.unwrap c token) s)

  -- Each frame takes bytes.
  gss_relay_loop-Ends :
      (fuel : ℕ) (s : Session C) → length s.ingest < fuel → Ends (gss_relay_loop gss sys fuel s)
  unfolding gss_relay_loop
  gss_relay_loop-Ends zero s h = absurd (omega arith)
  gss_relay_loop-Ends (suc fuel) s h =
      if-elim Ends (is_empty s.ingest) (some (s, true)) _ (λ e. ((s, true), refl))
        (λ e.
          FrameResult-elim Ends (try_read_gss_frame msg_encapsulated s.ingest) (some (s, true))
            (λ rest. some (record s { ingest = rest }, false)) _ ((s, true), refl)
            (λ rest. ((record s { ingest = rest }, false), refl))
            (λ token rest f.
              let after = relay_frame gss sys token (record s { ingest = rest }) in
              if-elim Ends after.1 (gss_relay_loop gss sys fuel after.0) (some after)
                (λ e'. gss_relay_loop-Ends fuel after.0 (
                  rw (relay_frame-ingest token (record s { ingest = rest })) (
                    shorter_enough fuel (length rest) (length s.ingest)
                      (frame_shorter msg_encapsulated s.ingest token rest f) h)))
                (λ e'. (after, refl))))

  wrap_loop-Ends :
      (fuel : ℕ) (chunk : List ℕ) (s : Session C)
      → length chunk < fuel
      → Ends (wrap_loop gss sys fuel chunk s)
  unfolding wrap_loop
  wrap_loop-Ends zero chunk s h = absurd (omega arith)
  wrap_loop-Ends (suc fuel) chunk s h =
      let wrapped = wrap_and_queue_client gss sys (take gss_relay_chunk chunk) s in
      if-elim Ends (is_empty chunk) (some (s, true)) _ (λ e. ((s, true), refl))
        (λ e.
          if-elim Ends wrapped.1 (wrap_loop gss sys fuel (drop gss_relay_chunk chunk) wrapped.0)
            (some wrapped)
            (λ e'. wrap_loop-Ends fuel (drop gss_relay_chunk chunk) wrapped.0 (
              shorter_enough fuel (length (drop gss_relay_chunk chunk)) (length chunk)
                (rest_shorter chunk gss_relay_chunk gss_relay_chunk_positive e) h))
            (λ e'. (wrapped, refl)))

  process_gss_relay_input-Ends : (s : Session C) → Ends (process_gss_relay_input gss sys s)
  unfolding process_gss_relay_input
  process_gss_relay_input-Ends s = gss_relay_loop-Ends (suc (length s.ingest)) s (omega arith)

  wrap_chunks-Ends : (chunk : List ℕ) (s : Session C) → Ends (wrap_chunks gss sys chunk s)
  unfolding wrap_chunks
  wrap_chunks-Ends chunk s = wrap_loop-Ends (suc (length chunk)) chunk s (omega arith)

  read_on-Ends :
      (tag : StreamTag) (o : Option (Session C × Bool)) → Ends o → Ends (read_on gss sys tag o)
  unfolding read_on
  read_on-Ends tag none (r, e) = absurd (ground (arith, e))
  read_on-Ends tag (some (s, false)) h = (close s, refl)
  read_on-Ends tag (some (s, true)) h = ((try_post_relay_read sys tag s).0, refl)

  pub on_relay_data-Ends :
      (tag : StreamTag) (chunk : List ℕ) (s : Session C) → Ends (on_relay_data gss sys tag chunk s)
  unfolding on_relay_data
  on_relay_data-Ends client chunk s =
      if-elim Ends s.gss_protect_active _ _
        (λ e.
          if-elim Ends (over_limit (length s.ingest) (length chunk)) (some (close s)) _
            (λ e'. (close s, refl))
            (λ e'.
              read_on-Ends client _
                (process_gss_relay_input-Ends (record s { ingest = s.ingest ++ chunk }))))
        (λ e. read_on-Ends client (some (queue_send_raw sys dest chunk s, true)) ((_, true), refl))
  on_relay_data-Ends dest chunk s =
      if-elim Ends s.gss_protect_active _ _ (λ e. read_on-Ends dest _ (wrap_chunks-Ends chunk s))
        (λ e. read_on-Ends dest (some (queue_send_raw sys client chunk s, true)) ((_, true), refl))

  begin_relay-Ends : (o : Option (Session C × Bool)) → Ends o → Ends (begin_relay gss sys o)
  unfolding begin_relay
  begin_relay-Ends none (r, e) = absurd (ground (arith, e))
  begin_relay-Ends (some (s, false)) h = (close s, refl)
  begin_relay-Ends (some (s, true)) h = (start_reads gss sys s, refl)

  pub start_relay-Ends : (s : Session C) → Ends (start_relay gss sys s)
  unfolding start_relay
  start_relay-Ends s₀ =
      let s = cancel_idle_timer (record s₀ { state = relaying }) in
      if-elim Ends (is_empty s.ingest) (begin_relay gss sys (some (s, true))) _
        (λ e. begin_relay-Ends (some (s, true)) ((s, true), refl))
        (λ e.
          if-elim Ends s.gss_protect_active
            (begin_relay gss sys (process_gss_relay_input gss sys s)) _
            (λ e'. begin_relay-Ends _ (process_gss_relay_input-Ends s))
            (λ e'.
              begin_relay-Ends
                (some (queue_send_raw sys dest s.ingest (record s { ingest = [] }), true))
                ((_, true), refl)))

  pub on_dest_recv-Ends :
      (chunk : List ℕ) (error : ℕ) (s : Session C) → Ends (on_dest_recv gss sys chunk error s)
  unfolding on_dest_recv
  on_dest_recv-Ends chunk error s =
      if-elim Ends (not (error == 0) || is_empty chunk) (some (end_of_stream gss sys dest s)) _
        (λ e. (_, refl)) (λ e. on_relay_data-Ends dest chunk s)
