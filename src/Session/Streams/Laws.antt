-- ===== src/Session/Streams/Laws.antt =====
-- server/protocol/Socks5Session.cpp: a send queue as a stream of bytes.
use socks5proxy_native.Prelude.{
  ℕ, ◌+◌, ◌≤◌, ◌≡◌, refl, ap, sym, ◌∙◌, inl, inr, List, [], ◌∷◌, ◌++◌, append_assoc, append-nil,
  length, take, drop, flatten, flatten-append, drop_within, drop_beyond, drop-drop, take_within,
  take-append_drop, length-drop, leb, Bool-cases, arith,
}
use socks5proxy_native.Session.{StreamIo}
use socks5proxy_native.Session.Streams.{advance, push_back, front_bytes}

-- The offset lies within the front buffer.
abbrev Within : List (List ℕ) → ℕ → Type 0
Within [] offset = offset ≡ 0
Within (front ∷ rest) offset = offset ≤ length front

abbrev pub IsStream : StreamIo → Type 0
IsStream io = Within io.send_queue io.send_front_offset

-- The bytes that are not yet sent.
abbrev pub pending : StreamIo → List ℕ
pending io = drop io.send_front_offset (flatten io.send_queue)

pub push_back-IsStream :
    (chunk : List ℕ) (io : StreamIo) → IsStream io → IsStream (push_back chunk io)
push_back-IsStream chunk io v = go io.send_queue v
  where
    go :
        (queue : List (List ℕ))
        → Within queue io.send_front_offset
        → Within (queue ++ (chunk ∷ [])) io.send_front_offset
    go [] v = omega arith
    go (front ∷ rest) v = v

-- Queued bytes go to the end of what is pending.
pub pending-push_back :
    (chunk : List ℕ) (io : StreamIo)
    → IsStream io
    → pending (push_back chunk io) ≡ pending io ++ chunk
pending-push_back chunk io v = go io.send_queue io.send_front_offset v
  where
    go :
        (queue : List (List ℕ)) (offset : ℕ)
        → Within queue offset
        → drop offset (flatten (queue ++ (chunk ∷ []))) ≡ drop offset (flatten queue) ++ chunk
    go [] offset v = rw (v, append-nil)
    go (front ∷ rest) offset v = rw (
      flatten-append rest (chunk ∷ []),
      append-nil,
      drop_within offset front (flatten rest ++ chunk) v,
      drop_within offset front (flatten rest) v,
      append_assoc (drop offset front) (flatten rest) chunk,
    )

-- `PumpSend` posts what comes first among the pending bytes.
pub front_bytes-pending :
    (io : StreamIo) (n : ℕ)
    → IsStream io
    → n ≤ length (front_bytes io)
    → take n (front_bytes io) ≡ take n (pending io)
unfolding front_bytes
front_bytes-pending io n v h = go io.send_queue refl
  where
    go : (q : List (List ℕ)) → io.send_queue ≡ q → take n (front_bytes io) ≡ take n (pending io)
    go [] e = ground arith
    go (front ∷ rest) e =
        let posted : front_bytes io ≡ drop io.send_front_offset front = ground (arith, e) in
        let within : io.send_front_offset ≤ length front = ground (arith, e, v) in
        rw (posted, e, drop_within io.send_front_offset front (flatten rest) within)
          (sym (take_within n _ (flatten rest) (rw posted at h)))

pub advance-IsStream : (n : ℕ) (io : StreamIo) → IsStream io → IsStream (advance n io)
unfolding advance
advance-IsStream n io v = go io.send_queue refl
  where
    go : (q : List (List ℕ)) → io.send_queue ≡ q → IsStream (advance n io)
    go [] e = ground (arith, e, v)
    go (front ∷ []) e = ground (arith, e, v)
    go (front ∷ next ∷ rest) e = ground (arith, e, v)

-- When `n` of the bytes that were posted have been sent, these are no longer pending.
pub pending-advance :
    (n : ℕ) (io : StreamIo)
    → IsStream io
    → n ≤ length (front_bytes io)
    → pending (advance n io) ≡ drop n (pending io)
unfolding advance front_bytes
pending-advance n io v h = go io.send_queue refl
  where
    offset : ℕ
    offset = io.send_front_offset

    go : (q : List (List ℕ)) → io.send_queue ≡ q → pending (advance n io) ≡ drop n (pending io)
    go [] e = ground (arith, e, v, h)
    go (front ∷ rest) e = elim (Bool-cases (leb (length front) (offset + n))) [
      | inl done ↦ ground (
        arith,
        e,
        done,
        v,
        length-drop offset front,
        drop-drop offset n (offset + n) (front ++ flatten rest),
        drop_beyond (offset + n) front (flatten rest),
      )
      | inr more ↦ ground (arith, e, more, drop-drop offset n (offset + n) (front ++ flatten rest))
    ]

-- What can happen to a send queue: a buffer is queued, or a send of some of the posted bytes ends.
pub data StreamOp : Type 0 where
  queued : List ℕ → StreamOp
  sent : ℕ → StreamOp

-- The system never reports more bytes than were posted.
abbrev pub IsLegal : List StreamOp → StreamIo → Type 0
IsLegal [] io = Unit {0}
IsLegal (queued chunk ∷ ops) io = IsLegal ops (push_back chunk io)
IsLegal (sent n ∷ ops) io = (n ≤ length (front_bytes io)) × IsLegal ops (advance n io)

abbrev pub run_stream : List StreamOp → StreamIo → StreamIo
run_stream [] io = io
run_stream (queued chunk ∷ ops) io = run_stream ops (push_back chunk io)
run_stream (sent n ∷ ops) io = run_stream ops (advance n io)

abbrev pub all_queued : List StreamOp → List ℕ
all_queued [] = []
all_queued (queued chunk ∷ ops) = chunk ++ all_queued ops
all_queued (sent n ∷ ops) = all_queued ops

abbrev pub all_sent : List StreamOp → StreamIo → List ℕ
all_sent [] io = []
all_sent (queued chunk ∷ ops) io = all_sent ops (push_back chunk io)
all_sent (sent n ∷ ops) io = take n (front_bytes io) ++ all_sent ops (advance n io)

-- From a queue whose offset lies within its front buffer, however buffers are queued and sends end,
-- also partly, but with no more bytes than were posted: the bytes sent so far, in the order of sending,
-- followed by the pending ones are those that were pending first and then the queued ones in their order.
pub all_sent-pending :
    (ops : List StreamOp) (io : StreamIo)
    → IsStream io
    → IsLegal ops io
    → all_sent ops io ++ pending (run_stream ops io) ≡ pending io ++ all_queued ops
all_sent-pending [] io v l = sym (append-nil (pending io))
all_sent-pending (queued chunk ∷ ops) io v l =
    all_sent-pending ops (push_back chunk io) (push_back-IsStream chunk io v) l
    ∙ rw (pending-push_back chunk io v, append_assoc (pending io) chunk (all_queued ops))
all_sent-pending (sent n ∷ ops) io v (h, l) =
    append_assoc (take n (front_bytes io)) (all_sent ops (advance n io))
      (pending (run_stream ops (advance n io)))
    ∙ ap (◌++◌ (take n (front_bytes io)))
        (all_sent-pending ops (advance n io) (advance-IsStream n io v) l)
    ∙ rw (pending-advance n io v h, front_bytes-pending io n v h)
        (sym (append_assoc (take n (pending io)) (drop n (pending io)) (all_queued ops))
          ∙ ap (λ w. w ++ all_queued ops) (take-append_drop n (pending io)))
