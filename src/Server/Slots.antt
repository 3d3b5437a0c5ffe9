-- ===== src/Server/Slots.antt =====
-- server/ProxyServer.cpp: the slots over every sequence of steps.
use socks5proxy_native.Prelude.{
  ℕ, zero, suc, ◌+◌, ◌≡◌, refl, sym, ◌∙◌, Bool, true, false, List, [], ◌∷◌, ◌++◌, length,
  length-append, Option, none, some, if◌then◌else◌, All, arith,
}
use socks5proxy_native.Server.{
  ProxyServer, new_server, on_session_closed, Creation, constructor_throws, start_throws, started,
  retain_session, open_session, refused, take_slot, on_accept, stop, give_up,
}

-- The server and the sessions that have not told it of their end, each with whether it holds a slot.
pub record World : Type 0 where
  pub server : ProxyServer
  pub live : List (ℕ × Bool)

abbrev joins : ℕ → Creation → Option ℕ → List (ℕ × Bool)
joins client (started true) none = (client, false) ∷ []
joins client (started true) (some (suc k)) = (client, true) ∷ []
joins client creation slots = []

-- The session that an accepted client gets, if it stays.
abbrev pub new_live : Option ℕ → Creation → ProxyServer → List (ℕ × Bool)
new_live none creation server = []
new_live (some client) creation server =
    if server.stopping then [] else joins client creation server.connection_slots

-- `Start` of a session does not throw.
abbrev pub IsCaught : Creation → Type 0
IsCaught start_throws = ⊥
IsCaught creation = Unit {0}

-- The steps, in any order: a client is accepted, a live session ends and tells the server of it with its
-- own slot, the server is stopped, and it gives up the sessions that are left.
pub data Step : World → World → Type 0 where
  accepts :
      (w : World) (client : Option ℕ) (creation : Creation)
      → IsCaught creation
      → Step w (record {
        server = on_accept client creation w.server;
        live = new_live client creation w.server ++ w.live;
      })
  ends :
      (server : ProxyServer) (before after : List (ℕ × Bool)) (session : ℕ) (slot_held : Bool)
      → Step
          (record { server = server; live = before ++ ((session, slot_held) ∷ after) })
          (record { server = on_session_closed session slot_held server; live = before ++ after })
  stops : (w : World) → Step w (record w { server = stop w.server })
  gives_up : (w : World) → Step w (record w { server = give_up w.server })

pub data Reaches : World → World → Type 0 where
  stays : (w : World) → Reaches w w
  goes : (u v w : World) → Reaches u v → Step v w → Reaches u w

abbrev Held : ℕ × Bool → Type 0
Held (session, slot_held) = slot_held ≡ true

-- Each live session holds one of the slots, and the others are free.
pub record HasSlots (limit : ℕ) (w : World) : Type 0 where
  pub free : ℕ
  pub slots : w.server.connection_slots ≡ some free
  pub total : free + length w.live ≡ limit
  pub held : All Held w.live

All-remove :
    (before after : List (ℕ × Bool)) (session : ℕ × Bool)
    → All Held (before ++ (session ∷ after))
    → Held session × All Held (before ++ after)
All-remove [] after session (h, hs) = (h, hs)
All-remove (first ∷ before) after session (f, hs) =
    let (h, rest) = All-remove before after session hs in (h, (f, rest))

same_free : {k j : ℕ} → some k ≡ some j → k ≡ j
same_free e = cc

take_slot-HasSlots :
    (limit client : ℕ) (creation : Creation) (slots : Option ℕ) (w : World)
    → IsCaught creation
    → w.server.connection_slots ≡ slots
    → HasSlots limit w
    → HasSlots limit (record {
      server = take_slot client creation slots w.server;
      live = joins client creation slots ++ w.live;
    })
unfolding take_slot open_session retain_session on_session_closed
take_slot-HasSlots limit client creation none w c e h = absurd (ground (arith, e, h.slots))
take_slot-HasSlots limit client constructor_throws (some zero) w c e h = record {
  free = h.free;
  slots = h.slots;
  total = h.total;
  held = h.held;
}
take_slot-HasSlots limit client start_throws (some zero) w c e h = elim c [ ]
take_slot-HasSlots limit client (started true) (some zero) w c e h = record {
  free = h.free;
  slots = h.slots;
  total = h.total;
  held = h.held;
}
take_slot-HasSlots limit client (started false) (some zero) w c e h = record {
  free = h.free;
  slots = h.slots;
  total = h.total;
  held = h.held;
}
take_slot-HasSlots limit client constructor_throws (some (suc k)) w c e h =
    let free = same_free (sym e ∙ h.slots) in
    record { free = k + 1; slots = refl; total = omega (arith, h.total, free); held = h.held }
take_slot-HasSlots limit client start_throws (some (suc k)) w c e h = elim c [ ]
take_slot-HasSlots limit client (started true) (some (suc k)) w c e h =
    let free = same_free (sym e ∙ h.slots) in
    record { free = k; slots = refl; total = omega (arith, h.total, free); held = (refl, h.held) }
take_slot-HasSlots limit client (started false) (some (suc k)) w c e h =
    let free = same_free (sym e ∙ h.slots) in
    record { free = k + 1; slots = refl; total = omega (arith, h.total, free); held = h.held }

accept-HasSlots :
    (limit : ℕ) (client : Option ℕ) (creation : Creation) (w : World)
    → IsCaught creation
    → HasSlots limit w
    → HasSlots limit (record {
      server = on_accept client creation w.server;
      live = new_live client creation w.server ++ w.live;
    })
unfolding on_accept
accept-HasSlots limit none creation w c h = h
accept-HasSlots limit (some client) creation w c h = go w.server.stopping
  where
    slots : Option ℕ
    slots = w.server.connection_slots

    go :
        (stopping : Bool)
        → HasSlots limit (record {
          server =
              if stopping
              then refused client w.server
              else take_slot client creation slots w.server;
          live = (if stopping then [] else joins client creation slots) ++ w.live;
        })
    go true = record { free = h.free; slots = h.slots; total = h.total; held = h.held }
    go false = take_slot-HasSlots limit client creation slots w c refl h

end-HasSlots :
    (limit : ℕ) (server : ProxyServer) (before after : List (ℕ × Bool)) (session : ℕ)
    (slot_held : Bool)
    → HasSlots limit (record { server = server; live = before ++ ((session, slot_held) ∷ after) })
    → HasSlots limit
        (record { server = on_session_closed session slot_held server; live = before ++ after })
unfolding on_session_closed
end-HasSlots limit server before after session slot_held h =
    let (own, rest) = All-remove before after (session, slot_held) h.held in
    record {
      free = h.free + 1;
      slots = ground (arith, own, h.slots);
      total = omega (
        arith,
        h.total,
        length-append before ((session, slot_held) ∷ after),
        length-append before after,
      );
      held = rest;
    }

stop-slots : (server : ProxyServer) → (stop server).connection_slots ≡ server.connection_slots
unfolding stop
stop-slots server = ground arith

Step-HasSlots : (limit : ℕ) (v w : World) → Step v w → HasSlots limit v → HasSlots limit w
unfolding give_up
Step-HasSlots limit _ _ (accepts w client creation c) h =
    accept-HasSlots limit client creation w c h
Step-HasSlots limit _ _ (ends server before after session slot_held) h =
    end-HasSlots limit server before after session slot_held h
Step-HasSlots limit _ _ (stops w) h = record {
  free = h.free;
  slots = stop-slots w.server ∙ h.slots;
  total = h.total;
  held = h.held;
}
Step-HasSlots limit _ _ (gives_up w) h = record {
  free = h.free;
  slots = h.slots;
  total = h.total;
  held = h.held;
}

keeps-HasSlots : (limit : ℕ) (v w : World) → Reaches v w → HasSlots limit v → HasSlots limit w
keeps-HasSlots limit _ _ (stays w) h = h
keeps-HasSlots limit _ _ (goes u v w r step) h =
    Step-HasSlots limit v w step (keeps-HasSlots limit u v r h)

-- From a new server with a limit of 1 or more, over clients that are accepted, sessions that end and tell
-- the server of it, and stops, in any order, where no `Start` of a session throws: each session that has
-- not ended holds a slot of its own, and the slots held and the free ones make up the limit.
pub Reaches-HasSlots :
    (limit : ℕ) (w : World)
    → Reaches (record { server = new_server (suc limit); live = [] }) w
    → HasSlots (suc limit) w
unfolding new_server
Reaches-HasSlots limit w r =
    keeps-HasSlots (suc limit) (record { server = new_server (suc limit); live = [] }) w r
      (record { free = suc limit; slots = refl; total = omega arith; held = tt })
