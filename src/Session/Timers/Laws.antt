-- ===== src/Session/Timers/Laws.antt =====
-- Closing and the generations of the timers.
use socks5proxy_native.Prelude.{
  ℕ, zero, suc, ◌≡◌, refl, ◌∙◌, ap, ◌<◌, ◌^◌, ◌/◌, ◌%◌, Bool, true, List, [], ◌∷◌, if◌then◌else◌,
  arith,
}
use socks5proxy_native.Session.{Session, Event, session_closed}
use socks5proxy_native.Session.Timers.{close, timer_key, arm_connect_timer, cancel_connect_timer}
use socks5proxy_native.Session.Env.{Config, System}

module _ {C : Type 0} (s : Session C) where
  pub close_closed : (close s).closed ≡ true
  unfolding close
  close_closed = ground arith

  close-close : close (close s) ≡ close s
  unfolding close
  close-close = ground arith

-- The calls of `OnSessionClosed`, each with its slot flag.
abbrev pub closings : List Event → List Bool
closings [] = []
closings (session_closed slot_held ∷ events) = slot_held ∷ closings events
closings (event ∷ events) = closings events

-- `Close`, called again and again.
abbrev pub closes : {C : Type 0} → ℕ → Session C → Session C
closes zero s = s
closes (suc n) s = close (closes n s)

module _ {C : Type 0} (s : Session C) where
  closings-close :
      closings (close s).events
      ≡ (if s.closed then closings s.events else s.slot_held ∷ closings s.events)
  unfolding close
  closings-close = ground arith

  closes_once : (n : ℕ) → closes (suc n) s ≡ close s
  closes_once zero = refl
  closes_once (suc n) = ap close (closes_once n) ∙ close-close s

  -- However often `Close` is called on a session, once or more: it is closed, and the server has been told
  -- of its end once more than before, with the session's slot flag, if it was open at first, and not once
  -- more if it was closed.
  pub closings-closes :
      (n : ℕ)
      → ((closes (suc n) s).closed ≡ true)
        × (closings (closes (suc n) s).events
            ≡ (if s.closed then closings s.events else s.slot_held ∷ closings s.events))
  closings-closes n = rw (closes_once n) (close_closed s, closings-close)

-- The key of a timer yields its generation, below 2^56, and its kind, below 256.
pub timer_key_parts :
    (generation kind : ℕ)
    → generation < 2 ^ 56
    → kind < 256
    → (timer_key generation kind / 2 ^ 8 ≡ generation) × (timer_key generation kind % 2 ^ 8 ≡ kind)
unfolding timer_key
timer_key_parts generation kind g k = omega arith

pub arm_connect_timer-state :
    {C : Type 0} (cfg : Config) (sys : System) (s : Session C)
    → (arm_connect_timer cfg sys s).0.state ≡ s.state
unfolding arm_connect_timer cancel_connect_timer
arm_connect_timer-state cfg sys s = ground arith
