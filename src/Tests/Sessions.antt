-- ===== src/Tests/Sessions.antt =====
-- Runs of a session.
use socks5proxy_native.Prelude.{
  ℕ, ◌≡◌, refl, ◌⊎◌, ◌↔◌, true, false, List, [], ◌∷◌, ◌++◌, length, ◌/◌, ◌%◌, ◌^◌, some, arith,
}
use socks5proxy_native.Net.{Family}
use socks5proxy_native.Socks.AuthMethod.{no_acceptable_methods}
use socks5proxy_native.Session.{Session, request, client, new_session, idle_io}
use socks5proxy_native.Session.Timers.{timer_key}
use socks5proxy_native.Session.Timers.Laws.{closes, closings, closings-closes, timer_key_parts}
use socks5proxy_native.Session.Streams.{front_bytes, advance}
use socks5proxy_native.Session.Streams.Laws.{
  IsLegal, StreamOp, queued, sent, all_sent, all_queued, run_stream, pending, all_sent-pending,
}
use socks5proxy_native.Session.Replies.{gss_frame, frame, try_read_gss_frame}
use socks5proxy_native.Session.Replies.Laws.{try_read_gss_frame-gss_frame}
use socks5proxy_native.Session.Negotiation.{
  process_handshake, process_auth, select_method, constant_time_equal,
}
use socks5proxy_native.Session.Negotiation.Laws.{constant_time_equal_iff}
use socks5proxy_native.Session.Negotiation.Choice.{offered, admits, select_method-admits}
use socks5proxy_native.Session.Negotiation.Admission.{process_auth-auth_message}
use socks5proxy_native.Session.Negotiation.Gate.{Admitted}
use socks5proxy_native.Session.Request.Parse.{parsed, parse_request}
use socks5proxy_native.Session.Request.Parse.Laws.{
  domain, request_message, parse_request-request_message,
}
use socks5proxy_native.Session.Receive.{process_step}
use socks5proxy_native.Session.Receive.Gate.{process_step-Admitted}
use socks5proxy_native.Session.Handlers.{received, on_io_completed}
use socks5proxy_native.Session.Handlers.Laws.{on_io_completed_ends}
use socks5proxy_native.Tests.Fixtures.{
  open_config, closed_config, willing, plain_gss, greeting, greeted, logging_in,
}

on_io_completed_ends_example :
    (t : Session ℕ) × (on_io_completed plain_gss open_config willing
        (received client greeting 0)
        (new_session ℕ true)
      ≡ some t)
on_io_completed_ends_example =
    on_io_completed_ends plain_gss open_config willing (received client greeting 0)
      (new_session ℕ true)

greeted-request : (process_step plain_gss open_config willing greeted).0.state ≡ request
unfolding process_step new_session process_handshake select_method
greeted-request = refl

process_step-Admitted_example : Admitted open_config greeted
unfolding new_session
process_step-Admitted_example =
    process_step-Admitted plain_gss open_config willing greeted (λ e. ground (arith, e))
      greeted-request

-- Two buffers, the first of which is sent in two parts.
abbrev two_buffers : List StreamOp
two_buffers = queued (1 ∷ 2 ∷ 3 ∷ []) ∷ sent 2 ∷ queued (4 ∷ []) ∷ sent 1 ∷ []

two_buffers-IsLegal : IsLegal two_buffers idle_io
unfolding front_bytes advance
two_buffers-IsLegal = (omega arith, (omega arith, tt))

all_sent-pending_example :
    all_sent two_buffers idle_io ++ pending (run_stream two_buffers idle_io)
    ≡ pending idle_io ++ all_queued two_buffers
all_sent-pending_example = all_sent-pending two_buffers idle_io refl two_buffers-IsLegal

abbrev first_part : (Family → List ℕ → List ℕ)
first_part family ip = ip

parse_request-request_message_example :
    parse_request first_part (request_message 1 (domain (97 ∷ [])) 80 ++ (9 ∷ []))
    ≡ parsed 1 (97 ∷ []) 80 (length (request_message 1 (domain (97 ∷ [])) 80))
parse_request-request_message_example =
    parse_request-request_message first_part 1 80 (9 ∷ []) (domain (97 ∷ [])) (omega arith)
      (omega arith, omega arith)

process_auth-auth_message_example :
    (((process_auth plain_gss closed_config willing logging_in).1 ≡ true)
      ↔ (((97 ∷ 98 ∷ []) ≡ closed_config.username) × ((99 ∷ []) ≡ closed_config.password)))
    × ((process_auth plain_gss closed_config willing logging_in).1 ≡ true
        → (process_auth plain_gss closed_config willing logging_in).0.state ≡ request)
    × ((process_auth plain_gss closed_config willing logging_in).0.ingest ≡ 5 ∷ [])
process_auth-auth_message_example =
    process_auth-auth_message plain_gss closed_config willing (97 ∷ 98 ∷ []) (99 ∷ []) (5 ∷ [])
      logging_in refl

select_method-admits_example :
    ((offered (select_method closed_config (0 ∷ 2 ∷ [])) (0 ∷ 2 ∷ []) ≡ true)
      × (admits closed_config (select_method closed_config (0 ∷ 2 ∷ [])) ≡ true))
    ⊎ ((select_method closed_config (0 ∷ 2 ∷ []) ≡ no_acceptable_methods)
        × ((m : ℕ) → admits closed_config m ≡ true → offered m (0 ∷ 2 ∷ []) ≡ false))
select_method-admits_example = select_method-admits closed_config (0 ∷ 2 ∷ [])

try_read_gss_frame-gss_frame_example :
    try_read_gss_frame 3 (gss_frame 3 (1 ∷ 2 ∷ []) ++ (9 ∷ [])) ≡ frame (1 ∷ 2 ∷ []) (9 ∷ [])
try_read_gss_frame-gss_frame_example =
    try_read_gss_frame-gss_frame 3 (1 ∷ 2 ∷ []) (9 ∷ []) (λ e. omega arith) (omega arith)

constant_time_equal_iff_example :
    (constant_time_equal closed_config.username greeting ≡ true)
    ↔ (closed_config.username ≡ greeting)
constant_time_equal_iff_example = constant_time_equal_iff closed_config.username greeting

timer_key_parts_example : (timer_key 5 3 / 2 ^ 8 ≡ 5) × (timer_key 5 3 % 2 ^ 8 ≡ 3)
timer_key_parts_example = timer_key_parts 5 3 (omega arith) (omega arith)

closings-closes_example :
    ((closes 3 greeted).closed ≡ true) × (closings (closes 3 greeted).events ≡ true ∷ [])
unfolding new_session
closings-closes_example = closings-closes greeted 2
