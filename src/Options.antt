-- ===== src/Options.antt =====
-- config/NetworkConfiguration.h and config/NetworkConfiguration.cpp: the options of the sockets, the
-- limit on connections and the credentials. An `int` is an integer; error messages are left out.
pub mod Laws
use socks5proxy_native.Prelude.{
  ℕ, suc, ◌+◌, ◌*◌, ◌≤◌, ◌≡◌, Bool, true, false, not, ◌&&◌, ◌||◌, List, [], ◌==◌, leb, ltb,
  if◌then◌else◌, length,
}

pub data ℤ : Type 0 where
  pos : ℕ → ℤ
  negsuc : ℕ → ℤ

abbrev pub is_negative : ℤ → Bool
is_negative (pos n) = false
is_negative (negsuc n) = true

-- `requireNonNeg`, `requirePos` and `requireMax`.
abbrev pub require_non_neg : ℤ → Bool
require_non_neg v = not (is_negative v)

abbrev pub require_pos : ℤ → Bool
require_pos (pos n) = ltb 0 n
require_pos (negsuc n) = false

abbrev pub require_max : ℤ → ℕ → Bool
require_max (pos n) maximum = leb n maximum
require_max (negsuc n) maximum = true

-- The members that `SetSocketOptions` sets, and its arguments in their order.
pub record SocketOptions : Type 0 where
  pub idle_timeout_ms : ℤ
  pub connect_timeout_ms : ℤ
  pub send_timeout_ms : ℤ
  pub receive_timeout_ms : ℤ
  pub dns_send_timeout_ms : ℤ
  pub dns_receive_timeout_ms : ℤ
  pub udp_associate_idle_timeout_ms : ℤ
  pub send_buffer_size : ℤ
  pub receive_buffer_size : ℤ
  pub buffer_size : ℤ
  pub no_delay : ℤ
  pub keep_alive : ℤ
  pub linger_enabled : ℤ
  pub linger_timeout_sec : ℤ
  pub tcp_keep_alive_time : ℤ
  pub tcp_keep_alive_interval : ℤ
  pub tcp_keep_alive_retry_count : ℤ

abbrev pub day_ms : ℕ
day_ms = 86400000

abbrev pub max_buffer : ℕ
max_buffer = 16777216

abbrev pub max_keep_alive : ℕ
max_keep_alive = 4294967

-- The initial values. The flags hold 1 for true.
abbrev pub default_options : SocketOptions
default_options = record {
  idle_timeout_ms = pos 60000;
  connect_timeout_ms = pos 30000;
  send_timeout_ms = pos 30000;
  receive_timeout_ms = pos 30000;
  dns_send_timeout_ms = pos 5000;
  dns_receive_timeout_ms = pos 5000;
  udp_associate_idle_timeout_ms = pos 120000;
  send_buffer_size = pos 262144;
  receive_buffer_size = pos 262144;
  buffer_size = pos 81920;
  no_delay = pos 1;
  keep_alive = pos 1;
  linger_enabled = pos 0;
  linger_timeout_sec = pos 0;
  tcp_keep_alive_time = pos 60;
  tcp_keep_alive_interval = pos 10;
  tcp_keep_alive_retry_count = pos 5;
}

-- One option: a negative argument leaves it, one that fails a test ends the function.
unfoldable pub set_option :
    (ℤ → Bool) → ℕ → ℤ → (SocketOptions → SocketOptions) → SocketOptions → SocketOptions × Bool
set_option require maximum v put o =
    if is_negative v
    then (o, true)
    else if not (require v) || not (require_max v maximum)
    then (o, false)
    else (put o, true)

-- A flag, which no test guards: `noDelay != 0`.
unfoldable pub set_flag :
    ℤ → (ℤ → SocketOptions → SocketOptions) → SocketOptions → SocketOptions × Bool
set_flag v put o =
    if is_negative v
    then (o, true)
    else (put (elim v [ pos n ↦ if n == 0 then pos 0 else pos 1 | negsuc n ↦ pos 1 ]) o, true)

-- What follows an early return.
infixl 5 ◌and_then◌
abbrev pub ◌and_then◌ :
    SocketOptions × Bool → (SocketOptions → SocketOptions × Bool) → SocketOptions × Bool
(o, true) and_then f = f o
(o, false) and_then f = (o, false)

unfoldable pub set_timeouts : SocketOptions → SocketOptions → SocketOptions × Bool
unfolding set_option
set_timeouts a o =
    (o, true)
    and_then set_option require_non_neg day_ms a.idle_timeout_ms
        (λ o. record o { idle_timeout_ms = a.idle_timeout_ms })
    and_then set_option require_pos day_ms a.connect_timeout_ms
        (λ o. record o { connect_timeout_ms = a.connect_timeout_ms })
    and_then set_option require_non_neg day_ms a.send_timeout_ms
        (λ o. record o { send_timeout_ms = a.send_timeout_ms })
    and_then set_option require_non_neg day_ms a.receive_timeout_ms
        (λ o. record o { receive_timeout_ms = a.receive_timeout_ms })
    and_then set_option require_pos day_ms a.dns_send_timeout_ms
        (λ o. record o { dns_send_timeout_ms = a.dns_send_timeout_ms })
    and_then set_option require_pos day_ms a.dns_receive_timeout_ms
        (λ o. record o { dns_receive_timeout_ms = a.dns_receive_timeout_ms })
    and_then set_option require_pos day_ms a.udp_associate_idle_timeout_ms
        (λ o. record o { udp_associate_idle_timeout_ms = a.udp_associate_idle_timeout_ms })

unfoldable pub set_buffers : SocketOptions → SocketOptions → SocketOptions × Bool
unfolding set_option set_flag
set_buffers a o =
    (o, true)
    and_then set_option require_pos max_buffer a.send_buffer_size
        (λ o. record o { send_buffer_size = a.send_buffer_size })
    and_then set_option require_pos max_buffer a.receive_buffer_size
        (λ o. record o { receive_buffer_size = a.receive_buffer_size })
    and_then set_option require_pos max_buffer a.buffer_size
        (λ o. record o { buffer_size = a.buffer_size })
    and_then set_flag a.no_delay (λ v o. record o { no_delay = v })
    and_then set_flag a.keep_alive (λ v o. record o { keep_alive = v })
    and_then set_flag a.linger_enabled (λ v o. record o { linger_enabled = v })

unfoldable pub set_keep_alive : SocketOptions → SocketOptions → SocketOptions × Bool
unfolding set_option
set_keep_alive a o =
    (o, true)
    and_then set_option require_non_neg 65535 a.linger_timeout_sec
        (λ o. record o { linger_timeout_sec = a.linger_timeout_sec })
    and_then set_option require_pos max_keep_alive a.tcp_keep_alive_time
        (λ o. record o { tcp_keep_alive_time = a.tcp_keep_alive_time })
    and_then set_option require_pos max_keep_alive a.tcp_keep_alive_interval
        (λ o. record o { tcp_keep_alive_interval = a.tcp_keep_alive_interval })
    and_then set_option require_pos 255 a.tcp_keep_alive_retry_count
        (λ o. record o { tcp_keep_alive_retry_count = a.tcp_keep_alive_retry_count })

-- `SetSocketOptions`; the result is false when an argument is refused, and what came before it stays.
unfoldable pub set_socket_options : SocketOptions → SocketOptions → SocketOptions × Bool
unfolding set_timeouts set_buffers set_keep_alive
set_socket_options a o = set_timeouts a o and_then set_buffers a and_then set_keep_alive a

-- `SetMaxConnections`, and `SetUsernamePassword`, with what they change.
unfoldable pub set_max_connections : ℤ → ℤ → ℤ × Bool
set_max_connections connections current =
    if is_negative connections || not (require_max connections 1048576)
    then (current, false)
    else (connections, true)

unfoldable pub set_username_password : List ℕ → List ℕ → List ℕ × List ℕ → (List ℕ × List ℕ) × Bool
set_username_password username password current =
    if length username == 0 || length password == 0
    then (current, false)
    else if ltb 255 (length username) || ltb 255 (length password)
    then (current, false)
    else ((username, password), true)
