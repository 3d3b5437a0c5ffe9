-- ===== src/Tests/Settings.antt =====
-- The setter of the socket options, with an argument that is refused.
use socks5proxy_native.Options.{pos, SocketOptions, default_options, set_socket_options}
use socks5proxy_native.Options.Laws.{
  IsInRange, set_socket_options-IsInRange, default_options-IsInRange,
}

abbrev too_long : SocketOptions
too_long = record default_options { send_timeout_ms = pos 100000000 }

set_socket_options-IsInRange_example : IsInRange (set_socket_options too_long default_options).0
set_socket_options-IsInRange_example =
    set_socket_options-IsInRange too_long default_options default_options-IsInRange
