-- ===== src/Options/Laws.antt =====
-- config/NetworkConfiguration.cpp, `SetSocketOptions`: the limits of the options.
use socks5proxy_native.Prelude.{ℕ, ◌≤◌, Bool, true, false, not, ◌||◌, leb, ltb, if-elim, arith}
use socks5proxy_native.Options.{
  ℤ, pos, negsuc, SocketOptions, default_options, require_pos, require_non_neg, day_ms, max_buffer,
  max_keep_alive, set_option, set_flag, ◌and_then◌, set_timeouts, set_buffers, set_keep_alive,
  set_socket_options,
}

-- Limits of an option.
abbrev pub Within : ℕ → ℕ → ℤ → Type 0
Within low high (pos n) = (low ≤ n) × (n ≤ high)
Within low high (negsuc n) = ⊥

pub record IsInRange (o : SocketOptions) : Type 0 where
  pub idle : Within 0 day_ms o.idle_timeout_ms
  pub connect : Within 1 day_ms o.connect_timeout_ms
  pub send : Within 0 day_ms o.send_timeout_ms
  pub receive : Within 0 day_ms o.receive_timeout_ms
  pub dns_send : Within 1 day_ms o.dns_send_timeout_ms
  pub dns_receive : Within 1 day_ms o.dns_receive_timeout_ms
  pub udp_idle : Within 1 day_ms o.udp_associate_idle_timeout_ms
  pub send_buffer : Within 1 max_buffer o.send_buffer_size
  pub receive_buffer : Within 1 max_buffer o.receive_buffer_size
  pub buffer : Within 1 max_buffer o.buffer_size
  pub linger : Within 0 65535 o.linger_timeout_sec
  pub alive_time : Within 1 max_keep_alive o.tcp_keep_alive_time
  pub alive_interval : Within 1 max_keep_alive o.tcp_keep_alive_interval
  pub alive_retries : Within 1 255 o.tcp_keep_alive_retry_count

-- The options that a step leaves are within the limits.
record KeepsRange (r : SocketOptions × Bool) : Type 0 where
  range : IsInRange r.0

positive_option :
    (maximum : ℕ) (v : ℤ) (put : SocketOptions → SocketOptions)
    → ((o : SocketOptions) → Within 1 maximum v → IsInRange o → IsInRange (put o))
    → (o : SocketOptions) → IsInRange o
    → KeepsRange (set_option require_pos maximum v put o)
unfolding set_option
positive_option maximum (negsuc n) put k o h = record { range = h }
positive_option maximum (pos n) put k o h =
    if-elim {A = SocketOptions × Bool} KeepsRange (not (ltb 0 n) || not (leb n maximum)) (o, false)
      (put o, true) (λ e. record { range = h })
      (λ e. record { range = k o (ground (arith, e), ground (arith, e)) h })

non_negative_option :
    (maximum : ℕ) (v : ℤ) (put : SocketOptions → SocketOptions)
    → ((o : SocketOptions) → Within 0 maximum v → IsInRange o → IsInRange (put o))
    → (o : SocketOptions) → IsInRange o
    → KeepsRange (set_option require_non_neg maximum v put o)
unfolding set_option
non_negative_option maximum (negsuc n) put k o h = record { range = h }
non_negative_option maximum (pos n) put k o h =
    if-elim {A = SocketOptions × Bool} KeepsRange (not (leb n maximum)) (o, false) (put o, true)
      (λ e. record { range = h }) (λ e. record { range = k o (omega arith, ground (arith, e)) h })

flag_option :
    (v : ℤ) (put : ℤ → SocketOptions → SocketOptions)
    → ((w : ℤ) (o : SocketOptions) → IsInRange o → IsInRange (put w o))
    → (o : SocketOptions) → IsInRange o
    → KeepsRange (set_flag v put o)
unfolding set_flag
flag_option (negsuc n) put k o h = record { range = h }
flag_option (pos n) put k o h = record { range = k _ o h }

and_then-IsInRange :
    (r : SocketOptions × Bool) (f : SocketOptions → SocketOptions × Bool)
    → KeepsRange r
    → ((o : SocketOptions) → IsInRange o → KeepsRange (f o))
    → KeepsRange (r and_then f)
and_then-IsInRange (o, true) f h k = k o h.range
and_then-IsInRange (o, false) f h k = record { range = h.range }

set_timeouts-IsInRange : (a o : SocketOptions) → IsInRange o → KeepsRange (set_timeouts a o)
unfolding set_timeouts
set_timeouts-IsInRange a o h =
    (and_then-IsInRange _ _
      (and_then-IsInRange _ _
        (and_then-IsInRange _ _
          (and_then-IsInRange _ _
            (and_then-IsInRange _ _
              (and_then-IsInRange _ _
                (non_negative_option day_ms a.idle_timeout_ms
                  (λ o. record o { idle_timeout_ms = a.idle_timeout_ms })
                  (λ o w h. ground (arith, w, h)) o h)
                (positive_option day_ms a.connect_timeout_ms
                  (λ o. record o { connect_timeout_ms = a.connect_timeout_ms })
                  (λ o w h. ground (arith, w, h))))
              (non_negative_option day_ms a.send_timeout_ms
                (λ o. record o { send_timeout_ms = a.send_timeout_ms })
                (λ o w h. ground (arith, w, h))))
            (non_negative_option day_ms a.receive_timeout_ms
              (λ o. record o { receive_timeout_ms = a.receive_timeout_ms })
              (λ o w h. ground (arith, w, h))))
          (positive_option day_ms a.dns_send_timeout_ms
            (λ o. record o { dns_send_timeout_ms = a.dns_send_timeout_ms })
            (λ o w h. ground (arith, w, h))))
        (positive_option day_ms a.dns_receive_timeout_ms
          (λ o. record o { dns_receive_timeout_ms = a.dns_receive_timeout_ms })
          (λ o w h. ground (arith, w, h))))
      (positive_option day_ms a.udp_associate_idle_timeout_ms
        (λ o. record o { udp_associate_idle_timeout_ms = a.udp_associate_idle_timeout_ms })
        (λ o w h. ground (arith, w, h))))

set_buffers-IsInRange : (a o : SocketOptions) → IsInRange o → KeepsRange (set_buffers a o)
unfolding set_buffers
set_buffers-IsInRange a o h =
    (and_then-IsInRange _ _
      (and_then-IsInRange _ _
        (and_then-IsInRange _ _
          (and_then-IsInRange _ _
            (and_then-IsInRange _ _
              (positive_option max_buffer a.send_buffer_size
                (λ o. record o { send_buffer_size = a.send_buffer_size })
                (λ o w h. ground (arith, w, h)) o h)
              (positive_option max_buffer a.receive_buffer_size
                (λ o. record o { receive_buffer_size = a.receive_buffer_size })
                (λ o w h. ground (arith, w, h))))
            (positive_option max_buffer a.buffer_size
              (λ o. record o { buffer_size = a.buffer_size }) (λ o w h. ground (arith, w, h))))
          (flag_option a.no_delay (λ v o. record o { no_delay = v }) (λ w o h. ground (arith, h))))
        (flag_option a.keep_alive (λ v o. record o { keep_alive = v })
          (λ w o h. ground (arith, h))))
      (flag_option a.linger_enabled (λ v o. record o { linger_enabled = v })
        (λ w o h. ground (arith, h))))

set_keep_alive-IsInRange : (a o : SocketOptions) → IsInRange o → KeepsRange (set_keep_alive a o)
unfolding set_keep_alive
set_keep_alive-IsInRange a o h =
    (and_then-IsInRange _ _
      (and_then-IsInRange _ _
        (and_then-IsInRange _ _
          (non_negative_option 65535 a.linger_timeout_sec
            (λ o. record o { linger_timeout_sec = a.linger_timeout_sec })
            (λ o w h. ground (arith, w, h)) o h)
          (positive_option max_keep_alive a.tcp_keep_alive_time
            (λ o. record o { tcp_keep_alive_time = a.tcp_keep_alive_time })
            (λ o w h. ground (arith, w, h))))
        (positive_option max_keep_alive a.tcp_keep_alive_interval
          (λ o. record o { tcp_keep_alive_interval = a.tcp_keep_alive_interval })
          (λ o w h. ground (arith, w, h))))
      (positive_option 255 a.tcp_keep_alive_retry_count
        (λ o. record o { tcp_keep_alive_retry_count = a.tcp_keep_alive_retry_count })
        (λ o w h. ground (arith, w, h))))

-- Whatever the arguments are, and also when one of them is refused after others were stored, options
-- within the limits stay within them.
pub set_socket_options-IsInRange :
    (a o : SocketOptions) → IsInRange o → IsInRange (set_socket_options a o).0
unfolding set_socket_options
set_socket_options-IsInRange a o h =
    (and_then-IsInRange (set_timeouts a o and_then set_buffers a) (set_keep_alive a)
      (and_then-IsInRange (set_timeouts a o) (set_buffers a) (set_timeouts-IsInRange a o h)
        (set_buffers-IsInRange a))
      (set_keep_alive-IsInRange a)).range

pub default_options-IsInRange : IsInRange default_options
default_options-IsInRange = record {
  idle = (omega arith, omega arith);
  connect = (omega arith, omega arith);
  send = (omega arith, omega arith);
  receive = (omega arith, omega arith);
  dns_send = (omega arith, omega arith);
  dns_receive = (omega arith, omega arith);
  udp_idle = (omega arith, omega arith);
  send_buffer = (omega arith, omega arith);
  receive_buffer = (omega arith, omega arith);
  buffer = (omega arith, omega arith);
  linger = (omega arith, omega arith);
  alive_time = (omega arith, omega arith);
  alive_interval = (omega arith, omega arith);
  alive_retries = (omega arith, omega arith);
}
