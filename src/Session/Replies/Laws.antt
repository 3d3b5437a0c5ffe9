-- ===== src/Session/Replies/Laws.antt =====
-- Replies and frames as a client reads them.
use socks5proxy_native.Prelude.{
  ℕ, ◌<◌, ◌≡◌, ◌≢◌, List, ◌++◌, length, take-append, drop-append, length-append, arith,
}
use socks5proxy_native.Session.Replies.{gss_frame, frame, try_read_gss_frame}

-- A frame of a type other than 0xFF, with a token below 65536 bytes, is read back, with the bytes that
-- follow it.
pub try_read_gss_frame-gss_frame :
    (mtyp : ℕ) (token rest : List ℕ)
    → mtyp ≢ 0xFF
    → length token < 65536
    → try_read_gss_frame mtyp (gss_frame mtyp token ++ rest) ≡ frame token rest
unfolding try_read_gss_frame gss_frame
try_read_gss_frame-gss_frame mtyp token rest t h = ground (
  arith,
  length-append token rest,
  take-append token rest (length token),
  drop-append token rest (length token),
)
