-- ===== src/Client/Wire.antt =====
-- The request on the wire: `send_remote_meta_req`.
use libdtp.Common.{
  ℕ, ◌<◌, ◌^◌, ◌≡◌, refl, true, arith, Host, little_endian, big_endian, u16, htobe32,
}
use libdtp.Session.{dtp_ok, Session}
use libdtp.Pool.{Outside}
use libdtp.Client.{Network, send_remote_meta_req}

abbrev pub keep_alive_sent : Host → ℕ → ℕ
keep_alive_sent little_endian interval = 0
keep_alive_sent big_endian interval = interval

swapped_interval :
    (host : Host) (interval : ℕ)
    → interval < 2 ^ 16
    → u16 (htobe32 host interval) ≡ keep_alive_sent host interval
swapped_interval little_endian interval h = omega arith
swapped_interval big_endian interval h = omega arith

-- With a buffer at hand and a keep-alive interval of 16 bits, the request is sent, and it is the
-- session's but for that interval on a little-endian host: whatever the caller asked for, the field is
-- then 0, which asks for no keep-alive.
pub send_remote_meta_req_keep_alive :
    {W : Type 0} (out : Outside W) (net : Network W) (host : Host) (s : Session) (w : W)
    → s.request_meta.keep_alive_interval < 2 ^ 16
    → (net.csp_buffer_get w).0 ≡ true
    → send_remote_meta_req out net host s w ≡ (
      dtp_ok,
      net.csp_send s.conn
          (record (s.request_meta) {
            keep_alive_interval = keep_alive_sent host s.request_meta.keep_alive_interval;
          })
          (net.csp_buffer_get w).1,
    )
unfolding send_remote_meta_req
send_remote_meta_req_keep_alive out net host s w h b =
    rw (b, swapped_interval host s.request_meta.keep_alive_interval h) refl
