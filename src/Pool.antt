-- ===== src/Pool.antt =====
-- src/dtp.c: the static sessions, their options and errors.
-- `W` is the world outside the library (connections, files); what the code calls there is `Outside`.
pub mod Options
pub mod Lifecycle
pub mod Activity
pub mod Ownership
pub mod Defaults
use libdtp.Common.{
  ℕ, zero, suc, ◌+◌, ◌-◌, ◌/◌, ◌%◌, ◌^◌, List, [], ◌∷◌, map, Bool, true, false, not, ◌&&◌, ◌||◌,
  Option, none, some, ◌==◌, ltb, if◌then◌else◌, get_elem?, set, sub32, u32, u32_max, ◌>>=◌,
}
use libdtp.Session.{
  DtpResult, dtp_ok, dtp_err, Errno, no_err, enomore_sessions, esession_not_found, Interval,
  MetaReq, SessionHooks, Session, Packet, chunk_size,
}

pub record StaticSession : Type 0 where
  pub session : Session
  pub in_use : Bool

-- The globals of the file.
pub record Pool : Type 0 where
  pub static_sessions : List StaticSession
  pub last_error : Errno
  pub default_session_hooks : SessionHooks

abbrev pub dtp_nof_static_sessions : ℕ
dtp_nof_static_sessions = 5

-- A `dtp_t *`: NULL, one of the static sessions, or the address of another object, which only
-- `dtp_release_session` tells from a session of the table.
pub data SessionPtr : Type 0 where
  null foreign : SessionPtr
  static : ℕ → SessionPtr

-- What the code calls through pointers and in other libraries: the hooks, by their addresses, and
-- `csp_close`.
pub record Outside (W : Type 0) : Type 0 where
  pub on_start : ℕ → Session → W → Session × W
  pub on_data_packet : ℕ → Packet → Session → W → Bool × Session × W
  pub on_end : ℕ → Session → W → Session × W
  pub on_release : ℕ → Session → W → Session × W
  pub on_serialize : ℕ → ℕ → Session → W → Session × W
  pub on_deserialize : ℕ → ℕ → Session → W → Session × W
  pub csp_close : ℕ → W → W

-- `if (hook) hook(..)`
abbrev pub call_hook {ℓ} : {A : Type ℓ} → ℕ → (ℕ → A) → A → A
call_hook hook call skip = if hook == 0 then skip else call hook

abbrev pub lookup_session : Pool → SessionPtr → Option StaticSession
lookup_session p null = none
lookup_session p foreign = none
lookup_session p (static i) = get_elem? p.static_sessions i

abbrev pub errno_of : Pool → Option StaticSession → Errno
errno_of p none = p.last_error
errno_of p (some s) = s.session.dtp_errno

-- For a session of the table, or NULL.
unfoldable pub dtp_errno : Pool → SessionPtr → Errno
dtp_errno p ptr = errno_of p (lookup_session p ptr)

-- The six hooks that `dtp_set_opt` copies.
abbrev pub copy_hooks : SessionHooks → SessionHooks → SessionHooks
copy_hooks to from = record to {
  on_start = from.on_start;
  on_data_packet = from.on_data_packet;
  on_end = from.on_end;
  on_release = from.on_release;
  on_serialize = from.on_serialize;
  on_deserialize = from.on_deserialize;
}

abbrev pub whole_payload : Interval
whole_payload = record { start = 0; end = u32_max }

-- The assignments of `dtp_acquire_session` to the session that it takes.
abbrev pub set_first : List Interval → Interval → List Interval
set_first l v = set l 0 v

unfoldable pub acquired : SessionHooks → Session → Session
acquired defaults s = record s {
  bytes_received = 0;
  active = false;
  user_context = 0;
  request_meta = record (s.request_meta) {
    nof_intervals = 1;
    intervals = set_first s.request_meta.intervals whole_payload;
    session_id = 0;
  };
  hooks = copy_hooks s.hooks defaults;
}

-- Its loop: the index of the first free session, and the table with that one taken.
unfoldable pub acquire_in : SessionHooks → List StaticSession → Option (ℕ × List StaticSession)
unfolding acquired
acquire_in defaults [] = none
acquire_in defaults (s ∷ rest) =
    let later = acquire_in defaults rest in
    if s.in_use
    then (later >>= λ r. some (suc r.0, s ∷ r.1))
    else some (0, record { session = acquired defaults s.session; in_use = true } ∷ rest)

abbrev pub acquire_result : Pool → Option (ℕ × List StaticSession) → SessionPtr × Pool
acquire_result p none = (null, record p { last_error = enomore_sessions })
acquire_result p (some (i, slots)) =
    (static i, record p { static_sessions = slots; last_error = no_err })

unfoldable pub dtp_acquire_session : Pool → SessionPtr × Pool
unfolding acquire_in
dtp_acquire_session p = acquire_result p (acquire_in p.default_session_hooks p.static_sessions)

-- The assignments of `dtp_release_session`.
unfoldable pub released : Session → StaticSession
released s = record {
  session = record s {
    user_context = 0;
    bytes_received = 0;
    request_meta = record (s.request_meta) { nof_intervals = 0 };
    dtp_errno = no_err;
  };
  in_use = false;
}

module _ {W : Type 0} (out : Outside W) where
  abbrev pub release_at : Pool → W → ℕ → Option StaticSession → DtpResult × Pool × W
  release_at p w i none = (dtp_err, record p { last_error = esession_not_found }, w)
  release_at p w i (some s) =
      let (s', w') =
        call_hook s.session.hooks.on_release (λ h. out.on_release h s.session w) (s.session, w) in
      (
        dtp_ok,
        record p {
          static_sessions = set p.static_sessions i (released s');
          last_error = s'.dtp_errno;
        },
        out.csp_close s'.conn w',
      )

  unfoldable pub dtp_release_session : Pool → W → SessionPtr → DtpResult × Pool × W
  unfolding released
  dtp_release_session p w null = release_at p w 0 none
  dtp_release_session p w foreign = release_at p w 0 none
  dtp_release_session p w (static i) = release_at p w i (get_elem? p.static_sessions i)

  -- `dtp_serialize_session` and `dtp_deserialize_session`.
  unfoldable pub dtp_serialize_session : Session → ℕ → W → DtpResult × Session × W
  dtp_serialize_session s ctx w =
      let (s', w') = call_hook s.hooks.on_serialize (λ h. out.on_serialize h ctx s w) (s, w) in
      (dtp_ok, s', w')

  unfoldable pub dtp_deserialize_session : Session → ℕ → W → DtpResult × Session × W
  dtp_deserialize_session s ctx w =
      let (s', w') = call_hook s.hooks.on_deserialize (λ h. out.on_deserialize h ctx s w) (s, w) in
      (dtp_ok, s', w')

abbrev pub stop_slot : ℕ → StaticSession → StaticSession
stop_slot session_id s =
    if s.in_use && ((session_id == 0) || (session_id == s.session.request_meta.session_id))
    then record s { session = record (s.session) { active = false } }
    else s

abbrev pub stop_in : ℕ → List StaticSession → List StaticSession
stop_in session_id [] = []
stop_in session_id (s ∷ rest) = stop_slot session_id s ∷ stop_in session_id rest

unfoldable pub dtp_stop_transfer : Pool → ℕ → DtpResult × Pool
dtp_stop_transfer p session_id =
    (dtp_ok, record p { static_sessions = stop_in session_id p.static_sessions })

abbrev pub any_active : List StaticSession → Bool
any_active [] = false
any_active (s ∷ rest) = (s.in_use && s.session.active) || any_active rest

abbrev pub active_of : Pool → Option StaticSession → Bool
active_of p none = any_active p.static_sessions
active_of p (some s) = s.session.active

unfoldable pub dtp_is_active : Pool → SessionPtr → Bool
dtp_is_active p ptr = active_of p (lookup_session p ptr)

-- `dtp_set_errno`
abbrev pub set_errno_at : Pool → ℕ → Errno → Option StaticSession → Pool
set_errno_at p i err none = record p { last_error = err }
set_errno_at p i err (some s) = record p {
  static_sessions =
      set p.static_sessions i (record s { session = record (s.session) { dtp_errno = err } });
}

unfoldable pub dtp_set_errno : Pool → SessionPtr → Errno → Pool
dtp_set_errno p null err = record p { last_error = err }
dtp_set_errno p foreign err = p
dtp_set_errno p (static i) err = set_errno_at p i err (get_elem? p.static_sessions i)

-- The difference of the times wraps; it is not 0 where it divides.
unfoldable pub compute_throughput : ℕ → ℕ → ℕ → ℕ
compute_throughput now last_ts bytes_sent =
    if now == last_ts then 0 else bytes_sent / sub32 now last_ts

pub record DataInfo : Type 0 where
  pub packet_sequence_number : ℕ
  pub data_offset : ℕ
  pub data_length : ℕ

-- `none` for the division by zero at an MTU of 8.
unfoldable pub dtp_get_data_info : Session → Packet → Option DataInfo
dtp_get_data_info s p =
    let chunk = chunk_size s.request_meta.mtu in
    if chunk == 0
    then none
    else some (record {
      packet_sequence_number = p.data32_0 / chunk;
      data_offset = p.data32_0;
      data_length = sub32 p.packet_length 8;
    })
