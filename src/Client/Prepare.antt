-- ===== src/Client/Prepare.antt =====
-- `dtp_prepare_session` and `dtp_client_main`, on the table of static sessions.
pub mod Errors
pub mod Fresh
pub mod Held
use libdtp.Common.{
  ℕ, zero, suc, ◌%◌, ◌^◌, List, [], ◌∷◌, Bool, true, false, ◌&&◌, ◌||◌, Option, none, some, ◌==◌,
  if◌then◌else◌, get_elem?, set, u16, ◌>>=◌, Host,
}
use libdtp.Session.{
  DtpResult, dtp_ok, dtp_err, dtp_cancelled, Errno, no_err, einval, enomore_sessions,
  esession_not_found, connection_failed, malloc_failed, not_implemented, session_exhausted, Session,
}
use libdtp.Protocol.{Floats}
use libdtp.Pool.{
  Pool, StaticSession, SessionPtr, null, foreign, static, Outside, dtp_acquire_session,
  dtp_release_session, dtp_set_errno, dtp_deserialize_session,
}
use libdtp.Pool.Options.{
  DtpOption, remote_cfg, session_hooks_cfg, throughput_cfg, timeout_cfg, payload_id_cfg, mtu_cfg,
  session_id_cfg, unknown_cfg, DtpParams, dtp_set_opt,
}
use libdtp.Client.{Network, dtp_start_transfer}

-- The parameters of `dtp_prepare_session`.
pub record Request : Type 0 where
  pub server : ℕ
  pub session_id : ℕ
  pub max_throughput : ℕ
  pub timeout : ℕ
  pub payload_id : ℕ
  pub ctx : ℕ
  pub mtu : ℕ
  pub resume : Bool
  pub keep_alive_interval : ℕ

abbrev pub is_ok : DtpResult → Bool
is_ok dtp_ok = true
is_ok dtp_err = false
is_ok dtp_cancelled = false

abbrev pub is_no_err : Errno → Bool
is_no_err no_err = true
is_no_err einval = false
is_no_err enomore_sessions = false
is_no_err esession_not_found = false
is_no_err connection_failed = false
is_no_err malloc_failed = false
is_no_err not_implemented = false
is_no_err session_exhausted = false

-- The union `remote_cfg`, once each of its members has been set.
abbrev pub params_of : Request → Session → DtpParams
params_of q s = record {
  node = u16 q.server;
  hooks = s.hooks;
  throughput = q.max_throughput;
  timeout = q.timeout;
  payload_id = q.payload_id;
  mtu = q.mtu;
  session_id = q.session_id;
}

-- A run of `dtp_set_opt`, given up at the first that fails.
unfoldable pub set_opts : List DtpOption → DtpParams → Session → DtpResult × Session
set_opts [] p s = (dtp_ok, s)
set_opts (o ∷ rest) p s =
    let (r, s') = dtp_set_opt s o p in
    let later = set_opts rest p s' in if is_ok r then later else (r, s')

abbrev pub all_options : List DtpOption
all_options =
    remote_cfg ∷ throughput_cfg ∷ timeout_cfg ∷ payload_id_cfg ∷ mtu_cfg ∷ session_id_cfg ∷ []

-- What becomes of the session: it is returned, or given up at `get_out_please`.
pub data Prepared : Type 0 where
  ready given_up : Session → Prepared

abbrev pub start_download : Request → Session → Prepared
start_download q s = ready (record s {
  request_meta = record (s.request_meta) { keep_alive_interval = u16 q.keep_alive_interval };
})

abbrev pub after_opts : Request → DtpResult × Session → Prepared
after_opts q (r, s) = if is_ok r then start_download q s else given_up s

-- No download to resume.
unfoldable pub prepare_fresh : Request → Session → Prepared
unfolding set_opts dtp_set_opt
prepare_fresh q s = after_opts q (set_opts all_options (params_of q s) s)

-- After the deserialization.
unfoldable pub prepare_resumed : Request → DtpResult → Session → Prepared
unfolding prepare_fresh
prepare_resumed q res s =
    if is_ok res && is_no_err s.dtp_errno
    then (if (s.bytes_received == s.payload_size) || (s.request_meta.nof_intervals == 0)
        then given_up (record s { dtp_errno = session_exhausted })
        else start_download q s)
    else prepare_fresh q s

abbrev pub put_session : Pool → ℕ → Session → Pool
put_session p i s = record p {
  static_sessions = set p.static_sessions i (record { session = s; in_use = true });
}

module _ {W : Type 0} (out : Outside W) where
  unfoldable pub prepare : Request → Session → W → Prepared × W
  unfolding prepare_resumed dtp_deserialize_session
  prepare q s w =
      let s₁ = record s { user_context = q.ctx } in
      let (res, s₂, w₂) = dtp_deserialize_session out s₁ q.ctx w in
      if q.resume then (prepare_resumed q res s₂, w₂) else (prepare_fresh q s₁, w)

  abbrev pub released_null : DtpResult × Pool × W → SessionPtr × Pool × W
  released_null (r, p, w) = (null, p, w)

  abbrev pub finish : Pool → ℕ → Prepared × W → SessionPtr × Pool × W
  finish p i (ready s, w) = (static i, put_session p i s, w)
  finish p i (given_up s, w) =
      released_null (dtp_release_session out (put_session p i s) w (static i))

  -- `get_out_please` is reached with a NULL session, too.
  abbrev pub no_session : Pool → W → SessionPtr × Pool × W
  no_session p w =
      released_null (dtp_release_session out (dtp_set_errno p null enomore_sessions) w null)

  abbrev pub prepare_at : Request → Pool → W → SessionPtr → SessionPtr × Pool × W
  prepare_at q p w null = no_session p w
  prepare_at q p w foreign = no_session p w
  prepare_at q p w (static i) = elim (get_elem? p.static_sessions i) [
    | none ↦ no_session p w
    | some s ↦ finish p i (prepare q s.session w)
  ]

  unfoldable pub dtp_prepare_session : Request → Pool → W → SessionPtr × Pool × W
  unfolding prepare
  dtp_prepare_session q p w = let (ptr, p') = dtp_acquire_session p in prepare_at q p' w ptr

  module _ (net : Network W) where
    -- The end of `dtp_client_main`: the session is the caller's after `DTP_OK` or `DTP_CANCELLED`, if
    -- there is an `out_session`, and is released else. The last part is `*out_session`.
    abbrev pub hand_over :
        Bool → DtpResult → SessionPtr → Pool → W → DtpResult × Pool × W × Option SessionPtr
    hand_over has_out dtp_err ptr p w =
        let (_, p', w') = dtp_release_session out p w ptr in (dtp_err, p', w', none)
    hand_over true dtp_ok ptr p w = (dtp_ok, p, w, some ptr)
    hand_over true dtp_cancelled ptr p w = (dtp_cancelled, p, w, some ptr)
    hand_over false dtp_ok ptr p w =
        let (_, p', w') = dtp_release_session out p w ptr in (dtp_ok, p', w', none)
    hand_over false dtp_cancelled ptr p w =
        let (_, p', w') = dtp_release_session out p w ptr in (dtp_cancelled, p', w', none)

    abbrev pub run_at :
        Floats
        → Host
        → ℕ
        → Bool
        → Pool
        → W
        → SessionPtr
        → Option (DtpResult × Pool × W × Option SessionPtr)
    run_at floats host fuel has_out p w null = some (hand_over has_out dtp_err null p w)
    run_at floats host fuel has_out p w foreign = some (hand_over has_out dtp_err foreign p w)
    run_at floats host fuel has_out p w (static i) = get_elem? p.static_sessions i >>= λ s.
        dtp_start_transfer out net floats host fuel s.session w >>= λ r.
        some (hand_over has_out r.0 (static i) (put_session p i r.1) r.2)

    unfoldable pub dtp_client_main :
        Floats
        → Host
        → ℕ
        → Request
        → Bool
        → Pool
        → W
        → Option (DtpResult × Pool × W × Option SessionPtr)
    unfolding dtp_prepare_session
    dtp_client_main floats host fuel q has_out p w =
        let (ptr, p', w') = dtp_prepare_session (record q { session_id = 0x900d_face }) p w in
        run_at floats host fuel has_out p' w' ptr
