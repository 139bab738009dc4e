-- ===== src/Client/Prepare/Errors.antt =====
-- How `dtp_prepare_session` and `dtp_client_main` end when no session is free, and the error that they
-- leave.
use libdtp.Common.{
  ℕ, zero, suc, ◌<◌, ◌≡◌, refl, List, [], ◌∷◌, Bool, false, none, some, get_elem?, Host, inl, inr,
  arith, length,
}
use libdtp.Session.{dtp_err, enomore_sessions, esession_not_found}
use libdtp.Protocol.{Floats}
use libdtp.Pool.{Pool, StaticSession, null, Outside, dtp_set_errno, dtp_release_session}
use libdtp.Pool.Lifecycle.{used, dtp_acquire_session-cases, used-le-length}
use libdtp.Client.{Network}
use libdtp.Client.Prepare.{Request, dtp_prepare_session, dtp_client_main, no_session}

-- A table with a free session is not full.
free-not-full :
    (l : List StaticSession) (i : ℕ) (s : StaticSession)
    → get_elem? l i ≡ some s
    → s.in_use ≡ false
    → used l < length l
free-not-full [] i s e f = cc
free-not-full (x ∷ l) zero s e f = ground (arith, used-le-length l)
free-not-full (x ∷ l) (suc i) s e f = ground (arith, free-not-full l i s e f)

module _ {W : Type 0} (out : Outside W) where
  no_session_lem :
      (p : Pool) (w : W)
      → no_session out p w ≡ (null, record p { last_error = esession_not_found }, w)
  unfolding dtp_set_errno dtp_release_session
  no_session_lem p w = refl

  -- With every session in use, `dtp_prepare_session` returns NULL, and the last error is that a session
  -- was not found. Nothing else changes.
  pub dtp_prepare_session_full :
      (q : Request) (p : Pool) (w : W)
      → used p.static_sessions ≡ length p.static_sessions
      → dtp_prepare_session out q p w ≡ (null, record p { last_error = esession_not_found }, w)
  unfolding dtp_prepare_session
  dtp_prepare_session_full q p w full = elim (dtp_acquire_session-cases p) [
    | inl (u, e, f) ↦ rw (e, f) (no_session_lem (record p { last_error = enomore_sessions }) w)
    | inr (i, s, e, g, free, before, f) ↦
        absurd (omega (arith, full, free-not-full p.static_sessions i s g free))
  ]

  -- With every session in use, `dtp_client_main` fails without a message to the server, hands over no
  -- session, and leaves the error that a session was not found, not that there are no more sessions.
  pub dtp_client_main_full :
      (net : Network W) (floats : Floats) (host : Host) (fuel : ℕ) (q : Request) (has_out : Bool)
      (p : Pool) (w : W)
      → used p.static_sessions ≡ length p.static_sessions
      → dtp_client_main out net floats host fuel q has_out p w
        ≡ some (dtp_err, record p { last_error = esession_not_found }, w, none)
  unfolding dtp_client_main dtp_release_session
  dtp_client_main_full net floats host fuel q has_out p w full =
      rw (dtp_prepare_session_full (record q { session_id = 0x900d_face }) p w full) refl
