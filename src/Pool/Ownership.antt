-- ===== src/Pool/Ownership.antt =====
-- src/dtp.c: who holds which static session, over any calls.
pub mod Table
pub mod Exclusive
use mathlib.Core.Path.{subst}
use libdtp.Common.{
  ℕ, zero, suc, ◌≤◌, ◌<◌, ◌≡◌, ◌≢◌, refl, sym, ap, ◌∙◌, ◌⊎◌, inl, inr, List, [], ◌∷◌, Bool, true,
  false, Option, none, some, arith, if◌then◌else◌, ◌==◌, length, get_elem?, set, length-set,
  get_elem?-total, lt_of_get_elem?, some_inj, get_elem?-set_self, get_elem?-set_ne, Bool-cases,
  if-false,
}
use libdtp.Session.{DtpResult, Errno, Session, SessionHooks}
use libdtp.Pool.{
  Pool, StaticSession, SessionPtr, null, foreign, static, Outside, set_errno_at,
  dtp_nof_static_sessions, stop_slot, stop_in, dtp_acquire_session, dtp_release_session,
  dtp_stop_transfer, dtp_set_errno, lookup_session, released,
}
use libdtp.Pool.Lifecycle.{
  used, used-le-length, taken, dtp_acquire_session-cases, release-static, after_hook,
  dtp_release_session-unknown,
}

-- The holders: whether the session at an index has been handed out and not been released since.
abbrev pub mark : Bool → ℕ → (ℕ → Bool) → ℕ → Bool
mark b i held j = if j == i then b else held j

-- What calls lead to, from the table as it is when the program starts.
pub data Reach {W : Type 0} (out : Outside W) : (ℕ → Bool) → Pool → W → Type 0 where
  started :
      (p : Pool) (w : W)
      → used p.static_sessions ≡ 0
      → length p.static_sessions ≡ dtp_nof_static_sessions
      → Reach out (λ i. false) p w
  outside : {held : ℕ → Bool} {p : Pool} {w : W} (w' : W) → Reach out held p w → Reach out held p w'
  -- A holder, or the library on its behalf, writes the session: its options, its state, its hooks.
  written :
      {held : ℕ → Bool} {p : Pool} {w : W} (i : ℕ) (s : Session)
      → Reach out held p w
      → held i ≡ true
      → Reach out held
          (record p {
            static_sessions = set p.static_sessions i (record { session = s; in_use = true });
          })
          w
  errno :
      {held : ℕ → Bool} {p : Pool} {w : W} (ptr : SessionPtr) (err : Errno)
      → Reach out held p w
      → Reach out held (dtp_set_errno p ptr err) w
  stopped :
      {held : ℕ → Bool} {p : Pool} {w : W} (session_id : ℕ)
      → Reach out held p w
      → Reach out held (dtp_stop_transfer p session_id).1 w
  acquired :
      {held : ℕ → Bool} {p p' : Pool} {w : W} (i : ℕ)
      → Reach out held p w
      → dtp_acquire_session p ≡ (static i, p')
      → Reach out (mark true i held) p' w
  refused :
      {held : ℕ → Bool} {p p' : Pool} {w : W}
      → Reach out held p w
      → dtp_acquire_session p ≡ (null, p')
      → Reach out held p' w
  freed :
      {held : ℕ → Bool} {p p' : Pool} {w w' : W} {r : DtpResult} (i : ℕ)
      → Reach out held p w
      → held i ≡ true
      → dtp_release_session out p w (static i) ≡ (r, p', w')
      → Reach out (mark false i held) p' w'
  unknown :
      {held : ℕ → Bool} {p p' : Pool} {w w' : W} {r : DtpResult} (ptr : SessionPtr)
      → Reach out held p w
      → lookup_session p ptr ≡ none
      → dtp_release_session out p w ptr ≡ (r, p', w')
      → Reach out held p' w'

-- The table and its holders agree.
pub record Agrees (held : ℕ → Bool) (l : List StaticSession) : Type 0 where
  pub five : length l ≡ dtp_nof_static_sessions
  pub in_table : (i : ℕ) → held i ≡ true → i < dtp_nof_static_sessions
  pub flags : (i : ℕ) (s : StaticSession) → get_elem? l i ≡ some s → s.in_use ≡ held i
