-- ===== src/Pool/Lifecycle.antt =====
-- Taking and giving back the static sessions.
use libdtp.Common.{
  ℕ, zero, suc, ◌+◌, ◌≤◌, ◌<◌, ◌≡◌, ◌≢◌, refl, ap, sym, ◌⊎◌, inl, inr, List, [], ◌∷◌, true, false,
  none, some, arith, if◌then◌else◌, length, get_elem?, set, length-set, lt_of_get_elem?,
  get_elem?-set_self, get_elem?-set_ne, Bool-cases,
}
use libdtp.Session.{
  dtp_ok, dtp_err, no_err, enomore_sessions, esession_not_found, Session, SessionHooks,
}
use libdtp.Pool.{
  Pool, StaticSession, SessionPtr, null, foreign, static, Outside, call_hook, acquired, acquire_in,
  dtp_acquire_session, released, dtp_release_session, lookup_session,
}

abbrev pub taken : SessionHooks → Session → StaticSession
taken defaults s = record { session = acquired defaults s; in_use = true }

-- The number of sessions in use.
abbrev pub used : List StaticSession → ℕ
used [] = 0
used (s ∷ rest) = if s.in_use then suc (used rest) else used rest

pub used-le-length : (l : List StaticSession) → used l ≤ length l
used-le-length [] = omega arith
used-le-length (s ∷ l) = ground (arith, used-le-length l)

pub used-set :
    (l : List StaticSession) (i : ℕ) (s v : StaticSession)
    → get_elem? l i ≡ some s
    → used (set l i v) + (if s.in_use then 1 else 0) ≡ used l + (if v.in_use then 1 else 0)
used-set [] i s v e = cc
used-set (x ∷ l) zero s v e = ground arith
used-set (x ∷ l) (suc i) s v e = ground (arith, used-set l i s v e)

-- The loop of `dtp_acquire_session` fails on a table in use, and else takes the first free session.
pub record Takes (defaults : SessionHooks) (l : List StaticSession) (r : ℕ × List StaticSession)
    : Type 0 where
  slot :
      (s : StaticSession) × (get_elem? l r.0 ≡ some s)
      × (s.in_use ≡ false)
      × (r.1 ≡ set l r.0 (taken defaults s.session))
  pub first : (j : ℕ) → j < r.0 → (t : StaticSession) × (get_elem? l j ≡ some t) × (t.in_use ≡ true)

pub acquire_in-cases :
    (defaults : SessionHooks) (l : List StaticSession)
    → ((acquire_in defaults l ≡ none) × (used l ≡ length l))
      ⊎ ((r : ℕ × List StaticSession) × (acquire_in defaults l ≡ some r) × Takes defaults l r)
unfolding acquire_in
acquire_in-cases defaults [] = inl (refl, refl)
acquire_in-cases defaults (s ∷ rest) = elim (Bool-cases s.in_use) [
  | inl busy ↦ elim (acquire_in-cases defaults rest) [
    | inl (e, u) ↦ inl (ground (arith, e), ground arith)
    | inr (r, e, t) ↦ inr (
      (suc r.0, s ∷ r.1),
      ground (arith, e),
      record {
        slot = (t.slot.0, t.slot.1, t.slot.2, ap (λ k. s ∷ k) t.slot.3);
        first = λ j. later rest s busy r t j;
      },
    )
  ]
  | inr free ↦ inr (
    (0, taken defaults s.session ∷ rest),
    ground arith,
    record { slot = (s, refl, free, refl); first = λ j h. absurd (omega arith) },
  )
]
  where
    later :
        (l : List StaticSession) (s : StaticSession)
        → s.in_use ≡ true
        → (r : ℕ × List StaticSession) → Takes defaults l r
        → (j : ℕ) → j < suc r.0
        → (t : StaticSession) × (get_elem? (s ∷ l) j ≡ some t) × (t.in_use ≡ true)
    later l s b r t zero h = (s, refl, b)
    later l s b r t (suc j) h = t.first j (omega arith)

-- `dtp_acquire_session` either finds every session in use, returns NULL and changes nothing but the
-- error, or returns the first free session, marked in use and reset, and changes no other.
pub dtp_acquire_session-cases :
    (p : Pool)
    → let (ptr, p') = dtp_acquire_session p in
      ((used p.static_sessions ≡ length p.static_sessions)
        × (ptr ≡ null)
        × (p' ≡ record p { last_error = enomore_sessions }))
      ⊎ ((i : ℕ) × (s : StaticSession) × (ptr ≡ static i)
          × (get_elem? p.static_sessions i ≡ some s)
          × (s.in_use ≡ false)
          × ((j : ℕ)
              → j < i
              → (t : StaticSession) × (get_elem? p.static_sessions j ≡ some t) × (t.in_use ≡ true))
          × (p' ≡ record p {
            static_sessions = set p.static_sessions i (taken p.default_session_hooks s.session);
            last_error = no_err;
          }))
unfolding dtp_acquire_session
dtp_acquire_session-cases p = elim (acquire_in-cases p.default_session_hooks p.static_sessions) [
  | inl (e, u) ↦ inl (u, ground (arith, e), ground (arith, e))
  | inr (r, e, t) ↦
      inr
        (r.0, t.slot.0, ground (arith, e), t.slot.1, t.slot.2, t.first, ground (arith, e, t.slot.3))
]

module _ {W : Type 0} (out : Outside W) where
  -- The session as its `on_release` hook leaves it, and the world then.
  abbrev pub after_hook : StaticSession → W → Session × W
  after_hook s w =
      call_hook s.session.hooks.on_release (λ h. out.on_release h s.session w) (s.session, w)

  pub release-static :
      (p : Pool) (w : W) (i : ℕ) (s : StaticSession)
      → get_elem? p.static_sessions i ≡ some s
      → dtp_release_session out p w (static i) ≡ (
        dtp_ok,
        record p {
          static_sessions = set p.static_sessions i (released (after_hook s w).0);
          last_error = (after_hook s w).0.dtp_errno;
        },
        out.csp_close (after_hook s w).0.conn (after_hook s w).1,
      )
  unfolding dtp_release_session
  release-static p w i s e = rw e refl

  -- Releasing a session of the table frees it, clears its error and its intervals, leaves every other
  -- session as it was, and keeps the session's error (as the hook leaves it) as the last error.
  pub dtp_release_session-frees :
      (p : Pool) (w : W) (i : ℕ) (s : StaticSession)
      → get_elem? p.static_sessions i ≡ some s
      → let (r, p', w') = dtp_release_session out p w (static i) in
        (r ≡ dtp_ok)
        × (get_elem? p'.static_sessions i ≡ some (released (after_hook s w).0))
        × ((j : ℕ) → j ≢ i → get_elem? p'.static_sessions j ≡ get_elem? p.static_sessions j)
        × (length p'.static_sessions ≡ length p.static_sessions)
        × (s.in_use ≡ true → used p'.static_sessions + 1 ≡ used p.static_sessions)
        × (p'.last_error ≡ (after_hook s w).0.dtp_errno)
  unfolding released
  dtp_release_session-frees p w i s e =
      let l : List StaticSession = p.static_sessions in
      let v : StaticSession = released (after_hook s w).0 in
      rw (release-static p w i s e) (
        refl,
        get_elem?-set_self l i v (lt_of_get_elem? l i e),
        λ j h. get_elem?-set_ne l v (λ q. h (sym q)),
        length-set l i v,
        λ b. ground (arith, used-set l i s v e),
        refl,
      )

  -- Given NULL or the address of another object, it only sets the last error.
  pub dtp_release_session-unknown :
      (p : Pool) (w : W) (ptr : SessionPtr)
      → lookup_session p ptr ≡ none
      → dtp_release_session out p w ptr ≡ (dtp_err, record p { last_error = esession_not_found }, w)
  unfolding dtp_release_session
  dtp_release_session-unknown p w null e = refl
  dtp_release_session-unknown p w foreign e = refl
  dtp_release_session-unknown p w (static i) e = rw e refl
