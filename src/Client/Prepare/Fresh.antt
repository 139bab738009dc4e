-- ===== src/Client/Prepare/Fresh.antt =====
-- What `dtp_prepare_session` gives its caller when a session is free.
use libdtp.Common.{
  ℕ, ◌<◌, ◌≡◌, ◌≢◌, refl, ◌∙◌, sym, List, true, false, some, get_elem?, set, u16, inl, inr, arith,
  length, length-set, lt_of_get_elem?, get_elem?-set_self, get_elem?-set_ne,
}
use libdtp.Session.{no_err, SessionHooks, Session}
use libdtp.Pool.{Pool, StaticSession, static, Outside, acquired, whole_payload}
use libdtp.Pool.Options.{dtp_set_opt}
use libdtp.Pool.Lifecycle.{used, taken, dtp_acquire_session-cases}
use libdtp.Client.Prepare.{
  Request, Prepared, dtp_prepare_session, prepare, prepare_at, prepare_fresh, set_opts, ready,
  given_up, put_session,
}

-- A session set up for a whole download by `q`.
pub record Configured (defaults : SessionHooks) (q : Request) (s : Session) : Type 0 where
  pub remote : s.node ≡ u16 q.server
  pub throughput : s.request_meta.throughput ≡ q.max_throughput
  pub timeout : s.timeout ≡ q.timeout
  pub payload : s.request_meta.payload_id ≡ q.payload_id
  pub mtu : s.request_meta.mtu ≡ q.mtu
  pub session_id : s.request_meta.session_id ≡ q.session_id
  pub keep_alive : s.request_meta.keep_alive_interval ≡ u16 q.keep_alive_interval
  pub context : s.user_context ≡ q.ctx
  pub nothing_received : s.bytes_received ≡ 0
  pub idle : s.active ≡ false
  pub one_interval : s.request_meta.nof_intervals ≡ 1
  pub data_hook : s.hooks.on_data_packet ≡ defaults.on_data_packet
  pub end_hook : s.hooks.on_end ≡ defaults.on_end

abbrev session_of : Prepared → Session
session_of (ready s) = s
session_of (given_up s) = s

module _ {W : Type 0} (out : Outside W) where
  prepare_fresh-Configured :
      (defaults : SessionHooks) (q : Request) (s : Session) (w : W)
      → q.resume ≡ false
      → (s' : Session) × (prepare out q (acquired defaults s) w ≡ (ready s', w))
        × Configured defaults q s'
        × (s'.request_meta.intervals ≡ set s.request_meta.intervals 0 whole_payload)
  unfolding prepare prepare_fresh set_opts dtp_set_opt acquired
  prepare_fresh-Configured defaults q s w r = (
    session_of (prepare_fresh q (record (acquired defaults s) { user_context = q.ctx })),
    rw r refl,
    record {
      remote = refl;
      throughput = refl;
      timeout = refl;
      payload = refl;
      mtu = refl;
      session_id = refl;
      keep_alive = refl;
      context = refl;
      nothing_received = refl;
      idle = refl;
      one_interval = refl;
      data_hook = refl;
      end_hook = refl;
    },
    refl,
  )

  prepared_at :
      (q : Request) (p : Pool) (w w' : W) (i : ℕ) (s : StaticSession) (s' : Session)
      → get_elem? p.static_sessions i ≡ some s
      → prepare out q s.session w ≡ (ready s', w')
      → prepare_at out q p w (static i) ≡ (static i, put_session p i s', w')
  prepared_at q p w w' i s s' e f = rw (prepare_at, e, f) refl

  -- Without a download to resume, and with a free session, `dtp_prepare_session` returns the first free
  -- session. It is now in use and set up as the caller asked, for the whole payload in one interval;
  -- the other sessions are as they were, the last error is cleared, and nothing is asked of the
  -- outside.
  pub dtp_prepare_session_fresh :
      (q : Request) (p : Pool) (w : W)
      → q.resume ≡ false
      → used p.static_sessions ≢ length p.static_sessions
      → (i : ℕ) × (s : StaticSession) × (s' : Session) × (p' : Pool) × (dtp_prepare_session out q p
            w
          ≡ (static i, p', w))
        × (get_elem? p.static_sessions i ≡ some s)
        × (s.in_use ≡ false)
        × ((j : ℕ)
            → j < i
            → (t : StaticSession) × (get_elem? p.static_sessions j ≡ some t) × (t.in_use ≡ true))
        × (get_elem? p'.static_sessions i ≡ some (record { session = s'; in_use = true }))
        × ((j : ℕ) → j ≢ i → get_elem? p'.static_sessions j ≡ get_elem? p.static_sessions j)
        × (p'.last_error ≡ no_err)
        × Configured p.default_session_hooks q s'
        × (s'.request_meta.intervals ≡ set s.session.request_meta.intervals 0 whole_payload)
  unfolding dtp_prepare_session
  dtp_prepare_session_fresh q p w r free = elim (dtp_acquire_session-cases p) [
    | inl (u, e, f) ↦ absurd (free u)
    | inr (i, s, e, g, f, before, k) ↦
        let l : List StaticSession = p.static_sessions in
        let t : StaticSession = taken p.default_session_hooks s.session in
        let p₁ : Pool = record p { static_sessions = set l i t; last_error = no_err } in
        let (s', d, c, v) = prepare_fresh-Configured p.default_session_hooks q s.session w r in
        let v' : StaticSession = record { session = s'; in_use = true } in
        let h = lt_of_get_elem? l i g in
        (
          i,
          s,
          s',
          put_session p₁ i s',
          rw (e, k) (prepared_at q p₁ w w i t s' (get_elem?-set_self l i t h) d),
          g,
          f,
          before,
          get_elem?-set_self (set l i t) i v' (omega (arith, h, length-set l i t)),
          λ j n.
              get_elem?-set_ne (set l i t) v' (λ m. n (sym m))
              ∙ get_elem?-set_ne l t (λ m. n (sym m)),
          refl,
          c,
          v,
        )
  ]
