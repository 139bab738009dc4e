-- ===== src/Tests/Pool.antt =====
-- The table of sessions, and what the client does with it.
use libdtp.Common.{
  ℕ, Bool, [], ◌∷◌, ◌+◌, ◌≡◌, ◌≢◌, refl, ◌<◌, ◌⊎◌, true, false, some, get_elem?, set, length, arith,
}
use libdtp.Session.{Session, dtp_ok, no_err, esession_not_found}
use libdtp.Pool.{
  Pool, StaticSession, dtp_nof_static_sessions, null, static, dtp_acquire_session,
  dtp_release_session, released, dtp_stop_transfer, dtp_is_active, whole_payload,
}
use libdtp.Pool.Lifecycle.{used, after_hook, dtp_release_session-frees}
use libdtp.Pool.Activity.{Reaches, dtp_stop_transfer-stops}
use libdtp.Client.Prepare.{dtp_prepare_session}
use libdtp.Client.Prepare.Errors.{dtp_prepare_session_full}
use libdtp.Client.Prepare.Fresh.{Configured, dtp_prepare_session_fresh}
use libdtp.Pool.Ownership.{mark, Reach, started, acquired}
use libdtp.Pool.Ownership.Exclusive.{dtp_acquire_session-Reach}
use libdtp.Client.Prepare.Held.{Hands, dtp_prepare_session-Hands}
use libdtp.Tests.Data.{pool, wish, slot, half_full, all_full, out}

-- The second session is the first free one.
second_taken : (dtp_acquire_session half_full).0 ≡ static 1
unfolding dtp_acquire_session
second_taken = refl

dtp_release_session-frees_example :
    let (r, p', w') = dtp_release_session out half_full 4 (static 2) in
    (r ≡ dtp_ok)
    × (get_elem? p'.static_sessions 2 ≡ some (released (after_hook out (slot true) 4).0))
    × ((j : ℕ) → j ≢ 2 → get_elem? p'.static_sessions j ≡ get_elem? half_full.static_sessions j)
    × (length p'.static_sessions ≡ length half_full.static_sessions)
    × ((slot true).in_use ≡ true → used p'.static_sessions + 1 ≡ used half_full.static_sessions)
    × (p'.last_error ≡ (after_hook out (slot true) 4).0.dtp_errno)
dtp_release_session-frees_example = dtp_release_session-frees out half_full 4 2 (slot true) refl

abbrev stopped_id : ℕ
stopped_id = 77

dtp_stop_transfer-stops_example :
    let (r, p') = dtp_stop_transfer half_full stopped_id in
    (r ≡ dtp_ok)
    × ((i : ℕ) (s : StaticSession)
        → get_elem? half_full.static_sessions i ≡ some s
        → Reaches stopped_id s
        → dtp_is_active p' (static i) ≡ false)
    × ((i : ℕ) (s : StaticSession)
        → get_elem? half_full.static_sessions i ≡ some s
        → ¬ Reaches stopped_id s
        → get_elem? p'.static_sessions i ≡ some s)
    × (stopped_id ≡ 0 → dtp_is_active p' null ≡ false)
dtp_stop_transfer-stops_example = dtp_stop_transfer-stops half_full stopped_id

dtp_prepare_session_full_example :
    dtp_prepare_session out wish all_full 4
    ≡ (null, record all_full { last_error = esession_not_found }, 4)
dtp_prepare_session_full_example = dtp_prepare_session_full out wish all_full 4 refl

dtp_prepare_session_fresh_example :
    (i : ℕ) × (s : StaticSession) × (s' : Session) × (p' : Pool) × (dtp_prepare_session out wish
        half_full 4
      ≡ (static i, p', 4))
    × (get_elem? half_full.static_sessions i ≡ some s)
    × (s.in_use ≡ false)
    × ((j : ℕ)
        → j < i
        → (t : StaticSession) × (get_elem? half_full.static_sessions j ≡ some t)
          × (t.in_use ≡ true))
    × (get_elem? p'.static_sessions i ≡ some (record { session = s'; in_use = true }))
    × ((j : ℕ) → j ≢ i → get_elem? p'.static_sessions j ≡ get_elem? half_full.static_sessions j)
    × (p'.last_error ≡ no_err)
    × Configured half_full.default_session_hooks wish s'
    × (s'.request_meta.intervals ≡ set s.session.request_meta.intervals 0 whole_payload)
dtp_prepare_session_fresh_example =
    dtp_prepare_session_fresh out wish half_full 4 refl (λ e. omega (arith, e))

abbrev fresh_pool : Pool
fresh_pool = pool (slot false ∷ slot false ∷ slot false ∷ slot false ∷ slot false ∷ [])

abbrev one_taken : Pool
one_taken = (dtp_acquire_session fresh_pool).1

abbrev nobody : ℕ → Bool
nobody i = false

first_of_fresh : dtp_acquire_session fresh_pool ≡ (static 0, one_taken)
unfolding dtp_acquire_session
first_of_fresh = refl

-- One session has been taken, by the first call of a program.
one_held : Reach out (mark true 0 nobody) one_taken 4
one_held = acquired 0 (started fresh_pool 4 refl refl) first_of_fresh

dtp_acquire_session-Reach_example :
    let (ptr, p') = dtp_acquire_session one_taken in
    ((i : ℕ) × (ptr ≡ static i)
      × (i < dtp_nof_static_sessions)
      × (mark true 0 nobody i ≡ false)
      × Reach out (mark true i (mark true 0 nobody)) p' 4)
    ⊎ ((ptr ≡ null)
        × ((i : ℕ) → i < dtp_nof_static_sessions → mark true 0 nobody i ≡ true)
        × Reach out (mark true 0 nobody) p' 4)
dtp_acquire_session-Reach_example = dtp_acquire_session-Reach out one_taken one_held

dtp_prepare_session-Hands_example :
    Hands out (mark true 0 nobody) (dtp_prepare_session out wish one_taken 4)
dtp_prepare_session-Hands_example = dtp_prepare_session-Hands out wish one_taken 4 one_held
