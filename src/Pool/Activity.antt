-- ===== src/Pool/Activity.antt =====
-- Stopping transfers: `dtp_stop_transfer` and `dtp_is_active`.
use libdtp.Common.{
  ℕ, zero, suc, ◌≡◌, refl, ap, ◌∙◌, ◌⊎◌, inl, inr, List, [], ◌∷◌, true, false, ◌&&◌, ◌||◌, some,
  arith, get_elem?, ◌==◌, Bool-cases, some_inj, if-false,
}
use libdtp.Session.{dtp_ok}
use libdtp.Pool.{
  Pool, StaticSession, null, static, stop_slot, stop_in, dtp_stop_transfer, any_active, active_of,
  dtp_is_active,
}

stop_in-get_elem? :
    (session_id : ℕ) (l : List StaticSession) (i : ℕ) (s : StaticSession)
    → get_elem? l i ≡ some s
    → get_elem? (stop_in session_id l) i ≡ some (stop_slot session_id s)
stop_in-get_elem? session_id [] i s e = cc
stop_in-get_elem? session_id (x ∷ l) zero s e = ap (λ t. some (stop_slot session_id t)) (some_inj e)
stop_in-get_elem? session_id (x ∷ l) (suc i) s e = stop_in-get_elem? session_id l i s e

stop_in-none_active : (l : List StaticSession) → any_active (stop_in 0 l) ≡ false
stop_in-none_active [] = refl
stop_in-none_active (s ∷ l) = ground (arith, stop_in-none_active l)

-- The sessions that a stop reaches: those in use, if the identifier is 0 or their own.
abbrev pub Reaches : ℕ → StaticSession → Type 0
Reaches session_id s =
    (s.in_use ≡ true) × ((session_id ≡ 0) ⊎ (session_id ≡ s.session.request_meta.session_id))

stop_slot-reached :
    (session_id : ℕ) (s : StaticSession)
    → Reaches session_id s
    → (stop_slot session_id s).session.active ≡ false
stop_slot-reached session_id s (u, inl z) = ground (arith, u, z)
stop_slot-reached session_id s (u, inr e) = ground (arith, u, e)

stop_slot-other :
    (session_id : ℕ) (s : StaticSession) → ¬ Reaches session_id s → stop_slot session_id s ≡ s
stop_slot-other session_id s n =
    elim (Bool-cases
      (s.in_use && ((session_id == 0) || (session_id == s.session.request_meta.session_id)))) [
        | inl hit ↦ absurd (
            n (
              ground (arith, hit),
              elim (Bool-cases (session_id == 0)) [
                | inl z ↦ inl (ground (arith, z))
                | inr k ↦ inr (ground (arith, k, hit))
              ],
            ))
        | inr miss ↦ if-false miss _ _
      ]

-- `dtp_stop_transfer` makes each session inactive that is in use and has the given identifier (any, if
-- that is 0), and leaves the others as they were. After a stop of all, no session counts as active.
pub dtp_stop_transfer-stops :
    (p : Pool) (session_id : ℕ)
    → let (r, p') = dtp_stop_transfer p session_id in
      (r ≡ dtp_ok)
      × ((i : ℕ) (s : StaticSession)
          → get_elem? p.static_sessions i ≡ some s
          → Reaches session_id s
          → dtp_is_active p' (static i) ≡ false)
      × ((i : ℕ) (s : StaticSession)
          → get_elem? p.static_sessions i ≡ some s
          → ¬ Reaches session_id s
          → get_elem? p'.static_sessions i ≡ some s)
      × (session_id ≡ 0 → dtp_is_active p' null ≡ false)
unfolding dtp_stop_transfer dtp_is_active
dtp_stop_transfer-stops p session_id = (
  refl,
  λ i s e r.
      ap (active_of (dtp_stop_transfer p session_id).1)
        (stop_in-get_elem? session_id p.static_sessions i s e)
      ∙ stop_slot-reached session_id s r,
  λ i s e n.
      stop_in-get_elem? session_id p.static_sessions i s e
      ∙ ap some (stop_slot-other session_id s n),
  λ z. rw z (stop_in-none_active p.static_sessions),
)
