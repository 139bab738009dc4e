-- ===== src/Client/Prepare/Held.antt =====
-- `dtp_prepare_session` of src/dtp_client.c: who holds the session when it returns.
use mathlib.Core.Path.{subst, fun_ext}
use libdtp.Common.{
  ℕ, ◌≡◌, refl, sym, ap, ◌∙◌, ◌⊎◌, inl, inr, Bool, true, false, arith, ◌==◌, Bool-cases,
  get_elem?-total,
}
use libdtp.Session.{enomore_sessions}
use libdtp.Pool.{Pool, SessionPtr, null, static, Outside, dtp_acquire_session, dtp_release_session}
use libdtp.Pool.Ownership.{mark, Reach, outside, written, errno, freed, unknown}
use libdtp.Pool.Ownership.Exclusive.{Reach-Agrees, dtp_acquire_session-Reach}
use libdtp.Client.Prepare.{
  Request, Prepared, ready, given_up, prepare, finish, no_session, prepare_at, put_session,
  dtp_prepare_session,
}

module _ {W : Type 0} (out : Outside W) where
  -- What a call returns that acquires a session for its caller: one that had no holder, or NULL.
  abbrev pub Hands : (ℕ → Bool) → SessionPtr × Pool × W → Type 0
  Hands held (ptr, p, w) =
      ((i : ℕ) × (ptr ≡ static i) × (held i ≡ false) × Reach out (mark true i held) p w)
      ⊎ ((ptr ≡ null) × Reach out held p w)

  no_session-Hands :
      (held : ℕ → Bool) (p : Pool) (w : W) → Reach out held p w → Hands held (no_session out p w)
  no_session-Hands held p w h = inr (refl, unknown null (errno null enomore_sessions h) refl refl)

  marked : (i : ℕ) (held : ℕ → Bool) → mark true i held i ≡ true
  marked i held = ground arith

  mark_back : (i : ℕ) (held : ℕ → Bool) → held i ≡ false → mark false i (mark true i held) ≡ held
  mark_back i held e = fun_ext (λ j. elim (Bool-cases (j == i)) [
    | inl same ↦ let q : j ≡ i = ground (arith, same) in rw same (sym (ap held q ∙ e))
    | inr other ↦ rw other refl
  ])

  finish-Hands :
      (held : ℕ → Bool) (i : ℕ) (p : Pool) (w : W) (r : Prepared × W)
      → held i ≡ false
      → Reach out (mark true i held) p w
      → Hands held (finish out p i r)
  finish-Hands held i p w (ready s, w') e h =
      inl (i, refl, e, written i s (outside w' h) (marked i held))
  finish-Hands held i p w (given_up s, w') e h =
      let (r, p', w₂) = dtp_release_session out (put_session p i s) w' (static i) in
      inr (
        refl,
        subst (λ k. Reach out k p' w₂) (mark_back i held e)
            (freed i (written i s (outside w' h) (marked i held)) (marked i held) refl),
      )

  prepare_at-Hands :
      (q : Request) (held : ℕ → Bool) (i : ℕ) (p : Pool) (w : W)
      → held i ≡ false
      → Reach out (mark true i held) p w
      → Hands held (prepare_at out q p w (static i))
  prepare_at-Hands q held i p w e h =
      let a = Reach-Agrees out h in
      let (s, f) =
        get_elem?-total p.static_sessions i (omega (arith, a.five, a.in_table i (marked i held))) in
      let run : prepare_at out q p w (static i) ≡ finish out p i (prepare out q s.session w) =
        ground (arith, f) in
      subst (Hands held) (sym run) (finish-Hands held i p w (prepare out q s.session w) e h)

  -- Over any calls before, `dtp_prepare_session` returns either a session that had no holder, which its
  -- caller then holds, or NULL, and then every session has the holder, or none, that it had before.
  pub dtp_prepare_session-Hands :
      (q : Request) {held : ℕ → Bool} (p : Pool) (w : W)
      → Reach out held p w
      → Hands held (dtp_prepare_session out q p w)
  unfolding dtp_prepare_session
  dtp_prepare_session-Hands q {held} p w h =
      let p' : Pool = (dtp_acquire_session p).1 in
      elim (dtp_acquire_session-Reach out p h) [
        | inl (i, is, below, free, r) ↦
            subst (λ ptr. Hands held (prepare_at out q p' w ptr)) (sym is)
              (prepare_at-Hands q held i p' w free r)
        | inr (is, full, r) ↦
            subst (λ ptr. Hands held (prepare_at out q p' w ptr)) (sym is)
              (no_session-Hands held p' w r)
      ]
