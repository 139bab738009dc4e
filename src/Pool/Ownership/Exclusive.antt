-- ===== src/Pool/Ownership/Exclusive.antt =====
-- A static session of src/dtp.c has one holder at most.
use mathlib.Core.Path.{subst}
use libdtp.Common.{
  ℕ, ◌<◌, ◌≡◌, refl, sym, ap, ◌∙◌, ◌⊎◌, inl, inr, List, Bool, true, false, none, arith, set,
  get_elem?-total, lt_of_get_elem?,
}
use libdtp.Session.{DtpResult}
use libdtp.Pool.{
  Pool, StaticSession, SessionPtr, null, static, Outside, dtp_nof_static_sessions,
  dtp_acquire_session, dtp_release_session, dtp_stop_transfer, lookup_session, released,
}
use libdtp.Pool.Lifecycle.{
  taken, dtp_acquire_session-cases, release-static, dtp_release_session-unknown,
}
use libdtp.Pool.Ownership.{
  mark, Reach, Agrees, started, outside, written, errno, stopped, acquired, refused, freed, unknown,
}
use libdtp.Pool.Ownership.Table.{
  none_used, all_used, set-Agrees, stop_in-Agrees, errno-Agrees, mark-other,
}

acquired-Agrees :
    (held : ℕ → Bool) (p p' : Pool) (i : ℕ)
    → Agrees held p.static_sessions
    → dtp_acquire_session p ≡ (static i, p')
    → Agrees (mark true i held) p'.static_sessions
acquired-Agrees held p p' i a e = elim (dtp_acquire_session-cases p) [
  | inl (u, n, q) ↦ absurd (cc (n, ap (λ r. r.0) e))
  | inr (k, s, n, f, free, before, q) ↦
      let same : k ≡ i = cc (n, ap (λ r. r.0) e) in
      let table : p'.static_sessions
          ≡ set p.static_sessions i (taken p.default_session_hooks s.session) =
        ap (λ r. r.1.static_sessions) (sym e)
        ∙ (ap (λ (x : Pool). x.static_sessions) q
            ∙ ap (λ m. set p.static_sessions m (taken p.default_session_hooks s.session)) same) in
      subst (Agrees (mark true i held)) (sym table) (
        set-Agrees held (mark true i held) p.static_sessions i _
          (omega (arith, same, a.five, lt_of_get_elem? p.static_sessions k f)) (ground arith)
          (mark-other true i held) a)
]

refused-Agrees :
    (held : ℕ → Bool) (p p' : Pool)
    → Agrees held p.static_sessions
    → dtp_acquire_session p ≡ (null, p')
    → Agrees held p'.static_sessions
refused-Agrees held p p' a e = elim (dtp_acquire_session-cases p) [
  | inl (u, n, q) ↦ subst (λ (x : Pool). Agrees held x.static_sessions) (sym q ∙ ap (λ r. r.1) e) a
  | inr (k, s, n, f, free, before, q) ↦ absurd (cc (n, ap (λ r. r.0) e))
]

module _ {W : Type 0} (out : Outside W) where
  freed-Agrees :
      (held : ℕ → Bool) (p : Pool) (w : W) (i : ℕ) {p' : Pool} {w' : W} {r : DtpResult}
      → Agrees held p.static_sessions
      → held i ≡ true
      → dtp_release_session out p w (static i) ≡ (r, p', w')
      → Agrees (mark false i held) p'.static_sessions
  unfolding released
  freed-Agrees held p w i a t e =
      let in_range = a.in_table i t in
      let (s, f) = get_elem?-total p.static_sessions i (omega (arith, a.five, in_range)) in
      subst (Agrees (mark false i held))
        (ap (λ r. r.1.static_sessions) (sym (release-static out p w i s f) ∙ e))
        (set-Agrees held (mark false i held) p.static_sessions i _ in_range (ground arith)
          (mark-other false i held) a)

  unknown-Agrees :
      (held : ℕ → Bool) (p : Pool) (w : W) (ptr : SessionPtr) {p' : Pool} {w' : W} {r : DtpResult}
      → Agrees held p.static_sessions
      → lookup_session p ptr ≡ none
      → dtp_release_session out p w ptr ≡ (r, p', w')
      → Agrees held p'.static_sessions
  unknown-Agrees held p w ptr a l e =
      subst (λ (x : Pool). Agrees held x.static_sessions)
        (ap (λ r. r.1) (sym (dtp_release_session-unknown out p w ptr l) ∙ e)) a

  -- Whatever calls were made, a session is marked in use exactly while it has a holder.
  pub Reach-Agrees :
      {held : ℕ → Bool} {p : Pool} {w : W} → Reach out held p w → Agrees held p.static_sessions
  unfolding dtp_stop_transfer
  Reach-Agrees (started p w u n) = record {
    five = n;
    in_table = λ i e. absurd (cc e);
    flags = λ i s e. none_used p.static_sessions i s u e;
  }
  Reach-Agrees (outside w' h) = Reach-Agrees h
  Reach-Agrees (written i s h e) =
      let a = Reach-Agrees h in set-Agrees _ _ _ i _ (a.in_table i e) e (λ j q. refl) a
  Reach-Agrees (errno ptr err h) = errno-Agrees _ _ ptr err (Reach-Agrees h)
  Reach-Agrees (stopped session_id h) = stop_in-Agrees _ session_id _ (Reach-Agrees h)
  Reach-Agrees (acquired i h e) = acquired-Agrees _ _ _ i (Reach-Agrees h) e
  Reach-Agrees (refused h e) = refused-Agrees _ _ _ (Reach-Agrees h) e
  Reach-Agrees (freed i h t e) = freed-Agrees _ _ _ i (Reach-Agrees h) t e
  Reach-Agrees (unknown ptr h l e) = unknown-Agrees _ _ _ ptr (Reach-Agrees h) l e

  -- Over any calls before, from a table of five free sessions on, `dtp_acquire_session` either returns a
  -- session that had no holder, which its caller then holds, or returns NULL, with all five sessions
  -- held and their holders unchanged. The calls are those of src/dtp.c, each session being released by
  -- its holder only, and any writes to a session that has a holder.
  pub dtp_acquire_session-Reach :
      {held : ℕ → Bool} (p : Pool) {w : W}
      → Reach out held p w
      → let (ptr, p') = dtp_acquire_session p in
        ((i : ℕ) × (ptr ≡ static i)
          × (i < dtp_nof_static_sessions)
          × (held i ≡ false)
          × Reach out (mark true i held) p' w)
        ⊎ ((ptr ≡ null)
            × ((i : ℕ) → i < dtp_nof_static_sessions → held i ≡ true)
            × Reach out held p' w)
  dtp_acquire_session-Reach p h =
      let a = Reach-Agrees h in
      let l : List StaticSession = p.static_sessions in
      elim (dtp_acquire_session-cases p) [
        | inl (u, n, q) ↦ inr (
          n,
          λ i b.
              let (s, f) = get_elem?-total l i (omega (arith, b, a.five)) in
              sym (a.flags i s f) ∙ all_used l i s u f,
          refused h (ap (λ x. (x, (dtp_acquire_session p).1)) n),
        )
        | inr (k, s, n, f, free, before, q) ↦ inl (
          k,
          n,
          omega (arith, a.five, lt_of_get_elem? l k f),
          sym (a.flags k s f) ∙ free,
          acquired k h (ap (λ x. (x, (dtp_acquire_session p).1)) n),
        )
      ]
