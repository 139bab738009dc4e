-- ===== src/Pool/Ownership/Table.antt =====
-- The table of static sessions and its holders, as the loops and assignments of src/dtp.c change it.
use libdtp.Common.{
  ℕ, zero, suc, ◌<◌, ◌≡◌, refl, sym, ap, ◌∙◌, inl, inr, List, [], ◌∷◌, Bool, true, false, Option,
  none, some, arith, ◌==◌, length, get_elem?, set, length-set, lt_of_get_elem?, some_inj,
  get_elem?-set_self, get_elem?-set_ne, Bool-cases, if-false,
}
use libdtp.Session.{Errno}
use libdtp.Pool.{
  Pool, StaticSession, SessionPtr, null, foreign, static, set_errno_at, dtp_nof_static_sessions,
  stop_slot, stop_in, dtp_set_errno,
}
use libdtp.Pool.Lifecycle.{used, used-le-length}
use libdtp.Pool.Ownership.{mark, Agrees}

pub none_used :
    (l : List StaticSession) (i : ℕ) (s : StaticSession)
    → used l ≡ 0
    → get_elem? l i ≡ some s
    → s.in_use ≡ false
none_used [] i s u e = cc
none_used (x ∷ l) zero s u e = ground arith
none_used (x ∷ l) (suc i) s u e = none_used l i s (ground arith) e

pub all_used :
    (l : List StaticSession) (i : ℕ) (s : StaticSession)
    → used l ≡ length l
    → get_elem? l i ≡ some s
    → s.in_use ≡ true
all_used [] i s u e = cc
all_used (x ∷ l) zero s u e = ground (arith, used-le-length l)
all_used (x ∷ l) (suc i) s u e = all_used l i s (ground (arith, used-le-length l)) e

-- A session is put in its place, for holders that agree with it and have not changed elsewhere.
pub set-Agrees :
    (held held' : ℕ → Bool) (l : List StaticSession) (i : ℕ) (v : StaticSession)
    → i < dtp_nof_static_sessions
    → held' i ≡ v.in_use
    → ((j : ℕ) → (j == i) ≡ false → held' j ≡ held j)
    → Agrees held l
    → Agrees held' (set l i v)
set-Agrees held held' l i v h at others a = record {
  five = length-set l i v ∙ a.five;
  in_table = λ j t. elim (Bool-cases (j == i)) [
    | inl same ↦ ground (arith, same, h)
    | inr other ↦ a.in_table j (sym (others j other) ∙ t)
  ];
  flags = λ j s e. elim (Bool-cases (j == i)) [
    | inl same ↦
        let q : j ≡ i = ground (arith, same) in
        let stored = get_elem?-set_self l i v (omega (arith, h, a.five)) in
        let found : v ≡ s = some_inj (sym stored ∙ (ap (get_elem? (set l i v)) (sym q) ∙ e)) in
        ap (λ t. t.in_use) (sym found) ∙ (sym at ∙ ap held' (sym q))
    | inr other ↦
        a.flags j s (sym (get_elem?-set_ne l v (λ q. ground (arith, q, other))) ∙ e)
        ∙ sym (others j other)
  ];
}

pub stop_in-Agrees :
    (held : ℕ → Bool) (session_id : ℕ) (l : List StaticSession)
    → Agrees held l
    → Agrees held (stop_in session_id l)
stop_in-Agrees held session_id l a = record {
  five = same_length l ∙ a.five;
  in_table = a.in_table;
  flags = λ i s e. let (t, f, u) = kept l i s e in u ∙ a.flags i t f;
}
  where
    same_length : (l : List StaticSession) → length (stop_in session_id l) ≡ length l
    same_length [] = refl
    same_length (x ∷ l) = ap suc (same_length l)

    slot_flag : (x : StaticSession) → (stop_slot session_id x).in_use ≡ x.in_use
    slot_flag x = ground arith

    kept :
        (l : List StaticSession) (i : ℕ) (s : StaticSession)
        → get_elem? (stop_in session_id l) i ≡ some s
        → (t : StaticSession) × (get_elem? l i ≡ some t) × (s.in_use ≡ t.in_use)
    kept [] i s e = cc
    kept (x ∷ l) zero s e = (x, refl, ap (λ t. t.in_use) (sym (some_inj e)) ∙ slot_flag x)
    kept (x ∷ l) (suc i) s e = kept l i s e

pub errno-Agrees :
    (held : ℕ → Bool) (p : Pool) (ptr : SessionPtr) (err : Errno)
    → Agrees held p.static_sessions
    → Agrees held (dtp_set_errno p ptr err).static_sessions
unfolding dtp_set_errno
errno-Agrees held p null err a = a
errno-Agrees held p foreign err a = a
errno-Agrees held p (static i) err a = at (get_elem? p.static_sessions i) refl
  where
    at :
        (o : Option StaticSession)
        → get_elem? p.static_sessions i ≡ o
        → Agrees held (set_errno_at p i err o).static_sessions
    at none e = a
    at (some s) e =
        set-Agrees held held p.static_sessions i _
          (omega (arith, a.five, lt_of_get_elem? p.static_sessions i e)) (sym (a.flags i s e))
          (λ j q. refl) a

pub mark-other :
    (b : Bool) (i : ℕ) (held : ℕ → Bool) (j : ℕ) → (j == i) ≡ false → mark b i held j ≡ held j
mark-other b i held j e = if-false e _ _
