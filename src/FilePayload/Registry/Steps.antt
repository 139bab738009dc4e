-- ===== src/FilePayload/Registry/Steps.antt =====
-- src/dtp_file_payload.c: what `dtp_file_payload_add` and `dtp_file_payload_del` do to the map, and the
-- registries that a server can reach.
use mathlib.Core.Path.{fun_ext, subst}
use libdtp.Common.{
  ℕ, ◌≡◌, ◌≢◌, refl, sym, ap, ◌∙◌, List, ◌∷◌, false, Bool-cases, ◌⊎◌, inl, inr, Option, none, some,
  arith, ◌==◌, ==_self, if◌then◌else◌, ◌>>=◌, Option-cases,
}
use libdtp.FilePayload.{
  PayloadFile, payload_read, Files, test_payload, new_payload, is_static, payload_lookup, unlink,
  dtp_file_payload_del, del_found, make_room, insert_payload, dtp_file_payload_add,
}
use libdtp.FilePayload.Registry.{
  View, view, put, put-put, Unique, view-unlink, view-cons, Unique-unlink,
}

-- The registries of a running server: identifiers are unique, the test payload is there, and every
-- other payload is a file.
pub record IsRegistry (l : List PayloadFile) : Type 0 where
  pub unique : Unique l
  pub test_kept : payload_lookup 255 l ≡ some test_payload
  pub owned :
      (id : ℕ) (p : PayloadFile)
      → payload_lookup id l ≡ some p
      → (id ≡ 255) ⊎ (p.read ≡ payload_read)

abbrev pub IsFile : Option PayloadFile → Type 0
IsFile none = Unit {0}
IsFile (some p) = p.read ≡ payload_read

-- A map of which one entry changes.
pub put-IsRegistry :
    (id : ℕ) (r : Option PayloadFile) (l l' : List PayloadFile)
    → id ≢ 255
    → IsFile r
    → view l' ≡ put id r (view l)
    → Unique l'
    → IsRegistry l
    → IsRegistry l'
put-IsRegistry id r l l' ne file e u g =
    let at = λ (k : ℕ). ap (λ (v : View). v k) e in
    record {
      unique = u;
      test_kept = let q : (255 == id) ≡ false = ground (arith, ne) in at 255 ∙ rw q g.test_kept;
      owned = λ k p h. elim (Bool-cases (k == id)) [
        | inl same ↦
            let q : r ≡ some p = sym (rw same refl) ∙ (sym (at k) ∙ h) in inr (subst IsFile q file)
        | inr other ↦
            let q : payload_lookup k l ≡ some p = sym (rw other refl) ∙ (sym (at k) ∙ h) in
            g.owned k p q
      ];
    }

view-gone :
    (id : ℕ) (l : List PayloadFile) → payload_lookup id l ≡ none → view l ≡ put id none (view l)
view-gone id l gone = fun_ext (λ k. elim (Bool-cases (k == id)) [
  | inl same ↦
      let q : k ≡ id = ground (arith, same) in rw same (ap (λ j. payload_lookup j l) q ∙ gone)
  | inr other ↦ rw other refl
])

module _ {W : Type 0} (io : Files W) where
  del_some :
      (id : ℕ) (l : List PayloadFile) (w : W)
      → IsRegistry l
      → id ≢ 255
      → (l' : List PayloadFile) × (w' : W) × (dtp_file_payload_del io id l w ≡ some (l', w'))
        × (view l' ≡ put id none (view l))
        × Unique l'
  unfolding dtp_file_payload_del
  del_some id l w g ne = elim (Option-cases (payload_lookup id l)) [
    | inl gone ↦ (l, w, ap (del_found io id l w) gone, view-gone id l gone, g.unique)
    | inr (p, found) ↦
        let q : p.read ≡ payload_read = elim (g.owned id p found) [
          | inl e ↦ absurd (ne e)
          | inr e ↦ e
        ] in
        (
          unlink id l,
          if p.file == 0 then w else io.fclose p.file w,
          ap (del_found io id l w) found
              ∙ ap
                  (λ r.
                    if is_static r
                    then none
                    else some (unlink id l, if p.file == 0 then w else io.fclose p.file w))
                  q,
          view-unlink id l g.unique,
          Unique-unlink id l g.unique,
        )
  ]

  -- What `insert_payload` returns and does.
  abbrev Inserted : ℕ → ℕ → List PayloadFile → Option PayloadFile × List PayloadFile × W → Type 0
  Inserted id filename l (r, l', w') =
      ((r ≡ none) × (l' ≡ l))
      ⊎ ((size : ℕ) × (r ≡ some (new_payload id filename size))
          × (l' ≡ new_payload id filename size ∷ l))

  insert_payload-Inserted :
      (id filename : ℕ) (l : List PayloadFile) (w : W)
      → Inserted id filename l (insert_payload io id filename l w)
  unfolding insert_payload
  insert_payload-Inserted id filename l w =
      let (file, w₁) = io.fopen_rb filename w in
      elim (Bool-cases (filename == 0)) [
        | inl null ↦ rw null (inl (refl, refl))
        | inr named ↦ elim (Bool-cases (file == 0)) [
          | inl missing ↦ rw (named, missing) (inl (refl, refl))
          | inr present ↦ elim (Bool-cases (io.calloc w₁).0) [
            | inl fits ↦ rw (named, present, fits) (inr (_, refl, refl))
            | inr full ↦ rw (named, present, full) (inl (refl, refl))
          ]
        ]
      ]

  -- The same, on the map.
  Inserted-put :
      (id filename : ℕ) (l : List PayloadFile) (t : Option PayloadFile × List PayloadFile × W)
      → payload_lookup id l ≡ none
      → Unique l
      → Inserted id filename l t
      → (view t.1 ≡ put id t.0 (view l)) × Unique t.1 × IsFile t.0
  Inserted-put id filename l (r, l', w') gone u (inl (e, f)) =
      rw (e, f) (view-gone id l gone, u, tt)
  Inserted-put id filename l (r, l', w') gone u (inr (size, e, f)) =
      rw (e, f) (view-cons (new_payload id filename size) l, (gone, u), refl)

  -- What is left before the insertion.
  room_made :
      (id : ℕ) (l : List PayloadFile) (w : W)
      → IsRegistry l
      → id ≢ 255
      → (l' : List PayloadFile) × (w' : W) × (make_room io id l w (payload_lookup id l)
          ≡ some (l', w'))
        × (view l' ≡ put id none (view l))
        × Unique l'
  room_made id l w g ne = elim (Option-cases (payload_lookup id l)) [
    | inl gone ↦ (l, w, ap (make_room io id l w) gone, view-gone id l gone, g.unique)
    | inr (p, found) ↦
        let (l', w', e, v, u) = del_some id l w g ne in
        (l', w', ap (make_room io id l w) found ∙ e, v, u)
  ]

  -- On a registry, for an identifier other than 255, dtp_file_payload_add never faults, and sets the
  -- map's entry at the identifier to what it returns: NULL, also where the identifier had a payload
  -- before, or the new payload. It changes no other entry, and the list is a registry again.
  pub dtp_file_payload_add-put :
      (id filename : ℕ) (l : List PayloadFile) (w : W)
      → IsRegistry l
      → id ≢ 255
      → (r : Option PayloadFile) × (l' : List PayloadFile) × (w' : W) × (dtp_file_payload_add io id
            filename l w
          ≡ some (r, l', w'))
        × (view l' ≡ put id r (view l))
        × IsRegistry l'
        × ((r ≡ none) ⊎ ((size : ℕ) × (r ≡ some (new_payload id filename size))))
  unfolding dtp_file_payload_add
  dtp_file_payload_add-put id filename l w g ne =
      let (l₁, w₁, e, v, u) = room_made id l w g ne in
      let t = insert_payload io id filename l₁ w₁ in
      let made : Inserted id filename l₁ t = insert_payload-Inserted id filename l₁ w₁ in
      let gone : payload_lookup id l₁ ≡ none = ap (λ (m : View). m id) v ∙ rw (==_self id) refl in
      let (p, q, file) = Inserted-put id filename l₁ t gone u made in
      let p' : view t.1 ≡ put id t.0 (view l) =
        p ∙ (ap (put id t.0) v ∙ put-put id t.0 none (view l)) in
      (
        t.0,
        t.1,
        t.2,
        ap
            (λ (o : Option (List PayloadFile × W)).
              o >>= λ r. some (insert_payload io id filename r.0 r.1))
            e,
        p',
        put-IsRegistry id t.0 l t.1 ne file p' q g,
        elim made [ inl n ↦ inl n.0 | inr s ↦ inr (s.0, s.1) ],
      )

  -- On a registry, for an identifier other than 255, dtp_file_payload_del never faults: it takes the
  -- identifier's entry out of the map, changes no other, and leaves a registry.
  pub dtp_file_payload_del-put :
      (id : ℕ) (l : List PayloadFile) (w : W)
      → IsRegistry l
      → id ≢ 255
      → (l' : List PayloadFile) × (w' : W) × (dtp_file_payload_del io id l w ≡ some (l', w'))
        × (view l' ≡ put id none (view l))
        × IsRegistry l'
  dtp_file_payload_del-put id l w g ne =
      let (l', w', e, v, u) = del_some id l w g ne in
      (l', w', e, v, put-IsRegistry id none l l' ne tt v u g)
