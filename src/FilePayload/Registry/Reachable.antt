-- ===== src/FilePayload/Registry/Reachable.antt =====
-- src/dtp_file_payload.c: the registries that calls of its functions lead to.
use mathlib.Core.Path.{fun_ext, subst}
use libdtp.Common.{
  ℕ, ◌≡◌, ◌≢◌, refl, sym, ap, ◌∙◌, List, [], ◌∷◌, Bool-cases, ◌⊎◌, inl, inr, Option, none, some,
  some_inj, arith, ◌==◌, if-false, ◌>>=◌,
}
use libdtp.FilePayload.{
  PayloadFile, payload_read, test_memory_payload_read, Files, test_payload, opened, clipped,
  payload_lookup, set_file, payload_read_bytes, dtp_file_payload_del, del_found, make_room,
  insert_payload, dtp_file_payload_add, read_found,
}
use libdtp.FilePayload.Registry.{view, put, with_file, lookup-set_file, Unique-set_file}
use libdtp.FilePayload.Registry.Steps.{
  IsRegistry, put-IsRegistry, dtp_file_payload_add-put, dtp_file_payload_del-put,
}

-- The list and the world after any calls: of the two functions that change the list, of a reader of a
-- file, with anything else in between that leaves the list alone.
pub data Reach {W : Type 0} (io : Files W) : List PayloadFile → W → Type 0 where
  loaded : (w : W) → Reach io (test_payload ∷ []) w
  outside : {l : List PayloadFile} {w : W} (w' : W) → Reach io l w → Reach io l w'
  added :
      {l l' : List PayloadFile} {w w' : W} {r : Option PayloadFile} (id filename : ℕ)
      → Reach io l w
      → dtp_file_payload_add io id filename l w ≡ some (r, l', w')
      → Reach io l' w'
  deleted :
      {l l' : List PayloadFile} {w w' : W} (id : ℕ)
      → Reach io l w
      → dtp_file_payload_del io id l w ≡ some (l', w')
      → Reach io l' w'
  read :
      {l l' : List PayloadFile} {w w' : W} {bytes : List ℕ} (id offset n : ℕ) (p : PayloadFile)
      → Reach io l w
      → payload_lookup id l ≡ some p
      → p.read ≡ payload_read
      → payload_read_bytes io id offset n l w ≡ (bytes, l', w')
      → Reach io l' w'

test_IsRegistry : IsRegistry (test_payload ∷ [])
unfolding payload_lookup
test_IsRegistry = record {
  unique = (refl, tt);
  test_kept = refl;
  owned = λ id p h. elim (Bool-cases (255 == id)) [
    | inl same ↦ inl (ground (arith, same))
    | inr other ↦ absurd (cc (h, if-false other (some test_payload) none))
  ];
}

module _ {W : Type 0} (io : Files W) where
  -- The test payload is never freed: both calls are undefined for its identifier.
  pub dtp_file_payload_del_static :
      (l : List PayloadFile) (w : W) → IsRegistry l → dtp_file_payload_del io 255 l w ≡ none
  unfolding dtp_file_payload_del
  dtp_file_payload_del_static l w g = ap (del_found io 255 l w) g.test_kept

  pub dtp_file_payload_add_static :
      (filename : ℕ) (l : List PayloadFile) (w : W)
      → IsRegistry l
      → dtp_file_payload_add io 255 filename l w ≡ none
  unfolding dtp_file_payload_add
  dtp_file_payload_add_static filename l w g =
      ap
        (λ (o : Option (List PayloadFile × W)).
          o >>= λ r. some (insert_payload io 255 filename r.0 r.1))
        (ap (make_room io 255 l w) g.test_kept ∙ dtp_file_payload_del_static l w g)

  -- A reader changes the list by the open file of its payload only.
  read_list :
      (id offset n : ℕ) (l : List PayloadFile) (w : W) (o : Option PayloadFile)
      → let l' = (read_found io id offset n l w o).1 in
        (l' ≡ l) ⊎ ((f : ℕ) × (l' ≡ set_file id f l))
  unfolding read_found
  read_list id offset n l w none = inl refl
  read_list id offset n l w (some p) = elim (Bool-cases (clipped p.size offset n == 0)) [
    | inl empty ↦ rw empty (inl refl)
    | inr some_left ↦ elim (Bool-cases ((opened io p w).0 == 0)) [
      | inl missing ↦ rw (some_left, missing) (inr (_, refl))
      | inr present ↦ rw (some_left, present) (inr (_, refl))
    ]
  ]

  set_file-IsRegistry :
      (id f : ℕ) (l : List PayloadFile) (p : PayloadFile)
      → payload_lookup id l ≡ some p
      → p.read ≡ payload_read
      → id ≢ 255
      → IsRegistry l
      → IsRegistry (set_file id f l)
  set_file-IsRegistry id f l p found file ne g =
      let e : view (set_file id f l) ≡ put id (with_file f (some p)) (view l) = fun_ext (λ k.
        lookup-set_file id f k l ∙ elim (Bool-cases (k == id)) [
          | inl same ↦
              let q : k ≡ id = ground (arith, same) in
              rw same (ap (λ j. with_file f (payload_lookup j l)) q ∙ ap (with_file f) found)
          | inr other ↦ rw other refl
        ]) in
      put-IsRegistry id (with_file f (some p)) l (set_file id f l) ne file e
        (Unique-set_file id f l g.unique) g

  not_test :
      (id : ℕ) (l : List PayloadFile) (p : PayloadFile)
      → payload_lookup id l ≡ some p
      → p.read ≡ payload_read
      → IsRegistry l
      → id ≢ 255
  not_test id l p found file g q =
      let e : some p ≡ some test_payload =
        sym found ∙ (ap (λ j. payload_lookup j l) q ∙ g.test_kept) in
      let r : p.read ≡ test_memory_payload_read = ap (λ (x : PayloadFile). x.read) (some_inj e) in
      absurd (cc (r, file))

  read_keeps :
      (id offset n : ℕ) {l l' : List PayloadFile} (w : W) {w' : W} {bytes : List ℕ}
      (p : PayloadFile)
      → payload_lookup id l ≡ some p
      → p.read ≡ payload_read
      → payload_read_bytes io id offset n l w ≡ (bytes, l', w')
      → IsRegistry l
      → IsRegistry l'
  unfolding payload_read_bytes
  read_keeps id offset n {l} w p found file e g =
      subst IsRegistry (ap (λ t. t.1) e) (elim (read_list id offset n l w (payload_lookup id l)) [
        | inl same ↦ subst IsRegistry (sym same) g
        | inr (f, changed) ↦
            subst IsRegistry (sym changed)
              (set_file-IsRegistry id f l p found file (not_test id l p found file g) g)
      ])

  added_keeps :
      (id filename : ℕ) {l l' : List PayloadFile} (w : W) {w' : W} {r : Option PayloadFile}
      → dtp_file_payload_add io id filename l w ≡ some (r, l', w')
      → IsRegistry l
      → IsRegistry l'
  added_keeps id filename {l} w e g = elim (Bool-cases (id == 255)) [
    | inl test ↦
        let q : id ≡ 255 = ground (arith, test) in
        let f =
          ap (λ i. dtp_file_payload_add io i filename l w) q
          ∙ dtp_file_payload_add_static filename l w g in
        absurd (cc (e, f))
    | inr other ↦
        let (r₂, l₂, w₂, f, v, g', m) =
          dtp_file_payload_add-put io id filename l w g (λ q. ground (arith, other, q)) in
        subst IsRegistry (ap (λ t. t.1) (some_inj (sym f ∙ e))) g'
  ]

  deleted_keeps :
      (id : ℕ) {l l' : List PayloadFile} (w : W) {w' : W}
      → dtp_file_payload_del io id l w ≡ some (l', w')
      → IsRegistry l
      → IsRegistry l'
  deleted_keeps id {l} w e g = elim (Bool-cases (id == 255)) [
    | inl test ↦
        let q : id ≡ 255 = ground (arith, test) in
        let f = ap (λ i. dtp_file_payload_del io i l w) q ∙ dtp_file_payload_del_static l w g in
        absurd (cc (e, f))
    | inr other ↦
        let (l₂, w₂, f, v, g') =
          dtp_file_payload_del-put io id l w g (λ q. ground (arith, other, q)) in
        subst IsRegistry (ap (λ t. t.0) (some_inj (sym f ∙ e))) g'
  ]

  -- Whatever calls were made, as long as none was undefined, the list is a registry: its identifiers are
  -- unique, the test payload is in it under 255, and every other payload reads a file.
  pub Reach-IsRegistry : {l : List PayloadFile} {w : W} → Reach io l w → IsRegistry l
  Reach-IsRegistry (loaded w) = test_IsRegistry
  Reach-IsRegistry (outside w' h) = Reach-IsRegistry h
  Reach-IsRegistry (added id filename h e) = added_keeps id filename _ e (Reach-IsRegistry h)
  Reach-IsRegistry (deleted id h e) = deleted_keeps id _ e (Reach-IsRegistry h)
  Reach-IsRegistry (read id offset n p h found file e) =
      read_keeps id offset n _ p found file e (Reach-IsRegistry h)
