-- ===== src/FilePayload/Registry.antt =====
-- src/dtp_file_payload.c: the registry as a finite map from payload identifiers.
pub mod Steps
pub mod Reachable
use mathlib.Core.Path.{fun_ext}
use libdtp.Common.{
  ℕ, ◌≡◌, ◌≢◌, refl, sym, ap, ◌∙◌, List, [], ◌∷◌, Bool, true, false, Bool-cases, ◌⊎◌, inl, inr,
  Option, none, some, arith, ◌==◌, if◌then◌else◌, ◌>>=◌, Option-cases,
}
use libdtp.FilePayload.{
  PayloadFile, Reader, payload_read, test_memory_payload_read, Files, test_payload, new_payload,
  is_static, payload_lookup, set_file, unlink, payload_read_bytes, dtp_file_payload_del,
  insert_payload, dtp_file_payload_add,
}

-- What a registry offers: the payload of each identifier.
abbrev pub View : Type 0
View = ℕ → Option PayloadFile

abbrev pub view : List PayloadFile → View
view l id = payload_lookup id l

abbrev pub put : ℕ → Option PayloadFile → View → View
put id r v k = if k == id then r else v k

-- Each identifier has one payload at most.
abbrev pub Unique : List PayloadFile → Type 0
Unique [] = Unit {0}
Unique (p ∷ rest) = (payload_lookup p.id rest ≡ none) × Unique rest

lookup-unlink_self :
    (id : ℕ) (l : List PayloadFile) → Unique l → payload_lookup id (unlink id l) ≡ none
unfolding payload_lookup unlink
lookup-unlink_self id [] u = refl
lookup-unlink_self id (p ∷ rest) u = elim (Bool-cases (p.id == id)) [
  | inl here ↦
      let q : p.id ≡ id = ground (arith, here) in
      rw here (sym (ap (λ k. payload_lookup k rest) q) ∙ u.0)
  | inr there ↦ rw (there, there) (lookup-unlink_self id rest u.1)
]

lookup-unlink_other :
    (id k : ℕ) (l : List PayloadFile)
    → (k == id) ≡ false
    → payload_lookup k (unlink id l) ≡ payload_lookup k l
unfolding payload_lookup unlink
lookup-unlink_other id k [] h = refl
lookup-unlink_other id k (p ∷ rest) h = elim (Bool-cases (p.id == id)) [
  | inl here ↦ let q : (p.id == k) ≡ false = ground (arith, here, h) in rw (here, q) refl
  | inr there ↦
      rw there (ap (λ r. if p.id == k then some p else r) (lookup-unlink_other id k rest h))
]

-- Deleting takes the identifier out of the map.
pub view-unlink :
    (id : ℕ) (l : List PayloadFile) → Unique l → view (unlink id l) ≡ put id none (view l)
view-unlink id l u = fun_ext (λ k. elim (Bool-cases (k == id)) [
  | inl same ↦
      let q : k ≡ id = ground (arith, same) in
      rw same (ap (λ j. payload_lookup j (unlink id l)) q ∙ lookup-unlink_self id l u)
  | inr other ↦ rw other (lookup-unlink_other id k l other)
])

pub view-cons : (p : PayloadFile) (l : List PayloadFile) → view (p ∷ l) ≡ put p.id (some p) (view l)
unfolding payload_lookup
view-cons p l = fun_ext (λ k. elim (Bool-cases (k == p.id)) [
  | inl same ↦ let q : (p.id == k) ≡ true = ground (arith, same) in rw (q, same) refl
  | inr other ↦ let q : (p.id == k) ≡ false = ground (arith, other) in rw (q, other) refl
])

pub put-put : (id : ℕ) (r q : Option PayloadFile) (v : View) → put id r (put id q v) ≡ put id r v
put-put id r q v =
    fun_ext
      (λ k. elim (Bool-cases (k == id)) [ inl same ↦ rw same refl | inr other ↦ rw other refl ])

-- `r` with another open file.
abbrev pub with_file : ℕ → Option PayloadFile → Option PayloadFile
with_file f none = none
with_file f (some p) = some (record p { file = f })

pub lookup-set_file :
    (id f k : ℕ) (l : List PayloadFile)
    → payload_lookup k (set_file id f l)
      ≡ (if k == id then with_file f (payload_lookup k l) else payload_lookup k l)
unfolding payload_lookup set_file
lookup-set_file id f k [] = ground arith
lookup-set_file id f k (p ∷ rest) = elim (Bool-cases (p.id == id)) [
  | inl here ↦ elim (Bool-cases (k == id)) [
    | inl same ↦ let q : (p.id == k) ≡ true = ground (arith, here, same) in rw (here, same, q) refl
    | inr other ↦
        let q : (p.id == k) ≡ false = ground (arith, here, other) in rw (here, other, q) refl
  ]
  | inr there ↦ elim (Bool-cases (p.id == k)) [
    | inl found ↦
        let q : (k == id) ≡ false = ground (arith, there, found) in rw (there, found, q) refl
    | inr later ↦ rw (there, later) (lookup-set_file id f k rest)
  ]
]

-- An identifier that has no payload gets none.
keeps_none-set_file :
    (id f k : ℕ) (l : List PayloadFile)
    → payload_lookup k l ≡ none
    → payload_lookup k (set_file id f l) ≡ none
keeps_none-set_file id f k l h = elim (Bool-cases (k == id)) [
  | inl same ↦ lookup-set_file id f k l ∙ rw (same, h) refl
  | inr other ↦ lookup-set_file id f k l ∙ rw other h
]

keeps_none-unlink :
    (id k : ℕ) (l : List PayloadFile)
    → Unique l
    → payload_lookup k l ≡ none
    → payload_lookup k (unlink id l) ≡ none
keeps_none-unlink id k l u h = elim (Bool-cases (k == id)) [
  | inl same ↦ ap (λ v. v k) (view-unlink id l u) ∙ rw same refl
  | inr other ↦ lookup-unlink_other id k l other ∙ h
]

pub Unique-set_file : (id f : ℕ) (l : List PayloadFile) → Unique l → Unique (set_file id f l)
unfolding set_file
Unique-set_file id f [] u = tt
Unique-set_file id f (p ∷ rest) u = elim (Bool-cases (p.id == id)) [
  | inl here ↦ rw here u
  | inr there ↦ rw there (keeps_none-set_file id f p.id rest u.0, Unique-set_file id f rest u.1)
]

pub Unique-unlink : (id : ℕ) (l : List PayloadFile) → Unique l → Unique (unlink id l)
unfolding unlink
Unique-unlink id [] u = tt
Unique-unlink id (p ∷ rest) u = elim (Bool-cases (p.id == id)) [
  | inl here ↦ rw here u.1
  | inr there ↦ rw there (keeps_none-unlink id p.id rest u.1 u.0, Unique-unlink id rest u.1)
]
