-- ===== src/FilePayload/Cycle.antt =====
-- src/dtp_file_payload.c: the bytes of the test payload.
use mathlib.Core.Path.{subst}
use mathlib.Core.List.{append-nil}
use libdtp.Common.{
  ℕ, zero, suc, ◌+◌, ◌-◌, ◌%◌, ◌≤◌, ◌<◌, ◌≡◌, refl, ap, ap₂, ◌∙◌, ◌^◌, take-all, drop-all, add32,
  List, [], ◌++◌, Bool-cases, ◌⊎◌, inl, inr, none, some, arith, ltb, ltb→lt, lt→ltb, ge→ltb, length,
  take, drop, get_elem?, length-append, length-take, length-drop, get_elem?-drop, get_elem?-take,
  get_elem?-front, get_elem?-back,
}
use libdtp.FilePayload.{hex_digits, write_at, fill, patch, memory_read}

-- The bytes of a payload that repeats a table of 16 bytes, from an offset on.
abbrev pub Cycles : List ℕ → ℕ → List ℕ → Type 0
Cycles table offset out =
    (i : ℕ) → i < length out → get_elem? out i ≡ get_elem? table ((offset + i) % 16)

-- The part of the table from `start` on, with what it becomes behind `out`.
module _ (table : List ℕ) (whole : 16 ≤ length table) where
  pub block : ℕ → List ℕ
  block start = take (16 - start) (drop start table)

  pub length-block : (start : ℕ) → start < 16 → length (block start) ≡ 16 - start
  unfolding block
  length-block start h =
      length-take (16 - start) (drop start table) (omega (arith, length-drop start table, whole))

  pub Cycles-append :
      (offset : ℕ) (out ys : List ℕ)
      → Cycles table offset out
      → Cycles table (offset + length out) ys
      → Cycles table offset (out ++ ys)
  Cycles-append offset out ys c d i h = elim (Bool-cases (ltb i (length out))) [
    | inl front ↦ let p = ltb→lt _ _ front in get_elem?-front out ys i p ∙ c i p
    | inr back ↦
        let j : ℕ = i - length out in
        let q : i ≡ length out + j = ground (arith, back) in
        ap (get_elem? (out ++ ys)) q
        ∙ (get_elem?-back out ys j
            ∙ (d j (omega (arith, q, h, length-append out ys))
                ∙ ap (λ k. get_elem? table (k % 16)) (omega (arith, q))))
  ]

  block-Cycles : (offset start : ℕ) → start ≡ offset % 16 → Cycles table offset (block start)
  unfolding block
  block-Cycles offset start e i h =
      let p : start < 16 = omega (arith, e) in
      let q : i < 16 - start = omega (arith, h, length-block start p) in
      get_elem?-take (16 - start) i (drop start table) q
      ∙ (get_elem?-drop start i table ∙ ap (get_elem? table) (omega (arith, e, q)))

sixteen : 16 ≤ length hex_digits
sixteen = omega arith

write_at-end : (out bytes : List ℕ) → write_at out (length out) bytes ≡ out ++ bytes
write_at-end out bytes =
    ap₂ (λ a d. a ++ (bytes ++ d)) (take-all (length out) out (omega arith))
      (drop-all (length out + length bytes) out (omega arith))
    ∙ ap (λ l. out ++ l) (append-nil bytes)

-- The loop ends, whatever it has written so far, behind less than 16 bytes more than it is asked for,
-- if there is room for 15 bytes more and the counter does not wrap.
fill-Cycles :
    (fuel room offset start size : ℕ) (out : List ℕ)
    → start ≡ (offset + length out) % 16
    → Cycles hex_digits offset out
    → length out < size + 16
    → 0 < fuel
    → size < length out + fuel
    → size + 15 ≤ room
    → size + 15 < 2 ^ 32
    → (res : List ℕ) × (fill fuel room start size (length out) out ≡ some (length res, res))
      × Cycles hex_digits offset res
      × (size ≤ length res)
      × (length res < size + 16)
      × ((res ≡ out) ⊎ ((offset + length res) % 16 ≡ 0))
      × (length out ≤ length res)
unfolding fill block
fill-Cycles zero room offset start size out e c p z f has word = absurd (omega arith)
fill-Cycles (suc fuel) room offset start size out e c p z f has word =
    elim (Bool-cases (ltb (length out) size)) [
      | inl short ↦
          let out' : List ℕ = out ++ block hex_digits sixteen start in
          let h = ltb→lt _ _ short in
          let k : length out' ≡ length out + (16 - start) =
            length-append out (block hex_digits sixteen start)
            ∙ ap (λ n. length out + n) (length-block hex_digits sixteen start (omega (arith, e))) in
          let c' =
            Cycles-append hex_digits sixteen offset out (block hex_digits sixteen start) c
              (block-Cycles hex_digits sixteen (offset + length out) start e) in
          let (res, f', d, lo, hi, at, grow) =
            fill-Cycles fuel room offset 0 size out' (omega (arith, e, k)) c' (omega (arith, k, h))
              (omega (arith, f, h)) (omega (arith, k, f, e)) has word in
          let counted : add32 (length out) (16 - start) ≡ length out' = omega (arith, k, h, word) in
          let fits = ge→ltb room (length out + (16 - start)) (omega (arith, h, has)) in
          (
            res,
            rw (short, fits)
                (ap₂ (fill fuel room 0 size) counted
                    (write_at-end out (block hex_digits sixteen start))
                  ∙ f'),
            d,
            lo,
            hi,
            elim at [ inl same ↦ inr (omega (arith, ap length same, k, e)) | inr q ↦ inr q ],
            omega (arith, k, grow),
          )
      | inr done ↦ (out, rw done refl, c, ground (arith, done), p, inl refl, omega arith)
    ]

Cycles-take :
    (table : List ℕ) (offset n : ℕ) (out : List ℕ)
    → n ≤ length out
    → Cycles table offset out
    → Cycles table offset (take n out)
Cycles-take table offset n out h c i p =
    let q : i < n = omega (arith, p, length-take n out h) in
    get_elem?-take n i out q ∙ c i (omega (arith, q, h))

Cycles-drop :
    (table : List ℕ) (offset n : ℕ) (out : List ℕ)
    → Cycles table offset out
    → Cycles table (offset + n) (drop n out)
Cycles-drop table offset n out c i p =
    get_elem?-drop n i out
    ∙ (c (n + i) (omega (arith, p, length-drop n out))
        ∙ ap (λ k. get_elem? table (k % 16)) (omega arith))

table-Cycles :
    (offset k : ℕ) → offset % 16 ≡ 0 → k ≤ 16 → Cycles hex_digits offset (take k hex_digits)
table-Cycles offset k e h i p =
    let q : i < k = omega (arith, p, length-take k hex_digits (omega (arith, h))) in
    let r : i ≡ (offset + i) % 16 = omega (arith, e, q, h) in
    get_elem?-take k i hex_digits q ∙ ap (get_elem? hex_digits) r

-- The patch writes bytes that stand there already, if the block ends at a multiple of 16.
patch-Cycles :
    (offset size : ℕ) (out : List ℕ)
    → Cycles hex_digits offset out
    → length out < size + 16
    → (size < length out → (16 ≤ length out) × ((offset + length out) % 16 ≡ 0))
    → (res : List ℕ) × (patch size (length out) out ≡ some res)
      × Cycles hex_digits offset res
      × (length res ≡ length out)
patch-Cycles offset size out c hi at = elim (Bool-cases (ltb size (length out))) [
  | inl longer ↦
      let (long, end) = at (ltb→lt _ _ longer) in
      let q : ℕ = length out - 16 in
      let k : ℕ = length out - size in
      let a = take q out in
      let b = take k hex_digits in
      let d = drop (q + k) out in
      let la : length a ≡ q = length-take q out (omega arith) in
      let lb : length b ≡ k = length-take k hex_digits (omega (arith, hi)) in
      let ld : length d ≡ length out - (q + k) = length-drop (q + k) out in
      let cb : Cycles hex_digits (offset + length a) b =
        table-Cycles (offset + length a) k (omega (arith, la, end, long)) (omega (arith, hi)) in
      let cd = Cycles-drop hex_digits offset (q + k) out c in
      let cd' : Cycles hex_digits (offset + length a + length b) d =
        subst (λ n. Cycles hex_digits n d) (omega (arith, la, lb)) cd in
      (
        a ++ (b ++ d),
        rw (longer, ge→ltb (length out) 16 long) (ap (λ n. some (a ++ (b ++ drop (q + n) out))) lb),
        Cycles-append hex_digits sixteen offset a (b ++ d)
            (Cycles-take hex_digits offset q out (omega arith) c)
            (Cycles-append hex_digits sixteen (offset + length a) b d cb cd'),
        omega (
          arith,
          la,
          lb,
          ld,
          long,
          hi,
          ltb→lt _ _ longer,
          length-append a (b ++ d),
          length-append b d,
        ),
      )
  | inr same ↦ (out, rw same refl, c, refl)
]

-- test_memory_payload_read, where the offset is a multiple of 16 or the size reaches the next one, the
-- size is below 2 ^ 32 - 15, and there is room for 15 bytes more behind the output, ends without a
-- fault: it leaves at least `size` bytes, less than 16 more, and each is the byte of the table at its
-- place in the payload, whatever the offset and the size of the read.
pub memory_read-Cycles :
    (fuel room offset size : ℕ)
    → size < fuel
    → size + 15 < 2 ^ 32
    → size + 15 ≤ room
    → (offset % 16 ≡ 0) ⊎ (16 - offset % 16 ≤ size)
    → (res : List ℕ) × (memory_read fuel room offset size ≡ some res)
      × Cycles hex_digits offset res
      × (size ≤ length res)
      × (length res < size + 16)
unfolding memory_read
memory_read-Cycles fuel room offset size f word has reaches =
    let (out, e, c, lo, hi, at, grow) =
      fill-Cycles fuel room offset (offset % 16) size [] (omega arith) (λ i p. absurd (omega arith))
        (omega arith) (omega arith) (omega arith) has word in
    let (res, e', d, n) = patch-Cycles offset size out c hi (λ p. elim at [
      | inl same ↦ absurd (omega (arith, p, ap length same))
      | inr end ↦ (omega (arith, p, end, reaches), end)
    ]) in
    (res, rw e e', d, omega (arith, n, lo), omega (arith, n, hi))

-- Where the offset is no multiple of 16 and a read of some bytes ends before the next one, the last
-- memcpy starts before the output. There is room for 16 bytes behind the output.
pub memory_read_underflow :
    (fuel room offset size : ℕ)
    → size < fuel
    → 16 ≤ room
    → 0 < size
    → size < 16 - offset % 16
    → 0 < offset % 16
    → memory_read fuel room offset size ≡ none
unfolding memory_read fill
memory_read_underflow zero room offset size f has some_bytes short inside = absurd (omega arith)
memory_read_underflow (suc zero) room offset size f has some_bytes short inside =
    absurd (omega arith)
memory_read_underflow (suc (suc fuel)) room offset size f has some_bytes short inside =
    let n : add32 0 (16 - offset % 16) ≡ 16 - offset % 16 = omega arith in
    let fits = ge→ltb room (0 + (16 - offset % 16)) (omega (arith, has)) in
    let stops = ge→ltb (16 - offset % 16) size (omega (arith, short)) in
    let over = lt→ltb size (16 - offset % 16) short in
    let under = lt→ltb (16 - offset % 16) 16 (omega (arith, inside)) in
    rw (lt→ltb 0 size some_bytes, fits, n, stops, over, under) refl
