-- ===== src/FilePayload/Reading.antt =====
-- src/dtp_file_payload.c: the bytes that the two readers deliver.
use libdtp.Common.{
  ℕ, zero, suc, ◌+◌, ◌-◌, ◌^◌, ◌≤◌, ◌<◌, ◌≡◌, refl, sym, ap, ◌∙◌, List, [], false, Bool-cases, ◌⊎◌,
  inl, inr, some, arith, ltb, ◌==◌, if◌then◌else◌, add32, length, take, drop, take-all, length-drop,
}
use libdtp.FilePayload.{
  PayloadFile, Files, payload_lookup, clipped, opened, read_found, payload_read_bytes,
}

-- What `fread` reads from an open file of this content: as many bytes from the position on as are
-- asked for, or as there are.
abbrev pub Contents : {W : Type 0} → Files W → ℕ → List ℕ → Type 0
Contents {W} io f content = (pos n : ℕ) (w : W) → (io.fread f pos n w).0 ≡ take n (drop pos content)

clipped-cases :
    (total offset n : ℕ)
    → offset + n < 2 ^ 32
    → n ≤ 2 ^ 31
    → (clipped total offset n ≡ n)
      ⊎ ((total - offset ≤ clipped total offset n) × (total - offset ≤ n))
unfolding clipped
clipped-cases total offset n small half =
    let nowrap : add32 offset n ≡ offset + n = omega arith in
    elim (Bool-cases (ltb total offset)) [
      | inl past ↦ inr (ground (arith, past), ground (arith, past))
      | inr inside ↦ elim (Bool-cases (ltb total (offset + n))) [
        | inl short ↦ inr (ground (arith, inside, short, nowrap), ground (arith, short))
        | inr whole ↦ inl (ground (arith, inside, whole, nowrap))
      ]
    ]

-- Asking for the clipped number of bytes reads what the caller asks for.
clipped-slice :
    (content : List ℕ) (offset n : ℕ)
    → offset + n < 2 ^ 32
    → n ≤ 2 ^ 31
    → take (clipped (length content) offset n) (drop offset content) ≡ take n (drop offset content)
clipped-slice content offset n small half =
    let tail = length-drop offset content in
    elim (clipped-cases (length content) offset n small half) [
      | inl same ↦ ap (λ k. take k (drop offset content)) same
      | inr long ↦
          take-all _ (drop offset content) (omega (arith, tail, long.0))
          ∙ sym (take-all n (drop offset content) (omega (arith, tail, long.1)))
    ]

read_step :
    {W : Type 0} (io : Files W) (id offset n : ℕ) (l : List PayloadFile) (w : W) (p : PayloadFile)
    → payload_lookup id l ≡ some p
    → ((opened io p w).0 == 0) ≡ false
    → (payload_read_bytes io id offset n l w).0 ≡ (
        if clipped p.size offset n == 0
        then []
        else (io.fread (opened io p w).0 offset (clipped p.size offset n) (opened io p w).1).0)
unfolding payload_read_bytes clipped
read_step io id offset n l w p e open_ok =
    ap (λ o. (read_found io id offset n l w o).0) e
    ∙ elim (Bool-cases (clipped p.size offset n == 0)) [
      | inl none_left ↦ rw none_left refl
      | inr some_left ↦ rw (some_left, open_ok) refl
    ]

take_guard : (k : ℕ) (xs : List ℕ) → (if k == 0 then [] else take k xs) ≡ take k xs
take_guard zero xs = refl
take_guard (suc k) xs = ground arith

-- `payload_read` of a registered file that opens, and that still has the size it was registered with,
-- delivers exactly the slice of its content that the caller asks for, as far as there is one, and reads
-- nothing behind the end. The request must end below 2 ^ 32 and have at most 2 ^ 31 bytes.
pub payload_read_bytes-slice :
    {W : Type 0} (io : Files W) (id offset n : ℕ) (l : List PayloadFile) (w : W) (p : PayloadFile)
    (content : List ℕ)
    → payload_lookup id l ≡ some p
    → ((opened io p w).0 == 0) ≡ false
    → Contents io (opened io p w).0 content
    → p.size ≡ length content
    → offset + n < 2 ^ 32
    → n ≤ 2 ^ 31
    → (payload_read_bytes io id offset n l w).0 ≡ take n (drop offset content)
payload_read_bytes-slice io id offset n l w p content e open_ok reads size small half =
    let k = clipped p.size offset n in
    let f = opened io p w in
    read_step io id offset n l w p e open_ok
    ∙ (ap (λ b. if k == 0 then [] else b) (reads offset k f.1)
        ∙ (take_guard k (drop offset content)
            ∙ (ap (λ t. take (clipped t offset n) (drop offset content)) size
                ∙ clipped-slice content offset n small half)))
