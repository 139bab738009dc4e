-- ===== src/TestPayload.antt =====
-- src/payload_api.c: the payload that is linked in where no other `get_payload_meta` is.
use libdtp.Common.{
  ℕ, zero, suc, ◌+◌, ◌*◌, ◌%◌, ◌≤◌, ◌<◌, ◌≡◌, refl, ap, List, [], ◌∷◌, ◌++◌, Bool, true, Bool-cases,
  inl, inr, Option, none, some, arith, ltb, ltb→lt, if◌then◌else◌, length, length-append, get_elem?,
}
use libdtp.Server.{PayloadMeta}
use libdtp.FilePayload.Cycle.{Cycles, Cycles-append}

-- `test_data`: the digits and the letters A to E, with the NUL behind them, 16 bytes in all.
abbrev pub test_data : List ℕ
test_data = 48 ∷ 49 ∷ 50 ∷ 51 ∷ 52 ∷ 53 ∷ 54 ∷ 55 ∷ 56 ∷ 57 ∷ 65 ∷ 66 ∷ 67 ∷ 68 ∷ 69 ∷ 0 ∷ []

-- `payload_read`: what it writes from `output` on, with `out` written so far. `so_far` starts at 0, so
-- that its first branch is taken; it does not wrap for a size up to 2 ^ 32 - 16. `none` is out of fuel.
unfoldable pub write_test_data : ℕ → ℕ → List ℕ → Option (List ℕ)
write_test_data zero size out = none
write_test_data (suc fuel) size out =
    let later = write_test_data fuel size (out ++ test_data) in
    if ltb (length out) size then later else some out

-- The weak `get_payload_meta`, with the address of `payload_read`; it leaves the other fields of what
-- `meta` points to.
unfoldable pub get_payload_meta : ℕ → PayloadMeta → Bool × PayloadMeta
get_payload_meta read m = (true, record m { base = 0; size = 20 * 1024 * 1024; read = read })

test_data-Cycles : (offset : ℕ) → offset % 16 ≡ 0 → Cycles test_data offset test_data
test_data-Cycles offset e i p =
    let r : i ≡ (offset + i) % 16 = omega (arith, e, p) in ap (get_elem? test_data) r

-- The loop, with whole tables written so far.
write_test_data-Cycles :
    (fuel size : ℕ) (out : List ℕ)
    → Cycles test_data 0 out
    → length out % 16 ≡ 0
    → length out < size + 16
    → 0 < fuel
    → size < length out + fuel
    → (res : List ℕ) × (write_test_data fuel size out ≡ some res)
      × Cycles test_data 0 res
      × (length res % 16 ≡ 0)
      × (size ≤ length res)
      × (length res < size + 16)
unfolding write_test_data
write_test_data-Cycles zero size out c e p z f = absurd (omega arith)
write_test_data-Cycles (suc fuel) size out c e p z f = elim (Bool-cases (ltb (length out) size)) [
  | inl short ↦
      let h = ltb→lt _ _ short in
      let k = length-append out test_data in
      let (res, q, d, m, lo, hi) =
        write_test_data-Cycles fuel size (out ++ test_data)
          (Cycles-append test_data (omega arith) 0 out test_data c
            (test_data-Cycles (0 + length out) (omega (arith, e))))
          (omega (arith, e, k)) (omega (arith, k, h)) (omega (arith, f, h)) (omega (arith, k, f)) in
      (res, rw short q, d, m, lo, hi)
  | inr done ↦ (out, rw done refl, c, e, ground (arith, done), p)
]

-- The loop of payload_read ends: it leaves whole tables, which hold the size asked for, and less than
-- 16 bytes more. What they hold is the payload from its start, wherever the read is to begin.
pub write_test_data_whole :
    (fuel size : ℕ)
    → size < fuel
    → (res : List ℕ) × (write_test_data fuel size [] ≡ some res)
      × Cycles test_data 0 res
      × (length res % 16 ≡ 0)
      × (size ≤ length res)
      × (length res < size + 16)
write_test_data_whole fuel size f =
    write_test_data-Cycles fuel size [] (λ i p. absurd (omega arith)) refl (omega arith)
      (omega arith) (omega arith)
