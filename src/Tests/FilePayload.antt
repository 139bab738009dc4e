-- ===== src/Tests/FilePayload.antt =====
-- Payloads over files that all open and hold five bytes.
use libdtp.Common.{
  ℕ, ◌+◌, ◌≤◌, ◌<◌, ◌≡◌, refl, List, [], ◌∷◌, true, Option, none, some, arith, length, take, drop,
  inr, ◌⊎◌,
}
use libdtp.FilePayload.{
  PayloadFile, Files, test_payload, new_payload, payload_lookup, payload_read_bytes,
  dtp_file_payload_add, dtp_file_payload_del, hex_digits, memory_read,
}
use libdtp.FilePayload.Reading.{Contents, payload_read_bytes-slice}
use libdtp.FilePayload.Registry.{view, put}
use libdtp.FilePayload.Registry.Steps.{
  IsRegistry, dtp_file_payload_add-put, dtp_file_payload_del-put,
}
use libdtp.FilePayload.Registry.Reachable.{Reach, loaded, added, Reach-IsRegistry}
use libdtp.FilePayload.Cycle.{Cycles, memory_read-Cycles, memory_read_underflow}

abbrev content : List ℕ
content = 10 ∷ 11 ∷ 12 ∷ 13 ∷ 14 ∷ []

abbrev files : Files ℕ
files = record {
  fopen_rb = λ name w. (name + 1, w);
  file_size = λ f w. (5, w);
  fread = λ f pos n w. (take n (drop pos content), w);
  fclose = λ f w. w;
  calloc = λ w. (true, w);
}

abbrev two : List PayloadFile
two = new_payload 3 9 5 ∷ test_payload ∷ []

add_third :
    dtp_file_payload_add files 3 9 (test_payload ∷ []) 0 ≡ some (some (new_payload 3 9 5), two, 0)
unfolding dtp_file_payload_add payload_lookup
add_third = refl

files-Contents : Contents files 10 content
files-Contents pos n w = refl

find_third : payload_lookup 3 two ≡ some (new_payload 3 9 5)
unfolding payload_lookup
find_third = refl

-- The last two bytes, where four are asked for.
payload_read_bytes-slice_example :
    (payload_read_bytes files 3 3 4 two 0).0 ≡ take 4 (drop 3 content)
payload_read_bytes-slice_example =
    payload_read_bytes-slice files 3 3 4 two 0 (new_payload 3 9 5) content find_third refl
      files-Contents refl (omega arith) (omega arith)

two-Reach : Reach files two 0
two-Reach = added 3 9 (loaded 0) add_third

Reach-IsRegistry_example : IsRegistry two
Reach-IsRegistry_example = Reach-IsRegistry files two-Reach

-- The same identifier again, for another file.
dtp_file_payload_add-put_example :
    (r : Option PayloadFile) × (l' : List PayloadFile) × (w' : ℕ) × (dtp_file_payload_add files 3 8
        two 0
      ≡ some (r, l', w'))
    × (view l' ≡ put 3 r (view two))
    × IsRegistry l'
    × ((r ≡ none) ⊎ ((size : ℕ) × (r ≡ some (new_payload 3 8 size))))
dtp_file_payload_add-put_example =
    dtp_file_payload_add-put files 3 8 two 0 (Reach-IsRegistry files two-Reach)
      (λ e. omega (arith, e))

dtp_file_payload_del-put_example :
    (l' : List PayloadFile) × (w' : ℕ) × (dtp_file_payload_del files 3 two 0 ≡ some (l', w'))
    × (view l' ≡ put 3 none (view two))
    × IsRegistry l'
dtp_file_payload_del-put_example =
    dtp_file_payload_del-put files 3 two 0 (Reach-IsRegistry files two-Reach)
      (λ e. omega (arith, e))

memory_read-Cycles_example :
    (res : List ℕ) × (memory_read 40 64 8 20 ≡ some res)
    × Cycles hex_digits 8 res
    × (20 ≤ length res)
    × (length res < 20 + 16)
memory_read-Cycles_example =
    memory_read-Cycles 40 64 8 20 (omega arith) (omega arith) (omega arith) (inr (omega arith))

memory_read_underflow_example : memory_read 40 64 8 5 ≡ none
memory_read_underflow_example =
    memory_read_underflow 40 64 8 5 (omega arith) (omega arith) (omega arith) (omega arith)
      (omega arith)
