-- ===== src/FilePayload.antt =====
-- src/dtp_file_payload.c: the registry of files that the server offers as payloads. The list
-- `g_payload_list` is passed on; a file's name and an open `FILE *` are numbers, 0 for NULL.
-- `none` is undefined behaviour.
pub mod Registry
pub mod Reading
pub mod Cycle
use libdtp.Common.{
  ℕ, zero, suc, ◌+◌, ◌-◌, ◌%◌, ◌^◌, List, [], ◌∷◌, ◌++◌, Bool, true, false, Option, none, some, ltb,
  ◌==◌, if◌then◌else◌, add32, u32, ◌>>=◌, length, take, drop,
}

-- The functions that a payload's `read` may point to: those of this file.
pub data Reader : Type 0 where
  test_memory_payload_read payload_read : Reader

-- `payload_file_t`, without its `next`.
pub record PayloadFile : Type 0 where
  pub id : ℕ
  pub filename : ℕ
  pub file : ℕ
  pub size : ℕ
  pub read : Reader

-- The C library's files. `file_size` is what `ftell` says behind `fseek` to the end, and `fread` is
-- given the file, the position that `fseek` sets, and the number of bytes.
pub record Files (W : Type 0) : Type 0 where
  pub fopen_rb : ℕ → W → ℕ × W
  pub file_size : ℕ → W → ℕ × W
  pub fread : ℕ → ℕ → ℕ → W → List ℕ × W
  pub fclose : ℕ → W → W
  pub calloc : W → Bool × W

-- The static `test_payload`; its file's name is the address of the literal ":mem:".
abbrev pub test_payload : PayloadFile
test_payload = record {
  id = 255;
  filename = 1;
  file = 0;
  size = 67_102_980;
  read = test_memory_payload_read;
}

unfoldable pub payload_lookup : ℕ → List PayloadFile → Option PayloadFile
payload_lookup id [] = none
payload_lookup id (p ∷ rest) =
    let later = payload_lookup id rest in if p.id == id then some p else later

-- `payload->file = ..` for the payload that the lookup finds.
unfoldable pub set_file : ℕ → ℕ → List PayloadFile → List PayloadFile
set_file id file [] = []
set_file id file (p ∷ rest) =
    let later = set_file id file rest in
    if p.id == id then record p { file = file } ∷ rest else p ∷ later

-- `free` of the static payload is undefined.
abbrev pub is_static : Reader → Bool
is_static test_memory_payload_read = true
is_static payload_read = false

-- The list without the payload that the lookup finds.
unfoldable pub unlink : ℕ → List PayloadFile → List PayloadFile
unlink id [] = []
unlink id (p ∷ rest) = let later = unlink id rest in if p.id == id then rest else p ∷ later

-- The number of bytes that `payload_read` asks of the file.
unfoldable pub clipped : ℕ → ℕ → ℕ → ℕ
clipped total offset n =
    if ltb total offset
    then 0
    else if ltb total (add32 offset n)
    then u32 (offset + 2 ^ 64 - total)
    else n

abbrev pub new_payload : ℕ → ℕ → ℕ → PayloadFile
new_payload id filename size = record {
  id = id;
  filename = filename;
  file = 0;
  size = size;
  read = payload_read;
}

module _ {W : Type 0} (io : Files W) where
  -- `if (!payload->file) payload->file = fopen(..)`
  abbrev pub opened : PayloadFile → W → ℕ × W
  opened p w = if p.file == 0 then io.fopen_rb p.filename w else (p.file, w)

  abbrev pub read_found :
      ℕ → ℕ → ℕ → List PayloadFile → W → Option PayloadFile → List ℕ × List PayloadFile × W
  unfolding clipped
  read_found id offset n l w none = ([], l, w)
  read_found id offset n l w (some p) =
      let size = clipped p.size offset n in
      let (f, w₁) = opened p w in
      let (bytes, w₂) = io.fread f offset size w₁ in
      let l' = set_file id f l in
      if size == 0 then ([], l, w) else if f == 0 then ([], l', w₁) else (bytes, l', w₂)

  -- The bytes read, whose number is the result, with the list afterwards.
  unfoldable pub payload_read_bytes :
      ℕ → ℕ → ℕ → List PayloadFile → W → List ℕ × List PayloadFile × W
  payload_read_bytes id offset n l w = read_found id offset n l w (payload_lookup id l)

  abbrev pub del_found :
      ℕ → List PayloadFile → W → Option PayloadFile → Option (List PayloadFile × W)
  del_found id l w none = some (l, w)
  del_found id l w (some p) =
      if is_static p.read
      then none
      else some (unlink id l, if p.file == 0 then w else io.fclose p.file w)

  unfoldable pub dtp_file_payload_del : ℕ → List PayloadFile → W → Option (List PayloadFile × W)
  dtp_file_payload_del id l w = del_found id l w (payload_lookup id l)

  -- The part of `dtp_file_payload_add` behind the deletion; the result is the new payload, at the
  -- head of the list, or none for NULL.
  unfoldable pub insert_payload :
      ℕ → ℕ → List PayloadFile → W → Option PayloadFile × List PayloadFile × W
  insert_payload id filename l w =
      let (file, w₁) = io.fopen_rb filename w in
      let (allocated, w₂) = io.calloc w₁ in
      let (size, w₃) = io.file_size file w₂ in
      let p = new_payload id filename size in
      if filename == 0
      then (none, l, w)
      else if file == 0
      then (none, l, w₁)
      else if allocated
      then (some p, p ∷ l, io.fclose file w₃)
      else (none, l, io.fclose file w₂)

  -- The list without a payload of this identifier.
  abbrev pub make_room :
      ℕ → List PayloadFile → W → Option PayloadFile → Option (List PayloadFile × W)
  make_room id l w none = some (l, w)
  make_room id l w (some _) = dtp_file_payload_del id l w

  unfoldable pub dtp_file_payload_add :
      ℕ → ℕ → List PayloadFile → W → Option (Option PayloadFile × List PayloadFile × W)
  unfolding insert_payload
  dtp_file_payload_add id filename l w =
      make_room id l w (payload_lookup id l) >>= λ r. some (insert_payload id filename r.0 r.1)

abbrev pub meta_found : Option PayloadFile → Bool × ℕ × Option Reader
meta_found none = (false, 0, none)
meta_found (some p) = (true, u32 p.size, some p.read)

-- `dtp_file_payload_get_meta`: whether the payload is known, the size (`meta->size` has 32 bits) and
-- the reader that it writes, none for NULL.
unfoldable pub dtp_file_payload_get_meta : List PayloadFile → ℕ → Bool × ℕ × Option Reader
dtp_file_payload_get_meta l id = meta_found (payload_lookup id l)

-- `test_data`: the digits and the letters A to F, with the NUL behind them.
abbrev pub hex_digits : List ℕ
hex_digits = 48 ∷ 49 ∷ 50 ∷ 51 ∷ 52 ∷ 53 ∷ 54 ∷ 55 ∷ 56 ∷ 57 ∷ 65 ∷ 66 ∷ 67 ∷ 68 ∷ 69 ∷ 70 ∷ 0 ∷ []

-- `memcpy(output + at, bytes, ..)`, on the bytes that are known from `output` on.
abbrev pub write_at : List ℕ → ℕ → List ℕ → List ℕ
write_at out at bytes = take at out ++ (bytes ++ drop (at + length bytes) out)

-- The loop of `test_memory_payload_read`: `so_far`, and the bytes from `output` on. There are `room` bytes
-- behind `output`. `none` is out of fuel, or a `memcpy` past the room.
unfoldable pub fill : ℕ → ℕ → ℕ → ℕ → ℕ → List ℕ → Option (ℕ × List ℕ)
fill zero room start size so_far out = none
fill (suc fuel) room start size so_far out =
    let bytes = take (16 - start) (drop start hex_digits) in
    let later = fill fuel room 0 size (add32 so_far (16 - start)) (write_at out so_far bytes) in
    if ltb so_far size
    then (if ltb room (so_far + (16 - start)) then none else later)
    else some (so_far, out)

-- The `memcpy` behind the loop, which starts 16 bytes before the end of what the loop has written:
-- before `output`, where that is shorter, which is a fault.
abbrev pub patch : ℕ → ℕ → List ℕ → Option (List ℕ)
patch size so_far out =
    if ltb size so_far
    then (if ltb so_far 16
        then none
        else some (write_at out (so_far - 16) (take (so_far - size) hex_digits)))
    else some out

-- What it leaves in memory from `output` on, with `room` bytes there; its result is `size`.
unfoldable pub memory_read : ℕ → ℕ → ℕ → ℕ → Option (List ℕ)
unfolding fill
memory_read fuel room offset size = do
  r ← fill fuel room (offset % 16) size 0 []
  patch size r.0 r.1
