-- ===== src/Vmem/Run.antt =====
-- src/dtp_server.c: `dtp_vmem_server_run`, which takes the messages of the VMEM server.
use libdtp.Common.{
  ℕ, ◌+◌, ◌%◌, ◌^◌, ◌≤◌, ◌<◌, ◌≡◌, refl, ap, ap₂, ◌∙◌, zero, suc, List, ◌∷◌, true, false, Option,
  some, arith, length, ◌>>=◌,
}
use libdtp.Session.{Interval}
use libdtp.Protocol.{Floats}
use libdtp.Protocol.Metrics.{RejectsZero}
use libdtp.Server.{TransferCtx, DataPacket, ServerIo, compute_transfer_size, start_sending_data}
use libdtp.Server.Poll.{IsSteady, Genuine, slice}
use libdtp.Server.Ranges.{Holds, AllWithin, Delivers}
use libdtp.Server.Intervals.{start_sending_data-Delivers}
use libdtp.Server.Setup.Serve.{transfer_size_of}
use libdtp.Vmem.{Msg}

-- `dtp_async_api_t`, as far as the server uses it: `read` copies bytes of the memory from an address to
-- a packet, which then holds them. The addresses are those of `dtp_payload_vmem_read` and of `transfer_obj`.
pub record AsyncApi (W : Type 0) : Type 0 where
  pub read : ℕ → ℕ → W → List ℕ × W
  pub vmem_read : ℕ
  pub transfer_obj : ℕ

-- The byte of a 64-bit address, some way behind it.
abbrev pub byte_from : (ℕ → ℕ) → ℕ → ℕ → ℕ
byte_from memory vaddr offset = memory ((vaddr + offset) % 2 ^ 64)

-- The reads give the bytes of a memory.
abbrev pub ReadsMemory : {W : Type 0} → AsyncApi W → (ℕ → ℕ) → Type 0
ReadsMemory {W} api memory =
    (vaddr n : ℕ) (w : W) → (api.read vaddr n w).0 ≡ slice (byte_from memory vaddr) 0 n

slice-byte_from :
    (memory : ℕ → ℕ) (vaddr a offset k n : ℕ)
    → (a + k) % 2 ^ 64 ≡ (vaddr + offset) % 2 ^ 64
    → slice (byte_from memory a) k n ≡ slice (byte_from memory vaddr) offset n
unfolding slice
slice-byte_from memory vaddr a offset k zero e = refl
slice-byte_from memory vaddr a offset k (suc n) e =
    ap₂ (λ x l. x ∷ l) (ap memory e)
      (slice-byte_from memory vaddr a (offset + 1) (k + 1) n (omega (arith, e)))

module _ {W : Type 0} (io : ServerIo W) (api : AsyncApi W) where
  -- The result, the bytes, and the world once they are copied.
  unfoldable pub dtp_payload_vmem_read : Msg → ℕ → ℕ → W → ℕ × List ℕ × W
  dtp_payload_vmem_read msg offset size w =
      let (bytes, w') = api.read ((msg.vaddr + offset) % 2 ^ 64) size w in (size, bytes, w')

  -- The outside of a transfer that reads its payload with it; `completed` is NULL.
  abbrev pub vmem_io : Msg → ServerIo W
  unfolding dtp_payload_vmem_read
  vmem_io msg = record io { read = λ payload id offset n w. dtp_payload_vmem_read msg offset n w }

  abbrev pub with_message : TransferCtx → Msg → TransferCtx
  with_message ctx msg = record ctx {
    request = msg.request_meta;
    payload_meta = record {
      base = msg.vaddr;
      size = msg.size;
      read = api.vmem_read;
      completed = 0;
      context = api.transfer_obj;
    };
    srv_node = msg.srv_node;
    dest_port = msg.dest_port;
    keep_running = true;
  }

  -- A round of `dtp_vmem_server_run` behind `recv`, for a message that starts a transfer: the context,
  -- the packets sent, and the world. `none` is a read past the eight intervals.
  unfoldable pub serve_message :
      Floats → ℕ → TransferCtx → Msg → W → Option (TransferCtx × List DataPacket × W)
  unfolding compute_transfer_size start_sending_data
  serve_message floats fuel ctx msg w = do
    size ← compute_transfer_size (with_message ctx msg)
    r ←
        start_sending_data (vmem_io msg) floats fuel
          (record (with_message ctx msg) { size_in_bytes = size }) w
    some (record (r.1.ctx) { keep_running = false }, r.1.sent, r.2)

  -- A message with an MTU above 8, a positive throughput, no keep-alive interval, and intervals that each
  -- hold a byte of a payload below 2 ^ 32 bytes, starts a transfer that ends: undisturbed, and given
  -- fuel for the payload, with buffers at hand and a floating point test that rejects a throughput of
  -- 0. The packets sent carry every byte of each interval, in order and once, and these are the bytes
  -- of the memory at the message's address; and the flag keep_running is cleared.
  pub serve_message-Delivers :
      (floats : Floats) (fuel : ℕ) (ctx : TransferCtx) (msg : Msg) (vs : List Interval) (w : W)
      (memory : ℕ → ℕ)
      → ReadsMemory api memory
      → ((u : W) → (io.csp_buffer_get u).0 ≡ true)
      → ((c : TransferCtx) (u : W) → (io.others c u).0 ≡ c)
      → msg.request_meta.keep_alive_interval ≡ 0
      → 8 < msg.request_meta.mtu
      → msg.request_meta.mtu < 2 ^ 16
      → msg.size < 2 ^ 32
      → RejectsZero floats
      → 0 < msg.request_meta.throughput
      → msg.request_meta.throughput < 2 ^ 32
      → 0 < length vs
      → length vs ≤ length msg.request_meta.intervals
      → msg.request_meta.nof_intervals ≡ length vs
      → Holds msg.request_meta.intervals 0 vs
      → AllWithin msg.request_meta.mtu msg.size vs
      → msg.size ≤ fuel
      → (ctx' : TransferCtx) × (sent : List DataPacket) × (w' : W) × (serve_message floats fuel ctx
            msg w
          ≡ some (ctx', sent, w'))
        × (ctx'.keep_running ≡ false)
        × Delivers msg.request_meta.mtu msg.size vs sent
        × Genuine (byte_from memory msg.vaddr) sent
  unfolding serve_message dtp_payload_vmem_read
  serve_message-Delivers floats fuel ctx msg vs w memory reads buffers alone ka lo hi small z t0 t1
        n0 n1 n h a f =
      let (size, q) = transfer_size_of (with_message ctx msg) (omega (arith, n, n1)) in
      let steady : IsSteady (vmem_io msg) = record {
        buffers = buffers;
        content = λ m id. byte_from memory msg.vaddr;
        reads = λ m id offset k u. refl;
        gives = λ m id offset k u.
            reads ((msg.vaddr + offset) % 2 ^ 64) k u
            ∙ slice-byte_from memory msg.vaddr ((msg.vaddr + offset) % 2 ^ 64) offset 0 k
                (omega arith);
        alone = alone;
      } in
      let (t, w', s, d, g) =
        start_sending_data-Delivers (vmem_io msg) floats
          (record (with_message ctx msg) { size_in_bytes = size }) vs fuel w steady lo hi small refl
          ka z t0 t1 n0 n1 n h a f in
      (record (t.ctx) { keep_running = false }, t.sent, w', rw (q, s) refl, refl, d, g)
