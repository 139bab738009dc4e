-- ===== src/Tests/Vmem.antt =====
-- A start request of two intervals, and one of nine.
use libdtp.Common.{
  ℕ, ◌+◌, ◌≡◌, refl, List, [], ◌∷◌, true, false, none, some, arith, inr, little_endian,
}
use libdtp.Session.{Interval, MetaReq}
use libdtp.Pool.{whole_payload}
use libdtp.Vmem.{
  StartReq, Msg, VmemIo, VmemState, start_transfer, start_request, start_message,
  vmem_dtp_request_handler,
}
use libdtp.Vmem.Start.{Arrives, start_message-start_request}
use libdtp.Vmem.Overflow.{vmem_dtp_request_handler_overflows}
use libdtp.Server.{TransferCtx, DataPacket, ServerIo}
use libdtp.Server.Poll.{slice, Genuine}
use libdtp.Server.Ranges.{AllWithin, Delivers}
use libdtp.Vmem.Run.{AsyncApi, byte_from, serve_message}
use libdtp.Vmem.Download.{vmem_download-Delivers}
use libdtp.Tests.Data.{byte_at, eight, request, transfer_ctx, floats, floats-RejectsZero}

abbrev blank : MetaReq
blank = record request { payload_id = 200; intervals = eight }

abbrev two_parts : MetaReq
two_parts = record request {
  nof_intervals = 2;
  intervals = record { start = 0; end = 4 } ∷ record { start = 7; end = 9 } ∷ [];
}

abbrev io : VmemIo ℕ
io = record {
  message_queue_send = λ m w. w;
  csp_get_ms = λ w. (40, w);
  csp_buffer_get = λ w. (true, w);
  csp_send = λ r w. w;
}

start_message-start_request_example :
    (r : StartReq) × (msg : Msg) × (start_request little_endian blank two_parts 77 0x1000 4000
      ≡ some r)
    × (start_message little_endian blank 1 2 r ≡ some msg)
    × (msg.size ≡ 4000)
    × (msg.vaddr ≡ 0x1000)
    × Arrives little_endian two_parts 77 blank.payload_id msg.request_meta
start_message-start_request_example =
    start_message-start_request little_endian blank two_parts blank 77 0x1000 4000 1 2 (omega arith)
      (omega arith) (omega arith) (omega arith)
      (omega arith, omega arith, (omega arith, omega arith, tt)) (omega arith) (omega arith)
      (omega arith) (omega arith) (omega arith) (omega arith)

abbrev nine : StartReq
nine = record {
  vaddr = 0;
  size = 4000;
  request_meta = record blank { nof_intervals = 9; intervals = whole_payload ∷ eight };
}

abbrev idle : VmemState
idle = record { session_id = 0; transfer = transfer_ctx }

vmem_dtp_request_handler_overflows_example :
    vmem_dtp_request_handler io little_endian blank 1 2 (start_transfer nine) idle 0 ≡ none
vmem_dtp_request_handler_overflows_example =
    vmem_dtp_request_handler_overflows io little_endian blank 1 2 nine idle 0 (omega arith)

abbrev server_io : ServerIo ℕ
server_io = record {
  csp_buffer_get = λ w. (true, w);
  read = λ m id offset n w. (0, [], w);
  completed = λ m id sent w. w;
  csp_get_ms = λ w. (w, w);
  others = λ c w. (c, w);
}

abbrev api : AsyncApi ℕ
api = record {
  read = λ vaddr n w. (slice (byte_from byte_at vaddr) 0 n, w + n);
  vmem_read = 3;
  transfer_obj = 4;
}

-- 950 bytes, in two parts.
abbrev parts : List Interval
parts = record { start = 0; end = 4 } ∷ record { start = 7; end = 9 } ∷ []

parts-AllWithin : AllWithin 108 950 parts
parts-AllWithin = (
  record { some_byte = ground arith; no_wrap = inr (omega arith) },
  (record { some_byte = ground arith; no_wrap = inr (omega arith) }, tt),
)

vmem_download-Delivers_example :
    (r : StartReq) × (msg : Msg) × (ctx' : TransferCtx) × (sent : List DataPacket) × (w' : ℕ)
    × (start_request little_endian blank two_parts 77 0x1000 950 ≡ some r)
    × (start_message little_endian blank 1 2 r ≡ some msg)
    × (serve_message server_io api floats 950 transfer_ctx msg 0 ≡ some (ctx', sent, w'))
    × (ctx'.keep_running ≡ false)
    × Delivers 108 950 parts sent
    × Genuine (byte_from byte_at 0x1000) sent
vmem_download-Delivers_example =
    vmem_download-Delivers server_io api little_endian floats 950 transfer_ctx blank two_parts blank
      parts 77 0x1000 950 1 2 0 byte_at (λ vaddr n w. refl) (λ u. refl) (λ c u. refl)
      floats-RejectsZero refl (omega arith) (omega arith) (omega arith) (omega arith) (omega arith)
      (omega arith) (omega arith) (omega arith) (omega arith) (omega arith) refl (refl, (refl, tt))
      (omega arith, omega arith, (omega arith, omega arith, tt)) parts-AllWithin (omega arith)
      (omega arith) (omega arith)
