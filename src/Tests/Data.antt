-- ===== src/Tests/Data.antt =====
-- A session, a table, and a world outside, for the tests: a world is a number, the packets that the
-- network still brings.
use libdtp.Common.{
  ℕ, zero, suc, ◌+◌, refl, ◌*◌, ◌%◌, List, [], ◌∷◌, Bool, true, false, ◌&&◌, Option, none, some,
  arith, ltb, ◌≤◌, ◌==◌, Bool-cases, inl, inr,
}
use libdtp.Session.{no_err, Interval, MetaReq, SessionHooks, Session, Packet}
use libdtp.Protocol.{Floats}
use libdtp.Protocol.Metrics.{RejectsZero}
use libdtp.Pool.{Pool, StaticSession, Outside, whole_payload}
use libdtp.Client.{Network}
use libdtp.Hooks.{Stdio}
use libdtp.Client.Prepare.{Request}
use libdtp.Server.{TransferCtx, ServerIo}
use libdtp.Server.Poll.{IsSteady, slice}
use libdtp.Vmem.Requests.{VmemNet, open_request, vmem_request_dtp_send_alive}

-- The bytes of a payload.
abbrev pub byte_at : ℕ → ℕ
byte_at k = k % 251

-- A server whose payload gives all the bytes that it is asked for; its world counts the calls.
abbrev pub io : ServerIo ℕ
io = record {
  csp_buffer_get = λ w. (true, w);
  read = λ m id offset n w. (n, slice byte_at offset n, w + 1);
  completed = λ m id sent w. w + 100;
  csp_get_ms = λ w. (w, w);
  others = λ c w. (c, w);
}

abbrev pub steady : IsSteady io
steady = record {
  buffers = λ w. refl;
  content = λ m id. byte_at;
  reads = λ m id offset n w. refl;
  gives = λ m id offset n w. refl;
  alone = λ c w. refl;
}

abbrev pub eight : List Interval
eight =
    whole_payload ∷ whole_payload ∷ whole_payload ∷ whole_payload ∷ whole_payload ∷ whole_payload
    ∷ whole_payload ∷ whole_payload ∷ []

abbrev pub no_hooks : SessionHooks
no_hooks = record {
  on_start = 0;
  on_data_packet = 7;
  on_end = 0;
  on_release = 9;
  on_serialize = 0;
  on_deserialize = 0;
  on_dump_info = 0;
  hook_ctx = none;
}

abbrev pub request : MetaReq
request = record {
  throughput = 1000;
  nof_intervals = 1;
  payload_id = 1;
  reserved1 = 0;
  reserved2 = 0;
  session_id = 77;
  mtu = 108;
  keep_alive_interval = 300;
  intervals = whole_payload ∷ whole_payload ∷ [];
}

abbrev pub session : Session
session = record {
  active = true;
  conn = 3;
  user_context = 0;
  node = 5;
  hooks = no_hooks;
  bytes_received = 0;
  payload_size = 250;
  start_ts = 0;
  end_ts = 0;
  dtp_errno = no_err;
  request_meta = request;
  timeout = 1;
}

abbrev pub slot : Bool → StaticSession
slot b = record { session = session; in_use = b }

abbrev pub pool : List StaticSession → Pool
pool l = record { static_sessions = l; last_error = no_err; default_session_hooks = no_hooks }

abbrev pub half_full : Pool
half_full = pool (slot true ∷ slot false ∷ slot true ∷ [])

abbrev pub all_full : Pool
all_full = pool (slot true ∷ slot true ∷ [])

abbrev pub out : Outside ℕ
out = record {
  on_start = λ h s w. (s, w);
  on_data_packet = λ h p s w. (true, record s { end_ts = h }, w);
  on_end = λ h s w. (s, w);
  on_release = λ h s w. (record s { end_ts = h }, w);
  on_serialize = λ h c s w. (s, w);
  on_deserialize = λ h c s w. (s, w);
  csp_close = λ c w. w;
}

abbrev pub arrival : ℕ → Option Packet × ℕ
arrival zero = (none, zero)
arrival (suc n) = (some (record { packet_length = 108; data32_0 = n * 100 }), n)

abbrev pub vmem : VmemNet ℕ
vmem = record {
  csp_connect = λ node timeout rdp w. (node, w);
  csp_buffer_get = λ w. (some request, w);
  csp_send = λ conn version r w. w;
  csp_read = λ conn timeout w. (none, w);
  csp_close = λ conn w. w;
}

pub alive_pending : (node w : ℕ) → (vmem_request_dtp_send_alive vmem node w).1 ≤ w
unfolding vmem_request_dtp_send_alive open_request
alive_pending node w = elim (Bool-cases (node == 0)) [
  | inl null ↦ rw null (omega arith)
  | inr connected ↦ rw connected (omega arith)
]

abbrev pub net : Network ℕ
net = record {
  csp_connect = λ n w. (n, w);
  csp_buffer_get = λ w. (true, w);
  csp_send = λ c m w. w;
  csp_read = λ c w. (some (record { size_in_bytes = 250; total_payload_size = 250 }), w);
  csp_bind = λ w. (true, w);
  csp_recvfrom = λ t w. arrival w;
  csp_socket_close = λ w. w;
  csp_get_ms = λ w. (40, w);
  vmem = vmem;
  others = λ s w. (s, w);
}

-- Files whose world is the one file that is kept.
abbrev pub stdio : Stdio (List ℕ)
stdio = record {
  fopen_wb = λ n w. (7, w);
  fopen_rb_plus = λ n w. (7, w);
  fwrite_at = λ f n p w. w;
  fclose = λ f w. w;
  strlen = λ n. n;
  opens_meta = λ n w. true;
  save_meta = λ n file w. file;
  load_meta = λ n w. (some w, w);
  short = λ old rest. old;
  malloc = λ w. true;
  csp_get_ms = λ w. (40, w);
}

abbrev pub wish : Request
wish = record {
  server = 5;
  session_id = 12;
  max_throughput = 1000;
  timeout = 1;
  payload_id = 1;
  ctx = 99;
  mtu = 108;
  resume = false;
  keep_alive_interval = 300;
}

-- The relative error as a comparison of whole numbers.
abbrev pub floats : Floats
floats = record {
  error_below_5 = λ t a. ltb (t * 95) (a * 100) && ltb (a * 100) (t * 105);
  round_throughput = λ packets mtu round_time. packets * mtu;
}

pub floats-RejectsZero : RejectsZero floats
floats-RejectsZero t p = ground arith

abbrev pub transfer_ctx : TransferCtx
transfer_ctx = record {
  srv_node = 1;
  dest_port = 2;
  size_in_bytes = 0;
  keep_running = true;
  request = request;
  payload_meta = record { base = 0; size = 450; read = 1; completed = 1; context = 0 };
  client_alive_ts = 0;
}
