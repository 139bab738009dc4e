-- ===== src/Lib.antt =====
-- A model of libdtp, the Data Transfer Protocol library, and its theorems.
--
-- A client asks a server for a payload, or for some intervals of it, counted in packets. Both compute
-- the metrics of the transfer from the request. The server sends the intervals packet by packet in
-- polled rounds; the client receives until the last packet, a timeout or a stop, and records in a list
-- of segments which packets have come, so that a later session can ask for the rest.
--
-- Where the code is modelled:
--   Common          lists, options and words of a fixed width that the modules share.
--   Session         the data of include/dtp/dtp.h, dtp_protocol.h and dtp_session.h.
--   Segments        src/dtp_client_posix_segments_utils.c. The list of nodes is a list; the pointer
--                   `cur_segment` is null, a node outside the list, or an alias of a node in it.
--     Shape         the numbers that a list covers, and lists in order.
--     Open          one `update_segments_range` on an open segment.
--     Feed          runs of them, up to `close_segments`.
--     Receive       the packets of a transfer.
--     Merge         `merge_segments`.
--     Complement    the walk of `get_complement_segment`; Missing, what it reports;
--                   Last, where the last packet alone is missing.
--   Pool            src/dtp.c: the table of sessions, their errors, hooks and options (Options).
--     Lifecycle     taking and releasing a session.
--     Activity      stopping transfers.
--     Ownership     who holds which session, over any calls: Table, the steps on the table; Exclusive,
--                   that a session has one holder.
--     Defaults      the default hooks, the user context and the descriptions of the errors.
--   Protocol        src/dtp_protocol.c: `compute_nof_packets` and `compute_dtp_metrics`.
--     Packets       the counts of packets.
--     Metrics       the loop that reduces the round time, and the divisions.
--   Server          src/dtp_server.c: `start_sending_data`, the poll loop, `compute_transfer_size`; and
--                   `os_hal_start_poll_operation` of src/dtp_os_hal.c, in its POSIX form.
--     Poll          one packet, and the packets that tile an interval.
--     Delivery      the polls of an interval.
--     Ranges        the bytes that an interval stands for; Intervals, all those of a request.
--     Size          the size that is announced.
--     Run           the loop of `dtp_server_run`, which waits for connections.
--     Stopped       a transfer that is stopped, or whose client is lost.
--     Setup         `setup_server_transfer` and a round of `dtp_server_run`; Serve, a request from its
--                   arrival to its last packet.
--   Vmem            src/dtp_vmem_server.c, the handler of the requests to the VMEM server, and the data of
--                   the requests.
--     Requests      src/dtp_vmem_client.c: the four requests.
--     Run           `dtp_vmem_server_run` of src/dtp_server.c.
--     Start         a start request from its sender to the server's message.
--     Overflow      a start request with too many intervals.
--     Status        a status request and its response.
--     Download      a download of memory, from its request to its last packet.
--   Hooks           src/dtp_client_posix_session_hooks.c: the hooks that store a download and its session.
--     Meta          the file of a session, as it is written and read; Bytes, numbers as the bytes of a
--                   file.
--     Stored        its parts, written and read; RoundTrip, the whole file; LongNames, names that do not
--                   fit the array where a session is read.
--     Request       the intervals that a resumed session asks for.
--     Dump          a session as it is printed.
--     Recording     the hook of each packet; Ending, the list at the end; Download, all hooks in turn.
--   SessionMeta     utils/session-meta.c, the tool that shows such a file.
--   Resume          a download resumed: Numbers, the packet numbers that the client computes for the
--                   server's packets; Missing, those that answer a request; Completion, what the client
--                   then holds; Exhausted, a download that lacks its last packet.
--   FilePayload     src/dtp_file_payload.c: the registry of files to offer. The list of nodes is a list.
--     Registry      the registry as a map; Steps, what its functions do to the map; Reachable, the lists
--                   that calls lead to.
--     Reading       the bytes that are read from a file.
--     Cycle         the bytes of the test payload.
--   TestPayload     src/payload_api.c: the payload that is linked in by default.
--   Client          src/dtp_client.c and the messages of src/dtp_protocol.c: the request, the response
--                   and the receiver loop.
--     Prepare       `dtp_prepare_session` and `dtp_client_main`; Errors and Fresh, how they end; Held, who
--                   holds the session then.
--     Wire          the request as it is sent.
--     Outcome       the receiver loop, its end and its result: Round, one turn of it; Loop, all.
--     Bounded       the loop with the metrics of its request.
--     Timing        the expected end of a transfer; Early, packets that come too fast for it.
--     Arrivals      packets that arrive without loss: Accept, one of them; Loop, all.
--     Unfinished    the loop where the last packet never comes.
--   Download        server and client together. Packets, the packets of an interval, and Intervals, those
--                   of a request, as the client numbers and counts them; Metrics, what it expects;
--                   Complete, a transfer from the first packet to the last; Multiple, a payload whose
--                   last packet is never sent.
--   Tests           runs on concrete inputs, and the theorems at such inputs.
--
-- How state corresponds: each function takes the values that it reads and returns those that it
-- writes. What lies outside the library (connections, buffers, the clock, payloads, hooks, other
-- tasks) is a type `W` of worlds and a record of the calls into it: `Outside` for the hooks and
-- `csp_close`, `Network` and `VmemNet` for the client, `ServerIo`, `SetupIo`, `VmemIo` and
-- `AsyncApi` for the servers, `Stdio` and `Files` for the C library, `Floats` for the floating
-- point expressions of the metrics. Another task's writes to shared state (a stop, a keep-alive
-- message) come in at `others`, once for each round of a loop. Unsigned arithmetic wraps as in C,
-- `size_t` having 64 bits. `none` is undefined behaviour (a null or dangling pointer, an access out
-- of bounds, a division by zero), or a loop that is out of fuel.
--
-- A packet of the server has the bytes that the payload's `read` leaves in it; the client's packets
-- have the length and the first word, as the receiver looks at no more. The memory behind the output
-- of `memory_read` has a size of its own, past which a write is out of bounds.
--
-- Where server and client are composed, the packets sent arrive as `Arrival`s, each with what the
-- receiver's clock reads behind it; `queue` is what still arrives.
--
-- Fuel: `reduce_round` takes the round time, of which each turn of its loop leaves less than
-- before; `os_hal_start_poll_operation` the bytes left, of which each poll sends one at least;
-- `receive_loop` the rounds that the pending packets and the timeout leave, or the packets of the
-- transfer where they all arrive; `memory_read` and `write_test_data` the size, of which each turn of
-- their loops writes a byte at least. Theorems show that this is enough. `dtp_server_run` is given a
-- bound on its rounds, as it runs until its caller ends it.
--
-- Not modelled: the array for the name of the file in `apm_on_start`, which `LongNames` has for the two
-- other hooks; logging, and printing but for that of a session, which change no state; the endless
-- loop that waits for messages of the VMEM server; the FreeRTOS form of the poll operation, whose
-- ticks are another project's.
pub mod Client
pub mod Common
pub mod Download
pub mod FilePayload
pub mod Hooks
pub mod Pool
pub mod Protocol
pub mod Resume
pub mod Segments
pub mod Server
pub mod Session
pub mod SessionMeta
pub mod TestPayload
pub mod Tests
pub mod Vmem
