-- ===== src/Lib.antt =====
-- A verification library for the core of XCOM, a serial-port monitor: the C++ library under
-- xcom_core/, which owns the port, the receive and send paths, the display and the log, and which
-- the user interfaces reach through a C interface.
--
-- The program's parts. A client asks for an open or a close through the C interface, which posts a
-- signal; the Dispatcher thread runs the Active Objects. SerialAo holds the port's state machine and
-- is the only writer of the published state. The read thread delivers bytes to rx_ingress, which
-- copies them into shared blocks and publishes each block to the file lane and the display lane;
-- ReceiveAo formats what the display lane holds. SendAo and AutoSendAo queue write jobs, which the
-- SessionWriter thread writes to the device. A health thread watches the heartbeats of the others.
--
-- Which file models which code:
--   Prelude  shared names; lists and uint32_t words over the native numbers
--   Status   xcom_core/include/xcom/xcom.h (result codes),
--            xcom_core/src/abi/open_failure_status.hpp,
--            xcom_core/src/runtime/tx_submit_status.hpp
--   Port     xcom_core/include/xcom/xcom.h (port states)
--   Format   xcom_core/src/ao/xcom_ao.cpp: format_payload<false> is format_text, and
--            format_payload<true> is format_hex
--   Core     xcom_core/src/runtime/xcom_core.hpp: CoreCtx, Metrics, and the loss ledger
--   Serial   xcom_core/src/ao/xcom_ao.cpp: kSerialEdges, serial_transition, serial_do_open,
--            serial_do_close and serial_do_fault
--   Writer   xcom_core/src/runtime/xcom_core.cpp: class SessionWriter
--   Ring     coact::SpscRing, as the code relies on it
--   Lane     xcom_core/src/foundation/rx_block_lane.hpp: class RxBlockLane; Lane/Deferred:
--            release_deferred_rx of xcom_core/src/runtime/xcom_core.hpp
--   Ingress  xcom_core/src/runtime/xcom_core.cpp: rx_ingress
--   Pool     xcom_core/src/foundation/fixed_pool.hpp: class FixedPool
--   Log      xcom_core/src/io/log_writer.cpp: class LogWriter. Log/Admission: the leases of append;
--            Log/Write: the loops that write; Log/Process: one job; Log/Submit: the calls; Log/Queues:
--            the calls and the thread in turns; Log/Cancel: cancel_pending
--   Display  xcom_core/src/runtime/xcom_core.hpp: class DisplayLane
--   Receive  xcom_core/src/ao/xcom_ao.cpp: rx_format_block and rx_kick_action
--   Transmit xcom_core/src/abi/xcom_abi.cpp: xcom_send and xcom_set_auto_template. Transmit/Actions:
--            the handlers of SendAo and AutoSendAo in xcom_core/src/ao/xcom_ao.cpp, and the sinks of
--            xcom_core/src/runtime/xcom_core.cpp that they call; Transmit/Traffic: the handlers, the
--            clients and the write thread in turns
--   Abi      xcom_core/src/abi/xcom_abi.cpp: queue_open; Abi/Wait: xcom_open and xcom_take_open_result
--   Health   xcom_core/src/runtime/thread_health.hpp, and the observer of
--            xcom_core/src/runtime/xcom_core.cpp
--   Lines    xcom_core/src/runtime/xcom_core.cpp: line_status_ingress
--   Backend  xcom_core/src/io/serial_backend_win.cpp: WinSerialBackend::write; Backend/Reader:
--            read_loop; Backend/Options: validate_serial_options and configure;
--            Backend/Poll: poll_line_status
--   Owner    xcom_core/src/runtime/xcom_core.cpp: sink_owner_write, sink_owner_open and
--            sink_owner_set_lines
--   Timer    xcom_core/src/runtime/periodic_timer.cpp: the loop of PeriodicTimer
-- A function keeps its C++ name. State is passed and returned: CoreCtx is a record of the fields
-- that the modelled code uses, and a call that the source makes through a function pointer of
-- DispatchSink is a function argument. The error ring and the diagnostic sink are the lists of the
-- calls made. A uint32_t is a natural number, and its arithmetic is written with `% 2 ^ 32`.
--
-- Loops. The byte loops recur on their bytes. The drains of SessionWriter and RxBlockLane, and the
-- loop of rx_ingress, take fuel, and `none` means that it ran out (or, in rx_ingress, that an
-- assertion failed). A drain does one round for each waiting job or descriptor and one more; a round
-- of rx_ingress takes a byte or more, or waits once for a block, and WaitPatience bounds the waits in a
-- row that fail. A contended claim of FixedPool has one round for each time that the other threads come
-- between. The write loops of the log writer take fuel for the bytes and for the failed writes that come
-- before the disk recovers or a stop is asked.
-- The drain in close_writer has 257, one more than the ring's 256 jobs.
--
-- Parameters. The coact framework is not part of the repository: its event pool (PoolOps), its
-- rings (RingOps) and its dispatch dispositions are parameters, with what the code relies on in
-- PoolLaws, RingLaws, RingCapacity and RefLaws. So are the Win32 calls of the serial backend (what
-- each attempt to write or read leads to), and those on files (FileOps), with what the log writer relies on
-- in FileLaws and Patience. What the other threads do while the read thread waits for a block is one, too.
--
-- Not modelled: threads as such (each modelled call is one step of its thread), the rest of the
-- Windows serial backend, the calls of the log writer that wait for its thread (open, flush, close,
-- shutdown), the rest of the C interface, the diagnostics, and the user interfaces.
pub mod Prelude
pub mod Status
pub mod Port
pub mod Format
pub mod Core
pub mod Serial
pub mod Writer
pub mod Ring
pub mod Lane
pub mod Ingress
pub mod Pool
pub mod Log
pub mod Display
pub mod Receive
pub mod Transmit
pub mod Abi
pub mod Health
pub mod Lines
pub mod Timer
pub mod Backend
pub mod Owner
