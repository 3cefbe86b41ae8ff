-- ===== src/Log.antt =====
-- The log writer: xcom_core/src/io/log_writer.cpp. Its thread takes jobs from a ring and blocks from
-- the raw ring of the receive lane, and writes them to files. The Win32 calls are a parameter.
pub mod Admission
pub mod Write
pub mod Process
pub mod Submit
pub mod Queues
pub mod Cancel
pub mod Sample
mod Tests
use xcom_lua.Prelude.{ℕ, ◌%◌, Bool, true, false, List, Option, none, some}
use xcom_lua.Prelude.Word.{ℤ, u32_mod}
use xcom_lua.Core.{CoreCtx}
use xcom_lua.Lane.{Lane}
use xcom_lua.Pool.{FixedPool}

-- What the writer calls of Windows and of the clock, on a state `W` of the operating system that the
-- other threads change too. A file is named by its handle, a path by its characters.
pub record FileOps (W : Type 0) : Type 0 where
  -- CreateFileW with CREATE_ALWAYS, or with OPEN_ALWAYS if `keep`.
  pub create : (path : List ℕ) (keep : Bool) → W → Option ℕ × W
  -- swprintf of the temporary name, from a path and a number; it fails if the name is too long.
  pub temporary_name : List ℕ → ℕ → Option (List ℕ)
  -- SetFilePointerEx to FILE_END.
  pub seek_end : ℕ → W → W
  -- WriteFile: how many bytes it wrote, or that it failed.
  pub write : ℕ → List ℕ → W → Option ℕ × W
  pub last_error : W → ℤ
  -- FlushFileBuffers, CloseHandle, MoveFileExW and DeleteFileW.
  pub flush : ℕ → W → Bool × W
  pub close : ℕ → W → W
  pub move : (from to : List ℕ) → W → Bool × W
  pub remove : List ℕ → W → W
  -- sleep_ms(50U), with what the other threads do meanwhile.
  pub sleep : W → W
  -- The flag `stopping`, and monotonic_ms.
  pub stopping : W → Bool
  pub now_ms : W → ℕ

pub data Kind : Type 0 where
  open_log append flush_log close_log atomic_write : Kind
  stream_begin stream_append stream_commit stream_abort : Kind

-- `bytes` is what job_data points to: the job's block, or the caller's memory, which nobody changes
-- while the job is queued. `none` is kInvalidBlockId, and a null completion.
pub record FileJob : Type 0 where
  pub kind : Kind
  pub block_id : Option ℕ
  pub size : ℕ
  pub offset : ℕ
  pub request_id : ℕ
  pub stream_id : ℕ
  pub bytes : List ℕ
  pub append_mode : Bool
  pub completion : Option ℕ
  pub path : List ℕ

pub record AtomicCompletion : Type 0 where
  pub request_id : ℕ
  pub status : ℤ

-- An open stream: its `file` is a handle.
pub record AtomicStream : Type 0 where
  pub id : ℕ
  pub destination : List ℕ
  pub temporary : List ℕ
  pub file : ℕ

-- The shared state of the writer thread and its callers: `jobs` is the ring of FileJob and
-- `completions` that of AtomicCompletion. `done` is the calls of complete_sync on a completion, newest first.
pub record LogWriter (D P R J C W : Type 0) : Type 0 where
  pub core : CoreCtx D
  pub rx : Lane P R
  pub os : W
  pub log_file : Option ℕ
  pub atomic_stream : Option AtomicStream
  pub accepting_log : Bool
  pub data_pool : FixedPool
  pub running : Bool
  pub jobs : J
  pub pending_completions : ℕ
  pub completions : C
  pub done : List (ℕ × ℤ)
  pub log_writer_ms : ℕ

module _ {D P R J C W : Type 0} (ops : FileOps W) where
  abbrev pub beat : LogWriter D P R J C W → LogWriter D P R J C W
  beat s = record s { log_writer_ms = ops.now_ms s.os % u32_mod }

-- The kinds whose end is published to the completion ring.
abbrev pub is_async : Kind → Bool
is_async open_log = false
is_async append = false
is_async flush_log = false
is_async close_log = false
is_async atomic_write = true
is_async stream_begin = true
is_async stream_append = true
is_async stream_commit = true
is_async stream_abort = true

abbrev pub is_append : Kind → Bool
is_append append = true
is_append _ = false
